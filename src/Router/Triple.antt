-- ===== src/Router/Triple.antt =====
-- What an action does from the states of a precondition, with a rule for each way to build one.
use cs252aproject.Base.{Bool, true, false, if◌then◌else◌}
use cs252aproject.Router.State.{Router}
use cs252aproject.Router.Exec.{Exec, Fault, Result, ok, err, pure, lift, gets, when, ◌>>=◌}

-- A result and its state satisfy `Q`, a fault and its state satisfy `E`.
abbrev pub Post :
    {A : Type 0} → (A → Router → Type 0) → (Fault → Router → Type 0) → Result A × Router → Type 0
Post Q E (ok a, s) = Q a s
Post Q E (err f, s) = E f s

-- From every state of `P` the action ends in `Q`, or in a fault that `E` allows.
pub record Triple {A : Type 0} (E : Fault → Router → Type 0) (P : Router → Type 0) (m : Exec A)
    (Q : A → Router → Type 0) : Type 0 where
  pub at : (s : Router) → P s → Post Q E (m s)

module _ {E : Fault → Router → Type 0} {A B : Type 0} {R : B → Router → Type 0} where
  continue_rule :
      (Q : A → Router → Type 0) (r : Result A × Router) (f : A → Exec B)
      → Post Q E r
      → ((a : A) → Triple E (Q a) (f a) R)
      → Post R E ((lift r.0 >>= f) r.1)
  unfolding ◌>>=◌
  continue_rule Q (ok a, s) f h k = (k a).at s h
  continue_rule Q (err c, s) f h k = h

  pub bind_rule :
      (P : Router → Type 0) (m : Exec A) (f : A → Exec B) (Q : A → Router → Type 0)
      → Triple E P m Q
      → ((a : A) → Triple E (Q a) (f a) R)
      → Triple E P (m >>= f) R
  unfolding ◌>>=◌
  bind_rule P m f Q hm hf = record { at = λ s h. continue_rule Q (m s) f (hm.at s h) hf }

module _ {A : Type 0} (E E' : Fault → Router → Type 0) (Q Q' : A → Router → Type 0) where
  both-Post :
      (x : Result A × Router)
      → Post Q E x
      → Post Q' E' x
      → Post (λ a s. Q a s × Q' a s) (λ f s. E f s × E' f s) x
  both-Post (ok a, s) h k = (h, k)
  both-Post (err f, s) h k = (h, k)

  weaken-Post :
      (x : Result A × Router)
      → ((f : Fault) (s : Router) → E f s → E' f s)
      → ((a : A) (s : Router) → Q a s → Q' a s)
      → Post Q E x
      → Post Q' E' x
  weaken-Post (ok a, s) e q h = q a s h
  weaken-Post (err f, s) e q h = e f s h

  module _ (P P' : Router → Type 0) (m : Exec A) where
    -- What two triples say of one action
    pub both_rule :
        Triple E P m Q
        → Triple E' P' m Q'
        → Triple (λ f s. E f s × E' f s) (λ s. P s × P' s) m (λ a s. Q a s × Q' a s)
    both_rule h k = record { at = λ s (p, p'). both-Post (m s) (h.at s p) (k.at s p') }

    pub weaken_rule :
        ((s : Router) → P' s → P s)
        → ((f : Fault) (s : Router) → E f s → E' f s)
        → ((a : A) (s : Router) → Q a s → Q' a s)
        → Triple E P m Q
        → Triple E' P' m Q'
    weaken_rule p e q h = record { at = λ s k. weaken-Post (m s) e q (h.at s (p s k)) }

-- An action keeps `P`, whether it returns or meets a fault that `E` allows.
abbrev pub Keeps : {A : Type 0} → (Fault → Router → Type 0) → (Router → Type 0) → Exec A → Type 0
Keeps E P m = Triple E P m (λ _. P)

module _ {E : Fault → Router → Type 0} {P : Router → Type 0} where
  pub Keeps-bind :
      {A B : Type 0} (m : Exec A) (f : A → Exec B)
      → Keeps E P m
      → ((a : A) → Keeps E P (f a))
      → Keeps E P (m >>= f)
  Keeps-bind m f hm hf = bind_rule P m f (λ _. P) hm hf

  pub Keeps-pure : {A : Type 0} (a : A) → Keeps E P (pure a)
  unfolding pure
  Keeps-pure a = record { at = λ s h. h }

  pub Keeps-gets : {A : Type 0} (f : Router → A) → Keeps E P (gets f)
  unfolding gets
  Keeps-gets f = record { at = λ s h. h }

  pub Keeps-if :
      {A : Type 0} (b : Bool) (m n : Exec A)
      → Keeps E P m
      → Keeps E P n
      → Keeps E P (if b then m else n)
  Keeps-if true m n km kn = km
  Keeps-if false m n km kn = kn

  pub Keeps-when : (b : Bool) (m : Exec (Unit {0})) → Keeps E P m → Keeps E P (when b m)
  Keeps-when true m km = km
  Keeps-when false m km = Keeps-pure tt

pub ruleset keeps_rules = (Keeps-bind, Keeps-pure, Keeps-gets, Keeps-if, Keeps-when)
