-- ===== src/Router/Framed/Rules.antt =====
-- Actions that keep what is said of the maps of host keys, of users and of shared memory, whether
-- they return or not.
use cs252aproject.Base.{
  suc, ◌∷◌, true, false, ℕ, ◌≡◌, refl, Bool-cases, inl, inr, Option, none, some, List, nat_eq,
}
use cs252aproject.Base.Int.{ℤ}
use cs252aproject.Base.Map.{find, insert, erase}
use cs252aproject.Common.Keys.{host_key_eq}
use cs252aproject.Common.Messages.{FunctionCall}
use cs252aproject.Router.State.{Router, Call, ConnResources}
use cs252aproject.Router.Exec.{
  Exec, Fault, fail, lift, or_fail, modify, perform, Mutex, is_locked, set_locked, lock, unlock,
  deref, store, free, alloc, non_null, lock_conn, unlock_conn, locked_find,
}
use cs252aproject.Router.Wire.{read_body}
use cs252aproject.Router.Triple.{
  Triple, Keeps, keeps_rules, Keeps-when, Keeps-bind, Keeps-if, Keeps-pure, Keeps-gets,
}

-- A predicate that reads no other part of the router than these three
pub record Framed (P : Router → Type 0) : Type 0 where
  pub move :
      (s t : Router)
      → t.src_qp_map ≡ s.src_qp_map
      → t.host_map ≡ s.host_map
      → t.shm_map ≡ s.shm_map
      → P s
      → P t

abbrev pub Still : (Router → Type 0) → {A : Type 0} → Exec A → Type 0
Still P m = Keeps (λ f. P) P m

module _ {P : Router → Type 0} (fr : Framed P) where
  pub Still-fail : {A : Type 0} (f : Fault) → Still P {A = A} (fail f)
  unfolding fail
  Still-fail f = record { at = λ s k. k }

  pub Still-lift : {A : Type 0} (o : Option A) (f : Fault) → Still P (lift (or_fail o f))
  unfolding lift
  Still-lift none f = record { at = λ s k. k }
  Still-lift (some a) f = record { at = λ s k. k }

  pub Still-non_null : {A : Type 0} (o : Option A) → Still P (non_null o)
  Still-non_null none = Still-fail _
  Still-non_null (some a) = Keeps-pure a

  pub Still-perform : {A : Type 0} (c : Call) (answer : List Call → A) → Still P (perform c answer)
  unfolding perform
  Still-perform c answer = record {
    at = λ s k. fr.move s (record s { calls = c ∷ s.calls }) refl refl refl k;
  }

  pub Still-modify :
      (f : Router → Router)
      → ((s : Router) → (f s).src_qp_map ≡ s.src_qp_map)
      → ((s : Router) → (f s).host_map ≡ s.host_map)
      → ((s : Router) → (f s).shm_map ≡ s.shm_map)
      → Still P (modify f)
  unfolding modify
  Still-modify f users hosts pieces = record {
    at = λ s k. fr.move s (f s) (users s) (hosts s) (pieces s) k;
  }

  pub Still-lock : (m : Mutex) → Still P (lock m)
  unfolding lock
  Still-lock m = record {
    at = λ s k. elim (Bool-cases (is_locked m s.locks)) [
      | inl held ↦ rw (held, lock) k
      | inr free ↦
          rw (free, lock)
            (fr.move s (record s { locks = set_locked m true s.locks }) refl refl refl k)
    ];
  }

  pub Still-unlock : (m : Mutex) → Still P (unlock m)
  unfolding unlock
  Still-unlock m = record {
    at = λ s k. fr.move s (record s { locks = set_locked m false s.locks }) refl refl refl k;
  }

  pub Still-deref : (p : ℕ) → Still P (deref p)
  unfolding deref lift
  Still-deref p = record { at = λ s k. (Still-lift (find s.conns p) _).at s k }

  pub Still-store : (p : ℕ) (c : ConnResources) → Still P (store p c)
  unfolding store
  Still-store p c = record {
    at = λ s k. fr.move s (record s { conns = insert s.conns p c }) refl refl refl k;
  }

  pub Still-free : (p : ℕ) → Still P (free p)
  unfolding free
  Still-free p = record {
    at = λ s k. fr.move s (record s { conns = erase s.conns p }) refl refl refl k;
  }

  pub Still-alloc : (c : ConnResources) → Still P (alloc c)
  unfolding alloc
  Still-alloc c = record {
    at = λ s k.
        fr.move s (record s { conns = insert s.conns s.next_conn c; next_conn = suc s.next_conn })
          refl refl refl k;
  }

  pub Still-option :
      {A B : Type 0} (o : Option B) (m : Exec A) (k : B → Exec A)
      → Still P m
      → ((b : B) → Still P (k b))
      → Still P (elim o [ none ↦ m | some b ↦ k b ])
  Still-option none m k hm hk = hm
  Still-option (some b) m k hm hk = hk b

  pub Still-read_body : (n : ℤ) (f : FunctionCall) → Still P (read_body n f)
  unfolding read_body
  Still-read_body n f = Keeps-when _ _ (Still-fail _)

  pub Still-locked_find :
      {A : Type 0} (m : Mutex) (f : Router → Option A) → Still P (locked_find m f)
  unfolding locked_find
  Still-locked_find m f = search (keeps_rules, Still-lock, Still-unlock, Still-lift)

  pub Still-lock_conn : (p : ℕ) → Still P (lock_conn p)
  unfolding lock_conn
  Still-lock_conn p = search (keeps_rules, Still-deref, Still-fail, Still-store)

  pub Still-unlock_conn : (p : ℕ) → Still P (unlock_conn p)
  unfolding unlock_conn
  Still-unlock_conn p = search (keeps_rules, Still-deref, Still-store)

pub ruleset still_rules = (
  keeps_rules, Still-fail, Still-lift, Still-non_null, Still-perform, Still-modify, Still-lock,
  Still-unlock, Still-deref, Still-store, Still-free, Still-alloc, Still-option, Still-read_body,
  Still-locked_find, Still-lock_conn, Still-unlock_conn,
)
