-- ===== src/Router/Accepting.antt =====
-- Which connections the listeners start threads for, read off the calls that they make.
pub mod Outcome
use mathlib.Core.Path.{subst}
use cs252aproject.Base.{
  ℕ, zero, suc, ◌+◌, ◌≡◌, refl, ap, sym, ◌∙◌, Bool, true, Option, none, some, List, [], ◌∷◌,
  if◌then◌else◌, Bool-cases, inl, inr, arith, ◌⊎◌,
}
use cs252aproject.Base.Int.{ℤ, is_zero, is_neg, is_minus_one}
use cs252aproject.Router.Listeners.{
  unix, inet, NetCall, getaddrinfo, freeaddrinfo, unlink, socket, setsockopt, close, accept, bind,
  listen, pthread_create, Os, Listener, idle, Net, done, ◌>>=◌, ask, start_handler, accepted_remote,
  accepted_local, accept_loop, bind_first, listen_on, listen_remote_router, give_up,
  listen_local_process,
}

module _ (os : Os) where
  -- The connections that `accept` has given
  unfoldable pub accepted_of : (ℤ → Bool) → List NetCall → List ℤ
  accepted_of good [] = []
  accepted_of good (accept fd ∷ h) =
      let rest = accepted_of good h in
      if good (os.rc (accept fd ∷ h)) then os.rc (accept fd ∷ h) ∷ rest else rest
  accepted_of good (_ ∷ h) = accepted_of good h

  -- The connections whose threads could be started
  unfoldable pub started_of : List NetCall → List ℤ
  started_of [] = []
  started_of (pthread_create fd ∷ h) =
      let rest = started_of h in if is_zero (os.rc (pthread_create fd ∷ h)) then fd ∷ rest else rest
  started_of (_ ∷ h) = started_of h

  -- The sockets that have been opened
  unfoldable pub opened_of : List NetCall → List ℤ
  opened_of [] = []
  opened_of (socket a ∷ h) =
      let rest = opened_of h in
      if is_neg (os.rc (socket a ∷ h)) then rest else os.rc (socket a ∷ h) ∷ rest
  opened_of (_ ∷ h) = opened_of h

-- The connections that a thread was asked for
unfoldable pub created_of : List NetCall → List ℤ
created_of [] = []
created_of (pthread_create fd ∷ h) = fd ∷ created_of h
created_of (_ ∷ h) = created_of h

unfoldable pub closed_of : List NetCall → List ℤ
closed_of [] = []
closed_of (close fd ∷ h) = fd ∷ closed_of h
closed_of (_ ∷ h) = closed_of h

unfoldable pub accepts : List NetCall → ℕ
accepts [] = 0
accepts (accept fd ∷ h) = suc (accepts h)
accepts (_ ∷ h) = accepts h

-- After `n` rounds every connection that was accepted has been passed to one thread, in the order in
-- which they came, and those threads run that could be started.
pub record HasServed (os : Os) (good : ℤ → Bool) (n : ℕ) (l : Listener) : Type 0 where
  pub passed : created_of l.calls ≡ accepted_of os good l.calls
  pub running : l.handlers ≡ started_of os l.calls
  pub rounds : accepts l.calls ≡ n

module _ (os : Os) (good : ℤ → Bool) (n : ℕ) where
  Still : {A : Type 0} → Net A → Type 0
  Still m = (l : Listener) → HasServed os good n l → HasServed os good n (m l).1

  pub Still-ask :
      (c : NetCall) (l : Listener)
      → (created_of (c ∷ l.calls) ≡ created_of l.calls)
      → (accepted_of os good (c ∷ l.calls) ≡ accepted_of os good l.calls)
      → (started_of os (c ∷ l.calls) ≡ started_of os l.calls)
      → (accepts (c ∷ l.calls) ≡ accepts l.calls)
      → HasServed os good n l
      → HasServed os good n (ask os c l).1
  unfolding ask
  Still-ask c l a b d e h = record {
    passed = cc (a, b, h.passed);
    running = cc (d, h.running);
    rounds = cc (e, h.rounds);
  }

module _ (os : Os) (good : ℤ → Bool) where
  -- A connection that has just been accepted is passed to a thread.
  start_handler-HasServed :
      (n : ℕ) (conn : ℤ) (l : Listener)
      → conn ∷ created_of l.calls ≡ accepted_of os good l.calls
      → l.handlers ≡ started_of os l.calls
      → accepts l.calls ≡ n
      → HasServed os good n (start_handler os conn l).1
  unfolding start_handler created_of accepted_of started_of accepts
  start_handler-HasServed n conn l a b e =
      elim (Bool-cases (is_zero (os.rc (pthread_create conn ∷ l.calls)))) [
        | inl started ↦
            rw started
              (record { passed = a; running = rw started (ap (λ x. conn ∷ x) b); rounds = e })
        | inr failed ↦ rw failed (record { passed = a; running = rw failed b; rounds = e })
      ]

  -- One round of the loop
  round-HasServed :
      (n : ℕ) (fd : ℤ) (l : Listener)
      → HasServed os good n l
      → HasServed os good
          (suc n)
          ((ask os (accept fd) >>= λ conn. if good conn then start_handler os conn else done tt)
            l).1
  unfolding ask done ◌>>=◌ created_of accepted_of started_of accepts
  round-HasServed n fd l h =
      let conn = os.rc (accept fd ∷ l.calls) in
      elim (Bool-cases (good conn)) [
        | inl taken ↦ rw taken (
            start_handler-HasServed (suc n) conn (record l { calls = accept fd ∷ l.calls })
              (rw taken (ap (λ x. conn ∷ x) h.passed)) h.running (ap suc h.rounds))
        | inr refused ↦
            rw refused (record {
              passed = rw refused h.passed;
              running = h.running;
              rounds = ap suc h.rounds;
            })
      ]

  pub recounted : (n m : ℕ) (l : Listener) → n ≡ m → HasServed os good n l → HasServed os good m l
  recounted n m l e h = subst (λ k. HasServed os good k l) e h

  pub accept_loop-HasServed :
      (rounds n : ℕ) (fd : ℤ) (l : Listener)
      → HasServed os good n l
      → HasServed os good (rounds + n) (accept_loop os good rounds fd l).1
  unfolding accept_loop done ◌>>=◌
  accept_loop-HasServed zero n fd l h = recounted n (0 + n) l (omega arith) h
  accept_loop-HasServed (suc rounds) n fd l h =
      recounted (rounds + suc n) (suc rounds + n) _ (omega arith)
        (accept_loop-HasServed rounds (suc n) fd _ (round-HasServed n fd l h))

  -- The search for an address accepts nothing.
  pub bind_first-HasServed :
      (list : List ℕ) (l : Listener)
      → HasServed os good 0 l
      → HasServed os good 0 (bind_first os list l).1
  unfolding bind_first ask done ◌>>=◌ created_of accepted_of started_of accepts
  bind_first-HasServed [] l h = h
  bind_first-HasServed (a ∷ list) l h =
      let h1 = Still-ask os good 0 (socket (inet a)) l refl refl refl refl h in
      let (fd, l1) = ask os (socket (inet a)) l in
      let h2 = Still-ask os good 0 (setsockopt fd) l1 refl refl refl refl h1 in
      let (reuse, l2) = ask os (setsockopt fd) l1 in
      let h3 = Still-ask os good 0 (bind fd (inet a)) l2 refl refl refl refl h2 in
      let (rc, l3) = ask os (bind fd (inet a)) l2 in
      elim (Bool-cases (is_minus_one fd)) [
        | inl none_open ↦ rw none_open (bind_first-HasServed list l1 h1)
        | inr opened ↦ elim (Bool-cases (is_minus_one reuse)) [
          | inl refused ↦ rw (opened, refused) (bind_first-HasServed list l2 h2)
          | inr reused ↦ elim (Bool-cases (is_minus_one rc)) [
            | inl taken ↦ rw (opened, reused, taken) (bind_first-HasServed list l3 h3)
            | inr bound ↦ rw (opened, reused, bound) h3
          ]
        ]
      ]
