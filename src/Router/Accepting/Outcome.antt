-- ===== src/Router/Accepting/Outcome.antt =====
-- How `listen_remote_router` and `listen_local_process` end, or come to their loops.
use mathlib.Core.Path.{subst}
use Prim.Native.Nat.{zero, suc}
use cs252aproject.Base.{
  ℕ, ◌+◌, ◌≡◌, refl, ap, sym, ◌∙◌, Bool, true, false, Option, none, some, [], ◌∷◌, if◌then◌else◌,
  Bool-cases, inl, inr, arith, ◌⊎◌,
}
use cs252aproject.Base.Int.{ℤ, pos, negsuc, is_neg, is_minus_one}
use cs252aproject.Router.Listeners.{
  unix, getaddrinfo, freeaddrinfo, unlink, socket, close, bind, listen, Os, Listener, idle, done,
  ◌>>=◌, ask, accepted_remote, accepted_local, accept_loop, bind_first, listen_on,
  listen_remote_router, give_up, listen_local_process,
}
use cs252aproject.Router.Accepting.{
  accepted_of, started_of, opened_of, created_of, closed_of, accepts, HasServed, Still-ask,
  accept_loop-HasServed, bind_first-HasServed, recounted,
}

-- The results of `accept` that are connections of other routers: all but -1
abbrev pub from_router : ℤ → Bool
from_router (pos n) = true
from_router (negsuc zero) = false
from_router (negsuc (suc n)) = true

-- The results of `accept` that are connections of the host's processes, the descriptor 0 excepted
abbrev pub from_process : ℤ → Bool
from_process (pos zero) = false
from_process (pos (suc n)) = true
from_process (negsuc n) = false

accepted_remote_lem : (fd : ℤ) → accepted_remote fd ≡ from_router fd
accepted_remote_lem (pos n) = refl
accepted_remote_lem (negsuc zero) = refl
accepted_remote_lem (negsuc (suc n)) = refl

accepted_local_lem : (fd : ℤ) → accepted_local fd ≡ from_process fd
accepted_local_lem (pos zero) = refl
accepted_local_lem (pos (suc n)) = refl
accepted_local_lem (negsuc n) = refl

-- A listener that comes to its loop has served `rounds` rounds of it, and one that does not has
-- accepted nothing.
abbrev pub Serves : Os → (ℤ → Bool) → ℕ → Bool × Listener → Type 0
Serves os good rounds x = HasServed os good (if x.0 then rounds else 0) x.1

module _ (os : Os) (rounds : ℕ) where
  idle-HasServed : (good : ℤ → Bool) → HasServed os good 0 idle
  unfolding created_of accepted_of started_of accepts
  idle-HasServed good = record { passed = refl; running = refl; rounds = refl }

  loop-HasServed :
      (good : ℤ → Bool) (fd : ℤ) (l : Listener)
      → HasServed os good 0 l
      → HasServed os good rounds (accept_loop os good rounds fd l).1
  loop-HasServed good fd l h =
      recounted os good (rounds + 0) rounds _ (omega arith)
        (accept_loop-HasServed os good rounds 0 fd l h)

  listen_on-Serves :
      (fd : Option ℤ) (l : Listener)
      → HasServed os accepted_remote 0 l
      → Serves os accepted_remote rounds (listen_on os rounds fd l)
  unfolding listen_on ask done ◌>>=◌ created_of accepted_of started_of accepts
  listen_on-Serves none l h = h
  listen_on-Serves (some fd) l h =
      let h1 = Still-ask os accepted_remote 0 freeaddrinfo l refl refl refl refl h in
      let l1 = (ask os freeaddrinfo l).1 in
      let h2 = Still-ask os accepted_remote 0 (listen fd 10) l1 refl refl refl refl h1 in
      let (rc, l2) = ask os (listen fd 10) l1 in
      elim (Bool-cases (is_minus_one rc)) [
        | inl failed ↦ rw failed h2
        | inr fine ↦ rw fine (loop-HasServed accepted_remote fd l2 h2)
      ]

  remote-Serves : Serves os accepted_remote rounds (listen_remote_router os rounds idle)
  unfolding listen_remote_router ask done ◌>>=◌ created_of accepted_of started_of accepts
  remote-Serves =
      let h =
        Still-ask os accepted_remote 0 getaddrinfo idle refl refl refl refl
          (idle-HasServed accepted_remote) in
      let (status, l) = ask os getaddrinfo idle in
      elim (Bool-cases (is_minus_one status)) [
        | inl failed ↦ rw failed h
        | inr fine ↦ rw fine (
            listen_on-Serves (bind_first os (os.addresses l.calls) l).0 _
              (bind_first-HasServed os accepted_remote (os.addresses l.calls) l h))
      ]

  -- The listener of the host's processes serves, or has closed each socket that it opened.
  abbrev pub IsTidy : (ℤ → Bool) → Bool × Listener → Type 0
  IsTidy good x =
      Serves os good rounds x × ((x.0 ≡ true) ⊎ (opened_of os x.1.calls ≡ closed_of x.1.calls))

  -- A socket that was opened and cannot be used is closed again.
  give_up-IsTidy :
      (fd : ℤ) (l : Listener)
      → HasServed os accepted_local 0 l
      → opened_of os l.calls ≡ fd ∷ []
      → closed_of l.calls ≡ []
      → IsTidy accepted_local (give_up os fd l)
  unfolding give_up ask done ◌>>=◌ created_of accepted_of started_of accepts opened_of closed_of
  give_up-IsTidy fd l h opened closed =
      let h1 = Still-ask os accepted_local 0 (close fd) l refl refl refl refl h in
      let l1 = (ask os (close fd) l).1 in
      (
        Still-ask os accepted_local 0 unlink l1 refl refl refl refl h1,
        inr (opened ∙ ap (λ x. fd ∷ x) (sym closed)),
      )

  local-IsTidy : IsTidy accepted_local (listen_local_process os rounds idle)
  unfolding listen_local_process ask done ◌>>=◌ created_of accepted_of started_of accepts opened_of
      closed_of
  local-IsTidy =
      let h1 =
        Still-ask os accepted_local 0 (socket unix) idle refl refl refl refl
          (idle-HasServed accepted_local) in
      let (fd, l1) = ask os (socket unix) idle in
      let h2 = Still-ask os accepted_local 0 unlink l1 refl refl refl refl h1 in
      let l2 = (ask os unlink l1).1 in
      let h3 = Still-ask os accepted_local 0 (bind fd unix) l2 refl refl refl refl h2 in
      let (bound, l3) = ask os (bind fd unix) l2 in
      let h4 = Still-ask os accepted_local 0 (listen fd 10) l3 refl refl refl refl h3 in
      let (rc, l4) = ask os (listen fd 10) l3 in
      elim (Bool-cases (is_neg fd)) [
        | inl none_open ↦ rw none_open (h1, inr (rw none_open refl))
        | inr opened ↦ elim (Bool-cases (is_minus_one bound)) [
          | inl taken ↦ rw (opened, taken) (give_up-IsTidy fd l3 h3 (rw opened refl) refl)
          | inr free ↦ elim (Bool-cases (is_minus_one rc)) [
            | inl failed ↦ rw (opened, free, failed) (give_up-IsTidy fd l4 h4 (rw opened refl) refl)
            | inr fine ↦ rw (opened, free, fine) (loop-HasServed accepted_local fd l4 h4, inl refl)
          ]
        ]
      ]

-- Whatever the system answers, and after any number of rounds of its loop, the listener of other
-- routers has passed every result of `accept` but -1 to one thread, and the listener of the host's
-- processes every positive one, in the order in which they came; those threads run that could be
-- started, and a round whose `accept` fails does not end the loop. A listener that cannot be set up
-- accepts nothing, and the one of the host's processes has then closed the sockets that it opened.
pub listeners-Serves :
    (os : Os) (rounds : ℕ)
    → Serves os from_router rounds (listen_remote_router os rounds idle)
      × IsTidy os rounds from_process (listen_local_process os rounds idle)
listeners-Serves os rounds =
    let remote : accepted_remote ≡ from_router = λ i fd. accepted_remote_lem fd i in
    let local : accepted_local ≡ from_process = λ i fd. accepted_local_lem fd i in
    (
      subst (λ good. Serves os good rounds (listen_remote_router os rounds idle)) remote
          (remote-Serves os rounds),
      subst (λ good. IsTidy os rounds good (listen_local_process os rounds idle)) local
          (local-IsTidy os rounds),
    )
