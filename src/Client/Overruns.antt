-- ===== src/Client/Overruns.antt =====
-- libscale/verbs.c, lines 316 to 338: which completion queues of a process `cq_qp_map` has room for.
use cs252aproject.Base.{
  ℕ, ◌≤◌, ◌<◌, ◌≡◌, ◌≢◌, ◌↔◌, refl, true, false, Bool-cases, inl, inr, arith, ltb, nat_beq,
  nat_beq_iff,
}
use cs252aproject.Common.Messages.{ibv_create_qp_rsp}
use cs252aproject.Client.State.{
  Client, Transport, Reply, failed, got, endless, then_on, settle_reply, fault, overrun, request,
  done_with, stop, low_word, cq_qp_map_len, ◌>>=◌,
}
use cs252aproject.Client.Queue.{
  Cq, ibv_create_qp, next_qp_handle, enter_cq, ask_create, after_create,
}
use cs252aproject.Client.Counting.{after_cqs, next_cq_handle, next_cq_handle_lem, after_cqs_lem}

module _ {S : Type 0} (t : Transport S) (cq : Cq) where
  settled-overrun :
      (handle : ℕ) (reply : Reply) (c : Client S)
      → (then_on (settle_reply reply c).0 (after_create t handle cq) (settle_reply reply c).1).0
        ≢ fault overrun
  unfolding done_with stop
  settled-overrun handle (got (ibv_create_qp_rsp n)) c e = cc e
  settled-overrun handle (got _) c e = cc e
  settled-overrun handle failed c e = cc e
  settled-overrun handle endless c e = cc e

  ask_create-overrun : (handle : ℕ) (c : Client S) → (ask_create t handle cq cq c).0 ≢ fault overrun
  unfolding ask_create request ◌>>=◌
  ask_create-overrun handle c = settled-overrun handle _ _

  create_qp_far :
      (c : Client S) → 1024 ≤ low_word cq.handle → (ibv_create_qp t cq cq c).0 ≡ fault overrun
  unfolding ibv_create_qp next_qp_handle enter_cq stop ◌>>=◌
  create_qp_far c far =
      let out : ltb (low_word cq.handle) cq_qp_map_len ≡ false = ground arith in
      let same : nat_beq cq.handle cq.handle ≡ true = (nat_beq_iff _ _).1 refl in
      simp (same, out) refl

  create_qp_near :
      (c : Client S) → low_word cq.handle < 1024 → (ibv_create_qp t cq cq c).0 ≢ fault overrun
  unfolding ibv_create_qp next_qp_handle enter_cq stop ◌>>=◌
  create_qp_near c near =
      let inside : ltb (low_word cq.handle) cq_qp_map_len ≡ true = ground arith in
      let same : nat_beq cq.handle cq.handle ≡ true = (nat_beq_iff _ _).1 refl in
      simp (same, inside) (ask_create-overrun _ _)

-- The completion queue that a process makes after `n` others
abbrev pub cq_after : {S : Type 0} → ℕ → ℕ → Client S → Cq
cq_after cqe n c = record { handle = next_cq_handle cqe (after_cqs cqe n c); cqe = cqe }

module _ {S : Type 0} (t : Transport S) (cqe : ℕ) (c : Client S) (n m : ℕ) where
  -- In a process that starts with no completion queue and has made `m`, the queue pair on the queue
  -- that was made after `n` others, for an `n` below 65536, is entered out of the bounds of cq_qp_map
  -- exactly when `n` is 1024 or more: the array has room for the first 1024 completion queues.
  pub create_qp-overruns :
      c.process.cq_refcnt ≡ 0
      → n < 0x1_0000
      → ((ibv_create_qp t (cq_after cqe n c) (cq_after cqe n c) (after_cqs cqe m c)).0
          ≡ fault overrun)
        ↔ (1024 ≤ n)
  create_qp-overruns none small =
      let (pid, count) = after_cqs_lem cqe n c (omega arith) in
      let handle = next_cq_handle_lem cqe (after_cqs cqe n c) in
      let low : low_word (next_cq_handle cqe (after_cqs cqe n c)) ≡ n =
        omega (arith, handle, pid, count) in
      let cq : Cq = cq_after cqe n c in
      (
        (λ e. elim (Bool-cases (ltb n 1024)) [
          | inl near ↦
              absurd (create_qp_near t cq (after_cqs cqe m c) (ground (arith, low, near)) e)
          | inr far ↦ ground (arith, far)
        ]),
        (λ far. create_qp_far t cq (after_cqs cqe m c) (omega (arith, low))),
      )
