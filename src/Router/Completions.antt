-- ===== src/Router/Completions.antt =====
-- IBV_CREATE_QP, IBV_DESTROY_CQ and IBV_POLL_CQ on a completion queue.
use mathlib.Core.Path.{subst}
use Prim.Native.Nat.{zero, suc}
use cs252aproject.Base.{
  nat_eq, ℕ, ◌<◌, ◌≡◌, refl, Bool, true, false, not, none, some, List, [], ◌∷◌, nat_beq, get_elem?,
  get_or, if◌then◌else◌, ◌⊎◌, inl, inr, Bool-cases, arith, ltb,
}
use cs252aproject.Base.Int.{ℤ, pos, negsuc}
use cs252aproject.Base.Map.{find, find-insert_self, find-erase_self}
use cs252aproject.Common.Messages.{IbvPollCqReq, Response, ibv_poll_cq, ibv_poll_cq_rsp}
use cs252aproject.Common.Layout.{req_size}
use cs252aproject.Router.State
use cs252aproject.Router.State.{Env, Router, Wc, unlocked}
use cs252aproject.Router.Exec.{Result, ok, err, killed, locked_find, ◌>>=◌}
use cs252aproject.Router.Wire.{read_short, read_body}
use cs252aproject.Router.Handlers.QueuePair.{claim_cq, drop_cq}
use cs252aproject.Router.Handlers.Transfer.{
  all_good, count_of, zero_wc, find_conn, handle_ibv_poll_cq,
}
use cs252aproject.Router.Invariant.Frame.{settled, settled_eq}
use cs252aproject.Router.Invariant.Objects.{LiveObject, poll_on_lem}

passes :
    (process_id : ℕ) (x : Wc) (rest : Bool)
    → (if not (nat_beq x.status 0)
        then false
        else if not (nat_beq x.wr_id process_id)
        then false
        else rest)
      ≡ true
    → (x.status ≡ 0) × (x.wr_id ≡ process_id) × (rest ≡ true)
passes process_id x rest good = ground arith

-- Every completion that passes the loop of IBV_POLL_CQ is a success of the polling process.
pub all_good_lem :
    (process_id n : ℕ) (wc : List Wc) (i : ℕ) (w : Wc)
    → all_good process_id n wc ≡ true
    → i < n
    → get_elem? wc i ≡ some w
    → (w.status ≡ 0) × (w.wr_id ≡ process_id)
unfolding all_good
all_good_lem process_id zero wc i w good below at = absurd (omega arith)
all_good_lem process_id (suc n) [] zero w good below at = absurd (cc at)
all_good_lem process_id (suc n) [] (suc i) w good below at = absurd (cc at)
all_good_lem process_id (suc n) (x ∷ wc) zero w good below at =
    let (a, b, c) = passes process_id x _ good in
    let same : x ≡ w = cc at in
    subst (λ (y : Wc). (y.status ≡ 0) × (y.wr_id ≡ process_id)) same (a, b)
all_good_lem process_id (suc n) (x ∷ wc) (suc i) w good below at =
    all_good_lem process_id n wc i w (passes process_id x _ good).2 (omega arith) at

-- Place `i` is one of the completions that the result of ibv_poll_cq counts.
abbrev pub Counted : ℤ → ℕ → Type 0
Counted rc i = (k : ℕ) × (rc ≡ pos k) × (i < k)

-- The completion at place `i` is a success of the process; what the device has not written is 0.
abbrev pub IsSuccess : ℕ → List Wc → ℕ → Type 0
IsSuccess process_id wc i = let w = get_or wc i zero_wc in (w.status ≡ 0) × (w.wr_id ≡ process_id)

good_successes :
    (process_id n : ℕ) (wc : List Wc) (i : ℕ)
    → all_good process_id n wc ≡ true
    → i < n
    → IsSuccess process_id wc i
unfolding all_good
good_successes process_id zero wc i good below = absurd (omega arith)
good_successes process_id (suc n) [] i good below = (refl, ground arith)
good_successes process_id (suc n) (x ∷ wc) zero good below =
    let (a, b, c) = passes process_id x _ good in (a, b)
good_successes process_id (suc n) (x ∷ wc) (suc i) good below =
    good_successes process_id n wc i (passes process_id x _ good).2 (omega arith)

bad_failure :
    (process_id n : ℕ) (wc : List Wc)
    → all_good process_id n wc ≡ false
    → (i : ℕ) × (i < n) × ¬ IsSuccess process_id wc i
unfolding all_good
bad_failure process_id zero wc bad = absurd (cc bad)
bad_failure process_id (suc n) [] bad = elim (Bool-cases (nat_beq zero_wc.wr_id process_id)) [
  | inl same ↦
      let (i, below, fails) = bad_failure process_id n [] (ground (arith, same, bad)) in
      (suc i, omega arith, fails)
  | inr other ↦ (0, omega arith, λ s. ground (arith, other, s.1))
]
bad_failure process_id (suc n) (x ∷ wc) bad = elim (Bool-cases (nat_beq x.status 0)) [
  | inr error ↦ (0, omega arith, λ s. ground (arith, error, s.0))
  | inl fine ↦ elim (Bool-cases (nat_beq x.wr_id process_id)) [
    | inr other ↦ (0, omega arith, λ s. ground (arith, other, s.1))
    | inl same ↦
        let (i, below, fails) = bad_failure process_id n wc (ground (arith, fine, same, bad)) in
        (suc i, omega arith, fails)
  ]
]

-- The loop of IBV_POLL_CQ passes exactly the completions that are all successes.
judged :
    (process_id : ℕ) (rc : ℤ) (wc : List Wc)
    → ((all_good process_id (count_of rc) wc ≡ true)
        × ((i : ℕ) → Counted rc i → IsSuccess process_id wc i))
      ⊎ ((all_good process_id (count_of rc) wc ≡ false)
          × ((i : ℕ) × Counted rc i × ¬ IsSuccess process_id wc i))
unfolding all_good
judged process_id (pos n) wc = elim (Bool-cases (all_good process_id n wc)) [
  | inl good ↦ inl (
    good,
    λ i (k, e, below).
        let same : n ≡ k = cc e in
        good_successes process_id n wc i good (omega (arith, same, below)),
  )
  | inr bad ↦
      let (i, below, fails) = bad_failure process_id n wc bad in
      inr (bad, (i, (n, refl, below), fails))
]
judged process_id (negsuc n) wc = inl (refl, λ i (k, e, below). absurd (cc e))

module _ (cq first second : ℕ) where
  claims_settled :
      (s : Router)
      → find s.cq_qp_map cq ≡ none
      → ((claim_cq cq first (settled s)).0 ≡ ok tt)
        × ((claim_cq cq second (claim_cq cq first (settled s)).1).0 ≡ err killed)
        × ((claim_cq cq second (drop_cq cq (claim_cq cq first (settled s)).1).1).0 ≡ ok tt)
  unfolding claim_cq drop_cq
  claims_settled s free = simp (free, find-insert_self, find-erase_self) (refl, refl, refl)

  -- A completion queue that no queue pair has claimed can be claimed once: a second IBV_CREATE_QP
  -- on it is refused, until IBV_DESTROY_CQ gives it back.
  pub claim_cq-once :
      (s : Router)
      → s.locks ≡ unlocked
      → find s.cq_qp_map cq ≡ none
      → ((claim_cq cq first s).0 ≡ ok tt)
        × ((claim_cq cq second (claim_cq cq first s).1).0 ≡ err killed)
        × ((claim_cq cq second (drop_cq cq (claim_cq cq first s).1).1).0 ≡ ok tt)
  claim_cq-once s unheld free =
      subst
        (λ t.
          ((claim_cq cq first t).0 ≡ ok tt)
          × ((claim_cq cq second (claim_cq cq first t).1).0 ≡ err killed)
          × ((claim_cq cq second (drop_cq cq (claim_cq cq first t).1).1).0 ≡ ok tt))
        (settled_eq s unheld) (claims_settled s free)

module _ (env : Env) (process_id : ℕ) (n : ℤ) (p : ℕ) (req : IbvPollCqReq)
    (whole : read_short n (req_size ibv_poll_cq) ≡ false)
    (room : ltb 0 (count_of req.num_entries) ≡ true) where
  -- The response to the result and the completions of ibv_poll_cq
  abbrev pub poll_response : ℤ → List Wc → Response
  poll_response rc wc =
      let first = get_or wc 0 zero_wc in
      ibv_poll_cq_rsp (record {
        count = rc;
        wr_id = first.wr_id;
        opcode = first.opcode;
        status = first.status;
        vendor_err = first.vendor_err;
      })

  abbrev pub Answers : ℤ → List Wc → Result Response → Type 0
  Answers rc wc result =
      (((i : ℕ) → Counted rc i → IsSuccess process_id wc i) × (result ≡ ok (poll_response rc wc)))
      ⊎ (((i : ℕ) × Counted rc i × ¬ IsSuccess process_id wc i) × (result ≡ err killed))

  abbrev pub Polls : Router → Result Response × Router → ℕ → Type 0
  Polls s result cq =
      let h = State.ibv_poll_cq cq req.num_entries ∷ s.calls in
      Answers (env.rc h) (env.completions h) result.0 × (result.1.calls ≡ h)

  Polls-settled :
      (s : Router) (l : LiveObject (settled s) p)
      → find s.src_qp_map req.qp_handle ≡ some l.key
      → Polls s (handle_ibv_poll_cq env process_id n req (settled s)) l.serving.cq
  unfolding handle_ibv_poll_cq read_body locked_find find_conn ◌>>=◌
  Polls-settled s l user =
      let h = State.ibv_poll_cq l.serving.cq req.num_entries ∷ s.calls in
      elim (judged process_id (env.rc h) (env.completions h)) [
        | inl (good, all) ↦
            simp
              (whole, room, user, l.serves.0, poll_on_lem env p req.num_entries (settled s) l, good)
              (inl (all, refl), refl)
        | inr (bad, one) ↦
            simp
              (whole, room, user, l.serves.0, poll_on_lem env p req.num_entries (settled s) l, bad)
              (inr (one, refl), refl)
      ]

  -- IBV_POLL_CQ, read whole and with room for a completion, for a virtual queue pair whose host key
  -- has a serving object polls the completion
  -- queue of that object once. If every completion that the result counts has status 0 and the polling
  -- process as its wr_id, the response has their number and the first of them; and else the
  -- connection is closed.
  pub poll_cq-Polls :
      (s : Router) (l : LiveObject s p)
      → find s.src_qp_map req.qp_handle ≡ some l.key
      → Polls s (handle_ibv_poll_cq env process_id n req s) l.serving.cq
  poll_cq-Polls s l =
      subst
        (λ t.
          (l : LiveObject t p)
          → find s.src_qp_map req.qp_handle ≡ some l.key
          → Polls s (handle_ibv_poll_cq env process_id n req t) l.serving.cq)
        (settled_eq s l.sound.free_locks) (Polls-settled s) l
