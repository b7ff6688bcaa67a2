-- ===== src/Client/Creation.antt =====
-- ibv_create_cq and ibv_create_qp behave: they count, and enter `cq_qp_map`.
use cs252aproject.Base.{
  ℕ, ◌≡◌, refl, ap, ◌∙◌, nat_beq, none, List, [], ◌∷◌, arith, length, set, ltb, inl, inr,
  Bool-cases,
}
use Prim.Native.Nat.{zero, suc}
use cs252aproject.Client.State.{
  Process, Client, Transport, overrun, low_word, count_on, cq_qp_map_len, ◌>>=◌,
}
use cs252aproject.Client.Queue.{Cq, ibv_create_cq, ibv_create_qp, next_qp_handle, enter_cq}
use cs252aproject.Client.Handles.{IsProcess}
use cs252aproject.Client.Agreement.{IsHonest}
use cs252aproject.Client.Behaviour.{Behaves, Well-done, Well-fault}
use cs252aproject.Client.Verbs.{Well-ask}

length-set : (l : List ℕ) (i v : ℕ) → length (set l i v) ≡ length l
length-set [] i v = refl
length-set (x ∷ l) zero v = refl
length-set (x ∷ l) (suc i) v = ap suc (length-set l i v)

module _ {S : Type 0} (t : Transport S) (honest : IsHonest t) (c : Client S)
    (h : IsProcess c.process) where
  pub create_cq-Behaves : (cqe : ℕ) → Behaves c.process.pid (ibv_create_cq cqe c)
  unfolding ibv_create_cq ◌>>=◌
  create_cq-Behaves cqe = record {
    process = record { cq_small = omega arith; qp_small = h.qp_small; map_length = h.map_length };
    same_pid = refl;
    understood = refl;
  }

  abbrev counted : Process
  counted = record c.process { qp_refcnt = count_on c.process.qp_refcnt }

  counted-IsProcess : IsProcess counted
  counted-IsProcess = record {
    cq_small = h.cq_small;
    qp_small = omega arith;
    map_length = h.map_length;
  }

  set-IsProcess : (i v : ℕ) → IsProcess (record counted { cq_qp_map = set c.process.cq_qp_map i v })
  set-IsProcess i v = record {
    cq_small = h.cq_small;
    qp_small = omega arith;
    map_length = length-set c.process.cq_qp_map i v ∙ h.map_length;
  }

  pub create_qp-Behaves :
      (send_cq recv_cq : Cq) → Behaves c.process.pid (ibv_create_qp t send_cq recv_cq c)
  unfolding ibv_create_qp next_qp_handle enter_cq ◌>>=◌
  create_qp-Behaves send_cq recv_cq = elim (Bool-cases (nat_beq recv_cq.handle send_cq.handle)) [
    | inr other ↦ simp other (Well-done t honest c.process h none c refl)
    | inl same ↦ elim (Bool-cases (ltb (low_word send_cq.handle) cq_qp_map_len)) [
      | inr out ↦
          simp (same, out)
            (Well-fault t honest counted counted-IsProcess overrun refl
              (record c { process = counted }) refl)
      | inl inside ↦
          simp (same, inside) (Well-ask t honest _ (set-IsProcess _ _) _ send_cq recv_cq _ refl)
    ]
  ]
