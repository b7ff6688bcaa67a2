-- ===== src/Router/Registration.antt =====
-- IBV_REG_MR records the offset that IBV_POST_SEND and IBV_POST_RECV add.
use mathlib.Core.Path.{subst}
use cs252aproject.Base.{
  ℕ, ◌≡◌, refl, Option, none, some, nat_eq, List, inl, inr, Bool-cases, Option-cases,
}
use cs252aproject.Base.Int.{ℤ}
use cs252aproject.Base.Map.{Map, find, find-insert_self}
use cs252aproject.Common.Messages.{IbvRegMrReq, IbvRegMrRsp, FunctionCall, Response, ibv_reg_mr_rsp}
use cs252aproject.Router.State.{Env, Router, Call}
use cs252aproject.Router.Exec.{
  Fault, ok, killed, fail, lift, or_fail, perform, modify, unlock, non_null, pure, ◌>>=◌,
}
use cs252aproject.Router.Wire.{read_body}
use cs252aproject.Router.Shm.{add_shm_piece}
use cs252aproject.Router.Triple.{Post, Triple, bind_rule, Keeps-pure, Keeps-when, Keeps}
use cs252aproject.Router.Handlers.Memory.{handle_ibv_reg_mr, record_offset, offset_of}

-- Every fault is allowed.
abbrev pub Any : Fault → Router → Type 0
Any f s = Unit

module _ (m : Map ℕ ℕ) where
  abbrev Kept : Router → Type 0
  Kept s = s.lkey_offset_map ≡ m

  abbrev pub Records : ℕ → ℕ → Router → Type 0
  Records lkey offset s = find m lkey ≡ none → find s.lkey_offset_map lkey ≡ some offset

  Keeps-failed : {A : Type 0} (f : Fault) → Keeps {A = A} Any Kept (fail f)
  unfolding fail
  Keeps-failed f = record { at = λ s h. tt }

  Keeps-read : (n : ℤ) (f : FunctionCall) → Keeps Any Kept (read_body n f)
  unfolding read_body
  Keeps-read n f = Keeps-when _ _ (Keeps-failed killed)

  Keeps-lifted : {A : Type 0} (o : Option A) (f : Fault) → Keeps Any Kept (lift (or_fail o f))
  unfolding lift
  Keeps-lifted none f = record { at = λ s h. tt }
  Keeps-lifted (some a) f = record { at = λ s h. h }

  Keeps-used : {A : Type 0} (o : Option A) → Keeps Any Kept (non_null o)
  Keeps-used none = Keeps-failed _
  Keeps-used (some a) = Keeps-pure a

  Keeps-performed :
      {A : Type 0} (c : Call) (answer : List Call → A) → Keeps Any Kept (perform c answer)
  unfolding perform
  Keeps-performed c answer = record { at = λ s h. h }

  Keeps-piece :
      (env : Env) (process_id : ℕ) (size : ℤ) → Keeps Any Kept (add_shm_piece env process_id size)
  unfolding add_shm_piece
  Keeps-piece env process_id size = record {
    at = λ s h. elim (Bool-cases s.locks.shmmap) [
      | inl held ↦ rw (held, add_shm_piece) tt
      | inr free ↦ rw (free, add_shm_piece) h
    ];
  }

  unmapped :
      (s : Router) (lkey old : ℕ)
      → Kept s
      → find s.lkey_offset_map lkey ≡ some old
      → find m lkey ≡ none
      → ⊥
  unmapped s lkey old h present absent =
      let there : find m lkey ≡ some old = subst (λ x. find x lkey ≡ some old) h present in
      cc (there, absent)

  record_offset_rule :
      (lkey offset : ℕ) → Triple Any Kept (record_offset lkey offset) (λ _. Records lkey offset)
  unfolding record_offset modify unlock ◌>>=◌
  record_offset_rule lkey offset = record {
    at = λ s h. elim (Bool-cases s.locks.lkey_offset) [
      | inl held ↦ rw (held, record_offset) tt
      | inr free ↦ elim (Option-cases (find s.lkey_offset_map lkey)) [
        | inl missing ↦
            rw (free, missing, modify) (λ absent. find-insert_self s.lkey_offset_map lkey offset)
        | inr (old, present) ↦
            rw (free, present, modify) (λ absent. absurd (unmapped s lkey old h present absent))
      ]
    ];
  }

  abbrev pub Registers : IbvRegMrReq → Response → Router → Type 0
  Registers req (ibv_reg_mr_rsp r) s = Records r.lkey (offset_of r.router_addr req.client_addr) s
  Registers req _ s = Unit

  respond_rule :
      (req : IbvRegMrReq) (rsp : Response)
      → Triple Any (Registers req rsp) (pure rsp) (Registers req)
  unfolding pure
  respond_rule req rsp = record { at = λ s h. h }

  pub reg_mr_rule :
      (env : Env) (process_id : ℕ) (n : ℤ) (req : IbvRegMrReq)
      → Triple Any Kept (handle_ibv_reg_mr env process_id n req) (Registers req)
  unfolding handle_ibv_reg_mr
  reg_mr_rule env process_id n req =
      bind_rule Kept _ _ (λ _. Kept) (Keeps-read n _)
        λ u.
          bind_rule Kept _ _ (λ _. Kept) (Keeps-piece env _ _)
            λ piece.
              bind_rule Kept _ _ (λ _. Kept) (Keeps-lifted piece _)
                λ sp.
                  bind_rule Kept _ _ (λ _. Kept) (Keeps-used sp.ptr)
                    λ addr.
                      bind_rule Kept _ _ (λ _. Kept) (Keeps-performed _ _)
                        λ reg.
                          bind_rule Kept _ _ (λ _. Kept) (Keeps-lifted reg _)
                            λ mr.
                              bind_rule Kept _ _
                                (λ _. Records mr.lkey (offset_of addr req.client_addr))
                                (record_offset_rule _ _) λ v. respond_rule req _

-- When IBV_REG_MR answers with a key that was not mapped, the key is mapped to the offset between
-- the router's mapping that it answers with and the client's mapping that it was asked for.
pub reg_mr-Registers :
    (env : Env) (process_id : ℕ) (n : ℤ) (req : IbvRegMrReq) (s t : Router) (r : IbvRegMrRsp)
    → handle_ibv_reg_mr env process_id n req s ≡ (ok (ibv_reg_mr_rsp r), t)
    → find s.lkey_offset_map r.lkey ≡ none
    → find t.lkey_offset_map r.lkey ≡ some (offset_of r.router_addr req.client_addr)
reg_mr-Registers env process_id n req s t r answers absent =
    subst (Post (Registers s.lkey_offset_map req) Any) answers
      ((reg_mr_rule s.lkey_offset_map env process_id n req).at s refl) absent
