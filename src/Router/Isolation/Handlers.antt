-- ===== src/Router/Isolation/Handlers.antt =====
-- The IBV_ handlers, and what `src_qp_map` holds for a handle that they are not about.
use cs252aproject.Base.{ℕ, ◌≢◌, Bool, false, Option, none, some, List, nat_eq, arith, beq_ne}
use cs252aproject.Base.Int.{ℤ}
use cs252aproject.Base.Map.{find, insert, erase, find-insert, find-erase}
use cs252aproject.Common.Keys.{HostKey}
use cs252aproject.Common.Messages.{IbvRegMrReq, IbvModifyQpReq, IbvDestroyQpReq, ibv_destroy_qp}
use cs252aproject.Router.State.{Router, Env, Info, Operation}
use cs252aproject.Router.Exec.{Fault, killed, src_qp, modify, pure, ◌>>=◌}
use cs252aproject.Router.Wire.{read_body}
use cs252aproject.Router.Triple.{
  Triple, bind_rule, both_rule, weaken_rule, Keeps-bind, Keeps-pure, Keeps-gets, Keeps-if,
}
use cs252aproject.Router.Handlers.Memory.{handle_ibv_reg_mr}
use cs252aproject.Router.Handlers.QueuePair.{
  handle_ibv_modify_qp, handle_ibv_destroy_qp, announce_qp, assign_src_qp, take_src_qp,
  release_host, destroy_host,
}
use cs252aproject.Router.Invariant.Defs.{IsSound, Sound, Fails}
use cs252aproject.Router.Invariant.Frame.{Keeps-read_body}
use cs252aproject.Router.Invariant.Counts.{Taken, take_src_qp_rule}
use cs252aproject.Router.Isolation.Release.{release_host_rule}
use cs252aproject.Router.Framed
use cs252aproject.Router.Framed.Rules.{
  Framed, Still, Still-lock, Still-unlock, Still-read_body, Still-fail,
}
use cs252aproject.Router.Framed.Actions.{Still-update_dst_router, Still-destroy_host}
use cs252aproject.Router.Isolation.Rules.{Holds, Holds-Framed}
use cs252aproject.Router.Isolation.Actions.{Still-add_shm_piece, Still-attach_host}

module _ (h : ℕ) (own : HostKey) (object : ℕ) where
  abbrev fr : Framed (Holds h own object)
  fr = Holds-Framed h own object

  Still-inserted :
      (handle : ℕ) (key : HostKey)
      → handle ≢ h
      → Still
          (Holds h own object)
          (modify (λ s. record s { src_qp_map = insert s.src_qp_map handle key }))
  unfolding modify
  Still-inserted handle key other = record {
    at = λ s k.
        let apart = beq_ne handle h other in
        (ground (arith, find-insert s.src_qp_map handle h key, apart, k.0), k.1);
  }

  Still-assign_src_qp :
      (handle : ℕ) (key : HostKey)
      → handle ≢ h
      → Still (Holds h own object) (assign_src_qp handle key)
  unfolding assign_src_qp
  Still-assign_src_qp handle key other =
      Keeps-bind _ _ (Still-lock fr src_qp)
        λ u. Keeps-bind _ _ (Still-inserted handle key other) λ v. Still-unlock fr src_qp

  Still-erased :
      (handle : ℕ) (entry : Option HostKey)
      → handle ≢ h
      → Still (Holds h own object) (
          modify (λ s. elim entry [
            | none ↦ s
            | some key ↦ record s { src_qp_map = erase s.src_qp_map handle }
          ]))
  unfolding modify
  Still-erased handle none other = record { at = λ s k. k }
  Still-erased handle (some key) other = record {
    at = λ s k.
        let apart = beq_ne handle h other in
        (ground (arith, find-erase s.src_qp_map handle h, apart, k.0), k.1);
  }

  Still-take_src_qp : (handle : ℕ) → handle ≢ h → Still (Holds h own object) (take_src_qp handle)
  unfolding take_src_qp
  Still-take_src_qp handle other = Keeps-bind _ _ (Still-lock fr src_qp) λ u.
      Keeps-bind _ _ (Keeps-gets (λ s. find s.src_qp_map handle)) λ entry.
        Keeps-bind _ _ (Still-erased handle entry other)
          λ v. Keeps-bind _ _ (Still-unlock fr src_qp) λ w. Keeps-pure entry

  module _ (env : Env) (process_id : ℕ) (n : ℤ) where
    pub Still-reg_mr :
        (req : IbvRegMrReq) → Still (Holds h own object) (handle_ibv_reg_mr env process_id n req)
    Still-reg_mr req =
        Framed.Handlers.Still-reg_mr fr env process_id n req (Still-add_shm_piece h own object env)

    Still-announce_qp :
        (req : IbvModifyQpReq) (key : HostKey)
        → req.src_v_qp_handle ≢ h
        → Still (Holds h own object) (announce_qp env req key)
    unfolding announce_qp
    Still-announce_qp req key other =
        let assigned = Still-assign_src_qp req.src_v_qp_handle key other in
        Keeps-bind _ _ (Still-attach_host h own object env key) λ q. Keeps-bind _ _ assigned λ u.
          Keeps-bind _ _
            (Still-update_dst_router fr env Operation.insert key.src_gid req.dst_v_qp_num q)
            λ sent. Keeps-if _ _ _ (Keeps-pure q) (Still-fail fr killed)

    pub Still-modify_qp :
        (arrivals : List (List Info)) (req : IbvModifyQpReq)
        → req.src_v_qp_handle ≢ h
        → Still (Holds h own object) (handle_ibv_modify_qp env arrivals process_id n req)
    Still-modify_qp arrivals req other =
        Framed.Handlers.Still-modify_qp fr env process_id n arrivals req
          λ key. Still-announce_qp req key other

    Still-last :
        (dst : ℕ) (there : Bool) (last : Option ℕ)
        → Still
            (Holds h own object)
            (elim last [ none ↦ pure there | some p ↦ destroy_host env dst p ])
    Still-last dst there none = Keeps-pure there
    Still-last dst there (some p) = Still-destroy_host fr env dst p

    -- The state that the bookkeeping of `src_qp_map` leaves
    abbrev Left : Option HostKey → Router → Type 0
    Left entry s = Taken entry s × Holds h own object s

    abbrev Lost : Fault → Router → Type 0
    Lost f = Holds h own object

    take_rule :
        (handle : ℕ)
        → handle ≢ h
        → Triple Lost (λ s. Sound s × Holds h own object s) (take_src_qp handle) Left
    take_rule handle other =
        weaken_rule _ Lost _ _ _ _ _ (λ s k. k) (λ f s k. k.1) (λ a s k. k)
          (both_rule (Fails false) Lost Taken _ _ _ _ (take_src_qp_rule false handle)
            (Still-take_src_qp handle other))

    drop_rule :
        (dst : ℕ) (entry : Option HostKey)
        → Triple Lost
            (Left entry)
            (elim entry [
              | none ↦ pure false
              | some key ↦ release_host key >>= λ x. elim x.1 [
                | none ↦ pure x.0
                | some p ↦ destroy_host env dst p
              ]
            ])
            (λ _. Holds h own object)
    drop_rule dst none = record { at = λ s k. (Keeps-pure false).at s k.1 }
    drop_rule dst (some key) =
        bind_rule _ _ _ _ (release_host_rule h own object key) λ x. Still-last dst x.0 x.1

    pub destroy_qp_rule :
        (req : IbvDestroyQpReq)
        → req.qp_handle ≢ h
        → Triple Lost
            (λ s. Sound s × Holds h own object s)
            (handle_ibv_destroy_qp env process_id n req)
            (λ _. Holds h own object)
    unfolding handle_ibv_destroy_qp
    destroy_qp_rule req other =
        let body : Triple Lost (λ s. Sound s × Holds h own object s) (read_body n ibv_destroy_qp)
            (λ _ s. Sound s × Holds h own object s) =
          weaken_rule _ Lost _ _ _ _ _ (λ s k. k) (λ f s k. k.1) (λ a s k. k)
            (both_rule (Fails false) Lost _ _ _ _ _
              (Keeps-read_body false IsSound (λ c k. k) n ibv_destroy_qp)
              (Still-read_body fr n ibv_destroy_qp)) in
        bind_rule _ _ _ _ body λ u.
          bind_rule _ _ _ _ (take_rule req.qp_handle other)
            λ entry. bind_rule _ _ _ _ (drop_rule req.dst_v_qp_num entry) λ flags. Keeps-pure _
