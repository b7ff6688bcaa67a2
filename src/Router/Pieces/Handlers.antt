-- ===== src/Router/Pieces/Handlers.antt =====
-- What every case of `handle_process` leaves of the names in `shm_map`.
use mathlib.Core.Path.{subst}
use cs252aproject.Base.{sym, ℕ, ◌≡◌, refl, Bool, true, false, Option, none, some, List, nat_eq}
use cs252aproject.Base.Int.{ℤ}
use cs252aproject.Base.Map.{find, insert, erase}
use cs252aproject.Common.Keys.{HostKey, ConnId, ConnInfo, host_key_eq, conn_id_eq}
use cs252aproject.Common.Messages.{
  ibv_destroy_qp, IbvModifyQpReq, IbvDestroyQpReq, RegMrReq, PostSendReq, PostRecvReq, PollCqReq,
}
use cs252aproject.Router.State.{Env, Router, ShmPiece, Call, Info}
use cs252aproject.Router.Exec.{killed, src_qp, hostmap, connmap, modify, pure}
use cs252aproject.Router.Triple.{Keeps-gets, Keeps-bind, Keeps-pure}
use cs252aproject.Router.Shm.{pieces_of, remove_piece}
use cs252aproject.Router.Handlers.Attach.{attach_host, share_host, enter_host}
use cs252aproject.Router.Handlers.QueuePair.{
  handle_ibv_modify_qp, handle_ibv_destroy_qp, announce_qp, assign_src_qp, take_src_qp,
  release_host, drop_user, destroy_host,
}
use cs252aproject.Router.Handlers.Legacy.{
  find_conn_leaky, enter_conn, drop_conn, release_host_leaky, post_leaky, destroy_conn,
  handle_create_res, handle_reg_mr, handle_setup_conn, handle_post_send, handle_post_recv,
  handle_poll_cq, handle_dereg_mr, handle_destroy_res,
}
use cs252aproject.Router.Framed
use cs252aproject.Router.Framed.Rules.{
  Still, still_rules, Still-option, Still-lock, Still-unlock, Still-lift, Still-fail,
  Still-read_body,
}
use cs252aproject.Router.Framed.Actions.{
  Still-settle, Still-update_dst_router, Still-destroy_host, Still-find_host_leaky,
  Still-make_ready, Still-poll_on, Still-resources_destroy,
}
use cs252aproject.Router.Pieces.{Numbered, Named, Named-Framed, Still-add_shm_piece}

Still-other :
    (f : Router → Router) → ((s : Router) → (f s).shm_map ≡ s.shm_map) → Still Named (modify f)
unfolding modify
Still-other f same = record {
  at = λ s k id. subst (λ m. Numbered id 0 (pieces_of m id)) (sym (same s)) (k id);
}

ruleset named_rules = (still_rules, Named-Framed, Still-other)

Still-enter_host :
    (key : HostKey) (new : ℕ) (entry : Option (Option ℕ)) → Still Named (enter_host key new entry)
unfolding enter_host
Still-enter_host key new none = search named_rules depth 20
Still-enter_host key new (some none) = search named_rules depth 20
Still-enter_host key new (some (some old)) = search named_rules depth 20

Still-share_host : (key : HostKey) (new : ℕ) → Still Named (share_host key new)
unfolding share_host
Still-share_host key new = search (named_rules, Still-enter_host) depth 20

Still-attach_host : (env : Env) (key : HostKey) → Still Named (attach_host env key)
unfolding attach_host
Still-attach_host env key = search (named_rules, Still-share_host, Still-settle) depth 20

Still-assign_src_qp : (handle : ℕ) (key : HostKey) → Still Named (assign_src_qp handle key)
unfolding assign_src_qp
Still-assign_src_qp handle key = search named_rules depth 20

Still-taken :
    (handle : ℕ) (entry : Option HostKey)
    → Still Named (
        modify (λ s. elim entry [
          | none ↦ s
          | some key ↦ record s { src_qp_map = erase s.src_qp_map handle }
        ]))
Still-taken handle none = search named_rules
Still-taken handle (some key) = search named_rules

Still-take_src_qp : (handle : ℕ) → Still Named (take_src_qp handle)
unfolding take_src_qp
Still-take_src_qp handle = Keeps-bind _ _ (Still-lock Named-Framed src_qp) λ u.
    Keeps-bind _ _ (Keeps-gets (λ s. find s.src_qp_map handle)) λ entry.
      Keeps-bind _ _ (Still-taken handle entry)
        λ v. Keeps-bind _ _ (Still-unlock Named-Framed src_qp) λ w. Keeps-pure entry

Still-drop_user : (key : HostKey) (p : ℕ) → Still Named (drop_user key p)
unfolding drop_user
Still-drop_user key p = search named_rules depth 20

Still-release_host : (key : HostKey) → Still Named (release_host key)
unfolding release_host
Still-release_host key = Keeps-bind _ _ (Still-lock Named-Framed hostmap) λ u.
    Keeps-bind _ _ (Keeps-gets (λ s. find s.host_map key)) λ entry.
      Still-option Named-Framed entry _ _
        (Keeps-bind _ _ (Still-unlock Named-Framed hostmap) λ v. Keeps-pure (false, none))
        λ slot.
          Still-option Named-Framed slot _ _
            (Keeps-bind _ _ (Still-unlock Named-Framed hostmap) λ v. Still-fail Named-Framed killed)
            λ p. Keeps-bind _ _ (Still-drop_user key p) λ last.
              Keeps-bind _ _ (Still-unlock Named-Framed hostmap) λ v. Keeps-pure (true, last)

Still-release_host_leaky : (key : HostKey) → Still Named (release_host_leaky key)
unfolding release_host_leaky
Still-release_host_leaky key = Keeps-bind _ _ (Still-lock Named-Framed hostmap) λ u.
    Keeps-bind _ _ (Keeps-gets (λ s. find s.host_map key)) λ entry.
      Still-option Named-Framed entry _ _
        (Keeps-bind _ _ (Still-unlock Named-Framed hostmap) λ v. Keeps-pure none)
        λ slot. Keeps-bind _ _ (Still-lift Named-Framed slot killed) λ p.
          Keeps-bind _ _ (Still-drop_user key p)
            λ last. Keeps-bind _ _ (Still-unlock Named-Framed hostmap) λ v. Keeps-pure last

Still-find_conn_leaky : (id : ConnId) → Still Named (find_conn_leaky id)
unfolding find_conn_leaky
Still-find_conn_leaky id = search named_rules depth 20

Still-enter_conn : (id : ConnId) (p : ℕ) → Still Named (enter_conn id p)
unfolding enter_conn
Still-enter_conn id p = Keeps-bind _ _ (Still-lock Named-Framed connmap) λ u.
    Keeps-bind _ _ (Keeps-gets (λ s. find s.conn_map id)) λ entry.
      Still-option Named-Framed entry _ _
        (Keeps-bind _ _
          (Still-other (λ s. record s { conn_map = insert s.conn_map id (some p) }) (λ s. refl))
          λ v. Still-unlock Named-Framed connmap)
        λ other. Still-fail Named-Framed killed

Still-drop_conn : (id : ConnId) → Still Named (drop_conn id)
unfolding drop_conn
Still-drop_conn id = search named_rules depth 20

module _ (env : Env) where
  Still-post_leaky : (p : ℕ) (request : ℕ → Call) → Still Named (post_leaky env p request)
  unfolding post_leaky
  Still-post_leaky p request = search named_rules depth 20

  Still-remove_piece : (sp : ShmPiece) → Still Named (remove_piece env sp)
  unfolding remove_piece
  Still-remove_piece sp =
      Still-option Named-Framed sp.ptr _ _ (Keeps-pure tt) λ p. search named_rules depth 20

  Still-destroy_conn : (last : Option ℕ) → Still Named (destroy_conn env last)
  unfolding destroy_conn
  Still-destroy_conn none = Keeps-pure tt
  Still-destroy_conn (some p) = search (named_rules, Still-resources_destroy) depth 20

module _ (env : Env) (process_id : ℕ) (n : ℤ) where
  pub Still-create_res : (key : HostKey) → Still Named (handle_create_res env n key)
  unfolding handle_create_res
  Still-create_res key = search (named_rules, Still-attach_host) depth 20

  pub Still-reg_mr : (req : RegMrReq) → Still Named (handle_reg_mr env process_id n req)
  unfolding handle_reg_mr
  Still-reg_mr req = search (named_rules, Still-add_shm_piece) depth 20

  pub Still-setup_conn : (info : ConnInfo) → Still Named (handle_setup_conn env process_id n info)
  unfolding handle_setup_conn
  Still-setup_conn info =
      search (named_rules, Still-find_host_leaky, Still-make_ready, Still-enter_conn) depth 20

  pub Still-post_send : (req : PostSendReq) → Still Named (handle_post_send env process_id n req)
  unfolding handle_post_send
  Still-post_send req = search (named_rules, Still-find_conn_leaky, Still-post_leaky) depth 20

  pub Still-post_recv : (req : PostRecvReq) → Still Named (handle_post_recv env process_id n req)
  unfolding handle_post_recv
  Still-post_recv req = search (named_rules, Still-find_conn_leaky, Still-post_leaky) depth 20

  pub Still-poll_cq : (req : PollCqReq) → Still Named (handle_poll_cq env process_id n req)
  unfolding handle_poll_cq
  Still-poll_cq req = search (named_rules, Still-find_conn_leaky, Still-poll_on) depth 20

  pub Still-dereg_mr : (req : RegMrReq) → Still Named (handle_dereg_mr env n req)
  unfolding handle_dereg_mr
  Still-dereg_mr req = search (named_rules, Still-remove_piece) depth 20

  pub Still-destroy_res : (id : ConnId) → Still Named (handle_destroy_res env n id)
  unfolding handle_destroy_res
  Still-destroy_res id =
      search (named_rules, Still-drop_conn, Still-release_host_leaky, Still-destroy_conn) depth 20

  Still-announce_qp : (req : IbvModifyQpReq) (key : HostKey) → Still Named (announce_qp env req key)
  unfolding announce_qp
  Still-announce_qp req key =
      search (named_rules, Still-attach_host, Still-assign_src_qp, Still-update_dst_router) depth 20

  pub Still-modify_qp :
      (arrivals : List (List Info)) (req : IbvModifyQpReq)
      → Still Named (handle_ibv_modify_qp env arrivals process_id n req)
  Still-modify_qp arrivals req =
      Framed.Handlers.Still-modify_qp Named-Framed env process_id n arrivals req
        (Still-announce_qp req)

  Still-last :
      (dst : ℕ) (there : Bool) (last : Option ℕ)
      → Still Named (elim last [ none ↦ pure there | some p ↦ destroy_host env dst p ])
  Still-last dst there none = Keeps-pure there
  Still-last dst there (some p) = Still-destroy_host Named-Framed env dst p

  pub Still-destroy_qp :
      (req : IbvDestroyQpReq) → Still Named (handle_ibv_destroy_qp env process_id n req)
  unfolding handle_ibv_destroy_qp
  Still-destroy_qp req = Keeps-bind _ _ (Still-read_body Named-Framed n ibv_destroy_qp) λ u.
      Keeps-bind _ _ (Still-take_src_qp req.qp_handle) λ entry.
        Keeps-bind _ _
          (Still-option Named-Framed entry _ _ (Keeps-pure false)
            λ key. Keeps-bind _ _ (Still-release_host key) λ x. Still-last req.dst_v_qp_num x.0 x.1)
          λ flags. Keeps-pure _
