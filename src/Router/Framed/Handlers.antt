-- ===== src/Router/Framed/Handlers.antt =====
-- The cases of the IBV_ functions that keep what is said of the maps of host keys, of users and of
-- shared memory, and what the others need.
use cs252aproject.Base.{ℕ, List, nat_eq}
use cs252aproject.Base.Int.{ℤ}
use cs252aproject.Common.Keys.{HostKey}
use cs252aproject.Common.Messages.{
  IbvRegMrReq, IbvDeregMrReq, IbvCreateQpReq, IbvModifyQpReq, IbvPostSendReq, IbvPostRecvReq,
  IbvPollCqReq,
}
use cs252aproject.Router.Shm.{add_shm_piece}
use cs252aproject.Router.State.{Router, Env, Info}
use cs252aproject.Router.Handlers.Memory.{handle_ibv_reg_mr, handle_ibv_dereg_mr}
use cs252aproject.Router.Handlers.Transfer.{
  handle_ibv_post_send, handle_ibv_post_recv, handle_ibv_poll_cq,
}
use cs252aproject.Router.Handlers.QueuePair.{
  handle_ibv_create_qp, handle_ibv_modify_qp, handle_ibv_destroy_cq, announce_qp,
}
use cs252aproject.Router.Framed.Rules.{Framed, Still, Still-fail, still_rules}
use cs252aproject.Router.Framed.Actions.{
  Still-record_offset, Still-erase_offset, Still-claim_cq, Still-drop_cq, Still-find_conn,
  Still-post_on, Still-poll_on, Still-poll_rsp, Still-release_memory, Still-await_dst,
  Still-find_host_leaky, Still-make_ready,
}
use cs252aproject.Router.Handlers.Query.{handle_ibv_get_device_list}
use cs252aproject.Router.Exec.{undefined}
use cs252aproject.Router.Triple.{Keeps-bind, Keeps-gets, Keeps-when}

module _ {P : Router → Type 0} (fr : Framed P) (env : Env) (process_id : ℕ) (n : ℤ) where
  pub Still-reg_mr :
      (req : IbvRegMrReq)
      → ((id : ℕ) (size : ℤ) → Still P (add_shm_piece env id size))
      → Still P (handle_ibv_reg_mr env process_id n req)
  unfolding handle_ibv_reg_mr
  Still-reg_mr req added = search (still_rules, Still-record_offset) depth 20

  pub Still-get_device_list : Still P handle_ibv_get_device_list
  unfolding handle_ibv_get_device_list
  Still-get_device_list =
      Keeps-bind _ _ (Keeps-gets _)
        λ small. Keeps-bind _ _ (Keeps-when _ _ (Still-fail fr undefined)) λ u. Keeps-gets _

  pub Still-dereg_mr : (req : IbvDeregMrReq) → Still P (handle_ibv_dereg_mr env process_id n req)
  unfolding handle_ibv_dereg_mr
  Still-dereg_mr req = search (still_rules, Still-erase_offset, Still-release_memory) depth 20

  pub Still-create_qp : (req : IbvCreateQpReq) → Still P (handle_ibv_create_qp env process_id n req)
  unfolding handle_ibv_create_qp
  Still-create_qp req = search (still_rules, Still-claim_cq) depth 20

  pub Still-post_send : (req : IbvPostSendReq) → Still P (handle_ibv_post_send env process_id n req)
  unfolding handle_ibv_post_send
  Still-post_send req = search (still_rules, Still-find_conn, Still-post_on) depth 20

  pub Still-post_recv : (req : IbvPostRecvReq) → Still P (handle_ibv_post_recv env process_id n req)
  unfolding handle_ibv_post_recv
  Still-post_recv req = search (still_rules, Still-find_conn, Still-post_on) depth 20

  pub Still-poll_cq : (req : IbvPollCqReq) → Still P (handle_ibv_poll_cq env process_id n req)
  unfolding handle_ibv_poll_cq
  Still-poll_cq req = search (still_rules, Still-find_conn, Still-poll_on, Still-poll_rsp) depth 20

  pub Still-destroy_cq : (cq : ℕ) → Still P (handle_ibv_destroy_cq process_id n cq)
  unfolding handle_ibv_destroy_cq
  Still-destroy_cq cq = search (still_rules, Still-drop_cq) depth 20

  pub Still-modify_qp :
      (arrivals : List (List Info)) (req : IbvModifyQpReq)
      → ((key : HostKey) → Still P (announce_qp env req key))
      → Still P (handle_ibv_modify_qp env arrivals process_id n req)
  unfolding handle_ibv_modify_qp
  Still-modify_qp arrivals req announced =
      search (still_rules, Still-await_dst, Still-find_host_leaky, Still-make_ready) depth 20
