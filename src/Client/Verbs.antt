-- ===== src/Client/Verbs.antt =====
-- Each verb that asks the router behaves.
use cs252aproject.Base.{ℕ, refl, not, nat_beq, Option, none, some}
use cs252aproject.Base.Int.{pos}
use cs252aproject.Common.Messages.{IbvPollCqReq}
use cs252aproject.Client.State.{Process, Transport, overrun}
use cs252aproject.Client.Device.{
  Context, ibv_get_device_list, ibv_alloc_pd, ibv_query_gid, ibv_query_port,
}
use cs252aproject.Client.Memory.{ibv_reg_mr, ibv_dereg_mr, SharedMemory, ScaleMr}
use cs252aproject.Client.Queue.{
  qps_rtr, qps_init, qps_rts, Cq, ScaleQp, ModifyAttr, ask_create, ibv_modify_qp, connect_qp,
  ibv_destroy_qp,
}
use cs252aproject.Client.Transfer.{
  ClientSendWr, ClientRecvWr, post_send, post_recv, poll_cq, poll_request, poll_with,
}
use cs252aproject.Client.Handles.{IsProcess}
use cs252aproject.Client.Agreement.{IsHonest}
use cs252aproject.Client.Behaviour.{
  Well, Well-alloc, Well-create, Well-dereg, Well-destroy, Well-done, Well-fault, Well-gid, Well-if,
  Well-list, Well-modify, Well-poll, Well-port, Well-read, Well-recv, Well-reg, Well-request,
  Well-send,
}

module _ {S : Type 0} (t : Transport S) (honest : IsHonest t) (p : Process) (h : IsProcess p) where
  pub Well-get_device_list : Well p (ibv_get_device_list t)
  unfolding ibv_get_device_list
  Well-get_device_list =
      (Well-request t honest p h) _ _ ((Well-done t honest p h) _) (Well-list t honest p h)

  pub Well-alloc_pd : (ctx : Context) → Well p (ibv_alloc_pd t ctx)
  unfolding ibv_alloc_pd
  Well-alloc_pd ctx =
      (Well-request t honest p h) _ _ ((Well-done t honest p h) _) ((Well-alloc t honest p h) ctx)

  pub Well-query_gid : Well p (ibv_query_gid t)
  unfolding ibv_query_gid
  Well-query_gid =
      (Well-request t honest p h) _ _ ((Well-done t honest p h) _) (Well-gid t honest p h)

  pub Well-query_port : Well p (ibv_query_port t)
  unfolding ibv_query_port
  Well-query_port =
      (Well-request t honest p h) _ _ ((Well-done t honest p h) _) (Well-port t honest p h)

  pub Well-reg_mr :
      (shm : SharedMemory) (addr len access : ℕ) → Well p (ibv_reg_mr t shm addr len access)
  unfolding ibv_reg_mr
  Well-reg_mr shm addr len access = (Well-if t honest p h) _ _ _ ((Well-done t honest p h) _) (
      (Well-request t honest p h) _ _ ((Well-done t honest p h) _)
        ((Well-reg t honest p h) shm addr len))

  pub Well-dereg_mr : (mr : ScaleMr) → Well p (ibv_dereg_mr t mr)
  unfolding ibv_dereg_mr
  Well-dereg_mr mr =
      (Well-request t honest p h) _ _ ((Well-done t honest p h) _) (Well-dereg t honest p h)

  pub Well-destroy_qp : (qp : ScaleQp) → Well p (ibv_destroy_qp t qp)
  unfolding ibv_destroy_qp
  Well-destroy_qp qp =
      (Well-request t honest p h) _ _ ((Well-done t honest p h) _) (Well-destroy t honest p h)

  Well-connect : (qp : ScaleQp) (attr : ModifyAttr) → Well p (connect_qp t qp attr)
  unfolding connect_qp
  Well-connect qp attr =
      (Well-request t honest p h) _ _ ((Well-done t honest p h) _)
        ((Well-modify t honest p h) qp attr)

  pub Well-modify_qp : (qp : ScaleQp) (attr : ModifyAttr) → Well p (ibv_modify_qp t qp attr)
  unfolding ibv_modify_qp
  Well-modify_qp qp attr =
      (Well-if t honest p h) (not attr.has_state) _ _ ((Well-done t honest p h) (pos 0, qp)) (
        (Well-if t honest p h) (nat_beq attr.qp_state qps_rtr) _ _ (Well-connect qp attr) (
          (Well-if t honest p h) (nat_beq attr.qp_state qps_init) _ _
            ((Well-done t honest p h) (pos 0, record qp { state = qps_init }))
            ((Well-if t honest p h) (nat_beq attr.qp_state qps_rts) _ _
              ((Well-done t honest p h) (pos 0, record qp { state = qps_rts }))
              ((Well-done t honest p h) (pos 0, qp)))))

  pub Well-post_send : (qp : ScaleQp) (wr : ClientSendWr) → Well p (post_send t qp wr)
  unfolding post_send
  Well-post_send qp wr =
      (Well-request t honest p h) _ _
        ((Well-read t honest p h) (λ p. p.pid) _ (λ pid. (Well-done t honest p h) _))
        (λ rsp e.
          (Well-read t honest p h) (λ p. p.pid) _ (λ pid. (Well-send t honest p h) pid rsp e))

  pub Well-post_recv : (qp : ScaleQp) (wr : ClientRecvWr) → Well p (post_recv t qp wr)
  unfolding post_recv
  Well-post_recv qp wr =
      (Well-request t honest p h) _ _
        ((Well-read t honest p h) (λ p. p.pid) _ (λ pid. (Well-done t honest p h) _))
        (λ rsp e.
          (Well-read t honest p h) (λ p. p.pid) _ (λ pid. (Well-recv t honest p h) pid rsp e))

  Well-poll_with : (req : Option IbvPollCqReq) → Well p (poll_with t req)
  unfolding poll_with
  Well-poll_with none = (Well-fault t honest p h) overrun refl
  Well-poll_with (some req) =
      (Well-request t honest p h) _ _ ((Well-done t honest p h) _) (Well-poll t honest p h)

  pub Well-poll_cq : (cq : Cq) (n : ℕ) → Well p (poll_cq t cq n)
  unfolding poll_cq
  Well-poll_cq cq n =
      (Well-if t honest p h) _ _ _ ((Well-done t honest p h) _)
        ((Well-read t honest p h) (poll_request cq) _ Well-poll_with)

  pub Well-ask : (handle : ℕ) (send_cq recv_cq : Cq) → Well p (ask_create t handle send_cq recv_cq)
  unfolding ask_create
  Well-ask handle send_cq recv_cq =
      (Well-request t honest p h) _ _ ((Well-done t honest p h) _)
        ((Well-create t honest p h) handle send_cq)
