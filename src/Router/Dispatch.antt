-- ===== src/Router/Dispatch.antt =====
-- scalerouter/scalerouter.cpp: `handle_process`, which serves one request of one client and closes
-- the connection.
use cs252aproject.Base.{ℕ, none, some, List, Bool, true, if◌then◌else◌, ltb}
use cs252aproject.Base.Int.{ℤ, pos, negsuc}
use cs252aproject.Common.Messages.{
  Request, Response, func_of, init_res_req, create_res_req, reg_mr_req, setup_conn_req,
  post_send_req, post_recv_req, poll_cq_req, dereg_mr_req, destroy_res_req, ibv_get_device_list_req,
  ibv_alloc_pd_req, ibv_reg_mr_req, ibv_query_gid_req, ibv_query_port_req, ibv_create_qp_req,
  ibv_modify_qp_req, ibv_post_send_req, ibv_post_recv_req, ibv_poll_cq_req, ibv_destroy_cq_req,
  ibv_destroy_qp_req, ibv_dereg_mr_req, unknown, no_rsp,
}
use cs252aproject.Common.Layout.{header_fields, sizeof, rsp_size}
use cs252aproject.Router.State.{Env, Router, Info}
use cs252aproject.Router.Exec.{Exec, killed, blocked, undefined, Result, ok, err, pure}
use cs252aproject.Router.Wire.{read_short}
use cs252aproject.Router.Handlers.Memory.{handle_ibv_reg_mr, handle_ibv_dereg_mr}
use cs252aproject.Router.Handlers.QueuePair.{
  handle_ibv_create_qp, handle_ibv_modify_qp, handle_ibv_destroy_cq, handle_ibv_destroy_qp,
}
use cs252aproject.Router.Handlers.Transfer.{
  handle_ibv_post_send, handle_ibv_post_recv, handle_ibv_poll_cq,
}
use cs252aproject.Router.Handlers.Query.{
  handle_ibv_get_device_list, handle_ibv_alloc_pd, handle_ibv_query_gid, handle_ibv_query_port,
}
use cs252aproject.Router.Handlers.Legacy.{
  handle_init_res, handle_create_res, handle_reg_mr, handle_setup_conn, handle_post_send,
  handle_post_recv, handle_poll_cq, handle_dereg_mr, handle_destroy_res,
}

-- What the thread of one connection meets: the results of its reads and of its write, the header's
-- `process_id`, the request, and the remote routers' messages that other threads handle meanwhile, one batch between
-- two reads of the spin of IBV_MODIFY_QP.
pub record Session : Type 0 where
  pub header_read : ℤ
  pub process_id : ℕ
  pub request : Request
  pub body_read : ℤ
  pub arrivals : List (List Info)
  pub written : ℤ

-- What the client gets: a whole response, a part of one, or the end of the stream; or the thread
-- never ends, or the daemon dies.
pub data Served : Type 0 where
  replied : Response → Served
  cut_short : Response → Served
  closed : Served
  stuck : Served
  crashed : Served

-- `switch (header.func)`
unfoldable pub serve : Env → Session → Exec Response
serve env c = elim c.request [
  | init_res_req ↦ handle_init_res
  | create_res_req key ↦ handle_create_res env c.body_read key
  | reg_mr_req r ↦ handle_reg_mr env c.process_id c.body_read r
  | setup_conn_req r ↦ handle_setup_conn env c.process_id c.body_read r
  | post_send_req r ↦ handle_post_send env c.process_id c.body_read r
  | post_recv_req r ↦ handle_post_recv env c.process_id c.body_read r
  | poll_cq_req r ↦ handle_poll_cq env c.process_id c.body_read r
  | dereg_mr_req r ↦ handle_dereg_mr env c.body_read r
  | destroy_res_req id ↦ handle_destroy_res env c.body_read id
  | ibv_get_device_list_req ↦ handle_ibv_get_device_list
  | ibv_alloc_pd_req ↦ handle_ibv_alloc_pd
  | ibv_reg_mr_req r ↦ handle_ibv_reg_mr env c.process_id c.body_read r
  | ibv_query_gid_req ↦ handle_ibv_query_gid
  | ibv_query_port_req ↦ handle_ibv_query_port
  | ibv_create_qp_req r ↦ handle_ibv_create_qp env c.process_id c.body_read r
  | ibv_modify_qp_req r ↦ handle_ibv_modify_qp env c.arrivals c.process_id c.body_read r
  | ibv_post_send_req r ↦ handle_ibv_post_send env c.process_id c.body_read r
  | ibv_post_recv_req r ↦ handle_ibv_post_recv env c.process_id c.body_read r
  | ibv_poll_cq_req r ↦ handle_ibv_poll_cq env c.process_id c.body_read r
  | ibv_destroy_cq_req cq ↦ handle_ibv_destroy_cq c.process_id c.body_read cq
  | ibv_destroy_qp_req r ↦ handle_ibv_destroy_qp env c.process_id c.body_read r
  | ibv_dereg_mr_req r ↦ handle_ibv_dereg_mr env c.process_id c.body_read r
  | unknown ↦ pure no_rsp
]

-- `size`, which stays 0 for an unknown function
abbrev pub reply_size : Request → ℕ
reply_size r = elim (func_of r) [ none ↦ 0 | some f ↦ rsp_size f ]

-- `(n = write(client_sock, rsp, size)) < size`, in `int`
abbrev pub write_short : ℤ → ℕ → Bool
write_short (pos n) size = ltb n size
write_short (negsuc n) size = true

abbrev pub finish : Session → Result Response → Served
finish c (ok rsp) =
    if write_short c.written (reply_size c.request) then cut_short rsp else replied rsp
finish c (err killed) = closed
finish c (err blocked) = stuck
finish c (err undefined) = crashed

-- handle_process
unfoldable pub handle_process : Env → Session → Router → Served × Router
unfolding serve
handle_process env c s =
    if read_short c.header_read (sizeof header_fields)
    then (closed, s)
    else (let (r, s') = serve env c s in (finish c r, s'))
