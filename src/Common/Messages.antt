-- ===== src/Common/Messages.antt =====
-- The request and response structs of scalerouter/common.h, which libscale/scale_type.h repeats. A
-- pointer is its address, 0 for NULL; a field that C declares `int` is a ℤ.
use cs252aproject.Base.{ℕ, List, Option, none, some}
use cs252aproject.Base.Int.{ℤ}
use cs252aproject.Common.Keys.{Gid, HostKey, ConnId, ConnInfo}

pub data FunctionCall : Type 0 where
  init_res create_res reg_mr setup_conn post_send post_recv poll_cq dereg_mr destroy_res
        ibv_get_device_list ibv_alloc_pd ibv_reg_mr ibv_query_gid ibv_query_port ibv_create_qp
        ibv_modify_qp ibv_post_send ibv_post_recv ibv_poll_cq ibv_destroy_cq ibv_destroy_qp
        ibv_dereg_mr :
      FunctionCall

pub record LocalMem : Type 0 where
  pub conn_id : ℕ
  pub client_addr : ℕ
  pub length : ℕ
  pub router_addr : ℕ
  pub shm_piece : ℕ
  pub shm_name : List ℕ
  pub shm_fd : ℤ
  pub mr : ℕ
  pub lkey : ℕ
  pub rkey : ℕ

pub record RegMrReq : Type 0 where
  pub conn_id : ConnId
  pub local_mem : LocalMem

pub record PostSendReq : Type 0 where
  pub conn_id : ConnId
  pub wr_id : ℤ
  pub local_addr : ℕ
  pub length : ℕ
  pub lkey : ℕ
  pub opcode : ℤ
  pub remote_addr : ℕ
  pub rkey : ℕ

pub record PostRecvReq : Type 0 where
  pub conn_id : ConnId
  pub wr_id : ℤ
  pub local_addr : ℕ
  pub length : ℕ
  pub lkey : ℕ

pub record PollCqReq : Type 0 where
  pub conn_id : ConnId
  pub wr_id : ℤ
  pub count : ℤ

pub record IbvRegMrReq : Type 0 where
  pub access_flag : ℕ
  pub length : ℕ
  pub client_addr : ℕ

pub record IbvCreateQpReq : Type 0 where
  pub send_cq_handle : ℕ
  pub recv_cq_handle : ℕ
  pub qp_handle : ℕ

pub record IbvModifyQpReq : Type 0 where
  pub dst_gid : Gid
  pub dst_lid : ℕ
  pub dst_v_qp_num : ℕ
  pub src_v_qp_num : ℕ
  pub src_v_qp_handle : ℕ
  pub qp_state : ℕ

pub record IbvPostSendReq : Type 0 where
  pub qp_handle : ℕ
  pub client_addr : ℕ
  pub opcode : ℤ
  pub wr_id : ℤ
  pub lkey : ℕ
  pub length : ℕ
  pub remote_router_addr : ℕ
  pub rkey : ℕ

pub record IbvPostRecvReq : Type 0 where
  pub qp_handle : ℕ
  pub client_addr : ℕ
  pub lkey : ℕ
  pub wr_id : ℤ
  pub length : ℕ

pub record IbvPollCqReq : Type 0 where
  pub cq_handle : ℕ
  pub qp_handle : ℕ
  pub num_entries : ℤ

pub record IbvDestroyQpReq : Type 0 where
  pub qp_handle : ℕ
  pub dst_v_qp_num : ℕ

pub record IbvDeregMrReq : Type 0 where
  pub shm_name : List ℕ
  pub lkey : ℕ
  pub router_shm_fd : ℤ
  pub length : ℕ
  pub router_mr : ℕ
  pub router_addr : ℕ

pub record IbvRegMrRsp : Type 0 where
  pub handle : ℕ
  pub lkey : ℕ
  pub rkey : ℕ
  pub shm_name : List ℕ
  pub router_mr : ℕ
  pub router_addr : ℕ
  pub router_shm_fd : ℤ

pub record IbvPollCqRsp : Type 0 where
  pub count : ℤ
  pub wr_id : ℕ
  pub opcode : ℕ
  pub status : ℕ
  pub vendor_err : ℕ

pub record IbvGetDeviceListRsp : Type 0 where
  pub node_type : ℕ
  pub transport_type : ℕ
  pub name : List ℕ
  pub dev_name : List ℕ
  pub dev_path : List ℕ
  pub ibdev_path : List ℕ

-- IBV_QUERY_PORT_RSP; `ibv_port_attr` has the same fields.
pub record PortAttr : Type 0 where
  pub state : ℕ
  pub max_mtu : ℕ
  pub active_mtu : ℕ
  pub gid_tbl_len : ℤ
  pub port_cap_flags : ℕ
  pub max_msg_sz : ℕ
  pub bad_pkey_cntr : ℕ
  pub qkey_viol_cntr : ℕ
  pub pkey_tbl_len : ℕ
  pub lid : ℕ
  pub sm_lid : ℕ
  pub lmc : ℕ
  pub max_vl_num : ℕ
  pub sm_sl : ℕ
  pub subnet_timeout : ℕ
  pub init_type_reply : ℕ
  pub active_width : ℕ
  pub active_speed : ℕ
  pub phys_state : ℕ
  pub link_layer : ℕ

-- A request as `handle_process` reads it: the header's `func`, and the struct as which the bytes
-- of `req_body` are read. A request with no struct has no body; `unknown` is any other `func`.
pub data Request : Type 0 where
  init_res_req : Request
  create_res_req : HostKey → Request
  reg_mr_req : RegMrReq → Request
  setup_conn_req : ConnInfo → Request
  post_send_req : PostSendReq → Request
  post_recv_req : PostRecvReq → Request
  poll_cq_req : PollCqReq → Request
  dereg_mr_req : RegMrReq → Request
  destroy_res_req : ConnId → Request
  ibv_get_device_list_req : Request
  ibv_alloc_pd_req : Request
  ibv_reg_mr_req : IbvRegMrReq → Request
  ibv_query_gid_req : Request
  ibv_query_port_req : Request
  ibv_create_qp_req : IbvCreateQpReq → Request
  ibv_modify_qp_req : IbvModifyQpReq → Request
  ibv_post_send_req : IbvPostSendReq → Request
  ibv_post_recv_req : IbvPostRecvReq → Request
  ibv_poll_cq_req : IbvPollCqReq → Request
  ibv_destroy_cq_req : ℕ → Request
  ibv_destroy_qp_req : IbvDestroyQpReq → Request
  ibv_dereg_mr_req : IbvDeregMrReq → Request
  unknown : Request

-- What a handler writes into `rsp`. `no_rsp` is a response of size 0.
pub data Response : Type 0 where
  init_res_rsp : Gid → ℕ → Response
  create_res_rsp : ℕ → Response
  reg_mr_rsp : LocalMem → Response
  setup_conn_rsp : ℕ → Option ℕ → Response
  post_send_rsp : ℕ → Response
  post_recv_rsp : ℕ → Response
  poll_cq_rsp : ℕ → ℤ → Response
  dereg_mr_rsp : LocalMem → Response
  destroy_res_rsp : ConnId → Response
  ibv_get_device_list_rsp : IbvGetDeviceListRsp → Response
  ibv_alloc_pd_rsp : ℕ → Response
  ibv_reg_mr_rsp : IbvRegMrRsp → Response
  ibv_query_gid_rsp : Gid → Response
  ibv_query_port_rsp : PortAttr → Response
  ibv_create_qp_rsp : ℕ → Response
  ibv_modify_qp_rsp : ℕ → Response
  ibv_post_send_rsp : ℕ → Response
  ibv_post_recv_rsp : ℕ → Response
  ibv_poll_cq_rsp : IbvPollCqRsp → Response
  ibv_destroy_cq_rsp : ℕ → Response
  ibv_destroy_qp_rsp : ℕ → Response
  ibv_dereg_mr_rsp : ℕ → Response
  no_rsp : Response

abbrev pub func_of : Request → Option FunctionCall
func_of init_res_req = some init_res
func_of (create_res_req _) = some create_res
func_of (reg_mr_req _) = some reg_mr
func_of (setup_conn_req _) = some setup_conn
func_of (post_send_req _) = some post_send
func_of (post_recv_req _) = some post_recv
func_of (poll_cq_req _) = some poll_cq
func_of (dereg_mr_req _) = some dereg_mr
func_of (destroy_res_req _) = some destroy_res
func_of ibv_get_device_list_req = some ibv_get_device_list
func_of ibv_alloc_pd_req = some ibv_alloc_pd
func_of (ibv_reg_mr_req _) = some ibv_reg_mr
func_of ibv_query_gid_req = some ibv_query_gid
func_of ibv_query_port_req = some ibv_query_port
func_of (ibv_create_qp_req _) = some ibv_create_qp
func_of (ibv_modify_qp_req _) = some ibv_modify_qp
func_of (ibv_post_send_req _) = some ibv_post_send
func_of (ibv_post_recv_req _) = some ibv_post_recv
func_of (ibv_poll_cq_req _) = some ibv_poll_cq
func_of (ibv_destroy_cq_req _) = some ibv_destroy_cq
func_of (ibv_destroy_qp_req _) = some ibv_destroy_qp
func_of (ibv_dereg_mr_req _) = some ibv_dereg_mr
func_of unknown = none
