-- ===== src/Tests/World.antt =====
-- A device and a system on which every call succeeds, and sessions of one client.
use cs252aproject.Base.{ℕ, ◌+◌, some, List, [], ◌∷◌, replicate, refl, length, true}
use cs252aproject.Base.Int.{pos}
use cs252aproject.Common.Keys.{Gid}
use cs252aproject.Common.Messages
use cs252aproject.Common.Messages.{Request}
use cs252aproject.Router.State.{Env, Router, Call, Config, GlobalResources, Operation, booted}
use cs252aproject.Router.Dispatch.{Session}
use cs252aproject.Router.Invariant.Shared.{Creates}

-- Every object that the outside code makes is named by the number of calls made so far.
abbrev pub made : List Call → ℕ
made h = 1000 + length h

-- One completion of the process 7
abbrev pub world : Env
world = record {
  rc = λ h. pos 0;
  create_cq = λ h. some (made h);
  create_qp = λ h. some (record { ptr = made h; qp_num = 77 });
  reg_mr = λ h. some (record { ptr = made h; handle = 5; lkey = 31; rkey = 32 });
  mmap_ptr = λ h. some 0x7000_0000;
  completions = λ h. [];
  if_addr = λ h. 0x0a00_0001;
  addresses = λ h. 0x0a00_0002 ∷ [];
  freed_qp_num = λ h. some 0;
}

pub world-Creates : Creates world
world-Creates = record { cq = λ h. (_, refl); qp = λ h. (_, refl); stale = λ h. (_, refl) }

-- A device whose post calls fail
abbrev pub refusing : Env
refusing = record world { rc = λ h. pos 12 }

abbrev pub own_gid : Gid
own_gid = replicate 16 1

abbrev pub peer_gid : Gid
peer_gid = replicate 16 2

abbrev pub own_port : Messages.PortAttr
own_port = record {
  state = 4;
  max_mtu = 5;
  active_mtu = 5;
  gid_tbl_len = pos 8;
  port_cap_flags = 0;
  max_msg_sz = 0x4000_0000;
  bad_pkey_cntr = 0;
  qkey_viol_cntr = 0;
  pkey_tbl_len = 1;
  lid = 3;
  sm_lid = 1;
  lmc = 0;
  max_vl_num = 4;
  sm_sl = 0;
  subnet_timeout = 18;
  init_type_reply = 0;
  active_width = 2;
  active_speed = 32;
  phys_state = 5;
  link_layer = 2;
}

abbrev pub own_config : Config
own_config = record { ib_port = 1; gid_idx = pos 3; disable_rdma = true }

abbrev pub own_resources : GlobalResources
own_resources = record {
  ib_dev = record {
    node_type = 1;
    transport_type = 0;
    name = [];
    dev_name = [];
    dev_path = [];
    ibdev_path = [];
  };
  port_attr = own_port;
  pd_handle = 9;
  src_gid = own_gid;
  src_lid = 3;
}

abbrev pub fresh : Router
fresh = booted own_config own_resources

abbrev pub session_of : ℕ → Request → Session
session_of body request = record {
  header_read = pos 12;
  process_id = 7;
  request = request;
  body_read = pos body;
  arrivals = (record { op = Operation.insert; gid = peer_gid; qp_num = 88 } ∷ []) ∷ [];
  written = pos 1000;
}

abbrev pub modify_req : Messages.IbvModifyQpReq
modify_req = record {
  dst_gid = peer_gid;
  dst_lid = 4;
  dst_v_qp_num = 0x0a00_0002;
  src_v_qp_num = 0x0a00_0001;
  src_v_qp_handle = 0x7_0001;
  qp_state = 3;
}

abbrev pub reg_req : Messages.IbvRegMrReq
reg_req = record { access_flag = 7; client_addr = 0x5000_0000; length = 4096 }

abbrev pub send_req : Messages.IbvPostSendReq
send_req = record {
  qp_handle = 0x7_0001;
  client_addr = 0x5000_0010;
  opcode = pos 2;
  wr_id = pos 7;
  lkey = 31;
  length = 64;
  remote_router_addr = 0;
  rkey = 0;
}

abbrev pub recv_req : Messages.IbvPostRecvReq
recv_req = record {
  qp_handle = 0x7_0001;
  client_addr = 0x5000_0010;
  lkey = 31;
  wr_id = pos 7;
  length = 64;
}

abbrev pub poll_req : Messages.IbvPollCqReq
poll_req = record { cq_handle = 0x7_0001; qp_handle = 0x7_0001; num_entries = pos 1 }

abbrev pub destroy_req : Messages.IbvDestroyQpReq
destroy_req = record { qp_handle = 0x7_0001; dst_v_qp_num = 0x0a00_0002 }

abbrev pub connect : Session
connect = session_of 36 (Messages.ibv_modify_qp_req modify_req)

abbrev pub register : Session
register = session_of 24 (Messages.ibv_reg_mr_req reg_req)

abbrev pub send : Session
send = session_of 56 (Messages.ibv_post_send_req send_req)

abbrev pub destroy : Session
destroy = session_of 8 (Messages.ibv_destroy_qp_req destroy_req)
