-- ===== src/Tests/Sessions.antt =====
-- Runs of `handle_process`: a client connects a queue pair, registers memory, posts, and leaves.
use cs252aproject.Base.{◌≡◌, refl, nat_eq, some, none, false}
use cs252aproject.Base.Map.{find, insert, erase, empty}
use cs252aproject.Common.Messages
use cs252aproject.Common.Keys.{HostKey, host_key_eq}
use cs252aproject.Router.State.{Router, ConnResources}
use cs252aproject.Router.Exec.{
  alloc, lock_conn, unlock_conn, lock, unlock, deref, store, pure, gets, perform, modify, lift,
  ◌>>=◌,
}
use cs252aproject.Router.Wire.{read_body}
use cs252aproject.Router.Resources.{
  resources_create, resources_destroy, modify_qp_to_ready, modify_qp_to_init, modify_qp_to_rtr,
  modify_qp_to_rts,
}
use cs252aproject.Router.Remote.{update_dst_router, connect_first, send_info, handle_all, await_dst}
use cs252aproject.Router.Shm.{add_shm_piece}
use cs252aproject.Router.Handlers.Attach.{attach_host, share_host, qp_num_of, settle}
use cs252aproject.Router.Handlers.Memory.{handle_ibv_reg_mr, record_offset}
use cs252aproject.Router.Handlers.QueuePair.{
  handle_ibv_modify_qp, announce_qp, assign_src_qp, find_host_leaky, make_ready, bring_up,
}
use cs252aproject.Router.Dispatch.{serve, handle_process, replied}
use cs252aproject.Tests.World.{world, fresh, connect, register, own_gid, peer_gid}

abbrev pub connected : Router
connected = (handle_process world connect fresh).1

abbrev pub registered : Router
registered = (handle_process world register connected).1

abbrev pub peer_key : HostKey
peer_key = record { src_gid = own_gid; dst_gid = peer_gid }

abbrev pub own_object : ConnResources
own_object = record {
  cq = some 1001;
  qp = some (record { ptr = 1002; qp_num = 77 });
  ev_channel = none;
  ref_cnt = 1;
  status = 4;
  locked = false;
}

connects : (handle_process world connect fresh).0 ≡ replied (Messages.ibv_modify_qp_rsp 1)
unfolding handle_process serve handle_ibv_modify_qp announce_qp attach_host share_host qp_num_of
    settle resources_create resources_destroy alloc assign_src_qp update_dst_router connect_first
    send_info handle_all await_dst find_host_leaky make_ready bring_up modify_qp_to_ready
    modify_qp_to_init modify_qp_to_rtr modify_qp_to_rts lock_conn unlock_conn lock unlock deref
    store read_body pure gets perform modify lift ◌>>=◌ find insert erase handle_ibv_reg_mr
    add_shm_piece record_offset empty
connects = refl

-- What the router has of the connected and registered client
registered_facts :
    (find registered.conns 1 ≡ some own_object)
    × (find registered.host_map peer_key ≡ some (some 1))
    × (find registered.src_qp_map 0x7_0001 ≡ some peer_key)
    × (find registered.lkey_offset_map 31 ≡ some 0x2000_0000)
    × (registered.global_res.src_gid ≡ own_gid)
unfolding handle_process serve handle_ibv_modify_qp announce_qp attach_host share_host qp_num_of
    settle resources_create resources_destroy alloc assign_src_qp update_dst_router connect_first
    send_info handle_all await_dst find_host_leaky make_ready bring_up modify_qp_to_ready
    modify_qp_to_init modify_qp_to_rtr modify_qp_to_rts lock_conn unlock_conn lock unlock deref
    store read_body pure gets perform modify lift ◌>>=◌ find insert erase handle_ibv_reg_mr
    add_shm_piece record_offset empty
registered_facts = (refl, refl, refl, refl, refl)

pub connected_object : find registered.conns 1 ≡ some own_object
connected_object = registered_facts.0

pub connected_entry : find registered.host_map peer_key ≡ some (some 1)
connected_entry = registered_facts.1

pub connected_user : find registered.src_qp_map 0x7_0001 ≡ some peer_key
connected_user = registered_facts.2

pub registered_offset : find registered.lkey_offset_map 31 ≡ some 0x2000_0000
registered_offset = registered_facts.3

pub registered_gid : registered.global_res.src_gid ≡ own_gid
registered_gid = registered_facts.4
