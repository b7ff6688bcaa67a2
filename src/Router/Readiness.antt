-- ===== src/Router/Readiness.antt =====
-- `modify_qp_to_ready` brings a queue pair from RESET over INIT and RTR to RTS.
use cs252aproject.Base.{ℕ, replicate, List, [], ◌∷◌, if◌then◌else◌}
use cs252aproject.Base.Int.{ℤ, pos, is_zero, is_neg}
use cs252aproject.Common.Keys.{ConnInfo}
use cs252aproject.Router.State.{Env, Router, Config, Call, Qp, QpAttr, AhAttr, ibv_modify_qp}

-- The calls are made in order until one does not return 0: its result, or `rc` if there is none,
-- and the history.
abbrev pub run_until : Env → List Call → ℤ → List Call → ℤ × List Call
run_until env [] rc h = (rc, h)
run_until env (c ∷ cs) rc h =
    let rest = run_until env cs (env.rc (c ∷ h)) (c ∷ h) in
    if is_zero (env.rc (c ∷ h)) then rest else (env.rc (c ∷ h), c ∷ h)

-- The address of the peer, by its LID alone where the index of the GID is negative
abbrev pub peer_address : Config → ConnInfo → AhAttr
peer_address cfg info =
    if is_neg cfg.gid_idx
    then record {
      is_global = 0;
      dlid = info.host_lid.dst_lid;
      sl = 0;
      src_path_bits = 0;
      port_num = cfg.ib_port;
      dgid = replicate 16 0;
      flow_label = 0;
      hop_limit = 0;
      sgid_index = pos 0;
      traffic_class = 0;
    }
    else record {
      is_global = 1;
      dlid = info.host_lid.dst_lid;
      sl = 0;
      src_path_bits = 0;
      port_num = 1;
      dgid = info.conn_id.conn_key.host_key.dst_gid;
      flow_label = 0;
      hop_limit = 255;
      sgid_index = cfg.gid_idx;
      traffic_class = 0;
    }

-- Every attribute of a call, with the address last
abbrev attributes :
    (state port access mtu peer max_dest rnr_timer timeout retries max_rd : ℕ) → AhAttr → QpAttr
attributes state port access mtu peer max_dest rnr_timer timeout retries max_rd address = record {
  qp_state = state;
  port_num = port;
  pkey_index = 0;
  qp_access_flags = access;
  path_mtu = mtu;
  dest_qp_num = peer;
  rq_psn = 0;
  max_dest_rd_atomic = max_dest;
  min_rnr_timer = rnr_timer;
  ah_attr = address;
  timeout = timeout;
  retry_cnt = retries;
  rnr_retry = 0;
  sq_psn = 0;
  max_rd_atomic = max_rd;
}

abbrev no_address : AhAttr
no_address = record {
  is_global = 0;
  dlid = 0;
  sl = 0;
  src_path_bits = 0;
  port_num = 0;
  dgid = replicate 16 0;
  flow_label = 0;
  hop_limit = 0;
  sgid_index = pos 0;
  traffic_class = 0;
}

-- The calls to INIT, RTR and RTS, with the numbers of the headers of libibverbs
abbrev pub transitions : Router → ConnInfo → Qp → List Call
transitions s info qp =
    let cfg = s.config in
    let peer = info.conn_id.conn_key.dst_qpn in
    ibv_modify_qp qp.ptr (attributes 1 cfg.ib_port 7 0 0 0 0 0 0 0 no_address) 0x39
    ∷ ibv_modify_qp qp.ptr (attributes 2 0 0 1 peer 16 18 0 0 0 (peer_address cfg info)) 0x12_9181
    ∷ ibv_modify_qp qp.ptr (attributes 3 0 0 0 0 0 0 18 6 16 no_address) 0x1_2e01
    ∷ []
