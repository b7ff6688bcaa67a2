-- ===== src/Router/Resources.antt =====
-- scalerouter/scalerouter.cpp: the queue pair behind a host key, and its way to RTS.
use cs252aproject.Base.{
  ℕ, ◌+◌, ◌≡◌, refl, Bool, true, false, not, ◌||◌, Option, none, some, [], List, if◌then◌else◌,
}
use cs252aproject.Base.Int.{ℤ, pos, is_zero, is_neg}
use cs252aproject.Common.Keys.{Gid, ConnInfo}
use cs252aproject.Router.State.{
  Env, Call, Config, Qp, QpAttr, ibv_create_cq, ibv_create_qp, ibv_destroy_qp, ibv_destroy_cq,
  ibv_destroy_comp_channel, ibv_modify_qp,
}
use cs252aproject.Router.Exec.{Exec, pure, gets, perform, deref, store, ◌>>=◌, ◌>>◌}

abbrev pub max_cq_size : ℕ
max_cq_size = 1024

-- enum ibv_qp_state
abbrev pub qps_init : ℕ
qps_init = 1

abbrev pub qps_rtr : ℕ
qps_rtr = 2

abbrev pub qps_rts : ℕ
qps_rts = 3

-- IBV_QP_STATE | IBV_QP_PKEY_INDEX | IBV_QP_PORT | IBV_QP_ACCESS_FLAGS
abbrev pub init_mask : ℕ
init_mask = 0x1 + 0x10 + 0x20 + 0x8

-- IBV_QP_STATE | IBV_QP_AV | IBV_QP_PATH_MTU | IBV_QP_DEST_QPN | IBV_QP_RQ_PSN
-- | IBV_QP_MAX_DEST_RD_ATOMIC | IBV_QP_MIN_RNR_TIMER
abbrev pub rtr_mask : ℕ
rtr_mask = 0x1 + 0x80 + 0x100 + 0x10_0000 + 0x1000 + 0x2_0000 + 0x8000

-- IBV_QP_STATE | IBV_QP_TIMEOUT | IBV_QP_RETRY_CNT | IBV_QP_RNR_RETRY | IBV_QP_SQ_PSN
-- | IBV_QP_MAX_QP_RD_ATOMIC
abbrev pub rts_mask : ℕ
rts_mask = 0x1 + 0x200 + 0x400 + 0x800 + 0x1_0000 + 0x2000

-- IBV_ACCESS_LOCAL_WRITE | IBV_ACCESS_REMOTE_READ | IBV_ACCESS_REMOTE_WRITE
abbrev pub all_access : ℕ
all_access = 0x1 + 0x4 + 0x2

-- memset(&attr, 0, sizeof(attr))
abbrev pub zero_gid : Gid
zero_gid = cs252aproject.Base.replicate 16 0

abbrev pub zero_attr : QpAttr
zero_attr = record {
  qp_state = 0;
  port_num = 0;
  pkey_index = 0;
  qp_access_flags = 0;
  path_mtu = 0;
  dest_qp_num = 0;
  rq_psn = 0;
  max_dest_rd_atomic = 0;
  min_rnr_timer = 0;
  ah_attr = record {
    is_global = 0;
    dlid = 0;
    sl = 0;
    src_path_bits = 0;
    port_num = 0;
    dgid = zero_gid;
    flow_label = 0;
    hop_limit = 0;
    sgid_index = pos 0;
    traffic_class = 0;
  };
  timeout = 0;
  retry_cnt = 0;
  rnr_retry = 0;
  sq_psn = 0;
  max_rd_atomic = 0;
}

abbrev pub init_attr : Config → QpAttr
init_attr cfg = record zero_attr {
  qp_state = qps_init;
  port_num = cfg.ib_port;
  pkey_index = 0;
  qp_access_flags = all_access;
}

abbrev pub rtr_attr : Config → ℕ → ℕ → Gid → QpAttr
rtr_attr cfg remote_qpn dlid dgid =
    let local = record zero_attr.ah_attr { dlid = dlid; port_num = cfg.ib_port } in
    let global = record local {
      is_global = 1;
      port_num = 1;
      dgid = dgid;
      hop_limit = 0xff;
      sgid_index = cfg.gid_idx;
    } in
    record zero_attr {
      qp_state = qps_rtr;
      path_mtu = 1;
      dest_qp_num = remote_qpn;
      max_dest_rd_atomic = 16;
      min_rnr_timer = 0x12;
      ah_attr = if is_neg cfg.gid_idx then local else global;
    }

abbrev pub rts_attr : QpAttr
rts_attr = record zero_attr {
  qp_state = qps_rts;
  timeout = 0x12;
  retry_cnt = 6;
  rnr_retry = 0;
  sq_psn = 0;
  max_rd_atomic = 16;
}

module _ (env : Env) where
  -- `if (p) if (destroy(p)) rc = 1;`: whether the object was there and could not be destroyed
  abbrev pub destroy_failed : Option ℕ → (ℕ → Call) → Exec Bool
  destroy_failed none c = pure false
  destroy_failed (some p) c = do rc ← perform (c p) env.rc; pure (not (is_zero rc))

  abbrev qp_ptr : Option Qp → Option ℕ
  qp_ptr none = none
  qp_ptr (some q) = some q.ptr

  -- ScaleRouter::resources_destroy; the result is whether rc is 1.
  unfoldable pub resources_destroy : ℕ → Exec Bool
  resources_destroy p = do
    c ← deref p
    qp_failed ← destroy_failed (qp_ptr c.qp) ibv_destroy_qp
    cq_failed ← destroy_failed c.cq ibv_destroy_cq
    channel_failed ← destroy_failed c.ev_channel ibv_destroy_comp_channel
    store p (if channel_failed then c else record c { ev_channel = none })
    pure (qp_failed || cq_failed)

  unfoldable pub create_qp_on : ℕ → Option ℕ → Exec Bool
  unfolding resources_destroy deref store ◌>>=◌
  create_qp_on p none = do resources_destroy p; pure true
  create_qp_on p (some cq) = do
    qp ← perform (ibv_create_qp cq) env.create_qp
    c ← deref p
    store p (record c { qp = qp })
    elim qp [ none ↦ do resources_destroy p; pure true | some q ↦ pure false ]

  -- ScaleRouter::resources_create; the result is whether rc is 1.
  unfoldable pub resources_create : ℕ → Exec Bool
  unfolding resources_destroy create_qp_on deref store ◌>>=◌
  resources_create p = do
    cq ← perform (ibv_create_cq max_cq_size) env.create_cq
    c ← deref p
    store p (record c { cq = cq })
    create_qp_on p cq

  -- ScaleRouter::modify_qp_to_init
  unfoldable pub modify_qp_to_init : Qp → Exec ℤ
  unfolding ◌>>=◌
  modify_qp_to_init qp = do
    cfg ← gets (λ s. s.config)
    perform (ibv_modify_qp qp.ptr (init_attr cfg) init_mask) env.rc

  -- ScaleRouter::modify_qp_to_rtr
  unfoldable pub modify_qp_to_rtr : Qp → ℕ → ℕ → Gid → Exec ℤ
  unfolding ◌>>=◌
  modify_qp_to_rtr qp remote_qpn dlid dgid = do
    cfg ← gets (λ s. s.config)
    perform (ibv_modify_qp qp.ptr (rtr_attr cfg remote_qpn dlid dgid) rtr_mask) env.rc

  -- ScaleRouter::modify_qp_to_rts
  unfoldable pub modify_qp_to_rts : Qp → Exec ℤ
  modify_qp_to_rts qp = perform (ibv_modify_qp qp.ptr rts_attr rts_mask) env.rc

  -- ScaleRouter::modify_qp_to_ready: the first code that is not 0 is returned at once.
  unfoldable pub modify_qp_to_ready : ConnInfo → Qp → Exec ℤ
  modify_qp_to_ready info qp = do
    rc ← modify_qp_to_init qp
    if not (is_zero rc) then pure rc else do
      let key = info.conn_id.conn_key
      rc2 ← modify_qp_to_rtr qp key.dst_qpn info.host_lid.dst_lid key.host_key.dst_gid
      if not (is_zero rc2) then pure rc2 else modify_qp_to_rts qp
