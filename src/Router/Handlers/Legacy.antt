-- ===== src/Router/Handlers/Legacy.antt =====
-- scalerouter/scalerouter.cpp: the cases of `handle_process` for clients that name connections by
-- ConnId, INIT_RES to DESTROY_RES.
use cs252aproject.Base.{
  ℕ, Option, none, some, List, [], ◌∷◌, Bool, true, false, not, nat_beq, if◌then◌else◌, nat_eq,
  get_or, replicate,
}
use cs252aproject.Base.Int.{ℤ, pos, is_zero, to_unsigned, to_signed}
use cs252aproject.Base.Map.{find, insert, erase}
use cs252aproject.Common.Keys.{HostKey, ConnId, ConnInfo, host_key_eq, conn_id_eq}
use cs252aproject.Common.Messages.{
  RegMrReq, PostSendReq, PostRecvReq, PollCqReq, Response, create_res, reg_mr, setup_conn,
  post_send, post_recv, poll_cq, dereg_mr, destroy_res, init_res_rsp, create_res_rsp, reg_mr_rsp,
  setup_conn_rsp, post_send_rsp, post_recv_rsp, poll_cq_rsp, destroy_res_rsp,
}
use cs252aproject.Router.State
use cs252aproject.Router.State.{Env, Router, ConnResources, ShmPiece, Sge, SendWr, RecvWr, Wc}
use cs252aproject.Router.Exec.{
  Exec, pure, fail, lift, or_fail, killed, undefined, gets, modify, perform, lock, unlock, hostmap,
  connmap, lock_conn, unlock_conn, free, non_null, when, ◌>>=◌, ◌>>◌,
}
use cs252aproject.Router.Wire.{read_body}
use cs252aproject.Router.Resources.{all_access, resources_destroy}
use cs252aproject.Router.Shm.{add_shm_piece, remove_piece}
use cs252aproject.Router.Handlers.Attach.{attach_host}
use cs252aproject.Router.Handlers.QueuePair.{find_host_leaky, make_ready, drop_user}
use cs252aproject.Router.Handlers.Transfer.{all_good, count_of, poll_on, send_signaled, wr_send}

-- The object of a connection; where there is none, the mutex of the map stays locked.
unfoldable pub find_conn_leaky : ConnId → Exec ℕ
unfolding lock unlock ◌>>=◌
find_conn_leaky id = do
  lock connmap
  entry ← gets (λ s. find s.conn_map id)
  slot ← lift (or_fail entry killed)
  p ← lift (or_fail slot killed)
  unlock connmap
  pure p

-- A connection is entered once; where it is there, the mutex of the map stays locked.
unfoldable pub enter_conn : ConnId → ℕ → Exec (Unit {0})
unfolding lock unlock ◌>>=◌
enter_conn id p = do
  lock connmap
  r ← gets (λ s. find s.conn_map id)
  elim r [
    | some other ↦ fail killed
    | none ↦ do modify (λ s. record s { conn_map = insert s.conn_map id (some p) }); unlock connmap
  ]

unfoldable pub drop_conn : ConnId → Exec (Unit {0})
unfolding lock unlock ◌>>=◌
drop_conn id = do
  lock connmap
  modify (λ s. record s {
    conn_map = elim (find s.conn_map id) [ none ↦ s.conn_map | some p ↦ erase s.conn_map id ];
  })
  unlock connmap

-- One user of a host key less; the result is the object to destroy. Where the entry is NULL, the
-- mutex of the map stays locked.
unfoldable pub release_host_leaky : HostKey → Exec (Option ℕ)
unfolding lock unlock drop_user ◌>>=◌
release_host_leaky key = do
  lock hostmap
  entry ← gets (λ s. find s.host_map key)
  elim entry [
    | none ↦ do unlock hostmap; pure none
    | some slot ↦ do
      p ← lift (or_fail slot killed)
      last ← drop_user key p
      unlock hostmap
      pure last
  ]

abbrev find_piece : ℕ → List ShmPiece → Option ShmPiece
find_piece self [] = none
find_piece self (sp ∷ v) = if nat_beq sp.self self then some sp else find_piece self v

-- The `ShmPiece` at an address
abbrev piece_at : ℕ → List (ℕ × List ShmPiece) → Option ShmPiece
piece_at self [] = none
piece_at self ((process_id, v) ∷ rest) = elim (find_piece self v) [
  | none ↦ piece_at self rest
  | some sp ↦ some sp
]

abbrev send_wr : PostSendReq → SendWr
send_wr req =
    let opcode = to_unsigned 32 req.opcode in
    let is_send = nat_beq opcode wr_send in
    record {
      wr_id = to_unsigned 64 req.wr_id;
      sge = record {
        addr = req.local_addr;
        length = cs252aproject.Base.◌%◌ req.length 0x1_0000_0000;
        lkey = req.lkey;
      };
      opcode = opcode;
      send_flags = send_signaled;
      remote_addr = if is_send then 0 else req.remote_addr;
      rkey = if is_send then 0 else req.rkey;
    }

abbrev recv_wr : PostRecvReq → RecvWr
recv_wr req = record {
  wr_id = to_unsigned 64 req.wr_id;
  sge = record {
    addr = req.local_addr;
    length = cs252aproject.Base.◌%◌ req.length 0x1_0000_0000;
    lkey = req.lkey;
  };
}

-- case INIT_RES
unfoldable pub handle_init_res : Exec Response
unfolding gets
handle_init_res = gets (λ s. init_res_rsp s.global_res.src_gid s.global_res.src_lid)

module _ (env : Env) where
  -- case CREATE_RES
  unfoldable pub handle_create_res : ℤ → HostKey → Exec Response
  handle_create_res n key = do
    read_body n create_res
    qpn ← attach_host env key
    pure (create_res_rsp qpn)

  -- case REG_MR
  unfoldable pub handle_reg_mr : ℕ → ℤ → RegMrReq → Exec Response
  handle_reg_mr process_id n req = do
    read_body n reg_mr
    let mem = req.local_mem
    piece ←
        if nat_beq (get_or mem.shm_name 0 0) 0
        then add_shm_piece env process_id (to_signed 32 mem.length)
        else pure none
    sp ← lift (or_fail piece killed)
    addr ← non_null sp.ptr
    reg ← perform (State.ibv_reg_mr addr sp.size all_access) env.reg_mr
    mr ← lift (or_fail reg killed)
    pure (
        reg_mr_rsp (record mem {
          router_addr = addr;
          shm_piece = sp.self;
          shm_name = sp.name;
          mr = mr.ptr;
          lkey = mr.lkey;
          rkey = mr.rkey;
        }))

  -- case SETUP_CONN
  unfoldable pub handle_setup_conn : ℕ → ℤ → ConnInfo → Exec Response
  handle_setup_conn process_id n info = do
    read_body n setup_conn
    p ← find_host_leaky info.conn_id.conn_key.host_key
    ready ← make_ready env info p
    enter_conn (record info.conn_id { process_id = process_id }) p
    pure (setup_conn_rsp process_id (if ready then some 4 else none))

  -- ibv_post_send or ibv_post_recv; where it fails, the object's mutex stays locked.
  unfoldable pub post_leaky : ℕ → (ℕ → State.Call) → Exec (Unit {0})
  unfolding lock_conn unlock_conn ◌>>=◌
  post_leaky p request = do
    c ← lock_conn p
    q ← non_null c.qp
    rc ← perform (request q.ptr) env.rc
    if not (is_zero rc) then fail killed else unlock_conn p

  -- case POST_SEND
  unfoldable pub handle_post_send : ℕ → ℤ → PostSendReq → Exec Response
  handle_post_send process_id n req = do
    read_body n post_send
    when (not (nat_beq (to_unsigned 64 req.wr_id) process_id)) (fail killed)
    p ← find_conn_leaky req.conn_id
    post_leaky p (λ qp. State.ibv_post_send qp (send_wr req))
    pure (post_send_rsp process_id)

  -- case POST_RECV
  unfoldable pub handle_post_recv : ℕ → ℤ → PostRecvReq → Exec Response
  handle_post_recv process_id n req = do
    read_body n post_recv
    when (not (nat_beq (to_unsigned 64 req.wr_id) process_id)) (fail killed)
    p ← find_conn_leaky req.conn_id
    post_leaky p (λ qp. State.ibv_post_recv qp (recv_wr req))
    pure (post_recv_rsp process_id)

  -- case POLL_CQ
  unfoldable pub handle_poll_cq : ℕ → ℤ → PollCqReq → Exec Response
  handle_poll_cq process_id n req = do
    read_body n poll_cq
    p ← find_conn_leaky req.conn_id
    (poll_result, wc) ← poll_on env p req.count
    if all_good process_id (count_of poll_result) wc
        then pure (poll_cq_rsp process_id poll_result)
        else fail killed

  -- case DEREG_MR, which answers with the struct of REG_MR
  unfoldable pub handle_dereg_mr : ℤ → RegMrReq → Exec Response
  handle_dereg_mr n req = do
    read_body n dereg_mr
    let mem = req.local_mem
    rc ← perform (State.ibv_dereg_mr mem.mr) env.rc
    when (not (is_zero rc)) (fail killed)
    piece ← gets (λ s. piece_at mem.shm_piece s.shm_map.entries)
    sp ← lift (or_fail piece undefined)
    remove_piece env sp
    pure (
        reg_mr_rsp (record {
          conn_id = 0;
          client_addr = 0;
          length = 0;
          router_addr = 0;
          shm_piece = 0;
          shm_name = replicate 100 0;
          shm_fd = pos 0;
          mr = 0;
          lkey = 0;
          rkey = 0;
        }))

  -- The object of a host key that has lost its last user
  unfoldable pub destroy_conn : Option ℕ → Exec (Unit {0})
  unfolding lock_conn unlock_conn resources_destroy free ◌>>=◌
  destroy_conn none = pure tt
  destroy_conn (some p) = do lock_conn p; resources_destroy env p; unlock_conn p; free p

  -- case DESTROY_RES
  unfoldable pub handle_destroy_res : ℤ → ConnId → Exec Response
  handle_destroy_res n id = do
    read_body n destroy_res
    drop_conn id
    last ← release_host_leaky id.conn_key.host_key
    destroy_conn last
    pure
        (destroy_res_rsp (record id { conn_key = record id.conn_key { src_qpn = 0; dst_qpn = 0 } }))
