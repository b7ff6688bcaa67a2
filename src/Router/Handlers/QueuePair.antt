-- ===== src/Router/Handlers/QueuePair.antt =====
-- scalerouter/scalerouter.cpp: IBV_CREATE_QP, IBV_MODIFY_QP, IBV_DESTROY_CQ and IBV_DESTROY_QP of
-- `handle_process`.
use cs252aproject.Base.{
  ℕ, Option, none, some, List, Bool, true, false, not, nat_beq, if◌then◌else◌, nat_eq,
}
use cs252aproject.Base.Int.{ℤ, is_zero}
use cs252aproject.Base.Map.{find, insert, erase}
use cs252aproject.Common.Keys.{HostKey, ConnInfo, host_key_eq}
use cs252aproject.Common.Messages.{
  IbvCreateQpReq, IbvModifyQpReq, IbvDestroyQpReq, Response, ibv_create_qp, ibv_modify_qp,
  ibv_destroy_cq, ibv_destroy_qp, ibv_create_qp_rsp, ibv_modify_qp_rsp, ibv_destroy_cq_rsp,
  ibv_destroy_qp_rsp,
}
use cs252aproject.Router.State.{ConnResources, Env, Info, Operation, get_if_addr}
use cs252aproject.Router.Exec.{
  Exec, pure, fail, lift, or_fail, killed, undefined, gets, modify, perform, lock, unlock, hostmap,
  cq_qp, src_qp, deref, store, free, lock_conn, unlock_conn, non_null, when, ◌>>=◌, ◌>>◌,
}
use cs252aproject.Router.Wire.{read_body}
use cs252aproject.Router.Resources.{resources_destroy, modify_qp_to_ready}
use cs252aproject.Router.Remote.{update_dst_router, await_dst}
use cs252aproject.Router.Handlers.Attach.{attach_host, count_down}

-- What IBV_MODIFY_QP fills in of its ConnInfo; `src_lid` is left uninitialised, and nobody reads it.
abbrev pub conn_info : HostKey → ℕ → ℕ → ℕ → ℕ → ConnInfo
conn_info key src_qpn dst_qpn dst_lid process_id = record {
  conn_id = record {
    conn_key = record { host_key = key; src_qpn = src_qpn; dst_qpn = dst_qpn };
    process_id = process_id;
  };
  host_lid = record { src_lid = 0; dst_lid = dst_lid };
}

-- A completion queue takes part in one queue pair only.
unfoldable pub claim_cq : ℕ → ℕ → Exec (Unit {0})
unfolding lock unlock ◌>>=◌
claim_cq cq qp = do
  lock cq_qp
  r ← gets (λ s. find s.cq_qp_map cq)
  elim r [
    | some other ↦ do unlock cq_qp; fail killed
    | none ↦ do modify (λ s. record s { cq_qp_map = insert s.cq_qp_map cq qp }); unlock cq_qp
  ]

-- Both branches of the source assign.
unfoldable pub assign_src_qp : ℕ → HostKey → Exec (Unit {0})
unfolding lock unlock ◌>>=◌
assign_src_qp handle key = do
  lock src_qp
  modify (λ s. record s { src_qp_map = insert s.src_qp_map handle key })
  unlock src_qp

-- The object of a host key; where there is none, the mutex of the map stays locked.
unfoldable pub find_host_leaky : HostKey → Exec ℕ
unfolding lock unlock ◌>>=◌
find_host_leaky key = do
  lock hostmap
  entry ← gets (λ s. find s.host_map key)
  slot ← lift (or_fail entry killed)
  p ← lift (or_fail slot killed)
  unlock hostmap
  pure p

-- The entry of a completion queue is erased; the result is whether there was one.
unfoldable pub drop_cq : ℕ → Exec Bool
unfolding lock unlock ◌>>=◌
drop_cq cq = do
  lock cq_qp
  r ← gets (λ s. find s.cq_qp_map cq)
  modify
      (λ s. record s { cq_qp_map = elim r [ none ↦ s.cq_qp_map | some qp ↦ erase s.cq_qp_map cq ] })
  unlock cq_qp
  pure (elim r [ none ↦ false | some qp ↦ true ])

-- case IBV_DESTROY_CQ
unfoldable pub handle_ibv_destroy_cq : ℕ → ℤ → ℕ → Exec Response
handle_ibv_destroy_cq process_id n cq = do
  read_body n ibv_destroy_cq
  found ← drop_cq cq
  pure (ibv_destroy_cq_rsp (if found then 1 else 0))

-- The handle of a queue pair is taken out of the map; the result is its host key.
unfoldable pub take_src_qp : ℕ → Exec (Option HostKey)
unfolding lock unlock ◌>>=◌
take_src_qp handle = do
  lock src_qp
  r ← gets (λ s. find s.src_qp_map handle)
  modify (λ s. elim r [ none ↦ s | some key ↦ record s { src_qp_map = erase s.src_qp_map handle } ])
  unlock src_qp
  pure r

-- One user of a host key less, with the map locked: the result is the address of the object if
-- that was the last one and its entry is erased.
unfoldable pub drop_user : HostKey → ℕ → Exec (Option ℕ)
unfolding deref store ◌>>=◌
drop_user key p = do
  c ← deref p
  let left = count_down c.ref_cnt
  store p (record c { ref_cnt = left })
  when (nat_beq left 0) (modify (λ s. record s { host_map = erase s.host_map key }))
  pure (if nat_beq left 0 then some p else none)

-- Whether the host key had an entry, and the object to destroy.
unfoldable pub release_host : HostKey → Exec (Bool × Option ℕ)
unfolding lock unlock drop_user ◌>>=◌
release_host key = do
  lock hostmap
  entry ← gets (λ s. find s.host_map key)
  elim entry [
    | none ↦ do unlock hostmap; pure (false, none)
    | some slot ↦ elim slot [
      | none ↦ do unlock hostmap; fail killed
      | some p ↦ do last ← drop_user key p; unlock hostmap; pure (true, last)
    ]
  ]

-- A queue pair that is only created (status 0) is brought to RTS (status 4), under the mutex.
unfoldable pub bring_up : Env → ConnInfo → ℕ → ConnResources → Exec (Unit {0})
bring_up env info p c = do
  q ← non_null c.qp
  rc ← modify_qp_to_ready env info q
  when (is_zero rc) (store p (record c { status = 4 }))

-- Whether the queue pair of the object is ready to send in the end
unfoldable pub make_ready : Env → ConnInfo → ℕ → Exec Bool
make_ready env info p = do
  c ← lock_conn p
  when (nat_beq c.status 0) (bring_up env info p c)
  now ← deref p
  unlock_conn p
  pure (nat_beq now.status 4)

module _ (env : Env) where
  -- case IBV_CREATE_QP
  unfoldable pub handle_ibv_create_qp : ℕ → ℤ → IbvCreateQpReq → Exec Response
  handle_ibv_create_qp process_id n req = do
    read_body n ibv_create_qp
    claim_cq req.send_cq_handle req.qp_handle
    addr ← perform get_if_addr env.if_addr
    pure (ibv_create_qp_rsp addr)

  -- case IBV_MODIFY_QP, up to the message to the router of the peer
  unfoldable pub announce_qp : IbvModifyQpReq → HostKey → Exec ℕ
  announce_qp req key = do
    phy_qp_num ← attach_host env key
    assign_src_qp req.src_v_qp_handle key
    sent ← update_dst_router env Operation.insert key.src_gid req.dst_v_qp_num phy_qp_num
    if sent then pure phy_qp_num else fail killed

  -- case IBV_MODIFY_QP
  unfoldable pub handle_ibv_modify_qp : List (List Info) → ℕ → ℤ → IbvModifyQpReq → Exec Response
  handle_ibv_modify_qp arrivals process_id n req = do
    read_body n ibv_modify_qp
    src_gid ← gets (λ s. s.global_res.src_gid)
    let key : HostKey = record { src_gid = src_gid; dst_gid = req.dst_gid }
    phy_qp_num ← announce_qp req key
    dst_phy_qp_num ← await_dst req.dst_gid arrivals
    p ← find_host_leaky key
    ready ← make_ready env (conn_info key phy_qp_num dst_phy_qp_num req.dst_lid process_id) p
    pure (ibv_modify_qp_rsp (if ready then 1 else 0))

  -- conn->qp->qp_num after the queue pair is destroyed: the memory is libibverbs', which may have
  -- made it unreadable.
  unfoldable pub stale_qp_num : Exec ℕ
  stale_qp_num s = (or_fail (env.freed_qp_num s.calls) undefined, s)

  -- The object of a host key that has lost its last user; the result is the value of `flags`. The
  -- number that is sent is read from the queue pair after it is destroyed.
  unfoldable pub destroy_host : ℕ → ℕ → Exec Bool
  destroy_host dst_v_qp_num p = do
    lock_conn p
    failed ← resources_destroy env p
    src_gid ← gets (λ s. s.global_res.src_gid)
    stale ← stale_qp_num
    update_dst_router env Operation.delete src_gid dst_v_qp_num stale
    unlock_conn p
    free p
    pure (not failed)

  -- case IBV_DESTROY_QP
  unfoldable pub handle_ibv_destroy_qp : ℕ → ℤ → IbvDestroyQpReq → Exec Response
  handle_ibv_destroy_qp process_id n req = do
    read_body n ibv_destroy_qp
    r ← take_src_qp req.qp_handle
    flags ← elim r [
      | none ↦ pure false
      | some key ↦ do
        (there, last) ← release_host key
        elim last [ none ↦ pure there | some p ↦ destroy_host req.dst_v_qp_num p ]
    ]
    pure (ibv_destroy_qp_rsp (if flags then 1 else 0))
