-- ===== src/Router/Handlers/Transfer.antt =====
-- scalerouter/scalerouter.cpp: IBV_POST_SEND, IBV_POST_RECV and IBV_POLL_CQ of `handle_process`.
use Prim.Native.Nat.{zero, suc}
use cs252aproject.Base.{
  ℕ, ◌%◌, ◌^◌, Option, none, some, List, [], ◌∷◌, Bool, true, false, not, nat_beq, if◌then◌else◌,
  nat_eq, get_or, ltb,
}
use cs252aproject.Base.Int.{ℤ, pos, negsuc, is_zero, to_unsigned}
use cs252aproject.Base.Map.{find}
use cs252aproject.Common.Keys.{host_key_eq}
use cs252aproject.Common.Messages.{
  IbvPostSendReq, IbvPostRecvReq, IbvPollCqReq, Response, ibv_post_send, ibv_post_recv, ibv_poll_cq,
  ibv_post_send_rsp, ibv_post_recv_rsp, ibv_poll_cq_rsp,
}
use cs252aproject.Router.State
use cs252aproject.Router.State.{Env, Router, ConnResources, Qp, Sge, SendWr, RecvWr, Wc}
use cs252aproject.Router.Exec.{
  Exec, pure, fail, killed, undefined, gets, perform, lkey_offset, hostmap, src_qp, locked_find,
  lock_conn, unlock_conn, non_null, when, ◌>>=◌, ◌>>◌,
}
use cs252aproject.Router.Wire.{read_body}
use cs252aproject.Router.Handlers.Memory.{translate}

abbrev pub wr_send : ℕ
wr_send = 2

abbrev pub send_signaled : ℕ
send_signaled = 2

abbrev pub join : {A : Type 0} → Option (Option A) → Option A
join none = none
join (some o) = o

-- The object that serves a virtual queue pair: handle, host key, object.
unfoldable pub find_conn : ℕ → Exec ℕ
find_conn handle = do
  key ← locked_find src_qp (λ s. find s.src_qp_map handle)
  locked_find hostmap (λ s. join (find s.host_map key))

-- sge.length is a uint32_t.
abbrev pub local_sge : ℕ → ℕ → ℕ → ℕ → Sge
local_sge client_addr offset length lkey = record {
  addr = translate client_addr offset;
  length = length % 2 ^ 32;
  lkey = lkey;
}

abbrev pub send_wr : IbvPostSendReq → ℕ → SendWr
send_wr req offset =
    let opcode = to_unsigned 32 req.opcode in
    let is_send = nat_beq opcode wr_send in
    record {
      wr_id = to_unsigned 64 req.wr_id;
      sge = local_sge req.client_addr offset req.length req.lkey;
      opcode = opcode;
      send_flags = send_signaled;
      remote_addr = if is_send then 0 else req.remote_router_addr;
      rkey = if is_send then 0 else req.rkey;
    }

abbrev pub recv_wr : IbvPostRecvReq → ℕ → RecvWr
recv_wr req offset = record {
  wr_id = to_unsigned 64 req.wr_id;
  sge = local_sge req.client_addr offset req.length req.lkey;
}

abbrev pub zero_wc : Wc
zero_wc = record { wr_id = 0; status = 0; opcode = 0; vendor_err = 0 }

-- `for (i = 0; i < poll_result; i++)` over `wc`: whether every completion passes both tests
unfoldable pub all_good : ℕ → ℕ → List Wc → Bool
all_good process_id zero wc = true
all_good process_id (suc n) [] =
    let rest = all_good process_id n [] in if nat_beq zero_wc.wr_id process_id then rest else false
all_good process_id (suc n) (w ∷ wc) =
    let rest = all_good process_id n wc in
    if not (nat_beq w.status 0)
    then false
    else if not (nat_beq w.wr_id process_id)
    then false
    else rest

abbrev pub count_of : ℤ → ℕ
count_of (pos n) = n
count_of (negsuc n) = 0

module _ (env : Env) where
  -- ibv_post_send or ibv_post_recv under the object's mutex
  unfoldable pub post_on : ℕ → (ℕ → State.Call) → Exec (Unit {0})
  unfolding lock_conn unlock_conn ◌>>=◌
  post_on p request = do
    c ← lock_conn p
    q ← non_null c.qp
    rc ← perform (request q.ptr) env.rc
    unlock_conn p
    when (not (is_zero rc)) (fail killed)

  -- case IBV_POST_SEND
  unfoldable pub handle_ibv_post_send : ℕ → ℤ → IbvPostSendReq → Exec Response
  handle_ibv_post_send process_id n req = do
    read_body n ibv_post_send
    offset ← locked_find lkey_offset (λ s. find s.lkey_offset_map req.lkey)
    p ← find_conn req.qp_handle
    post_on p (λ qp. State.ibv_post_send qp (send_wr req offset))
    pure (ibv_post_send_rsp process_id)

  -- case IBV_POST_RECV
  unfoldable pub handle_ibv_post_recv : ℕ → ℤ → IbvPostRecvReq → Exec Response
  handle_ibv_post_recv process_id n req = do
    read_body n ibv_post_recv
    offset ← locked_find lkey_offset (λ s. find s.lkey_offset_map req.lkey)
    when (not (nat_beq (to_unsigned 64 req.wr_id) process_id)) (fail killed)
    p ← find_conn req.qp_handle
    post_on p (λ qp. State.ibv_post_recv qp (recv_wr req offset))
    pure (ibv_post_recv_rsp process_id)

  -- `wc[0]` of an array with no entry is out of bounds.
  abbrev pub poll_rsp : ℤ → ℤ → List Wc → Exec Response
  poll_rsp num_entries poll_result wc =
      let first = get_or wc 0 zero_wc in
      if ltb 0 (count_of num_entries)
      then pure (
          ibv_poll_cq_rsp (record {
            count = poll_result;
            wr_id = first.wr_id;
            opcode = first.opcode;
            status = first.status;
            vendor_err = first.vendor_err;
          }))
      else fail undefined

  -- The result and the completions of ibv_poll_cq under the object's mutex
  unfoldable pub poll_on : ℕ → ℤ → Exec (ℤ × List Wc)
  unfolding lock_conn unlock_conn ◌>>=◌
  poll_on p num_entries = do
    c ← lock_conn p
    cq ← non_null c.cq
    rc ← perform (State.ibv_poll_cq cq num_entries) env.rc
    wc ← gets (λ s. env.completions s.calls)
    unlock_conn p
    pure (rc, wc)

  -- case IBV_POLL_CQ
  unfoldable pub handle_ibv_poll_cq : ℕ → ℤ → IbvPollCqReq → Exec Response
  handle_ibv_poll_cq process_id n req = do
    read_body n ibv_poll_cq
    p ← find_conn req.qp_handle
    (poll_result, wc) ← poll_on p req.num_entries
    if all_good process_id (count_of poll_result) wc
        then poll_rsp req.num_entries poll_result wc
        else fail killed
