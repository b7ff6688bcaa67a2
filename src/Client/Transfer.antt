-- ===== src/Client/Transfer.antt =====
-- libscale/verbs.c: post_send, post_recv and poll_cq.
use cs252aproject.Base.{ℕ, Option, none, some, not, nat_beq, ltb, if◌then◌else◌, get_elem?}
use cs252aproject.Base.Int.{ℤ, pos, negsuc, to_signed}
use cs252aproject.Common.Messages
use cs252aproject.Common.Messages.{Response, IbvPostSendReq, IbvPostRecvReq, IbvPollCqReq}
use cs252aproject.Client.State.{
  Process, Transport, overrun, garbled, Verb, done_with, stop, reads, request, handle_of, low_word,
  cq_qp_map_len, ◌>>=◌,
}
use cs252aproject.Client.Queue.{Cq, ScaleQp}

-- `struct ibv_send_wr` with its one `ibv_sge`
pub record ClientSendWr : Type 0 where
  pub wr_id : ℕ
  pub addr : ℕ
  pub length : ℕ
  pub lkey : ℕ
  pub opcode : ℕ
  pub remote_addr : ℕ
  pub rkey : ℕ

-- `struct ibv_recv_wr` with its one `ibv_sge`
pub record ClientRecvWr : Type 0 where
  pub wr_id : ℕ
  pub addr : ℕ
  pub length : ℕ
  pub lkey : ℕ

-- The fields of `struct ibv_wc` that poll_cq writes
pub record ClientWc : Type 0 where
  pub status : ℕ
  pub opcode : ℕ
  pub wr_id : ℕ

abbrev pub ibv_wr_send : ℕ
ibv_wr_send = 2

-- The request of post_send; `wr_id` is a uint64_t that becomes an int.
abbrev pub send_request : ScaleQp → ClientSendWr → IbvPostSendReq
send_request qp wr =
    let is_send = nat_beq wr.opcode ibv_wr_send in
    record {
      qp_handle = qp.handle;
      client_addr = wr.addr;
      opcode = pos wr.opcode;
      wr_id = to_signed 32 wr.wr_id;
      lkey = wr.lkey;
      length = wr.length;
      remote_router_addr = if is_send then 0 else wr.remote_addr;
      rkey = if is_send then 0 else wr.rkey;
    }

abbrev pub recv_request : ScaleQp → ClientRecvWr → IbvPostRecvReq
recv_request qp wr = record {
  qp_handle = qp.handle;
  client_addr = wr.addr;
  lkey = wr.lkey;
  wr_id = to_signed 32 wr.wr_id;
  length = wr.length;
}

-- The request of poll_cq for one completion: the handle of the queue pair is put together from the
-- process id and the entry of the completion queue; none if that is out of bounds.
abbrev pub poll_request : Cq → Process → Option IbvPollCqReq
poll_request cq p =
    let index = low_word cq.handle in
    let entry = if ltb index cq_qp_map_len then get_elem? p.cq_qp_map index else none in
    elim entry [
      | none ↦ none
      | some low ↦
          some
            (record { cq_handle = cq.handle; qp_handle = handle_of p.pid low; num_entries = pos 1 })
    ]

-- The result of a post from the response: its `wr_id` is to be the process id.
abbrev pub after_post : {S : Type 0} → Option ℕ → ℕ → Verb S ℤ
after_post none pid = done_with (negsuc 0)
after_post (some wr_id) pid = done_with (if nat_beq wr_id pid then pos 0 else negsuc 0)

abbrev pub after_send : {S : Type 0} → Option Response → ℕ → Verb S ℤ
after_send none pid = after_post none pid
after_send (some (Messages.ibv_post_send_rsp wr_id)) pid = after_post (some wr_id) pid
after_send (some _) pid = stop garbled

abbrev pub after_recv : {S : Type 0} → Option Response → ℕ → Verb S ℤ
after_recv none pid = after_post none pid
after_recv (some (Messages.ibv_post_recv_rsp wr_id)) pid = after_post (some wr_id) pid
after_recv (some _) pid = stop garbled

-- The result of poll_cq, and what it writes into `*wc`
abbrev pub after_poll : {S : Type 0} → Option Response → Verb S (ℤ × Option ClientWc)
after_poll none = done_with (negsuc 0, none)
after_poll (some (Messages.ibv_poll_cq_rsp r)) =
    done_with (r.count, some (record { status = r.status; opcode = r.opcode; wr_id = r.wr_id }))
after_poll (some _) = stop garbled

module _ {S : Type 0} (t : Transport S) where
  -- post_send
  unfoldable pub post_send : ScaleQp → ClientSendWr → Verb S ℤ
  post_send qp wr = do
    rsp ← request t (Messages.ibv_post_send_req (send_request qp wr))
    pid ← reads (λ p. p.pid)
    after_send rsp pid

  -- post_recv
  unfoldable pub post_recv : ScaleQp → ClientRecvWr → Verb S ℤ
  post_recv qp wr = do
    rsp ← request t (Messages.ibv_post_recv_req (recv_request qp wr))
    pid ← reads (λ p. p.pid)
    after_recv rsp pid

  -- The request of poll_cq
  unfoldable pub poll_with : Option IbvPollCqReq → Verb S (ℤ × Option ClientWc)
  poll_with none = stop overrun
  poll_with (some req) = do rsp ← request t (Messages.ibv_poll_cq_req req); after_poll rsp

  -- poll_cq
  unfoldable pub poll_cq : Cq → ℕ → Verb S (ℤ × Option ClientWc)
  poll_cq cq num_entries =
      if not (nat_beq num_entries 1)
      then done_with (negsuc 0, none)
      else do req ← reads (poll_request cq); poll_with req
