-- ===== src/Client/Queue.antt =====
-- libscale/verbs.c: the completion queues and queue pairs of a client.
use cs252aproject.Base.{ℕ, Option, none, some, Bool, not, nat_beq, ltb, if◌then◌else◌, set}
use cs252aproject.Base.Int.{ℤ, pos, negsuc}
use cs252aproject.Common.Keys.{Gid}
use cs252aproject.Common.Messages
use cs252aproject.Common.Messages.{Response}
use cs252aproject.Client.State.{
  Transport, overrun, garbled, Verb, done_with, stop, reads, updates, request, handle_of, low_word,
  count_on, cq_qp_map_len, released, ◌>>=◌, ◌>>◌,
}

-- struct ibv_cq, as far as the library reads it
pub record Cq : Type 0 where
  pub handle : ℕ
  pub cqe : ℕ

-- enum ibv_qp_state
abbrev pub qps_reset : ℕ
qps_reset = 0

abbrev pub qps_init : ℕ
qps_init = 1

abbrev pub qps_rtr : ℕ
qps_rtr = 2

abbrev pub qps_rts : ℕ
qps_rts = 3

-- struct scale_qp
pub record ScaleQp : Type 0 where
  pub handle : ℕ
  pub qp_num : ℕ
  pub send_cq : Cq
  pub state : ℕ
  pub dst_v_qp_num : ℕ

-- ibv_create_cq
unfoldable pub ibv_create_cq : {S : Type 0} → ℕ → Verb S Cq
ibv_create_cq cqe = do
  handle ← reads (λ p. handle_of p.pid p.cq_refcnt)
  updates (λ p. record p { cq_refcnt = count_on p.cq_refcnt })
  done_with (record { handle = handle; cqe = cqe })

-- The handle of a new queue pair
unfoldable pub next_qp_handle : {S : Type 0} → Verb S ℕ
next_qp_handle = do
  handle ← reads (λ p. handle_of p.pid p.qp_refcnt)
  updates (λ p. record p { qp_refcnt = count_on p.qp_refcnt })
  done_with handle

-- cq_qp_map[cq_handle & 0xFFFF] = low_word
unfoldable pub enter_cq : {S : Type 0} → ℕ → ℕ → Verb S (Unit {0})
enter_cq cq_handle low =
    let index = low_word cq_handle in
    if ltb index cq_qp_map_len
    then updates (λ p. record p { cq_qp_map = set p.cq_qp_map index low })
    else stop overrun

abbrev pub new_qp : ℕ → Cq → ℕ → ScaleQp
new_qp handle send_cq qp_num = record {
  handle = handle;
  qp_num = qp_num;
  send_cq = send_cq;
  state = qps_reset;
  dst_v_qp_num = 0;
}

-- `struct ibv_qp_attr`, as far as ibv_modify_qp reads it; `has_state` is the bit IBV_QP_STATE of
-- the mask.
pub record ModifyAttr : Type 0 where
  pub has_state : Bool
  pub qp_state : ℕ
  pub dlid : ℕ
  pub dest_qp_num : ℕ
  pub dgid : Gid

module _ {S : Type 0} (t : Transport S) where
  -- What a verb makes of the response to `ibv_create_qp`
  abbrev pub after_create : ℕ → Cq → Option Response → Verb S (Option ScaleQp)
  after_create handle send_cq none = done_with none
  after_create handle send_cq (some (Messages.ibv_create_qp_rsp n)) =
      done_with (some (new_qp handle send_cq n))
  after_create handle send_cq (some _) = stop garbled

  -- The request of ibv_create_qp
  unfoldable pub ask_create : ℕ → Cq → Cq → Verb S (Option ScaleQp)
  ask_create handle send_cq recv_cq = do
    rsp ← request t (
        Messages.ibv_create_qp_req (record {
          send_cq_handle = send_cq.handle;
          recv_cq_handle = recv_cq.handle;
          qp_handle = handle;
        }))
    after_create handle send_cq rsp

  -- ibv_create_qp; `none` is NULL.
  unfoldable pub ibv_create_qp : Cq → Cq → Verb S (Option ScaleQp)
  ibv_create_qp send_cq recv_cq =
      if not (nat_beq recv_cq.handle send_cq.handle) then done_with none else do
        handle ← next_qp_handle
        enter_cq send_cq.handle (low_word handle)
        ask_create handle send_cq recv_cq

  -- The result of `ibv_modify_qp` and the object after it; `rsp.flag` is not read.
  abbrev pub after_modify : ScaleQp → ModifyAttr → Option Response → Verb S (ℤ × ScaleQp)
  after_modify qp attr none = done_with (negsuc 0, record qp { dst_v_qp_num = attr.dest_qp_num })
  after_modify qp attr (some (Messages.ibv_modify_qp_rsp flag)) =
      done_with (pos 0, record qp { dst_v_qp_num = attr.dest_qp_num; state = qps_rtr })
  after_modify qp attr (some _) = stop garbled

  -- case IBV_QPS_RTR
  unfoldable pub connect_qp : ScaleQp → ModifyAttr → Verb S (ℤ × ScaleQp)
  connect_qp qp attr = do
    rsp ← request t (
        Messages.ibv_modify_qp_req (record {
          dst_gid = attr.dgid;
          dst_lid = attr.dlid;
          dst_v_qp_num = attr.dest_qp_num;
          src_v_qp_num = qp.qp_num;
          src_v_qp_handle = qp.handle;
          qp_state = attr.qp_state;
        }))
    after_modify qp attr rsp

  -- ibv_modify_qp
  unfoldable pub ibv_modify_qp : ScaleQp → ModifyAttr → Verb S (ℤ × ScaleQp)
  ibv_modify_qp qp attr =
      if not attr.has_state
      then done_with (pos 0, qp)
      else if nat_beq attr.qp_state qps_rtr
      then connect_qp qp attr
      else if nat_beq attr.qp_state qps_init
      then done_with (pos 0, record qp { state = qps_init })
      else if nat_beq attr.qp_state qps_rts
      then done_with (pos 0, record qp { state = qps_rts })
      else done_with (pos 0, qp)

  abbrev pub after_destroy : Option Response → Verb S ℤ
  after_destroy none = done_with (negsuc 0)
  after_destroy (some (Messages.ibv_destroy_qp_rsp flags)) = done_with (released flags)
  after_destroy (some _) = stop garbled

  -- ibv_destroy_qp
  unfoldable pub ibv_destroy_qp : ScaleQp → Verb S ℤ
  ibv_destroy_qp qp = do
    rsp ← request t (
        Messages.ibv_destroy_qp_req
          (record { qp_handle = qp.handle; dst_v_qp_num = qp.dst_v_qp_num }))
    after_destroy rsp

-- ibv_destroy_cq: the request to the router is commented out.
unfoldable pub ibv_destroy_cq : {S : Type 0} → Cq → Verb S ℤ
ibv_destroy_cq cq = done_with (pos 0)
