-- ===== src/Tests/Instances.antt =====
-- The theorems at the concrete sessions.
use cs252aproject.Base.{◌≡◌, refl, nat_eq, true, List, ◌∷◌, [], ◌++◌}
use cs252aproject.Base.Int.{pos}
use cs252aproject.Base.Map.{find-empty}
use cs252aproject.Common.Messages
use cs252aproject.Common.Keys.{host_key_eq, conn_id_eq}
use cs252aproject.Common.Layout.{req_size, rsp_size}
use cs252aproject.Common.Buffer.{messages-fit, is_device_list}
use cs252aproject.Base.{leb, arith, not}
use cs252aproject.Common.Buffer.{small_buffer}
use cs252aproject.Router.State
use cs252aproject.Router.State.{Router, Info, Operation}
use cs252aproject.Router.Exec.{err, ok, killed, blocked}
use cs252aproject.Router.Handlers.Transfer.{
  all_good, handle_ibv_post_send, send_wr, recv_wr, handle_ibv_post_recv, handle_ibv_poll_cq,
}
use cs252aproject.Router.Handlers.Legacy.{handle_post_send, post_leaky}
use cs252aproject.Router.Handlers.QueuePair.{claim_cq, drop_cq}
use cs252aproject.Router.Remote.{await_dst}
use cs252aproject.Router.Invariant.Defs.{IsServing, Sound}
use cs252aproject.Router.Invariant.Objects.{LiveObject}
use cs252aproject.Router.Invariant.Safety.{
  Reaches, start, session, modify_qp, reg_mr, reached-Sound, booted-Sound,
}
use cs252aproject.Router.Addressing.{
  Posts, post_send-Posts, post_send-routes, post_recv-Posts, post_send-unmapped,
}
use cs252aproject.Router.Rendezvous.{await_dst-returns, is_ok}
use cs252aproject.Router.Completions.{all_good_lem, claim_cq-once, poll_cq-Polls, Polls}
use cs252aproject.Common.Keys.{ConnId, ConnInfo}
use cs252aproject.Router.Leaks.{after_sends, after_posts, post_send-leaks, post_leaky-leaks}
use cs252aproject.Tests.World.{
  world, refusing, world-Creates, fresh, connect, register, send_req, recv_req, poll_req,
  own_config, own_resources, peer_gid,
}
use cs252aproject.Tests.Sessions.{
  registered, peer_key, connected_object, connected_entry, connected_user, registered_offset,
  own_object,
}

abbrev fresh-Sound : Sound fresh
fresh-Sound = booted-Sound own_config own_resources

abbrev reaches : Reaches world fresh registered
reaches =
    session (session start connect (modify_qp (λ p r e. absurd (cc (find-empty peer_key, e.0)))))
      register reg_mr

reached-Sound_example : Sound registered
reached-Sound_example = reached-Sound world fresh registered world-Creates fresh-Sound reaches

abbrev pub registered-Sound : Sound registered
registered-Sound = reached-Sound world fresh registered world-Creates fresh-Sound reaches

abbrev own_object-IsServing : IsServing own_object
own_object-IsServing = record {
  free = refl;
  qp = record { ptr = 1002; qp_num = 77 };
  has_qp = refl;
  cq = 1001;
  has_cq = refl;
  used = omega arith;
  fits = omega arith;
}

abbrev pub live : LiveObject registered 1
live = record {
  sound = registered-Sound;
  key = peer_key;
  object = own_object;
  serves = (connected_entry, connected_object);
  serving = own_object-IsServing;
}

post_send-Posts_example :
    Posts world
      (State.ibv_post_send 1002 (send_wr send_req 0x2000_0000))
      (Messages.ibv_post_send_rsp 7)
      registered
      (handle_ibv_post_send world 7 (pos 56) send_req registered)
post_send-Posts_example =
    post_send-Posts world 7 (pos 56) registered 1 0x2000_0000 send_req refl live registered_offset
      connected_user

post_send-routes_example :
    Posts world
      (State.ibv_post_send 1002 (record (send_wr send_req 0x2000_0000) {
        sge = record { addr = 0x7000_0010; length = 64; lkey = 31 };
      }))
      (Messages.ibv_post_send_rsp 7)
      registered
      (handle_ibv_post_send world 7 (pos 56) send_req registered)
post_send-routes_example =
    post_send-routes world 7 (pos 56) registered 1 0x2000_0000 send_req refl live 0x7000_0000
      0x5000_0000 16 (omega arith) refl refl registered_offset connected_user

post_recv-Posts_example :
    Posts refusing
      (State.ibv_post_recv 1002 (recv_wr recv_req 0x2000_0000))
      (Messages.ibv_post_recv_rsp 7)
      registered
      (handle_ibv_post_recv refusing 7 (pos 40) recv_req registered)
post_recv-Posts_example =
    post_recv-Posts refusing 7 (pos 40) registered 1 0x2000_0000 recv_req refl refl live
      registered_offset connected_user

post_send-unmapped_example :
    ((handle_ibv_post_send world 7 (pos 56) send_req fresh).0 ≡ err killed)
    × ((handle_ibv_post_send world 7 (pos 56) send_req fresh).1.calls ≡ [])
post_send-unmapped_example =
    post_send-unmapped world 7 (pos 56) fresh send_req refl refl (find-empty 31)

abbrev early : List Info
early = record { op = Operation.delete; gid = peer_gid; qp_num = 3 } ∷ []

await_dst-returns_example :
    is_ok
      (await_dst peer_gid
        ([]
          ++ (early ++ record { op = Operation.insert; gid = peer_gid; qp_num = 88 } ∷ [])
            ∷ early
            ∷ [])
        fresh).0
    ≡ true
await_dst-returns_example = await_dst-returns peer_gid early [] 88 tt [] (early ∷ []) fresh refl

abbrev one_wc : List State.Wc
one_wc = record { wr_id = 7; status = 0; opcode = 0; vendor_err = 0 } ∷ []

claim_cq-once_example :
    ((claim_cq 5 6 fresh).0 ≡ ok tt)
    × ((claim_cq 5 8 (claim_cq 5 6 fresh).1).0 ≡ err killed)
    × ((claim_cq 5 8 (drop_cq 5 (claim_cq 5 6 fresh).1).1).0 ≡ ok tt)
claim_cq-once_example = claim_cq-once 5 6 8 fresh refl (find-empty 5)

poll_cq-Polls_example :
    Polls world 7
      (pos 12)
      1
      poll_req
      refl
      refl
      registered
      (handle_ibv_poll_cq world 7 (pos 12) poll_req registered)
      1001
poll_cq-Polls_example =
    poll_cq-Polls world 7 (pos 12) 1 poll_req refl refl registered live connected_user

abbrev own_wc : State.Wc
own_wc = record { wr_id = 7; status = 0; opcode = 0; vendor_err = 0 }

all_good_lem_example : (own_wc.status ≡ 0) × (own_wc.wr_id ≡ 7)
unfolding all_good
all_good_lem_example = all_good_lem 7 1 one_wc 0 own_wc refl (omega arith) refl

abbrev own_conn : ConnId
own_conn = record {
  conn_key = record { host_key = peer_key; src_qpn = 77; dst_qpn = 88 };
  process_id = 7;
}

abbrev own_info : ConnInfo
own_info = record { conn_id = own_conn; host_lid = record { src_lid = 3; dst_lid = 4 } }

abbrev own_qp : State.Qp
own_qp = record { ptr = 1002; qp_num = 77 }

abbrev legacy_send : Messages.PostSendReq
legacy_send = record {
  conn_id = own_conn;
  opcode = pos 2;
  wr_id = pos 7;
  local_addr = 0x7000_0000;
  length = 64;
  lkey = 31;
  remote_addr = 0;
  rkey = 0;
}

abbrev other_send : Messages.PostSendReq
other_send = record legacy_send { conn_id = record own_conn { process_id = 9 }; wr_id = pos 9 }

post_send-leaks_example :
    ((handle_post_send world 7 (pos 200) legacy_send fresh).0 ≡ err killed)
    × ((handle_post_send world 9 (pos 200) other_send (
          after_sends world
            (record { process_id = 8; body_read = pos 200; req = legacy_send } ∷ [])
            (handle_post_send world 7 (pos 200) legacy_send fresh).1)).0
        ≡ err blocked)
post_send-leaks_example =
    post_send-leaks world 7 9 (pos 200) (pos 200) legacy_send other_send
      (record { process_id = 8; body_read = pos 200; req = legacy_send } ∷ []) fresh (refl, refl)
      (refl, refl) refl (find-empty own_conn)

post_leaky-leaks_example :
    (post_leaky refusing 1
      (λ q. State.ibv_post_send q (send_wr send_req 0))
      (after_posts refusing 1
        ((λ q. State.ibv_post_recv q (recv_wr recv_req 0)) ∷ [])
        (post_leaky refusing 1 (λ q. State.ibv_post_recv q (recv_wr recv_req 0)) registered).1)).0
    ≡ err blocked
post_leaky-leaks_example =
    post_leaky-leaks refusing 1 (λ q. State.ibv_post_recv q (recv_wr recv_req 0))
      (λ q. State.ibv_post_send q (send_wr send_req 0))
      ((λ q. State.ibv_post_recv q (recv_wr recv_req 0)) ∷ []) registered own_object own_qp
      connected_object refl refl refl

messages-fit_example :
    (leb (req_size Messages.ibv_get_device_list) small_buffer ≡ true)
    × (leb (rsp_size Messages.ibv_get_device_list) small_buffer
        ≡ not (is_device_list Messages.ibv_get_device_list))
messages-fit_example = messages-fit Messages.ibv_get_device_list
