-- ===== src/Tests/Isolation.antt =====
-- Two clients on one physical queue pair: the second connects and leaves, the first stays connected.
use mathlib.Core.Path.{subst}
use cs252aproject.Base.{ℕ, ◌≡◌, ◌+◌, ◌<◌, sym, some, nat_eq, arith}
use cs252aproject.Common.Messages
use cs252aproject.Base.Map.{find}
use cs252aproject.Common.Keys.{host_key_eq}
use cs252aproject.Router.State.{Router, ConnResources}
use cs252aproject.Router.Dispatch.{Session, handle_process}
use cs252aproject.Router.Invariant.Defs.{core_of}
use cs252aproject.Router.Invariant.Attach.{Roomy}
use cs252aproject.Router.Invariant.Handshake.{HasRoom}
use cs252aproject.Router.Invariant.Safety
use cs252aproject.Router.Isolation.Sessions.{Passes, begin, session, IsRouted, passed-IsRouted}
use cs252aproject.Tests.World.{
  world, world-Creates, session_of, modify_req, peer_gid, destroy_req, send,
}
use cs252aproject.Tests.Sessions.{
  registered, peer_key, connected_user, registered_gid, connected_entry, connected_object,
  own_object,
}
use cs252aproject.Tests.Instances.{registered-Sound}

abbrev join_req : Messages.IbvModifyQpReq
join_req = record modify_req { src_v_qp_handle = 0x8_0001 }

-- The client 8 connects a virtual queue pair to the same peer, and destroys it.
abbrev join : Session
join = record (session_of 36 (Messages.ibv_modify_qp_req join_req)) { process_id = 8 }

abbrev leave : Session
leave =
    record (session_of 8
      (Messages.ibv_destroy_qp_req (record destroy_req { qp_handle = 0x8_0001 }))) {
        process_id = 8;
      }

abbrev joined : Router
joined = (handle_process world join registered).1

abbrev left : Router
left = (handle_process world leave joined).1

abbrev sent : Router
sent = (handle_process world send left).1

roomy : Roomy peer_key (core_of registered)
roomy p r e =
    let here : p ≡ 1 = cc (connected_entry, e.0) in
    let object : r ≡ own_object =
      cc (connected_object, subst (λ q. find registered.conns q ≡ some r) here e.1) in
    subst (λ (o : ConnResources). o.ref_cnt + 1 < 0x1_0000_0000) (sym object) (omega arith)

room : HasRoom join_req registered
room =
    subst (λ g. Roomy (record { src_gid = g; dst_gid = peer_gid }) (core_of registered))
      (sym registered_gid) roomy

passes : Passes world 0x7_0001 registered sent
passes =
    session
      (session
        (session begin join (Safety.modify_qp {r = join_req} room) (λ e. absurd (omega (arith, e))))
        leave Safety.destroy_qp (λ e. absurd (omega (arith, e))))
      send Safety.post_send tt

passed-IsRouted_example :
    (ptr : ℕ) × IsRouted registered 0x7_0001 peer_key ptr × IsRouted sent 0x7_0001 peer_key ptr
passed-IsRouted_example =
    passed-IsRouted world registered sent 0x7_0001 peer_key world-Creates registered-Sound
      connected_user passes
