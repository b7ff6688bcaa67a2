-- ===== src/Tests/Overlap.antt =====
-- Two threads on one physical queue pair that overlap with each other and with whole sessions, and
-- two clients that connect at once.
use cs252aproject.Base.{◌≡◌, ap, refl, nat_eq}
use cs252aproject.Base.Int.{pos}
use cs252aproject.Base.Map.{find-empty}
use cs252aproject.Common.Keys.{HostKey, host_key_eq}
use cs252aproject.Router.State
use cs252aproject.Router.State.{Router}
use cs252aproject.Router.Exec.{ok, err, undefined}
use cs252aproject.Router.Dispatch.{handle_process, crashed}
use cs252aproject.Router.Handlers.Transfer.{find_conn, send_wr}
use cs252aproject.Router.Invariant.Safety
use cs252aproject.Router.Invariant.Safety.{booted-Sound}
use cs252aproject.Router.Isolation.Sessions.{IsRouted}
use cs252aproject.Router.Isolation.Overlap.{
  use_conn, Use, post, holding, idle, System, update, look, session, Reach, start, later,
}
use cs252aproject.Router.Isolation.Held.{find_conn_lem, Uses, reach-Uses}
use cs252aproject.Router.Handlers.QueuePair.{handle_ibv_destroy_qp}
use cs252aproject.Router.Freed.{use_conn-crashes}
use cs252aproject.Router.Race.{publish, publish-crashes}
use cs252aproject.Tests.World.{
  destroy_req, world, send, world-Creates, connect, modify_req, send_req, fresh, own_config,
  own_resources,
}
use cs252aproject.Tests.Sessions.{registered, peer_key, connected_user, connected_entry}
use cs252aproject.Tests.Instances.{registered-Sound, live}

publish-crashes_example : (handle_process world connect (publish peer_key fresh).1).0 ≡ crashed
publish-crashes_example =
    publish-crashes world connect modify_req fresh (booted-Sound own_config own_resources)
      (find-empty peer_key) refl refl

abbrev sending : Use
sending = post (λ qp. State.ibv_post_send qp (send_wr send_req 0))

found : find_conn 0x7_0001 registered ≡ (ok 1, registered)
found =
    find_conn_lem 0x7_0001 1 peer_key registered registered-Sound (connected_user, connected_entry)

-- The thread 0 has looked up its object.
abbrev looked : System
looked = record {
  router = (find_conn 0x7_0001 registered).1;
  pc = update (λ _. idle) 0 (holding 0x7_0001 1 sending);
}

-- Another client's session posts meanwhile, and then the thread 1 looks the same object up.
abbrev busy : System
busy = record looked { router = (handle_process world send looked.router).1 }

reaches : Reach world registered busy
reaches =
    later (later start (look 0 0x7_0001 1 sending refl (ap (λ x. x.0) found)))
      (session send Safety.post_send (λ i h p u e. tt))

reach-Uses_example :
    (key : HostKey) × (routed : IsRouted busy.router 0x7_0001 key 1) × Uses world sending
      busy.router 1 routed.object
reach-Uses_example =
    reach-Uses world registered busy 0 0x7_0001 1 sending world-Creates registered-Sound reaches
      refl

use_conn-crashes_example :
    (find_conn 0x7_0001 registered ≡ (ok 1, registered))
    × ((use_conn world 1 sending (handle_ibv_destroy_qp world 7 (pos 8) destroy_req registered).1).0
        ≡ err undefined)
use_conn-crashes_example =
    use_conn-crashes world world-Creates.stale 7 (pos 8) destroy_req 1 refl registered live sending
      connected_user refl
