-- ===== src/Tests/Clients.antt =====
-- The theorems about the client at concrete requests.
use cs252aproject.Base.{◌≡◌, refl, replicate, [], ◌∷◌, arith}
use cs252aproject.Base.Int.{pos}
use cs252aproject.Common.Messages
use cs252aproject.Client.Structs.{client_sizes, router_sizes, sizes-agree}
use cs252aproject.Client.Socket.{
  Peer, returned, waiting, request_router, request_router-returns, request_router-spins, chunks,
}

abbrev answered : Peer
answered = record {
  sock = pos 3;
  header_written = pos 12;
  body_written = pos 12;
  reads = chunks (7 ∷ 15 ∷ 7 ∷ []);
}

-- The router has closed the connection.
abbrev abandoned : Peer
abandoned = record answered { reads = replicate 4 (pos 0) }

sizes-agree_example : client_sizes Messages.ibv_post_send ≡ router_sizes Messages.ibv_post_send
sizes-agree_example = sizes-agree Messages.ibv_post_send

request_router-returns_example : request_router answered Messages.ibv_poll_cq ≡ returned (pos 0)
request_router-returns_example =
    request_router-returns answered Messages.ibv_poll_cq 12 32 refl refl refl refl (7 ∷ 15 ∷ 7 ∷ [])
      refl (omega arith)

request_router-spins_example : request_router abandoned Messages.ibv_poll_cq ≡ waiting
request_router-spins_example =
    request_router-spins abandoned Messages.ibv_poll_cq 12 32 refl refl refl refl 4 refl
      (omega arith)
