-- ===== src/Client/Receives.antt =====
-- post_recv of a client whose `wr_id` is not its process id
use mathlib.Core.Path.{subst}
use cs252aproject.Base.{
  ℕ, ◌≡◌, ◌≢◌, refl, false, List, nat_eq, nat_beq, inl, inr, Option-cases, beq_ne,
}
use cs252aproject.Base.Int.{to_unsigned}
use cs252aproject.Base.Map.{find}
use cs252aproject.Common.Messages
use cs252aproject.Common.Messages.{IbvPostRecvReq}
use cs252aproject.Router.State.{Env, Router, Info, unlocked}
use cs252aproject.Router.Exec.{locked_find}
use cs252aproject.Router.Wire.{read_body}
use cs252aproject.Router.Dispatch.{serve, handle_process}
use cs252aproject.Router.Handlers.Transfer.{handle_ibv_post_recv}
use cs252aproject.Router.Invariant.Frame.{settled, settled_eq}
use cs252aproject.Client.State.{Client, endless, fault, hung, request, ◌>>=◌}
use cs252aproject.Client.Routed.{routed}
use cs252aproject.Client.Queue.{ScaleQp}
use cs252aproject.Client.Transfer.{ClientRecvWr, recv_request, post_recv}

module _ (env : Env) (arrivals : List (List Info)) (pid : ℕ) (req : IbvPostRecvReq) where
  -- The router closes the connection without a call of the device.
  abbrev Refused : Router → Type 0
  Refused s =
      (((routed env arrivals).exchange pid (Messages.ibv_post_recv_req req) s).0 ≡ endless)
      × (((routed env arrivals).exchange pid (Messages.ibv_post_recv_req req) s).1.calls ≡ s.calls)

  settled-Refused :
      (s : Router) → nat_beq (to_unsigned 64 req.wr_id) pid ≡ false → Refused (settled s)
  unfolding routed handle_process serve handle_ibv_post_recv locked_find read_body
  settled-Refused s other = elim (Option-cases (find s.lkey_offset_map req.lkey)) [
    | inl missing ↦ simp missing (refl, refl)
    | inr (offset, known) ↦ simp (known, other) (refl, refl)
  ]

  exchange-Refused : (s : Router) → s.locks ≡ unlocked → to_unsigned 64 req.wr_id ≢ pid → Refused s
  exchange-Refused s free other =
      subst Refused (settled_eq s free)
        (settled-Refused s (beq_ne (to_unsigned 64 req.wr_id) pid other))

-- A post_recv whose `wr_id` does not become the process id as an `int` and then a uint64_t does not
-- return, and the device is not asked for anything, when no mutex of the router is held.
pub post_recv-hangs :
    (env : Env) (arrivals : List (List Info)) (qp : ScaleQp) (wr : ClientRecvWr) (c : Client Router)
    → c.link.locks ≡ unlocked
    → to_unsigned 64 (recv_request qp wr).wr_id ≢ c.process.pid
    → ((post_recv (routed env arrivals) qp wr c).0 ≡ fault hung)
      × ((post_recv (routed env arrivals) qp wr c).1.link.calls ≡ c.link.calls)
unfolding post_recv request ◌>>=◌
post_recv-hangs env arrivals qp wr c free other =
    let refused =
      exchange-Refused env arrivals c.process.pid (recv_request qp wr) c.link free other in
    simp (refused.0, refused.1) (refl, refl)
