-- ===== src/Tests/Listening.antt =====
-- The listeners on a system whose first `accept` fails.
use cs252aproject.Base.{◌+◌, ◌≡◌, refl, List, [], ◌∷◌, nat_beq, if◌then◌else◌}
use cs252aproject.Base.Int.{ℤ, pos, negsuc}
use cs252aproject.Router.Listeners.{
  NetCall, accept, socket, Os, idle, accept_loop, ask, start_handler, done, ◌>>=◌,
  listen_remote_router, listen_local_process,
}
use cs252aproject.Router.Accepting.{accepts}
use cs252aproject.Router.Accepting.Outcome.{
  from_router, from_process, Serves, IsTidy, listeners-Serves,
}

abbrev answer : List NetCall → ℤ
answer (accept fd ∷ h) = if nat_beq (accepts h) 0 then negsuc 0 else pos (4 + accepts h)
answer (socket a ∷ h) = pos 3
answer _ = pos 0

abbrev system : Os
system = record { rc = answer; addresses = λ h. 1 ∷ 2 ∷ [] }

goes_on : (listen_local_process system 3 idle).1.handlers ≡ pos 6 ∷ pos 5 ∷ []
unfolding listen_local_process accept_loop start_handler ask done ◌>>=◌ accepts
goes_on = refl

listeners-Serves_example :
    Serves system from_router 3 (listen_remote_router system 3 idle)
    × IsTidy system 3 from_process (listen_local_process system 3 idle)
listeners-Serves_example = listeners-Serves system 3
