-- ===== src/Tests/Polling.antt =====
-- poll_cq of a client over the concrete router.
use cs252aproject.Base.{set, replicate, refl, [], ◌∷◌}
use cs252aproject.Base.Int.{pos}
use cs252aproject.Router.State.{Env, Router}
use cs252aproject.Client.State.{Client, fresh_process}
use cs252aproject.Client.Queue.{Cq}
use cs252aproject.Client.Transfer
use cs252aproject.Client.Routed.{routed}
use cs252aproject.Client.EndToEnd.{Gives, poll_cq-Gives}
use cs252aproject.Tests.World.{world}
use cs252aproject.Tests.Sessions.{registered, connected_user}
use cs252aproject.Tests.Instances.{live}

abbrev own_cq : Cq
own_cq = record { handle = 0x7_0003; cqe = 16 }

-- A process whose completion queue 3 belongs to its queue pair 1
abbrev polling : Client Router
polling = record {
  process = record (fresh_process 7) { cq_qp_map = set (replicate 1024 0) 3 1 };
  link = registered;
}

-- A device that has one completion, of the process 8
abbrev shared : Env
shared = record world {
  rc = λ h. pos 1;
  completions = λ h. record { wr_id = 8; status = 0; opcode = 0; vendor_err = 0 } ∷ [];
}

poll_cq-Gives_example :
    Gives shared [] own_cq polling 1 live (Transfer.poll_cq (routed shared []) own_cq 1 polling)
poll_cq-Gives_example = poll_cq-Gives shared [] own_cq polling 1 live 0x7_0001 refl connected_user
