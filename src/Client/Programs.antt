-- ===== src/Client/Programs.antt =====
-- Programs of verbs, in any number and order.
use cs252aproject.Base.{ℕ, ◌≡◌, ◌≢◌, Option, some}
use cs252aproject.Router.State.{Router}
use cs252aproject.Client.State.{Client, VerbFault, garbled}
use cs252aproject.Client.Handles.{IsProcess}
use cs252aproject.Client.Behaviour
use cs252aproject.Client.Verbs
use cs252aproject.Client.Creation

-- What holds from call to call: the process has its static variables and its process id, and no
-- response was read as another struct.
record IsOrderly {S : Type 0} (pid : ℕ) (x : Option VerbFault × Client S) : Type 0 where
  pub process : IsProcess x.1.process
  pub same_pid : x.1.process.pid ≡ pid
  pub understood : x.0 ≢ some garbled
