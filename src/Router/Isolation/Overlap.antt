-- ===== src/Router/Isolation/Overlap.antt =====
-- scalerouter/scalerouter.cpp: IBV_POST_SEND, IBV_POST_RECV and IBV_POLL_CQ of several threads that
-- overlap. A thread looks the object of its virtual queue pair up under the mutexes of the maps, gives
-- these back, and uses the object later, under the object's own mutex; what other threads do comes in
-- between. A use is one step, since it holds the object's mutex.
use cs252aproject.Base.{ℕ, ◌≡◌, nat_eq, nat_beq, if◌then◌else◌}
use cs252aproject.Base.Int.{ℤ}
use cs252aproject.Common.Keys.{host_key_eq}
use cs252aproject.Common.Messages
use cs252aproject.Router.State
use cs252aproject.Router.State.{Env, Router, Call, Info}
use cs252aproject.Router.Exec.{Exec, ok, pure, ◌>>=◌}
use cs252aproject.Router.Remote.{handle_remote_router}
use cs252aproject.Router.Dispatch.{Session, handle_process}
use cs252aproject.Router.Handlers.Transfer.{find_conn, post_on, poll_on}
use cs252aproject.Router.Invariant.Objects.{LiveObject}
use cs252aproject.Router.Invariant.Safety.{Servable}
use cs252aproject.Router.Isolation.Sessions

-- What a request does with the object that it has found
pub data Use : Type 0 where
  post : (request : ℕ → Call) → Use
  poll : (num_entries : ℤ) → Use

-- What is called outside for it, on the queue pair or the completion queue of the object
abbrev pub call_of : {s : Router} {p : ℕ} → Use → LiveObject s p → Call
call_of (post request) l = request l.serving.qp.ptr
call_of (poll n) l = State.ibv_poll_cq l.serving.cq n

unfoldable pub use_conn : Env → ℕ → Use → Exec (Unit {0})
unfolding ◌>>=◌
use_conn env p (post request) = post_on env p request
use_conn env p (poll n) = poll_on env p n >>= λ r. pure tt

-- Where a thread stands: before the lookup, or with the object of a handle.
pub data Pc : Type 0 where
  idle : Pc
  holding : (handle ptr : ℕ) (u : Use) → Pc

pub record System : Type 0 where
  pub router : Router
  pub pc : ℕ → Pc

abbrev pub update : (ℕ → Pc) → ℕ → Pc → ℕ → Pc
update f i a j = if nat_beq i j then a else f j

-- No thread holds an object for a handle that a request connects or destroys.
abbrev pub SparesHeld : (ℕ → Pc) → Messages.Request → Type 0
SparesHeld pc r =
    (i handle ptr : ℕ) (u : Use) → pc i ≡ holding handle ptr u → Sessions.Spares handle r

-- One step: a thread looks its object up, a thread uses the object that it has, a whole servable
-- session runs, or a message of another router is handled.
pub data Step (env : Env) (c : System) : System → Type 0 where
  look :
      (i handle ptr : ℕ) (u : Use)
      → c.pc i ≡ idle
      → (find_conn handle c.router).0 ≡ ok ptr
      → Step env c (record {
        router = (find_conn handle c.router).1;
        pc = update c.pc i (holding handle ptr u);
      })
  carry_out :
      (i handle ptr : ℕ) (u : Use)
      → c.pc i ≡ holding handle ptr u
      → Step env c (record { router = (use_conn env ptr u c.router).1; pc = update c.pc i idle })
  session :
      (r : Session)
      → Servable env c.router r.request
      → SparesHeld c.pc r.request
      → Step env c (record c { router = (handle_process env r c.router).1 })
  message : (i : Info) → Step env c (record c { router = (handle_remote_router i c.router).1 })

pub data Reach (env : Env) (s : Router) : System → Type 0 where
  start : Reach env s (record { router = s; pc = λ _. idle })
  later : {c d : System} → Reach env s c → Step env c d → Reach env s d
