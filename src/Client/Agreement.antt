-- ===== src/Client/Agreement.antt =====
-- The router's responses are the structs that the verbs read: over the router no verb ends with a
-- response of another struct.
use cs252aproject.Base.{ℕ, ◌≡◌, ap, Bool, true, false, List, if◌then◌else◌}
use cs252aproject.Common.Messages.{Request, Response}
use cs252aproject.Router.State.{Env, Info}
use cs252aproject.Router.Exec.{Result, ok, err, killed, blocked, undefined}
use cs252aproject.Router.Dispatch.{
  Session, replied, cut_short, serve, finish, write_short, handle_process, reply_size,
}
use cs252aproject.Router.Replies.{struct_of, answer_of, serve-struct_of}
use cs252aproject.Client.State.{Transport, got}
use cs252aproject.Client.Routed.{client_session, reply_of, routed}

-- A transport whose responses are the structs of the functions that are asked for
pub record IsHonest {S : Type 0} (t : Transport S) : Type 0 where
  pub matches :
      (pid : ℕ) (r : Request) (s : S) (rsp : Response)
      → (t.exchange pid r s).0 ≡ got rsp
      → struct_of rsp ≡ answer_of r

finished_reply :
    (short : Bool) (rsp rsp' : Response)
    → reply_of (if short then cut_short rsp' else replied rsp') ≡ got rsp
    → rsp' ≡ rsp
finished_reply true rsp rsp' e = absurd (cc e)
finished_reply false rsp rsp' e = cc e

finish_reply :
    (c : Session) (x : Result Response) (rsp : Response)
    → reply_of (finish c x) ≡ got rsp
    → x ≡ ok rsp
finish_reply c (ok rsp') rsp e =
    ap ok (finished_reply (write_short c.written (reply_size c.request)) rsp rsp' e)
finish_reply c (err killed) rsp e = absurd (cc e)
finish_reply c (err blocked) rsp e = absurd (cc e)
finish_reply c (err undefined) rsp e = absurd (cc e)

-- Over the router, a client that gets a response gets the struct of the function that it asked for.
pub routed-IsHonest : (env : Env) (arrivals : List (List Info)) → IsHonest (routed env arrivals)
unfolding routed handle_process
routed-IsHonest env arrivals = record {
  matches = λ pid r s rsp e.
      let c = client_session arrivals pid r in
      serve-struct_of env c s rsp (finish_reply c (serve env c s).0 rsp e);
}
