-- ===== src/Client/Routed.antt =====
-- The transport of a client whose requests the router serves: one connection for each request.
use cs252aproject.Base.{ℕ, none, some, List}
use cs252aproject.Base.Int.{pos}
use cs252aproject.Common.Messages.{Request, func_of}
use cs252aproject.Common.Layout.{header_fields, sizeof, req_size}
use cs252aproject.Router.State.{Env, Router, Info}
use cs252aproject.Router.Dispatch.{Session, Served, replied, handle_process, reply_size}
use cs252aproject.Client.State.{Transport, Reply, got, endless}

-- The client writes the whole request, and reads what the router writes.
abbrev pub request_size : Request → ℕ
request_size r = elim (func_of r) [ none ↦ 0 | some f ↦ req_size f ]

abbrev pub client_session : List (List Info) → ℕ → Request → Session
client_session arrivals pid r = record {
  header_read = pos (sizeof header_fields);
  process_id = pid;
  request = r;
  body_read = pos (request_size r);
  arrivals = arrivals;
  written = pos (reply_size r);
}

-- What `request_router` makes of it: where the stream ends before the whole response is there, it
-- reads for ever.
abbrev pub reply_of : Served → Reply
reply_of (replied rsp) = got rsp
reply_of _ = endless

unfoldable pub routed : Env → List (List Info) → Transport Router
routed env arrivals = record {
  exchange = λ pid r s.
      let (served, s') = handle_process env (client_session arrivals pid r) s in
      (reply_of served, s');
}
