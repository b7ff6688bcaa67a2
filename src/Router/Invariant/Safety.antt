-- ===== src/Router/Invariant/Safety.antt =====
-- `handle_process` serves sequences of IBV_ requests safely.
use cs252aproject.Base.{
  ℕ, ◌≡◌, refl, Bool, true, false, ltb, nat_eq, not, ◌&&◌, Bool-cases, inl, inr, if◌then◌else◌,
}
use cs252aproject.Base.Map.{empty, find-empty}
use cs252aproject.Base.Int.{pos}
use cs252aproject.Common.Keys.{host_key_eq}
use cs252aproject.Common.Messages
use cs252aproject.Common.Messages.{Request, Response}
use cs252aproject.Common.Layout.{sizeof, header_fields}
use cs252aproject.Router.State.{Config, GlobalResources, Info, Env, Router, booted}
use cs252aproject.Router.Exec.{Result, ok, err, killed, blocked, undefined}
use cs252aproject.Router.Triple.{Post}
use cs252aproject.Router.Remote.{handle_remote_router}
use cs252aproject.Router.Wire.{read_short}
use cs252aproject.Router.Handlers.Transfer.{count_of}
use cs252aproject.Router.Dispatch.{
  Session, Served, replied, cut_short, stuck, crashed, serve, handle_process, finish,
}
use cs252aproject.Router.Handlers.Query.{
  handle_ibv_get_device_list, handle_ibv_alloc_pd, handle_ibv_query_gid, handle_ibv_query_port,
}
use cs252aproject.Router.Invariant.Users.{users}
use cs252aproject.Router.Invariant.Defs.{IsSound, Sound, Fails}
use cs252aproject.Router.Invariant.Frame.{Keeps-handle_remote_router}
use cs252aproject.Router.Invariant.Shared.{Creates}
use cs252aproject.Router.Invariant.Requests.{
  Keeps-post_send, Keeps-post_recv, Keeps-poll_cq, Keeps-reg_mr, get_device_list_lem, dereg_mr_rule,
  Releasable, Keeps-create_qp, Keeps-destroy_cq,
}
use cs252aproject.Router.Invariant.Handshake.{HasRoom, Keeps-destroy_qp, modify_qp_rule}

-- A request of the IBV_ functions that the router can serve in a state. IBV_GET_DEVICE_LIST has the
-- large buffer; IBV_POLL_CQ has room for one completion; the reference count that IBV_MODIFY_QP may
-- raise does not overflow; the pointers of IBV_DEREG_MR are not used, or are a region and a mapping
-- that the daemon has made and not given back.
pub data Servable (env : Env) (s : Router) : Request → Type 0 where
  get_device_list : s.config.disable_rdma ≡ false → Servable env s Messages.ibv_get_device_list_req
  alloc_pd : Servable env s Messages.ibv_alloc_pd_req
  reg_mr : {r : Messages.IbvRegMrReq} → Servable env s (Messages.ibv_reg_mr_req r)
  query_gid : Servable env s Messages.ibv_query_gid_req
  query_port : Servable env s Messages.ibv_query_port_req
  create_qp : {r : Messages.IbvCreateQpReq} → Servable env s (Messages.ibv_create_qp_req r)
  modify_qp :
      {r : Messages.IbvModifyQpReq} → HasRoom r s → Servable env s (Messages.ibv_modify_qp_req r)
  post_send : {r : Messages.IbvPostSendReq} → Servable env s (Messages.ibv_post_send_req r)
  post_recv : {r : Messages.IbvPostRecvReq} → Servable env s (Messages.ibv_post_recv_req r)
  poll_cq :
      {r : Messages.IbvPollCqReq}
      → ltb 0 (count_of r.num_entries) ≡ true
      → Servable env s (Messages.ibv_poll_cq_req r)
  destroy_cq : {cq : ℕ} → Servable env s (Messages.ibv_destroy_cq_req cq)
  destroy_qp : {r : Messages.IbvDestroyQpReq} → Servable env s (Messages.ibv_destroy_qp_req r)
  dereg_mr :
      {r : Messages.IbvDeregMrReq}
      → Releasable env r s
      → Servable env s (Messages.ibv_dereg_mr_req r)

-- Only IBV_MODIFY_QP may wait for ever.
abbrev pub may_wait : Request → Bool
may_wait (Messages.ibv_modify_qp_req r) = true
may_wait _ = false

abbrev pub has_died : Served → Bool
has_died crashed = true
has_died _ = false

abbrev pub hangs : Served → Bool
hangs stuck = true
hangs _ = false

-- The invariant holds after a session, the daemon has not died, and the thread has ended unless the
-- request may wait.
pub record IsSafe (r : Request) (result : Served × Router) : Type 0 where
  pub sound : Sound result.1
  pub alive : has_died result.0 ≡ false
  pub ends : hangs result.0 && not (may_wait r) ≡ false

module _ (env : Env) (creates : Creates env) (c : Session) (s : Router) (h : Sound s) where
  serve_lem :
      (r : Request)
      → Servable env s r
      → Post (λ _. Sound) (Fails (may_wait r)) (serve env (record c { request = r }) s)
  unfolding serve handle_ibv_get_device_list handle_ibv_alloc_pd handle_ibv_query_gid
      handle_ibv_query_port
  serve_lem _ (get_device_list big) = get_device_list_lem false env 0 (pos 0) s big h
  serve_lem _ alloc_pd = h
  serve_lem _ query_gid = h
  serve_lem _ query_port = h
  serve_lem _ (reg_mr {r}) = (Keeps-reg_mr false env _ _ r).at s h
  serve_lem _ (create_qp {r}) = (Keeps-create_qp false env _ _ r).at s h
  serve_lem _ (modify_qp {r} room) = (modify_qp_rule env creates r _ _ _).at s (h, room)
  serve_lem _ (post_send {r}) = (Keeps-post_send false env _ _ r).at s h
  serve_lem _ (post_recv {r}) = (Keeps-post_recv false env _ _ r).at s h
  serve_lem _ (poll_cq {r} room) = (Keeps-poll_cq false env _ _ r room).at s h
  serve_lem _ (destroy_cq {cq}) = (Keeps-destroy_cq false env _ _ cq).at s h
  serve_lem _ (destroy_qp {r}) = (Keeps-destroy_qp false env creates _ _ r).at s h
  serve_lem _ (dereg_mr {r} ready) = (dereg_mr_rule false env _ _ r).at s (h, ready)

  answered-IsSafe :
      (r : Request) (short : Bool) (rsp : Response) (t : Router)
      → Sound t
      → IsSafe r ((if short then cut_short rsp else replied rsp), t)
  answered-IsSafe r true rsp t k = record { sound = k; alive = refl; ends = refl }
  answered-IsSafe r false rsp t k = record { sound = k; alive = refl; ends = refl }

  finish-IsSafe :
      (x : Result Response × Router)
      → Post (λ _. Sound) (Fails (may_wait c.request)) x
      → IsSafe c.request (finish c x.0, x.1)
  finish-IsSafe (ok rsp, t) k = answered-IsSafe c.request _ rsp t k
  finish-IsSafe (err killed, t) k = record { sound = k; alive = refl; ends = refl }
  finish-IsSafe (err blocked, t) k = record { sound = k.1; alive = refl; ends = rw k.0 refl }
  finish-IsSafe (err undefined, t) k = absurd k

  -- From a state of the invariant, with a device that makes completion queues and queue pairs, a
  -- session whose IBV_ request is servable keeps the invariant, does not crash the daemon, and
  -- ends unless the request is IBV_MODIFY_QP; whatever is read and written, errors included.
  pub handle_process-IsSafe : Servable env s c.request → IsSafe c.request (handle_process env c s)
  unfolding handle_process
  handle_process-IsSafe ready =
      elim (Bool-cases (read_short c.header_read (sizeof header_fields))) [
        | inl short ↦ rw short (record { sound = h; alive = refl; ends = refl })
        | inr whole ↦ rw whole (finish-IsSafe (serve env c s) (serve_lem c.request ready))
      ]

-- The states that a router comes to: threads serve clients' sessions, and handle the messages of
-- other routers.
pub data Reaches (env : Env) (s : Router) : Router → Type 0 where
  start : Reaches env s s
  session :
      {t : Router}
      → Reaches env s t
      → (c : Session) → Servable env t c.request
      → Reaches env s (handle_process env c t).1
  message : {t : Router} → Reaches env s t → (i : Info) → Reaches env s (handle_remote_router i t).1

Post-Sound :
    {A : Type 0} (w : Bool) (x : Result A × Router) → Post (λ _. Sound) (Fails w) x → Sound x.1
Post-Sound w (ok a, t) k = k
Post-Sound w (err killed, t) k = k
Post-Sound w (err blocked, t) k = k.1
Post-Sound w (err undefined, t) k = absurd k

pub message-Sound : (i : Info) (t : Router) → Sound t → Sound (handle_remote_router i t).1
message-Sound i t h =
    Post-Sound false _ ((Keeps-handle_remote_router false IsSound (λ c k. k) i).at t h)

-- With a device that makes completion queues and queue pairs, and where the memory of a destroyed
-- queue pair can still be read, servable sessions and other routers' messages, in any number and
-- order, keep the invariant.
pub reached-Sound : (env : Env) (s t : Router) → Creates env → Sound s → Reaches env s t → Sound t
reached-Sound env s _ creates h start = h
reached-Sound env s _ creates h (session {t} r c ready) =
    (handle_process-IsSafe env creates c t (reached-Sound env s t creates h r) ready).sound
reached-Sound env s _ creates h (message {t} r i) =
    message-Sound i t (reached-Sound env s t creates h r)

pub booted-Sound : (config : Config) (g : GlobalResources) → Sound (booted config g)
unfolding users empty
booted-Sound config g = record {
  free_locks = refl;
  entries = λ key slot e. absurd (cc (find-empty key, e));
  alone = λ k j p a b. absurd (cc (find-empty k, a));
  fresh = λ p above. find-empty p;
  orphans = λ key e. refl;
  counted = λ key p r e. absurd (cc (find-empty key, e.0));
}
