-- ===== src/Router/Isolation/Sessions.antt =====
-- Sessions of other clients, and the virtual queue pair of a client.
use mathlib.Core.Path.{subst}
use cs252aproject.Base.{ℕ, ◌≡◌, ◌≢◌, refl, some, nat_eq, arith, inl, inr, Bool-cases, Option-cases}
use cs252aproject.Base.Map.{find}
use cs252aproject.Base.Int.{pos}
use cs252aproject.Common.Keys.{HostKey, host_key_eq}
use cs252aproject.Common.Messages
use cs252aproject.Common.Messages.{Request, Response}
use cs252aproject.Common.Layout.{sizeof, header_fields}
use cs252aproject.Router.State.{Env, Router, Info}
use cs252aproject.Router.Exec.{Result, ok, err}
use cs252aproject.Router.Wire.{read_short}
use cs252aproject.Router.Triple.{Post}
use cs252aproject.Router.Remote.{handle_remote_router}
use cs252aproject.Router.Dispatch.{Session, serve, handle_process}
use cs252aproject.Router.Handlers.Query.{
  handle_ibv_get_device_list, handle_ibv_alloc_pd, handle_ibv_query_gid, handle_ibv_query_port,
}
use cs252aproject.Router.Invariant.Users.{users-pos}
use cs252aproject.Router.Invariant.Defs.{Sound}
use cs252aproject.Router.Invariant.Shared.{Creates}
use cs252aproject.Router.Invariant.Objects.{LiveObject}
use cs252aproject.Router.Invariant.Safety
use cs252aproject.Router.Invariant.Safety.{Servable, Reaches, reached-Sound}
use cs252aproject.Router.Framed.Rules.{Framed}
use cs252aproject.Router.Framed.Actions.{Still-handle_remote_router}
use cs252aproject.Router.Framed.Handlers.{
  Still-get_device_list, Still-dereg_mr, Still-create_qp, Still-post_send, Still-post_recv,
  Still-poll_cq, Still-destroy_cq,
}
use cs252aproject.Router.Isolation.Rules.{Holds, Holds-Framed}
use cs252aproject.Router.Isolation.Handlers.{Still-reg_mr, Still-modify_qp, destroy_qp_rule}

-- A request does not connect or destroy the virtual queue pair of a handle.
abbrev pub Spares : ℕ → Request → Type 0
Spares h (Messages.ibv_modify_qp_req r) = r.src_v_qp_handle ≢ h
Spares h (Messages.ibv_destroy_qp_req r) = r.qp_handle ≢ h
Spares h _ = Unit

-- The states that a router comes to without a session that connects or destroys the virtual queue
-- pair of a handle: clients may serve themselves otherwise, and other virtual queue pairs may come
-- and go, those on the same physical queue pair included.
pub data Passes (env : Env) (h : ℕ) (s : Router) : Router → Type 0 where
  begin : Passes env h s s
  session :
      {t : Router}
      → Passes env h s t
      → (c : Session) → Servable env t c.request
      → Spares h c.request
      → Passes env h s (handle_process env c t).1
  message :
      {t : Router} → Passes env h s t → (i : Info) → Passes env h s (handle_remote_router i t).1

passed-Reaches : (env : Env) (h : ℕ) (s t : Router) → Passes env h s t → Reaches env s t
passed-Reaches env h s _ begin = Safety.start
passed-Reaches env h s _ (session {t} p c ready spares) =
    Safety.session (passed-Reaches env h s t p) c ready
passed-Reaches env h s _ (message {t} p i) = Safety.message (passed-Reaches env h s t p) i

module _ (h : ℕ) (own : HostKey) (object : ℕ) where
  abbrev fr : Framed (Holds h own object)
  fr = Holds-Framed h own object

  pub Post-Holds :
      {A : Type 0} (x : Result A × Router)
      → Post (λ _. Holds h own object) (λ f. Holds h own object) x
      → Holds h own object x.1
  Post-Holds (ok a, t) k = k
  Post-Holds (err f, t) k = k

  module _ (env : Env) (c : Session) (s : Router) (sound : Sound s) (k : Holds h own object s) where
    serve-Holds :
        (q : Request)
        → Servable env s q
        → Spares h q
        → Post
            (λ _. Holds h own object)
            (λ f. Holds h own object)
            (serve env (record c { request = q }) s)
    unfolding serve handle_ibv_get_device_list handle_ibv_alloc_pd handle_ibv_query_gid
        handle_ibv_query_port
    serve-Holds _ (Safety.get_device_list big) spares =
        (Still-get_device_list fr env 0 (pos 0)).at s k
    serve-Holds _ Safety.alloc_pd spares = k
    serve-Holds _ Safety.query_gid spares = k
    serve-Holds _ Safety.query_port spares = k
    serve-Holds _ (Safety.reg_mr {r = q}) spares = (Still-reg_mr h own object env _ _ q).at s k
    serve-Holds _ (Safety.create_qp {r = q}) spares = (Still-create_qp fr env _ _ q).at s k
    serve-Holds _ (Safety.modify_qp {r = q} room) spares =
        (Still-modify_qp h own object env _ _ _ q spares).at s k
    serve-Holds _ (Safety.post_send {r = q}) spares = (Still-post_send fr env _ _ q).at s k
    serve-Holds _ (Safety.post_recv {r = q}) spares = (Still-post_recv fr env _ _ q).at s k
    serve-Holds _ (Safety.poll_cq {r = q} room) spares = (Still-poll_cq fr env _ _ q).at s k
    serve-Holds _ (Safety.destroy_cq {cq}) spares = (Still-destroy_cq fr env _ _ cq).at s k
    serve-Holds _ (Safety.destroy_qp {r = q}) spares =
        (destroy_qp_rule h own object env _ _ q spares).at s (sound, k)
    serve-Holds _ (Safety.dereg_mr {r = q} ready) spares = (Still-dereg_mr fr env _ _ q).at s k

    pub handle_process-Holds :
        Servable env s c.request
        → Spares h c.request
        → Holds h own object (handle_process env c s).1
    unfolding handle_process
    handle_process-Holds ready spares =
        elim (Bool-cases (read_short c.header_read (sizeof header_fields))) [
          | inl short ↦ rw short k
          | inr whole ↦ rw whole (Post-Holds (serve env c s) (serve-Holds c.request ready spares))
        ]

  module _ (env : Env) (s : Router) (creates : Creates env) (sound : Sound s)
      (k : Holds h own object s) where
    passed-Holds : (t : Router) → Passes env h s t → Holds h own object t
    passed-Holds _ begin = k
    passed-Holds _ (session {t} p c ready spares) =
        let sound_t = reached-Sound env s t creates sound (passed-Reaches env h s t p) in
        handle_process-Holds env c t sound_t (passed-Holds t p) ready spares
    passed-Holds _ (message {t} p i) =
        Post-Holds _ ((Still-handle_remote_router fr i).at t (passed-Holds t p))

-- The router leads a handle to an object, at an address, that serves its host key.
pub record IsRouted (s : Router) (h : ℕ) (key : HostKey) (ptr : ℕ) : Type 0 where
  pub user : find s.src_qp_map h ≡ some key
  pub object : LiveObject s ptr
  pub same_key : object.key ≡ key

-- What a handle is led to in a sound router is an object that serves.
pub held-IsRouted :
    (s : Router) (h : ℕ) (key : HostKey) (ptr : ℕ)
    → Sound s
    → Holds h key ptr s
    → IsRouted s h key ptr
held-IsRouted s h key ptr sound k =
    let (p, object, serves, serving) = sound.entries key (some ptr) k.1 in
    let same : p ≡ ptr = cc (serves.0, k.1) in
    record {
      user = k.0;
      object = record {
        sound = sound;
        key = key;
        object = object;
        serves = (k.1, subst (λ q. find s.conns q ≡ some object) same serves.1);
        serving = serving;
      };
      same_key = refl;
    }

-- A handle that is in `src_qp_map` of a sound router is led to an object.
connected-Holds :
    (s : Router) (h : ℕ) (key : HostKey)
    → Sound s
    → find s.src_qp_map h ≡ some key
    → (ptr : ℕ) × Holds h key ptr s
connected-Holds s h key sound user = elim (Option-cases (find s.host_map key)) [
  | inl absent ↦ absurd (omega (arith, users-pos key h s.src_qp_map user, sound.orphans key absent))
  | inr (slot, there) ↦
      let (p, object, serves, serving) = sound.entries key slot there in (p, (user, serves.0))
]

-- With a device that makes completion queues and queue pairs, and where the memory of a destroyed
-- queue pair can still be read, a virtual queue pair that is connected in a router of the invariant
-- stays connected to its host key, and its host key stays with one object, at one address, that
-- serves it, through servable sessions of all clients and messages of other routers, in any number
-- and order, as long as none of the sessions connects or destroys that virtual queue pair itself.
pub passed-IsRouted :
    (env : Env) (s t : Router) (h : ℕ) (key : HostKey)
    → Creates env
    → Sound s
    → find s.src_qp_map h ≡ some key
    → Passes env h s t
    → (ptr : ℕ) × IsRouted s h key ptr × IsRouted t h key ptr
passed-IsRouted env s t h key creates sound user p =
    let (ptr, k) = connected-Holds s h key sound user in
    let sound_t = reached-Sound env s t creates sound (passed-Reaches env h s t p) in
    (
      ptr,
      held-IsRouted s h key ptr sound k,
      held-IsRouted t h key ptr sound_t (passed-Holds h key ptr env s creates sound k t p),
    )
