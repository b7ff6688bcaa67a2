-- ===== src/Router/Invariant/Handshake.antt =====
-- IBV_MODIFY_QP and IBV_DESTROY_QP keep the invariant.
use cs252aproject.Base.{ℕ, Bool, true, false, Option, none, some, List, if◌then◌else◌, nat_eq}
use cs252aproject.Base.Int.{ℤ}
use cs252aproject.Common.Keys.{HostKey}
use cs252aproject.Common.Messages.{IbvModifyQpReq, IbvDestroyQpReq}
use cs252aproject.Router.State.{Env, Router, Info}
use cs252aproject.Router.Remote.{await_dst}
use cs252aproject.Router.Wire.{read_body}
use cs252aproject.Common.Messages.{ibv_modify_qp_rsp, FunctionCall}
use cs252aproject.Router.Exec.{gets, ◌>>=◌, pure, killed, fail}
use cs252aproject.Router.Triple.{
  Triple, Keeps, bind_rule, Keeps-bind, Keeps-pure, Keeps-if, Keeps-when,
}
use cs252aproject.Router.Handlers.QueuePair.{
  conn_info, make_ready, find_host_leaky, destroy_host, release_host, handle_ibv_destroy_qp,
  handle_ibv_modify_qp, announce_qp,
}
use cs252aproject.Router.Invariant.Defs.{core_of, IsSound, Sound, Fails}
use cs252aproject.Router.Invariant.Frame.{
  Keeps-kill, Keeps-read_body, Keeps-update_dst_router, Keeps-await_dst,
}
use cs252aproject.Router.Invariant.Objects.{Live}
use cs252aproject.Router.Invariant.Ready.{make_ready_rule}
use cs252aproject.Router.Invariant.Shared.{Spare, Creates}
use cs252aproject.Router.Invariant.Attach.{Roomy, SoundRoomy, attach_host_rule}
use cs252aproject.Router.Invariant.Counts.{Hosted, Taken, assign_src_qp_rule, take_src_qp_rule}
use cs252aproject.Router.Invariant.Release.{Released, release_host_rule}
use cs252aproject.Router.Invariant.Destroy.{destroy_host_rule}
use cs252aproject.Router.Invariant.Lookup.{find_host_leaky_rule}

module _ (w : Bool) (env : Env) (creates : Creates env) where
  Released-rule :
      (dst : ℕ) (there : Bool) (last : Option ℕ)
      → Triple
          (Fails w)
          (Released (there, last))
          (elim last [ none ↦ pure there | some p ↦ destroy_host env dst p ])
          (λ _. Sound)
  unfolding pure
  Released-rule dst there none = record { at = λ s h. h.1 }
  Released-rule dst there (some p) = record {
    at = λ s h. (destroy_host_rule w p env creates dst).at s h.1;
  }

  Taken-rule :
      (dst : ℕ) (r : Option HostKey)
      → Triple
          (Fails w)
          (Taken r)
          (elim r [
            | none ↦ pure false
            | some key ↦ do
              (there, last) ← release_host key
              elim last [ none ↦ pure there | some p ↦ destroy_host env dst p ]
          ])
          (λ _. Sound)
  Taken-rule dst none = Keeps-pure false
  Taken-rule dst (some key) =
      bind_rule (λ s. Spare key (core_of s)) _ _ Released (release_host_rule w key)
        λ r. Released-rule dst r.0 r.1

  pub Keeps-destroy_qp :
      (process_id : ℕ) (n : ℤ) (req : IbvDestroyQpReq)
      → Keeps (Fails w) Sound (handle_ibv_destroy_qp env process_id n req)
  unfolding handle_ibv_destroy_qp
  Keeps-destroy_qp process_id n req = Keeps-bind _ _ (Keeps-read_body w IsSound (λ c h. h) n _) λ u.
      bind_rule Sound _ _ Taken (take_src_qp_rule w _)
        λ r. bind_rule (Taken r) _ _ (λ _. Sound) (Taken-rule _ r) λ flags. Keeps-pure _

-- With a device that makes queues, and a count of users that does not overflow
module _ (env : Env) (creates : Creates env) (key : HostKey) where
  announce_rule :
      (req : IbvModifyQpReq)
      → Triple
          (Fails true)
          (λ s. SoundRoomy key (core_of s))
          (announce_qp env req key)
          (λ _ s. Hosted key (core_of s))
  unfolding announce_qp
  announce_rule req =
      bind_rule _ _ _ (λ _ s. Spare key (core_of s)) (attach_host_rule true env key creates)
        λ phy.
          bind_rule _ _ _ (λ _ s. Hosted key (core_of s)) (assign_src_qp_rule true _ key)
            λ u.
              bind_rule _ _ _ (λ _ s. Hosted key (core_of s))
                (Keeps-update_dst_router true (Hosted key) (λ c h. h.0) env _ _ _ _)
                λ sent. Keeps-if _ _ _ (Keeps-pure _) (Keeps-kill true (Hosted key) (λ c h. h.0))

  pub ready_rule :
      (arrivals : List (List Info)) (req : IbvModifyQpReq) (process_id : ℕ)
      → Triple
          (Fails true)
          (λ s. SoundRoomy key (core_of s))
          (do
            phy_qp_num ← announce_qp env req key
            dst_phy_qp_num ← await_dst req.dst_gid arrivals
            p ← find_host_leaky key
            ready ←
                make_ready env (conn_info key phy_qp_num dst_phy_qp_num req.dst_lid process_id) p
            pure (ibv_modify_qp_rsp (if ready then 1 else 0)))
          (λ _. Sound)
  ready_rule arrivals req process_id =
      bind_rule _ _ _ (λ _ s. Hosted key (core_of s)) (announce_rule req)
        λ phy.
          bind_rule _ _ _ (λ _ s. Hosted key (core_of s))
            (Keeps-await_dst (Hosted key) (λ c h. h.0) _ arrivals)
            λ dst. bind_rule _ _ _ Live (find_host_leaky_rule true key) λ p.
              bind_rule (Live p) _ _ (λ _. Sound) (make_ready_rule p env _) λ ready. Keeps-pure _

-- The host key that IBV_MODIFY_QP serves
abbrev pub own_key : IbvModifyQpReq → Router → HostKey
own_key req s = record { src_gid = s.global_res.src_gid; dst_gid = req.dst_gid }

-- The reference count of the object that it would share does not overflow.
abbrev pub HasRoom : IbvModifyQpReq → Router → Type 0
HasRoom req s = Roomy (own_key req s) (core_of s)

-- What IBV_MODIFY_QP starts from
abbrev pub IsReady : IbvModifyQpReq → Router → Type 0
IsReady req s = SoundRoomy (own_key req s) (core_of s)

module _ (env : Env) (creates : Creates env) (req : IbvModifyQpReq) where
  Keeps-fail : Keeps {A = Unit {0}} (Fails true) (IsReady req) (fail killed)
  unfolding fail
  Keeps-fail = record { at = λ s h. h.0 }

  read_rule : (n : ℤ) (f : FunctionCall) → Keeps (Fails true) (IsReady req) (read_body n f)
  unfolding read_body
  read_rule n f = Keeps-when _ _ Keeps-fail

  src_gid_rule :
      Triple
        (Fails true)
        (IsReady req)
        (gets (λ s. s.global_res.src_gid))
        (λ gid s. SoundRoomy (record { src_gid = gid; dst_gid = req.dst_gid }) (core_of s))
  unfolding gets
  src_gid_rule = record { at = λ s h. h }

  pub modify_qp_rule :
      (arrivals : List (List Info)) (process_id : ℕ) (n : ℤ)
      → Triple
          (Fails true)
          (IsReady req)
          (handle_ibv_modify_qp env arrivals process_id n req)
          (λ _. Sound)
  unfolding handle_ibv_modify_qp
  modify_qp_rule arrivals process_id n =
      bind_rule (IsReady req) _ _ (λ _. IsReady req) (read_rule n _)
        λ u.
          bind_rule (IsReady req) _ _ _ src_gid_rule
            λ gid. ready_rule env creates _ arrivals req process_id
