-- ===== src/Router/Invariant/Attach.antt =====
-- `attach_host`, the part of CREATE_RES and IBV_MODIFY_QP that finds or creates the queue pair of
-- a host key, keeps the invariant and leaves room for one more user.
use cs252aproject.Base.{
  nat_eq, ℕ, ◌+◌, ◌<◌, ◌≡◌, refl, Bool, false, none, some, ◌∷◌, arith, inl, inr, nat_beq,
  Option-cases, beq_ne,
}
use cs252aproject.Base.Map.{find, find-insert, find-insert_self, find-erase}
use cs252aproject.Common.Keys.{HostKey, host_key_eq}
use cs252aproject.Router.State.{ibv_create_cq, ibv_create_qp, Env, Router, ConnResources}
use cs252aproject.Router.Exec.{alloc}
use cs252aproject.Router.Triple.{Post, Triple}
use cs252aproject.Router.Resources.{max_cq_size}
use cs252aproject.Router.Handlers.Attach.{attach_host, share_host, settle}
use cs252aproject.Router.Invariant.Defs.{Core, core_of, Serves, IsServing, IsSound, Sound, Fails}
use cs252aproject.Router.Invariant.Frame.{settled, settled_triple}
use cs252aproject.Router.Invariant.Shared.{
  Spare, Creates, shared-Spare, entered-Spare, counted_up-IsServing,
}

module _ (w : Bool) (env : Env) (key : HostKey) (s : Router) (h : Sound (settled s)) where
  abbrev new : ℕ
  new = s.next_conn

  apart : (p : ℕ) (r : ConnResources) → find s.conns p ≡ some r → nat_beq new p ≡ false
  apart p r e = beq_ne new p λ same. cc (h.fresh p (omega (arith, same)), e)

  apart' : (p : ℕ) (r : ConnResources) → find s.conns p ≡ some r → nat_beq p new ≡ false
  apart' p r e = beq_ne p new λ same. cc (h.fresh p (omega (arith, same)), e)

  attach_old :
      (p : ℕ) (r : ConnResources)
      → Serves (core_of s) key p r
      → IsServing r
      → r.ref_cnt + 1 < 0x1_0000_0000
      → Post (λ _ t. Spare key (core_of t)) (Fails w) (attach_host env key (settled s))
  unfolding attach_host alloc share_host settle
  attach_old p r e v fits =
      simp
        (
          e.0,
          e.1,
          apart p r e.1,
          apart' p r e.1,
          v.has_qp,
          find-insert_self,
          find-insert,
          find-erase,
        )
        (shared-Spare (core_of (settled s)) h key p r _ e (counted_up-IsServing r v fits)
          (omega arith) _
          λ j. simp (find-erase, find-insert) (ground (arith, h.fresh j, v.has_qp, e.1)))

  abbrev fresh_conn : Creates env → ConnResources
  fresh_conn creates = record {
    cq = some (creates.cq (ibv_create_cq max_cq_size ∷ s.calls)).0;
    qp =
        some
          (creates.qp (
            ibv_create_qp (creates.cq (ibv_create_cq max_cq_size ∷ s.calls)).0
            ∷ ibv_create_cq max_cq_size
            ∷ s.calls)).0;
    ev_channel = none;
    ref_cnt = 1;
    status = 0;
    locked = false;
  }

  fresh_conn-IsServing : (creates : Creates env) → IsServing (fresh_conn creates)
  fresh_conn-IsServing creates = record {
    free = refl;
    qp = _;
    has_qp = refl;
    cq = _;
    has_cq = refl;
    used = omega arith;
    fits = omega arith;
  }

  attach_new :
      Creates env
      → find s.host_map key ≡ none
      → Post (λ _ t. Spare key (core_of t)) (Fails w) (attach_host env key (settled s))
  unfolding attach_host alloc share_host settle
  attach_new creates absent =
      simp
        (
          absent,
          (creates.cq (ibv_create_cq max_cq_size ∷ s.calls)).1,
          (creates.qp (
              ibv_create_qp (creates.cq (ibv_create_cq max_cq_size ∷ s.calls)).0
              ∷ ibv_create_cq max_cq_size
              ∷ s.calls)).1,
          find-insert_self,
        )
        (entered-Spare (core_of (settled s)) h key (fresh_conn creates) absent
          (fresh_conn-IsServing creates) refl _ λ j. simp find-insert (ground arith))

-- The reference count of a host key does not overflow when it counts one user more.
abbrev pub Roomy : HostKey → Core → Type 0
Roomy key c = (p : ℕ) (r : ConnResources) → Serves c key p r → r.ref_cnt + 1 < 0x1_0000_0000

abbrev pub SoundRoomy : HostKey → Core → Type 0
SoundRoomy key c = IsSound c × Roomy key c

pub attach_host_rule :
    (w : Bool) (env : Env) (key : HostKey)
    → Creates env
    → Triple
        (Fails w)
        (λ s. SoundRoomy key (core_of s))
        (attach_host env key)
        (λ _ t. Spare key (core_of t))
attach_host_rule w env key creates =
    settled_triple w (SoundRoomy key) (λ c h. h.0) _ _
      λ s h. elim (Option-cases (find s.host_map key)) [
        | inl absent ↦ attach_new w env key s h.0 creates absent
        | inr (slot, there) ↦
            let (p, r, e, v) = h.0.entries key slot there in
            attach_old w env key s h.0 p r e v (h.1 p r e)
      ]
