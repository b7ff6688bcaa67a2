-- ===== src/Router/Invariant/Destroy.antt =====
-- The last part of IBV_DESTROY_QP keeps the invariant: an object that nothing leads to is
-- destroyed under its mutex and freed.
use cs252aproject.Base.{ℕ, Bool, Option, none, some}
use cs252aproject.Router.State.{Env, Router, Call, ConnResources}
use cs252aproject.Router.Exec.{deref, store, free, lock_conn, unlock_conn}
use cs252aproject.Router.Triple.{Triple, Keeps, bind_rule, Keeps-bind, Keeps-pure, Keeps-gets}
use cs252aproject.Router.Resources.{destroy_failed, resources_destroy}
use cs252aproject.Router.Handlers.QueuePair.{stale_qp_num, destroy_host}
use cs252aproject.Router.Invariant.Defs.{Core, core_of, Sound, Fails}
use cs252aproject.Router.Invariant.Frame.{Keeps-perform, Keeps-update_dst_router}
use cs252aproject.Router.Invariant.Shared.{Creates}
use cs252aproject.Router.Invariant.Release.{Loose, stored-Loose, freed-IsSound, Left}

abbrev SomeLoose : ℕ → Core → Type 0
SomeLoose p c = (r : ConnResources) × Loose p r c

module _ (w : Bool) (p : ℕ) where
  abbrev P : Router → Type 0
  P s = SomeLoose p (core_of s)

  Keeps-deref : Keeps (Fails w) P (deref p)
  unfolding deref
  Keeps-deref = record { at = λ s h. rw h.1.object h }

  Keeps-store : (x : ConnResources) → Keeps (Fails w) P (store p x)
  unfolding store
  Keeps-store x = record { at = λ s h. (x, stored-Loose (core_of s) p h.0 x h.1) }

  Keeps-unlock_conn : Keeps (Fails w) P (unlock_conn p)
  unfolding unlock_conn
  Keeps-unlock_conn = Keeps-bind _ _ Keeps-deref λ c. Keeps-store _

  lock_conn_rule : Triple (Fails w) (Left (some p)) (lock_conn p) (λ _. P)
  unfolding lock_conn
  lock_conn_rule = record {
    at = λ s h. let (r, l, free) = h in simp (l.object, free) (_, stored-Loose (core_of s) p r _ l);
  }

  Keeps-destroy_failed :
      (o : Option ℕ) (call : ℕ → Call) (env : Env) → Keeps (Fails w) P (destroy_failed env o call)
  Keeps-destroy_failed none call env = Keeps-pure _
  Keeps-destroy_failed (some q) call env =
      Keeps-bind _ _ (Keeps-perform w (SomeLoose p) (λ c h. h.1.sound) _ _) λ rc. Keeps-pure _

  Keeps-resources_destroy : (env : Env) → Keeps (Fails w) P (resources_destroy env p)
  unfolding resources_destroy
  Keeps-resources_destroy env = Keeps-bind _ _ Keeps-deref λ c.
      Keeps-bind _ _ (Keeps-destroy_failed _ _ env) λ a.
        Keeps-bind _ _ (Keeps-destroy_failed _ _ env) λ b.
          Keeps-bind _ _ (Keeps-destroy_failed _ _ env)
            λ d. Keeps-bind _ _ (Keeps-store _) λ e. Keeps-pure _

  free_rule : Triple (Fails w) P (free p) (λ _. Sound)
  unfolding free
  free_rule = record { at = λ s h. freed-IsSound (core_of s) p h.0 h.1 }

  Keeps-stale_qp_num : (env : Env) → Creates env → Keeps (Fails w) P (stale_qp_num env)
  unfolding stale_qp_num
  Keeps-stale_qp_num env creates = record { at = λ s h. rw (creates.stale s.calls).1 h }

  -- The last part of IBV_DESTROY_QP
  pub destroy_host_rule :
      (env : Env)
      → Creates env
      → (dst : ℕ) → Triple (Fails w) (Left (some p)) (destroy_host env dst p) (λ _. Sound)
  unfolding destroy_host
  destroy_host_rule env creates dst =
      bind_rule (Left (some p)) _ _ (λ _. P) lock_conn_rule
        λ c.
          bind_rule P _ _ (λ _. P) (Keeps-resources_destroy env)
            λ failed.
              bind_rule P _ _ (λ _. P) (Keeps-gets _)
                λ gid.
                  bind_rule P _ _ (λ _. P) (Keeps-stale_qp_num env creates)
                    λ stale.
                      bind_rule P _ _ (λ _. P)
                        (Keeps-update_dst_router w (SomeLoose p) (λ c h. h.1.sound) env _ _ _ _)
                        λ sent.
                          bind_rule P _ _ (λ _. P) Keeps-unlock_conn
                            λ _. bind_rule P _ _ (λ _. Sound) free_rule λ _. Keeps-pure _
