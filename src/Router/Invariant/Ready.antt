-- ===== src/Router/Invariant/Ready.antt =====
-- The part of IBV_MODIFY_QP under the mutex of the object keeps the invariant.
use cs252aproject.Base.{nat_eq, ℕ, ◌≡◌, refl, Bool, true, false, some, List, arith, nat_beq}
use cs252aproject.Base.Int.{is_zero}
use cs252aproject.Base.Map.{find, insert, find-insert, find-insert_self}
use cs252aproject.Common.Keys.{HostKey, host_key_eq, ConnInfo}
use cs252aproject.Router.State.{Env, Router, Call, ConnResources, Qp}
use cs252aproject.Router.Exec.{
  Exec, Fault, pure, perform, deref, store, lock_conn, unlock_conn, non_null, when, ◌>>=◌,
}
use cs252aproject.Router.Triple.{Triple, Keeps, bind_rule, Keeps-pure, keeps_rules}
use cs252aproject.Router.Resources.{
  modify_qp_to_init, modify_qp_to_rtr, modify_qp_to_rts, modify_qp_to_ready,
}
use cs252aproject.Router.Handlers.QueuePair.{bring_up, make_ready}
use cs252aproject.Router.Invariant.Defs.{core_of, IsServing, IsSound, Sound, Fails}
use cs252aproject.Router.Invariant.Objects.{
  Live, live_object, replace-IsSound, rewrite-Sound, unlocked-IsServing,
}

-- Calls of outside code keep what does not read the history.
module _ {E : Fault → Router → Type 0} (P : Router → Type 0)
    (stable : (s : Router) (h : List Call) → P s → P (record s { calls = h })) (env : Env) where
  stable_perform : {A : Type 0} (c : Call) (answer : List Call → A) → Keeps E P (perform c answer)
  unfolding perform
  stable_perform c answer = record { at = λ s h. stable s _ h }

  Keeps-to_init : (q : Qp) → Keeps E P (modify_qp_to_init env q)
  unfolding modify_qp_to_init
  Keeps-to_init q = search (keeps_rules, stable_perform)

  pub Keeps-modify_qp_to_ready :
      (info : ConnInfo) (q : Qp) → Keeps E P (modify_qp_to_ready env info q)
  unfolding modify_qp_to_ready modify_qp_to_init modify_qp_to_rtr modify_qp_to_rts
  Keeps-modify_qp_to_ready info q = search (keeps_rules, stable_perform)

-- An object whose mutex is held: releasing the mutex gives back a sound state.
pub record Held (p : ℕ) (r : ConnResources) (s : Router) : Type 0 where
  pub key : HostKey
  pub entry : find s.host_map key ≡ some (some p)
  pub object : find s.conns p ≡ some r
  pub serving : IsServing (record r { locked = false })
  pub after :
      IsSound (record (core_of s) { conns = insert s.conns p (record r { locked = false }) })

abbrev HeldSome : ℕ → Router → Type 0
HeldSome p s = (r : ConnResources) × Held p r s

Held-stable :
    (p : ℕ) (r : ConnResources) (s : Router) (h : List Call)
    → Held p r s
    → Held p r (record s { calls = h })
Held-stable p r s h k = record {
  key = k.key;
  entry = k.entry;
  object = k.object;
  serving = k.serving;
  after = k.after;
}

ready_again :
    (r : ConnResources) (status : ℕ)
    → IsServing (record r { locked = false })
    → IsServing (record r { status = status; locked = false })
ready_again r status v = record {
  free = refl;
  qp = v.qp;
  has_qp = v.has_qp;
  cq = v.cq;
  has_cq = v.has_cq;
  used = v.used;
  fits = v.fits;
}

module _ {w : Bool} (p : ℕ) where
  lock_conn_rule : Triple (Fails w) (Live p) (lock_conn p) (λ r. Held p r)
  unfolding lock_conn
  lock_conn_rule = record {
    at = λ s h.
        let l = live_object p s h in
        let locked = record l.object { locked = true } in
        let released = record l.object { locked = false } in
        let v = unlocked-IsServing l.object l.serving in
        simp (l.serves.1, l.serving.free)
          (record {
            key = l.key;
            entry = l.serves.0;
            object = find-insert_self s.conns p locked;
            serving = v;
            after = rewrite-Sound s p l locked released v (omega arith);
          });
  }

  unlock_conn_rule : (r : ConnResources) → Triple (Fails w) (Held p r) (unlock_conn p) (λ _. Sound)
  unfolding unlock_conn
  unlock_conn_rule r = record { at = λ s h. rw (h.object, unlock_conn) h.after }

  deref_rule : (r : ConnResources) → Triple (Fails w) (Held p r) (deref p) (λ _. Held p r)
  unfolding deref
  deref_rule r = record { at = λ s h. rw (h.object, deref) h }

  -- The status of a held object may change.
  store_rule :
      (r : ConnResources) (status : ℕ)
      → Triple (Fails w) (Held p r) (store p (record r { status = status })) (λ _. HeldSome p)
  unfolding store
  store_rule r status = record {
    at = λ s h.
        let r' = record r { status = status } in
        let released = record r' { locked = false } in
        let v = ready_again r status h.serving in
        (
          r',
          record {
            key = h.key;
            entry = h.entry;
            object = find-insert_self s.conns p r';
            serving = v;
            after =
                replace-IsSound
                  (record (core_of s) { conns = insert s.conns p (record r { locked = false }) })
                  h.after h.key p (record r { locked = false }) released
                  (h.entry, find-insert_self s.conns p _) v
                  (h.after.counted h.key p _ (h.entry, find-insert_self s.conns p _)) _
                  λ j. ground (
                    arith,
                    find-insert (insert s.conns p r') p j released,
                    find-insert s.conns p j r',
                    find-insert s.conns p j (record r { locked = false }),
                  );
          },
        );
  }

  when_rule :
      (b : Bool) (r : ConnResources) (m : Exec (Unit {0}))
      → Triple (Fails w) (Held p r) m (λ _. HeldSome p)
      → Triple (Fails w) (Held p r) (when b m) (λ _. HeldSome p)
  unfolding pure
  when_rule true r m h = h
  when_rule false r m h = record { at = λ s k. (r, k) }

  non_null_rule : (r : ConnResources) → Triple (Fails w) (Held p r) (non_null r.qp) (λ _. Held p r)
  unfolding pure
  non_null_rule r = record { at = λ s h. simp h.serving.has_qp h }

  bring_up_rule :
      (env : Env) (info : ConnInfo) (r : ConnResources)
      → Triple (Fails w) (Held p r) (bring_up env info p r) (λ _. HeldSome p)
  unfolding bring_up
  bring_up_rule env info r =
      bind_rule (Held p r) _ _ (λ _. Held p r) (non_null_rule r)
        λ q.
          bind_rule (Held p r) _ _ (λ _. Held p r)
            (Keeps-modify_qp_to_ready (Held p r) (Held-stable p r) env info q)
            λ rc. when_rule (is_zero rc) r _ (store_rule r 4)

  release_rule :
      (r : ConnResources)
      → Triple
          (Fails w)
          (Held p r)
          (deref p >>= λ now. unlock_conn p >>= λ _. pure (nat_beq now.status 4))
          (λ _. Sound)
  release_rule r =
      bind_rule (Held p r) _ _ (λ _. Held p r) (deref_rule r)
        λ now. bind_rule (Held p r) _ _ (λ _. Sound) (unlock_conn_rule r) λ _. Keeps-pure _

  -- SETUP_CONN's and IBV_MODIFY_QP's part under the mutex keeps the invariant.
  pub make_ready_rule :
      (env : Env) (info : ConnInfo) → Triple (Fails w) (Live p) (make_ready env info p) (λ _. Sound)
  unfolding make_ready
  make_ready_rule env info =
      bind_rule (Live p) _ _ (λ r. Held p r) lock_conn_rule
        λ c.
          bind_rule (Held p c) _ _ (λ _. HeldSome p) (when_rule _ c _ (bring_up_rule env info c))
            λ _. record { at = λ s h. (release_rule h.0).at s h.1 }
