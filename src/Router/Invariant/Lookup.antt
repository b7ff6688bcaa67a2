-- ===== src/Router/Invariant/Lookup.antt =====
-- The lookups of the handlers find an object that serves a host key.
use cs252aproject.Base.{ℕ, Bool, Option-cases, inl, inr, nat_eq}
use cs252aproject.Base.Map.{find}
use cs252aproject.Common.Keys.{HostKey, host_key_eq}
use cs252aproject.Router.State.{Router}
use cs252aproject.Router.Exec.{hostmap, locked_find}
use cs252aproject.Router.Triple.{Post, Triple, bind_rule}
use cs252aproject.Router.Handlers.Transfer.{find_conn, join}
use cs252aproject.Router.Handlers.QueuePair.{find_host_leaky}
use cs252aproject.Router.Invariant.Defs.{core_of, IsSound, Sound, Fails}
use cs252aproject.Router.Invariant.Frame.{settled, settled_triple, Keeps-locked_find}
use cs252aproject.Router.Invariant.Objects.{Live}
use cs252aproject.Router.Invariant.Counts.{Hosted}

module _ (w : Bool) where
  find_host_settled :
      (key : HostKey) (s : Router)
      → Sound (settled s)
      → Post Live (Fails w) (locked_find hostmap (λ t. join (find t.host_map key)) (settled s))
  unfolding locked_find
  find_host_settled key s h = elim (Option-cases (find s.host_map key)) [
    | inl absent ↦ rw absent h
    | inr (slot, there) ↦ let (p, r, e, v) = h.entries key slot there in rw e.0 (h, (key, e.0))
  ]

  -- IBV_POST_SEND, IBV_POST_RECV and IBV_POLL_CQ
  pub find_conn_rule : (handle : ℕ) → Triple (Fails w) Sound (find_conn handle) Live
  unfolding find_conn
  find_conn_rule handle =
      bind_rule Sound _ _ (λ _. Sound) (Keeps-locked_find w IsSound (λ c h. h) _ _)
        λ key. settled_triple w IsSound (λ c h. h) _ _ (find_host_settled key)

  -- IBV_MODIFY_QP's second lookup finds the entry that its first part has made.
  pub find_host_leaky_rule :
      (key : HostKey) → Triple (Fails w) (λ s. Hosted key (core_of s)) (find_host_leaky key) Live
  unfolding find_host_leaky
  find_host_leaky_rule key =
      settled_triple w (Hosted key) (λ c h. h.0) _ _ λ s h. simp (h.1.1) (h.0, (key, h.1.1))
