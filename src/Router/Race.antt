-- ===== src/Router/Race.antt =====
-- scalerouter/scalerouter.cpp: two clients in IBV_MODIFY_QP for one host key. The first one's object
-- is in `host_map` before it has its queue pair, and the second one reads the number of the queue
-- pair without the object's mutex.
use mathlib.Core.Path.{subst}
use cs252aproject.Base.{
  ℕ, suc, ◌≡◌, refl, true, false, Option, none, some, nat_eq, nat_beq, arith, beq_ne,
}
use cs252aproject.Base.Map.{find, insert, find-insert, find-insert_self, find-erase}
use cs252aproject.Common.Keys.{HostKey, host_key_eq}
use cs252aproject.Router.State.{Env, Router, zeroed, unlocked, ConnResources}
use cs252aproject.Router.Exec.{
  Exec, Result, ok, err, undefined, pure, alloc, deref, store, free, unlock_conn, ◌>>=◌, continue,
}
use cs252aproject.Common.Messages.{IbvModifyQpReq, ibv_modify_qp, ibv_modify_qp_req}
use cs252aproject.Common.Layout.{sizeof, header_fields, req_size}
use cs252aproject.Router.Wire.{read_short, read_body}
use cs252aproject.Router.Dispatch.{Session, crashed, serve, handle_process}
use cs252aproject.Router.Handlers.QueuePair.{handle_ibv_modify_qp, announce_qp}
use cs252aproject.Router.Invariant.Defs.{Sound}
use cs252aproject.Router.Invariant.Frame.{settled, settled_eq}
use cs252aproject.Router.Resources.{resources_destroy}
use cs252aproject.Router.Handlers.Attach.{share_host, enter_host, settle, attach_host, qp_num_of}

-- Up to the release of the mutex of `host_map`
unfoldable pub publish : HostKey → Exec (ℕ × Option ℕ)
unfolding ◌>>=◌
publish key = do
  new ← alloc (record zeroed { ref_cnt = 1; locked = true })
  old ← share_host key new
  pure (new, old)

bound :
    {A B C : Type 0} (f : A → B) (g : B → Exec C) (x : Result A × Router)
    → continue x.0 (λ a. g (f a)) x.1
      ≡ (let y = continue x.0 (λ a. pure (f a)) x.1 in continue y.0 g y.1)
unfolding pure
bound f g (ok a, s) = refl
bound f g (err e, s) = refl

module _ (env : Env) (key : HostKey) (s : Router) where
  -- `attach_host` publishes the object, and then settles what it found.
  pub attach_host_split : attach_host env key s ≡ (publish key >>= λ x. settle env x.0 x.1) s
  unfolding attach_host publish alloc ◌>>=◌
  attach_host_split =
      bound (λ old. (s.next_conn, old)) (λ x. settle env x.0 x.1) (share_host key s.next_conn _)

  module _ (unpublished : find s.host_map key ≡ none) where
    abbrev fresh : ConnResources
    fresh = record zeroed { ref_cnt = 1; locked = true }

    abbrev with_entry : Router
    with_entry = record s {
      host_map = insert s.host_map key (some s.next_conn);
      conns = insert s.conns s.next_conn fresh;
      next_conn = suc s.next_conn;
    }

    publish_settled :
        publish key (record s { locks = unlocked })
        ≡ (ok (s.next_conn, none), record with_entry { locks = unlocked })
    unfolding publish alloc share_host enter_host ◌>>=◌
    publish_settled = rw unpublished refl

    second_settled :
        (attach_host env key (record with_entry { locks = unlocked })).0 ≡ err undefined
    unfolding attach_host alloc share_host enter_host settle resources_destroy qp_num_of deref store
        free unlock_conn ◌>>=◌
    second_settled =
        let before : nat_beq (suc s.next_conn) s.next_conn ≡ false =
          beq_ne (suc s.next_conn) s.next_conn (λ e. omega (arith, e)) in
        let after : nat_beq s.next_conn (suc s.next_conn) ≡ false =
          beq_ne s.next_conn (suc s.next_conn) (λ e. omega (arith, e)) in
        simp (find-insert_self, find-insert, find-erase, before, after) refl

-- The host key that IBV_MODIFY_QP asks for
abbrev pub key_of : IbvModifyQpReq → Router → HostKey
key_of req s = record { src_gid = s.global_res.src_gid; dst_gid = req.dst_gid }

crashes_settled :
    (env : Env) (c : Session) (req : IbvModifyQpReq) (s : Router)
    → find s.host_map (key_of req s) ≡ none
    → read_short c.header_read (sizeof header_fields) ≡ false
    → read_short c.body_read (req_size ibv_modify_qp) ≡ false
    → (handle_process env
        (record c { request = ibv_modify_qp_req req })
        (publish (key_of req s) (settled s)).1).0
      ≡ crashed
unfolding handle_process serve handle_ibv_modify_qp announce_qp read_body ◌>>=◌
crashes_settled env c req s unpublished header body =
    simp
      (
        publish_settled env (key_of req s) s unpublished,
        header,
        body,
        second_settled env (key_of req s) s unpublished,
      )
      refl

-- A client's thread in IBV_MODIFY_QP, for a host key that no one uses in a router of the invariant,
-- has given the mutex of `host_map` back and has not made the queue pair yet. Then a session of
-- another client that asks for the same host key, and whose request is read whole, crashes the
-- daemon.
pub publish-crashes :
    (env : Env) (c : Session) (req : IbvModifyQpReq) (s : Router)
    → Sound s
    → find s.host_map (key_of req s) ≡ none
    → read_short c.header_read (sizeof header_fields) ≡ false
    → read_short c.body_read (req_size ibv_modify_qp) ≡ false
    → (handle_process env
        (record c { request = ibv_modify_qp_req req })
        (publish (key_of req s) s).1).0
      ≡ crashed
publish-crashes env c req s sound unpublished header body =
    subst
      (λ t.
        (handle_process env (record c { request = ibv_modify_qp_req req })
          (publish (key_of req s) t).1).0
        ≡ crashed)
      (settled_eq s sound.free_locks) (crashes_settled env c req s unpublished header body)
