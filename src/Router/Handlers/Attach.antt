-- ===== src/Router/Handlers/Attach.antt =====
-- scalerouter/scalerouter.cpp: the shared queue pair of a host key, as CREATE_RES and
-- IBV_MODIFY_QP find or create it, and as DESTROY_RES and IBV_DESTROY_QP give it back.
use cs252aproject.Base.{ℕ, ◌+◌, ◌-◌, ◌%◌, ◌^◌, Option, none, some, true, nat_eq}
use cs252aproject.Base.Map.{find, insert}
use cs252aproject.Common.Keys.{HostKey, host_key_eq}
use cs252aproject.Router.State.{Env, zeroed}
use cs252aproject.Router.Exec.{
  Exec, pure, gets, modify, lock, unlock, hostmap, deref, store, alloc, free, unlock_conn, non_null,
  ◌>>=◌, ◌>>◌,
}
use cs252aproject.Router.Resources.{resources_create, resources_destroy}

-- `ref_cnt++` and `ref_cnt--` on an atomic<uint32_t>
abbrev pub count_up : ℕ → ℕ
count_up n = (n + 1) % 2 ^ 32

abbrev pub count_down : ℕ → ℕ
count_down n = (n + 2 ^ 32 - 1) % 2 ^ 32

-- The entry of a host key under the mutex of the map: an object that is there counts one more
-- user, and otherwise the new object is entered. The result is the old object, if there is one.
unfoldable pub enter_host : HostKey → ℕ → Option (Option ℕ) → Exec (Option ℕ)
unfolding deref store ◌>>=◌
enter_host key new none = do
  modify (λ s. record s { host_map = insert s.host_map key (some new) })
  pure none
enter_host key new (some none) = do
  modify (λ s. record s { host_map = insert s.host_map key (some new) })
  pure none
enter_host key new (some (some old)) = do
  c ← deref old
  store old (record c { ref_cnt = count_up c.ref_cnt })
  pure (some old)

unfoldable pub share_host : HostKey → ℕ → Exec (Option ℕ)
unfolding enter_host lock unlock ◌>>=◌
share_host key new = do
  lock hostmap
  entry ← gets (λ s. find s.host_map key)
  old ← enter_host key new entry
  unlock hostmap
  pure old

-- conn->qp->qp_num
unfoldable pub qp_num_of : ℕ → Exec ℕ
unfolding deref ◌>>=◌
qp_num_of p = do c ← deref p; q ← non_null c.qp; pure q.qp_num

module _ (env : Env) where
  -- After the map is updated: the new object gets its queue pair, or is given up for the old one.
  -- That the queue pair cannot be created is only logged.
  unfoldable pub settle : ℕ → Option ℕ → Exec ℕ
  unfolding resources_create resources_destroy qp_num_of unlock_conn free ◌>>=◌
  settle new none = do resources_create env new; qpn ← qp_num_of new; unlock_conn new; pure qpn
  settle new (some old) = do resources_destroy env new; unlock_conn new; free new; qp_num_of old

  -- The number of the physical queue pair of a host key, which gets one more user.
  unfoldable pub attach_host : HostKey → Exec ℕ
  attach_host key = do
    new ← alloc (record zeroed { ref_cnt = 1; locked = true })
    old ← share_host key new
    settle new old
