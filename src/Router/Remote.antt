-- ===== src/Router/Remote.antt =====
-- scalerouter/scalerouter.cpp: what one router tells another about its queue pairs.
use cs252aproject.Base.{
  true, ℕ, Bool, false, not, Option, none, some, List, [], ◌∷◌, if◌then◌else◌, bytes_eq,
}
use cs252aproject.Base.Int.{ℤ, is_zero, is_minus_one}
use cs252aproject.Base.Map.{Map, find, insert, erase}
use cs252aproject.Common.Keys.{Gid}
use cs252aproject.Router.State.{Env, Info, Operation, getaddrinfo, socket, connect, send, close}
use cs252aproject.Router.Exec.{
  Exec, pure, fail, blocked, gets, modify, perform, lock, unlock, dst_qp, ◌>>=◌, ◌>>◌,
}

abbrev pub dst_update : Info → Operation → Map Gid ℕ → Map Gid ℕ
dst_update i Operation.insert m = insert m i.gid i.qp_num
dst_update i Operation.delete m = elim (find m i.gid) [ none ↦ m | some q ↦ erase m i.gid ]

-- handle_remote_router, for a message that `recv` delivered whole
unfoldable pub handle_remote_router : Info → Exec (Unit {0})
unfolding lock unlock ◌>>=◌
handle_remote_router i = do
  lock dst_qp
  modify (λ s. record s { dst_qp_map = dst_update i i.op s.dst_qp_map })
  unlock dst_qp

-- The messages that other threads handle between two rounds of the spin
unfoldable pub handle_all : List Info → Exec (Unit {0})
unfolding handle_remote_router ◌>>=◌
handle_all [] = pure tt
handle_all (i ∷ batch) = handle_remote_router i >>= λ _. handle_all batch

-- The spin of IBV_MODIFY_QP for the peer's number: each round reads `dst_qp_map` under its mutex.
-- Between two rounds other threads handle the messages of one batch, none, one or more, in their
-- order; when there are no more batches, the loop spins for ever.
unfoldable pub await_dst : Gid → List (List Info) → Exec ℕ
unfolding handle_all lock unlock ◌>>=◌
await_dst gid [] = do
  lock dst_qp
  r ← gets (λ s. find s.dst_qp_map gid)
  unlock dst_qp
  elim r [ none ↦ fail blocked | some q ↦ pure q ]
await_dst gid (batch ∷ arrivals) = do
  lock dst_qp
  r ← gets (λ s. find s.dst_qp_map gid)
  unlock dst_qp
  let later = handle_all batch >>= λ _. await_dst gid arrivals
  elim r [ none ↦ later | some q ↦ pure q ]

module _ (env : Env) where
  -- The first address of the list to which a socket connects, with that socket. One that does not
  -- connect stays open.
  unfoldable pub connect_first : List ℕ → Exec (Option (ℕ × ℤ))
  connect_first [] = pure none
  connect_first (a ∷ rest) = do
    let later = connect_first rest
    fd ← perform (socket a) env.rc
    if is_minus_one fd then later else do
      rc ← perform (connect a) env.rc
      if is_minus_one rc then later else pure (some (a, fd))

  unfoldable pub send_info : Info → Option (ℕ × ℤ) → Exec Bool
  send_info i none = pure false
  send_info i (some (a, fd)) = do
    sent ← perform (send a i) env.rc
    if is_minus_one sent then pure false else do perform (close fd) env.rc; pure true

  -- update_dst_router; the result is whether it returned 0 and not -1.
  unfoldable pub update_dst_router : Operation → Gid → ℕ → ℕ → Exec Bool
  update_dst_router op src_gid dst_v_qp_num phy_qp_num = do
    status ← perform (getaddrinfo dst_v_qp_num) env.rc
    if not (is_zero status) then pure false else do
      list ← gets (λ s. env.addresses s.calls)
      target ← connect_first list
      send_info (record { op = op; gid = src_gid; qp_num = phy_qp_num }) target
