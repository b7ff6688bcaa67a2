-- ===== src/Client/Counting.antt =====
-- The handles of the completion queues that a process creates one after the other.
use Prim.Native.Nat.{zero, suc}
use cs252aproject.Base.{ℕ, ◌+◌, ◌%◌, ◌<◌, ◌≡◌, ◌↔◌, refl, arith}
use cs252aproject.Client.State.{Client, done, handle_of, ◌>>=◌}
use cs252aproject.Client.Queue.{ibv_create_cq}
use cs252aproject.Client.Handles.{IsProcess}

module _ {S : Type 0} (cqe : ℕ) where
  -- The state after `n` calls of ibv_create_cq
  unfoldable pub after_cqs : ℕ → Client S → Client S
  after_cqs zero c = c
  after_cqs (suc n) c = (ibv_create_cq cqe (after_cqs n c)).1

  -- The handle of the completion queue that the next call makes
  unfoldable pub next_cq_handle : Client S → ℕ
  next_cq_handle c = elim (ibv_create_cq cqe c).0 [ done cq ↦ cq.handle | _ ↦ 0 ]

  pub after_cqs_lem :
      (n : ℕ) (c : Client S)
      → c.process.cq_refcnt < 0x1_0000
      → ((after_cqs n c).process.pid ≡ c.process.pid)
        × ((after_cqs n c).process.cq_refcnt ≡ (c.process.cq_refcnt + n) % 0x1_0000)
  unfolding after_cqs ibv_create_cq ◌>>=◌
  after_cqs_lem zero c small = (refl, omega arith)
  after_cqs_lem (suc n) c small = let (same, count) = after_cqs_lem n c small in (same, omega arith)

  pub next_cq_handle_lem :
      (c : Client S) → next_cq_handle c ≡ handle_of c.process.pid c.process.cq_refcnt
  unfolding next_cq_handle ibv_create_cq ◌>>=◌
  next_cq_handle_lem c = refl

  -- In a process whose static variables are in their bounds, the completion queues that are
  -- created one after the other have different handles as long as their positions differ modulo
  -- 65536, and the same handle otherwise.
  pub next_cq_handle_iff :
      (c : Client S) (i j : ℕ)
      → IsProcess c.process
      → (next_cq_handle (after_cqs i c) ≡ next_cq_handle (after_cqs j c))
        ↔ (i % 0x1_0000 ≡ j % 0x1_0000)
  next_cq_handle_iff c i j h =
      let (pi, ni) = after_cqs_lem i c h.cq_small in
      let (pj, nj) = after_cqs_lem j c h.cq_small in
      rw (next_cq_handle_lem (after_cqs i c), next_cq_handle_lem (after_cqs j c), pi, pj, ni, nj)
        (λ e. omega (arith, h.cq_small), λ e. omega (arith, h.cq_small))
