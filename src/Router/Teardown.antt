-- ===== src/Router/Teardown.antt =====
-- `destroy_global_res` after an initialisation that failed: the destructor runs it again.
use cs252aproject.Base.{
  ℕ, suc, ◌≤◌, ◌≡◌, refl, ◌∙◌, ap, sym, Bool, true, false, ◌||◌, Option, none, some, List, [], ◌∷◌,
  inl, inr, nat_beq, nat_beq_iff, if◌then◌else◌, Bool-cases, Option-cases, arith,
}
use cs252aproject.Base.Int.{ℤ, pos, is_zero, is_neg}
use cs252aproject.Router.State.{Config}
use cs252aproject.Router.Global.{
  Release, ibv_close_device, Platform, Globals, cleared, set_up, release, drop_list, drop_pd,
  drop_ctx, drop_epoll, destroy_global_res, init_global_res, whole_life,
}

-- How often a context has been closed
unfoldable pub closes : ℕ → List Release → ℕ
closes ctx [] = 0
closes ctx (ibv_close_device c ∷ rest) =
    let others = closes ctx rest in if nat_beq c ctx then suc others else others
closes ctx (_ ∷ rest) = closes ctx rest

module _ (ctx : ℕ) where
  -- A step that keeps the context, and does not close it
  abbrev Stays : Globals → Globals → Type 0
  Stays g g' = (g'.ib_ctx ≡ g.ib_ctx) × (closes ctx g'.released ≡ closes ctx g.released)

  drop_list-Stays : (g : Globals) → Stays g (drop_list g)
  unfolding drop_list closes
  drop_list-Stays g = elim (Option-cases g.ib_list) [
    | inl missing ↦ rw missing (refl, refl)
    | inr (list, there) ↦ rw there (refl, refl)
  ]

  module _ (p : Platform) where
    drop_pd-Stays : (g : Globals) → Stays g (drop_pd p g).1
    unfolding drop_pd release closes
    drop_pd-Stays g = elim (Option-cases g.pd) [
      | inl missing ↦ rw missing (refl, refl)
      | inr (pd, there) ↦ rw there (refl, refl)
    ]

    drop_epoll-Stays : (g : Globals) → Stays g (drop_epoll p g).1
    unfolding drop_epoll release closes
    drop_epoll-Stays g = elim (Bool-cases (is_neg g.epoll_fd || is_zero g.epoll_fd)) [
      | inl unused ↦ rw unused (refl, refl)
      | inr opened ↦ rw opened (refl, refl)
    ]

    drop_ctx_lem :
        (g : Globals) → g.ib_ctx ≡ some ctx → drop_ctx p g ≡ release p (ibv_close_device ctx) g
    unfolding drop_ctx
    drop_ctx_lem g there =
        ap (λ o. elim o [ none ↦ (false, g) | some c ↦ release p (ibv_close_device c) g ]) there

    drop_ctx-closes :
        (g : Globals)
        → g.ib_ctx ≡ some ctx
        → ((drop_ctx p g).1.ib_ctx ≡ some ctx)
          × (closes ctx (drop_ctx p g).1.released ≡ suc (closes ctx g.released))
    unfolding release closes
    drop_ctx-closes g there =
        let same : nat_beq ctx ctx ≡ true = (nat_beq_iff _ _).1 refl in
        rw (drop_ctx_lem g there) (there, rw same refl)

    destroy-closes :
        (g : Globals)
        → g.ib_ctx ≡ some ctx
        → ((destroy_global_res p g).1.ib_ctx ≡ some ctx)
          × (closes ctx (destroy_global_res p g).1.released ≡ suc (closes ctx g.released))
    unfolding destroy_global_res
    destroy-closes g there =
        let g0 : Globals = drop_list g in
        let g1 : Globals = (drop_pd p g0).1 in
        let g2 : Globals = (drop_ctx p g1).1 in
        let (c0, n0) = drop_list-Stays g in
        let (c1, n1) = drop_pd-Stays g0 in
        let (c2, n2) = drop_ctx-closes g1 (c1 ∙ c0 ∙ there) in
        let (c3, n3) = drop_epoll-Stays g2 in (c3 ∙ c2, n3 ∙ n2 ∙ ap suc (n1 ∙ n0))

    drop_ctx-ib_ctx : (g : Globals) → (drop_ctx p g).1.ib_ctx ≡ g.ib_ctx
    unfolding drop_ctx release
    drop_ctx-ib_ctx g = kept g.ib_ctx
      where
        kept :
            (o : Option ℕ)
            → (elim o as (λ x. Bool × Globals) [
              | none ↦ (false, g)
              | some c ↦ release p (ibv_close_device c) g
            ]).1.ib_ctx
              ≡ g.ib_ctx
        kept none = refl
        kept (some c) = refl

    destroy-ib_ctx : (g : Globals) → (destroy_global_res p g).1.ib_ctx ≡ g.ib_ctx
    unfolding destroy_global_res
    destroy-ib_ctx g =
        (drop_epoll-Stays _).0 ∙ drop_ctx-ib_ctx _ ∙ (drop_pd-Stays _).0 ∙ (drop_list-Stays g).0

    abbrev finished : Option (Unit {0}) × Globals → ℤ × Globals
    finished x = elim x.0 [ some u ↦ (pos 0, x.1) | none ↦ (pos 1, (destroy_global_res p x.1).1) ]

    finished-closes :
        (x : Option (Unit {0}) × Globals) (g' : Globals)
        → finished x ≡ (pos 1, g')
        → g'.ib_ctx ≡ some ctx
        → 2 ≤ closes ctx (destroy_global_res p (finished x).1).1.released
    finished-closes (some u, y) g' failed there = absurd (cc failed)
    finished-closes (none, y) g' failed there =
        let kept : (destroy_global_res p y).1.ib_ctx ≡ some ctx =
          ap (λ z. z.1.ib_ctx) failed ∙ there in
        let first = destroy-closes y (sym (destroy-ib_ctx y) ∙ kept) in
        let second = destroy-closes (destroy_global_res p y).1 kept in
        omega (arith, first.1, second.1)

-- When init_global_res fails with an open device context left in `global_res`, the context is closed
-- at least twice from `start` to the end of the destructor.
pub init_global_res-closes :
    (p : Platform) (config : Config) (g g' : Globals) (ctx : ℕ)
    → init_global_res p config g ≡ (pos 1, g')
    → g'.ib_ctx ≡ some ctx
    → 2 ≤ closes ctx (whole_life p config g).released
unfolding init_global_res whole_life
init_global_res-closes p config g g' ctx failed there =
    finished-closes ctx p (set_up p config (cleared g)) g' failed there
