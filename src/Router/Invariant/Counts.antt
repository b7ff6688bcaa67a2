-- ===== src/Router/Invariant/Counts.antt =====
-- The bookkeeping of IBV_MODIFY_QP and IBV_DESTROY_QP on `src_qp_map` and on the reference counts
-- keeps the invariant; the last user leaves an object that nothing leads to.
use mathlib.Core.Path.{subst}
use cs252aproject.Base.{
  nat_eq, ℕ, ◌+◌, ◌≤◌, ◌≡◌, sym, Bool, Option, none, some, arith, inl, inr, Option-cases,
  Bool-cases,
}
use cs252aproject.Base.Map.{Map, find, insert, erase}
use cs252aproject.Common.Keys.{HostKey, host_key_eq, host_key_beq, host_key_beq_iff}
use cs252aproject.Router.State.{Router, ConnResources}
use cs252aproject.Router.Triple.{Triple}
use cs252aproject.Router.Handlers.QueuePair.{assign_src_qp, take_src_qp}
use cs252aproject.Router.Invariant.Users.{
  users, users-insert-le, users-erase-le, users-erase-lt, users-pos,
}
use cs252aproject.Router.Invariant.Defs.{Core, core_of, Serves, IsSound, Sound, Fails}
use cs252aproject.Router.Invariant.Frame.{settled, settled_triple}
use cs252aproject.Router.Invariant.Shared.{Spare}

-- The map of users is replaced by one that the reference counts still cover.
remap-IsSound :
    (c : Core) (m : Map ℕ HostKey)
    → IsSound c
    → ((j : HostKey) → find c.host_map j ≡ none → users j m ≡ 0)
    → ((j : HostKey) (p : ℕ) (r : ConnResources) → Serves c j p r → users j m ≤ r.ref_cnt)
    → IsSound (record c { src_qp_map = m })
remap-IsSound c m h orphans counted = record {
  free_locks = h.free_locks;
  entries = h.entries;
  alone = h.alone;
  fresh = h.fresh;
  orphans = orphans;
  counted = counted;
}

-- What a host key leads to is one object.
pub Serves-one :
    (c : Core) (key : HostKey) (p q : ℕ) (r x : ConnResources)
    → Serves c key p r
    → Serves c key q x
    → r ≡ x
Serves-one c key p q r x a b =
    let same : p ≡ q = cc (a.0, b.0) in
    let at_q : find c.conns q ≡ some r = subst (λ t. find c.conns t ≡ some r) same a.1 in
    cc (at_q, b.1)

-- A host key that has an entry
abbrev pub Hosted : HostKey → Core → Type 0
Hosted key c = IsSound c × ((p : ℕ) × (find c.host_map key ≡ some (some p)))

module _ (c : Core) (key : HostKey) (sp : Spare key c) (handle : ℕ) where
  abbrev with_handle : Map ℕ HostKey
  with_handle = insert c.src_qp_map handle key

  assigned_orphans : (j : HostKey) → find c.host_map j ≡ none → users j with_handle ≡ 0
  assigned_orphans j e = elim (Bool-cases (host_key_beq key j)) [
    | inl same ↦ absurd (
        cc (
          e,
          subst (λ k. find c.host_map k ≡ some (some sp.ptr)) ((host_key_beq_iff key j).0 same)
              sp.serves.0,
        ))
    | inr other ↦ ground (arith, users-insert-le j handle c.src_qp_map key, sp.sound.orphans j e)
  ]

  assigned_counted :
      (j : HostKey) (p : ℕ) (r : ConnResources) → Serves c j p r → users j with_handle ≤ r.ref_cnt
  assigned_counted j p r e = elim (Bool-cases (host_key_beq key j)) [
    | inl same ↦
        let k : key ≡ j = (host_key_beq_iff key j).0 same in
        let object =
          Serves-one c key sp.ptr p sp.object r sp.serves (subst (λ t. Serves c t p r) (sym k) e) in
        let room : users j c.src_qp_map + 1 ≤ r.ref_cnt =
          subst (λ t. users t c.src_qp_map + 1 ≤ r.ref_cnt) k
            (subst (λ (o : ConnResources). users key c.src_qp_map + 1 ≤ o.ref_cnt) object
              sp.room) in
        ground (arith, users-insert-le j handle c.src_qp_map key)
    | inr other ↦
        ground (arith, users-insert-le j handle c.src_qp_map key, sp.sound.counted j p r e)
  ]

  pub assigned-Hosted : Hosted key (record c { src_qp_map = with_handle })
  assigned-Hosted = (
    remap-IsSound c with_handle sp.sound assigned_orphans assigned_counted,
    (sp.ptr, sp.serves.0),
  )

-- A handle is taken out: its host key has room for it again.
module _ (c : Core) (h : IsSound c) (handle : ℕ) where
  abbrev without_handle : Map ℕ HostKey
  without_handle = erase c.src_qp_map handle

  pub erased-IsSound : IsSound (record c { src_qp_map = without_handle })
  erased-IsSound =
      remap-IsSound c without_handle h
        (λ j e. omega (arith, users-erase-le j handle c.src_qp_map, h.orphans j e))
        (λ j p r e. omega (arith, users-erase-le j handle c.src_qp_map, h.counted j p r e))

  pub erased-Spare :
      (key : HostKey)
      → find c.src_qp_map handle ≡ some key
      → Spare key (record c { src_qp_map = without_handle })
  erased-Spare key e = elim (Option-cases (find c.host_map key)) [
    | inl absent ↦ absurd (omega (arith, users-pos key handle c.src_qp_map e, h.orphans key absent))
    | inr (slot, there) ↦
        let (p, r, t, v) = h.entries key slot there in
        record {
          sound = erased-IsSound;
          ptr = p;
          object = r;
          serves = t;
          room = omega (arith, users-erase-lt key handle c.src_qp_map e, h.counted key p r t);
        }
  ]

abbrev pub Taken : Option HostKey → Router → Type 0
Taken none s = Sound s
Taken (some key) s = Spare key (core_of s)

module _ (w : Bool) where
  pub assign_src_qp_rule :
      (handle : ℕ) (key : HostKey)
      → Triple
          (Fails w)
          (λ s. Spare key (core_of s))
          (assign_src_qp handle key)
          (λ _ s. Hosted key (core_of s))
  unfolding assign_src_qp
  assign_src_qp_rule handle key =
      settled_triple w (Spare key) (λ c h. h.sound) _ _
        λ s h. assigned-Hosted (core_of (settled s)) key h handle

  pub take_src_qp_rule : (handle : ℕ) → Triple (Fails w) Sound (take_src_qp handle) Taken
  unfolding take_src_qp
  take_src_qp_rule handle =
      settled_triple w IsSound (λ c h. h) _ _
        λ s h. elim (Option-cases (find s.src_qp_map handle)) [
          | inl absent ↦ rw (absent, take_src_qp) h
          | inr (key, there) ↦
              rw (there, take_src_qp) (erased-Spare (core_of (settled s)) h handle key there)
        ]
