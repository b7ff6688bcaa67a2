-- ===== src/Router/Invariant/Shared.antt =====
-- The entry of a host key gets one more user, or a new object: both keep the invariant.
use mathlib.Core.Path.{subst}
use cs252aproject.Base.{
  nat_eq, ℕ, suc, ◌+◌, ◌≤◌, ◌<◌, ◌≡◌, sym, ap, ◌∙◌, ◌⊎◌, true, false, Option, none, some, List,
  if◌then◌else◌, arith, inl, inr, nat_beq, Bool-cases, beq_ne, beq_refl,
}
use cs252aproject.Base.Map.{Map, find, insert, find-insert}
use cs252aproject.Common.Keys.{HostKey, host_key_eq, host_key_beq, host_key_beq_iff}
use cs252aproject.Router.State.{Env, Call, ConnResources, Qp}
use cs252aproject.Router.Handlers.Attach.{count_up}
use cs252aproject.Router.Invariant.Users.{users}
use cs252aproject.Router.Invariant.Defs.{Core, Serves, IsServing, IsSound}
use cs252aproject.Router.Invariant.Objects.{replace-IsSound}

-- A host key has an object whose reference count covers one user more than there are.
pub record Spare (key : HostKey) (c : Core) : Type 0 where
  pub sound : IsSound c
  pub ptr : ℕ
  pub object : ConnResources
  pub serves : Serves c key ptr object
  pub room : users key c.src_qp_map + 1 ≤ object.ref_cnt

-- libibverbs and the device have room for the queues that the router asks for, and the memory of a
-- destroyed queue pair can still be read.
pub record Creates (env : Env) : Type 0 where
  pub cq : (h : List Call) → (p : ℕ) × (env.create_cq h ≡ some p)
  pub qp : (h : List Call) → (q : Qp) × (env.create_qp h ≡ some q)
  pub stale : (h : List Call) → (q : ℕ) × (env.freed_qp_num h ≡ some q)

raise-IsSound : (c : Core) → IsSound c → IsSound (record c { next_conn = suc c.next_conn })
raise-IsSound c h = record {
  free_locks = h.free_locks;
  entries = h.entries;
  alone = h.alone;
  fresh = λ p above. h.fresh p (omega arith);
  orphans = h.orphans;
  counted = h.counted;
}

pub counted_up-IsServing :
    (r : ConnResources)
    → IsServing r
    → r.ref_cnt + 1 < 0x1_0000_0000
    → IsServing (record r { ref_cnt = count_up r.ref_cnt })
counted_up-IsServing r v fits = record {
  free = v.free;
  qp = v.qp;
  has_qp = v.has_qp;
  cq = v.cq;
  has_cq = v.has_cq;
  used = omega arith;
  fits = omega arith;
}

-- The object that is there has one user more.
pub shared-Spare :
    (c : Core) (h : IsSound c) (key : HostKey) (p : ℕ) (r r' : ConnResources)
    → Serves c key p r
    → IsServing r'
    → r.ref_cnt + 1 ≡ r'.ref_cnt
    → (conns : Map ℕ ConnResources)
    → ((j : ℕ) → find conns j ≡ (if nat_beq p j then some r' else find c.conns j))
    → Spare key (record c { conns = conns; next_conn = suc c.next_conn })
shared-Spare c h key p r r' e v more conns law = record {
  sound =
      raise-IsSound _
        (replace-IsSound c h key p r r' e v (omega (arith, h.counted key p r e)) conns law);
  ptr = p;
  object = r';
  serves = (e.0, law p ∙ ap (λ b. if b then some r' else find c.conns p) (beq_refl p));
  room = omega (arith, h.counted key p r e);
}

-- A new object is entered for a host key that had none.
module _ (c : Core) (h : IsSound c) (key : HostKey) (r : ConnResources)
    (absent : find c.host_map key ≡ none) (v : IsServing r) (one : r.ref_cnt ≡ 1)
    (conns : Map ℕ ConnResources)
    (law : (j : ℕ)
      → find conns j ≡ (if nat_beq c.next_conn j then some r else find c.conns j)) where
  abbrev entered : Core
  entered = record c {
    host_map = insert c.host_map key (some c.next_conn);
    conns = conns;
    next_conn = suc c.next_conn;
  }

  here : find conns c.next_conn ≡ some r
  here =
      law c.next_conn
      ∙ ap (λ b. if b then some r else find c.conns c.next_conn) (beq_refl c.next_conn)

  -- An object that was there is at another address.
  old_apart : (p : ℕ) (x : ConnResources) → find c.conns p ≡ some x → nat_beq c.next_conn p ≡ false
  old_apart p x e = beq_ne c.next_conn p λ same. cc (h.fresh p (omega (arith, same)), e)

  old_kept : (p : ℕ) (x : ConnResources) → find c.conns p ≡ some x → find conns p ≡ some x
  old_kept p x e = law p ∙ ap (λ b. if b then some r else find c.conns p) (old_apart p x e) ∙ e

  is_here :
      (j : HostKey) → host_key_beq key j ≡ true → find entered.host_map j ≡ some (some c.next_conn)
  is_here j same = ground (arith, find-insert c.host_map key j (some c.next_conn))

  is_old : (j : HostKey) → host_key_beq key j ≡ false → find entered.host_map j ≡ find c.host_map j
  is_old j other = ground (arith, find-insert c.host_map key j (some c.next_conn))

  -- An entry leads to the new object, or is an old one.
  entry_cases :
      (j : HostKey) (slot : Option ℕ)
      → find entered.host_map j ≡ some slot
      → ((key ≡ j) × (slot ≡ some c.next_conn)) ⊎ (find c.host_map j ≡ some slot)
  entry_cases j slot e = elim (Bool-cases (host_key_beq key j)) [
    | inl same ↦ inl ((host_key_beq_iff key j).0 same, cc (is_here j same, e))
    | inr other ↦ inr (sym (is_old j other) ∙ e)
  ]

  entered_entries :
      (j : HostKey) (slot : Option ℕ)
      → find entered.host_map j ≡ some slot
      → (p : ℕ) × (x : ConnResources) × Serves entered j p x × IsServing x
  entered_entries j slot e = elim (entry_cases j slot e) [
    | inl (same, new) ↦ (c.next_conn, r, (cc (e, new), here), v)
    | inr old ↦
        let (p, x, t, y) = h.entries j slot old in (p, x, (cc (e, old, t.0), old_kept p x t.1), y)
  ]

  -- No old entry leads to the new address.
  not_new : (j : HostKey) → find c.host_map j ≡ some (some c.next_conn) → ⊥
  not_new j e =
      let (p, x, t, y) = h.entries j _ e in cc (e, t.0, t.1, h.fresh c.next_conn (omega arith))

  entered_alone :
      (k j : HostKey) (p : ℕ)
      → find entered.host_map k ≡ some (some p)
      → find entered.host_map j ≡ some (some p)
      → k ≡ j
  entered_alone k j p a b = elim (entry_cases k _ a) [
    | inl (same, new) ↦ elim (entry_cases j _ b) [
      | inl (same', new') ↦ sym same ∙ same'
      | inr old ↦ absurd (not_new j (cc (old, new)))
    ]
    | inr old ↦ elim (entry_cases j _ b) [
      | inl (same', new') ↦ absurd (not_new k (cc (old, new')))
      | inr old' ↦ h.alone k j p old old'
    ]
  ]

  entered_counted :
      (j : HostKey) (p : ℕ) (x : ConnResources)
      → Serves entered j p x
      → users j c.src_qp_map ≤ x.ref_cnt
  entered_counted j p x t = elim (entry_cases j _ t.0) [
    | inl (same, new) ↦
        omega (arith, subst (λ k. users k c.src_qp_map ≡ 0) same (h.orphans key absent))
    | inr old ↦
        let (q, y, u, z) = h.entries j _ old in
        let at_p : find c.conns p ≡ some y =
          subst (λ t. find c.conns t ≡ some y) (cc (old, u.0)) u.1 in
        let same : y ≡ x = cc (old_kept p y at_p, t.1) in
        subst (λ (o : ConnResources). users j c.src_qp_map ≤ o.ref_cnt) same
          (h.counted j p y (old, at_p))
  ]

  entered_fresh : (p : ℕ) → suc c.next_conn ≤ p → find conns p ≡ none
  entered_fresh p above = ground (arith, law p, h.fresh p)

  entered_orphans : (j : HostKey) → find entered.host_map j ≡ none → users j c.src_qp_map ≡ 0
  entered_orphans j e =
      h.orphans j (ground (arith, find-insert c.host_map key j (some c.next_conn)))

  pub entered-Spare : Spare key entered
  entered-Spare = record {
    sound = record {
      free_locks = h.free_locks;
      entries = entered_entries;
      alone = entered_alone;
      fresh = entered_fresh;
      orphans = entered_orphans;
      counted = entered_counted;
    };
    ptr = c.next_conn;
    object = r;
    serves = (is_here key (beq_refl key), here);
    room = omega (arith, h.orphans key absent);
  }
