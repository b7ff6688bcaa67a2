-- ===== src/Router/Invariant/Release.antt =====
-- The last user of a host key leaves an object that nothing leads to, which IBV_DESTROY_QP frees.
use mathlib.Core.Path.{subst}
use cs252aproject.Base.{
  nat_eq, ℕ, ◌≤◌, ◌≡◌, ◌≢◌, refl, sym, ◌∙◌, Bool, true, false, Option, none, some, arith, inl, inr,
  nat_beq, nat_beq_iff, Bool-cases,
}
use cs252aproject.Base.Map.{Map, find, insert, erase, find-insert, find-insert_self, find-erase}
use cs252aproject.Common.Keys.{HostKey, host_key_eq, host_key_beq, host_key_beq_iff}
use cs252aproject.Router.State.{Router, ConnResources}
use cs252aproject.Router.Triple.{Post, Triple}
use cs252aproject.Router.Handlers.Attach.{count_down}
use cs252aproject.Router.Handlers.QueuePair.{release_host}
use cs252aproject.Router.Invariant.Users.{users}
use cs252aproject.Router.Invariant.Defs.{Core, core_of, Serves, IsServing, IsSound, Sound, Fails}
use cs252aproject.Router.Invariant.Frame.{settled, settled_triple}
use cs252aproject.Router.Invariant.Objects.{replace-IsSound}
use cs252aproject.Router.Invariant.Shared.{Spare}
use cs252aproject.Router.Invariant.Counts.{Serves-one}

-- An allocated object that no host key leads to
pub record Loose (p : ℕ) (r : ConnResources) (c : Core) : Type 0 where
  pub sound : IsSound c
  pub object : find c.conns p ≡ some r
  pub alone : (key : HostKey) → find c.host_map key ≢ some (some p)

-- Such an object may change, and may be freed.
module _ (c : Core) (p : ℕ) (r : ConnResources) (l : Loose p r c) (conns : Map ℕ ConnResources)
    (law : (j : ℕ) → nat_beq p j ≡ false → find conns j ≡ find c.conns j) where
  -- What a host key leads to is not that object.
  elsewhere : (key : HostKey) (q : ℕ) → find c.host_map key ≡ some (some q) → nat_beq p q ≡ false
  elsewhere key q e = elim (Bool-cases (nat_beq p q)) [
    | inl same ↦ absurd (
        l.alone key
          (subst (λ t. find c.host_map key ≡ some (some t)) (sym ((nat_beq_iff p q).0 same)) e))
    | inr other ↦ other
  ]

  pub loose-IsSound :
      ((j : ℕ) → c.next_conn ≤ j → find conns j ≡ none) → IsSound (record c { conns = conns })
  loose-IsSound fresh = record {
    free_locks = l.sound.free_locks;
    entries = λ key slot e.
        let (q, x, s, v) = l.sound.entries key slot e in
        (q, x, (s.0, law q (elsewhere key q s.0) ∙ s.1), v);
    alone = l.sound.alone;
    fresh = fresh;
    orphans = l.sound.orphans;
    counted = λ key q x s. l.sound.counted key q x (s.0, sym (law q (elsewhere key q s.0)) ∙ s.1);
  }

pub stored-Loose :
    (c : Core) (p : ℕ) (r x : ConnResources)
    → Loose p r c
    → Loose p x (record c { conns = insert c.conns p x })
stored-Loose c p r x l = record {
  sound =
      loose-IsSound c p r l _ (λ j other. ground (arith, find-insert c.conns p j x))
        λ j above.
          ground
            (arith, find-insert c.conns p j x, l.sound.fresh j above, l.object, nat_beq_iff p j);
  object = find-insert_self c.conns p x;
  alone = l.alone;
}

pub freed-IsSound :
    (c : Core) (p : ℕ) (r : ConnResources)
    → Loose p r c
    → IsSound (record c { conns = erase c.conns p })
freed-IsSound c p r l =
    loose-IsSound c p r l _ (λ j other. ground (arith, find-erase c.conns p j))
      λ j above. ground (arith, find-erase c.conns p j, l.sound.fresh j above)

-- The entry of a host key without users is erased.
module _ (c : Core) (h : IsSound c) (key : HostKey) (p : ℕ) (r : ConnResources)
    (e : Serves c key p r) (unused : users key c.src_qp_map ≡ 0) where
  abbrev rest : Map HostKey (Option ℕ)
  rest = erase c.host_map key

  rest_old :
      (j : HostKey) (slot : Option ℕ)
      → find rest j ≡ some slot
      → (key ≢ j) × (find c.host_map j ≡ some slot)
  rest_old j slot f = elim (Bool-cases (host_key_beq key j)) [
    | inl same ↦ absurd (ground (arith, find-erase c.host_map key j))
    | inr other ↦ (
      λ same. ground (arith, host_key_beq_iff key j),
      ground (arith, find-erase c.host_map key j),
    )
  ]

  rest_orphans : (j : HostKey) → find rest j ≡ none → users j c.src_qp_map ≡ 0
  rest_orphans j f = elim (Bool-cases (host_key_beq key j)) [
    | inl same ↦ subst (λ k. users k c.src_qp_map ≡ 0) ((host_key_beq_iff key j).0 same) unused
    | inr other ↦ h.orphans j (ground (arith, find-erase c.host_map key j))
  ]

  unentered-Loose : Loose p r (record c { host_map = rest })
  unentered-Loose = record {
    sound = record {
      free_locks = h.free_locks;
      entries = λ j slot f.
          let old = (rest_old j slot f).1 in
          let (q, x, s, v) = h.entries j slot old in (q, x, (cc (f, old, s.0), s.1), v);
      alone = λ k j q a b. h.alone k j q (rest_old k _ a).1 (rest_old j _ b).1;
      fresh = h.fresh;
      orphans = rest_orphans;
      counted = λ j q x s. h.counted j q x ((rest_old j _ s.0).1, s.1);
    };
    object = e.1;
    alone = λ j f. let (other, old) = rest_old j _ f in other (h.alone key j p e.0 old);
  }

-- What `release_host` leaves: one user less, or an object that nothing leads to any more.
abbrev pub Left : Option ℕ → Router → Type 0
Left none s = Sound s
Left (some p) s = (r : ConnResources) × Loose p r (core_of s) × (r.locked ≡ false)

abbrev pub Released : Bool × Option ℕ → Router → Type 0
Released (there, last) s = (there ≡ true) × Left last s

dropped-IsServing :
    (r : ConnResources)
    → IsServing r
    → nat_beq (count_down r.ref_cnt) 0 ≡ false
    → IsServing (record r { ref_cnt = count_down r.ref_cnt })
dropped-IsServing r v more = record {
  free = v.free;
  qp = v.qp;
  has_qp = v.has_qp;
  cq = v.cq;
  has_cq = v.has_cq;
  used = ground arith;
  fits = omega arith;
}

module _ (w : Bool) (key : HostKey) (s : Router) (sp : Spare key (core_of (settled s)))
    (v : IsServing sp.object) where
  covered :
      nat_beq (count_down sp.object.ref_cnt) 0 ≡ false
      → users key s.src_qp_map ≤ count_down sp.object.ref_cnt
  covered more = ground (arith, sp.room, v.used, v.fits)

  uncovered : nat_beq (count_down sp.object.ref_cnt) 0 ≡ true → users key s.src_qp_map ≡ 0
  uncovered done = ground (arith, sp.room, v.used, v.fits)

  release_some :
      nat_beq (count_down sp.object.ref_cnt) 0 ≡ false
      → Post Released (Fails w) (release_host key (settled s))
  unfolding release_host
  release_some more =
      simp (sp.serves.0, sp.serves.1, more)
        (
          refl,
          replace-IsSound (core_of (settled s)) sp.sound key sp.ptr sp.object _ sp.serves
              (dropped-IsServing sp.object v more) (covered more) _
              λ j. ground (
                arith,
                find-insert s.conns sp.ptr j
                    (record sp.object { ref_cnt = count_down sp.object.ref_cnt }),
              ),
        )

  release_last :
      nat_beq (count_down sp.object.ref_cnt) 0 ≡ true
      → Post Released (Fails w) (release_host key (settled s))
  unfolding release_host
  release_last done =
      simp (sp.serves.0, sp.serves.1, done)
        (
          refl,
          (
            _,
            stored-Loose _ sp.ptr sp.object _ (
                unentered-Loose (core_of (settled s)) sp.sound key sp.ptr sp.object sp.serves
                  (uncovered done)),
            v.free,
          ),
        )

pub release_host_rule :
    (w : Bool) (key : HostKey)
    → Triple (Fails w) (λ s. Spare key (core_of s)) (release_host key) Released
release_host_rule w key =
    settled_triple w (Spare key) (λ c h. h.sound) _ _
      λ s sp.
        let (q, x, serves, serving) = sp.sound.entries key (some sp.ptr) sp.serves.0 in
        let v =
          subst IsServing
            (sym (Serves-one (core_of (settled s)) key sp.ptr q sp.object x sp.serves serves))
            serving in
        elim (Bool-cases (nat_beq (count_down sp.object.ref_cnt) 0)) [
          | inl done ↦ release_last w key s sp v done
          | inr more ↦ release_some w key s sp v more
        ]
