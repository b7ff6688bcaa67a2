-- ===== src/Router/Invariant/Objects.antt =====
-- Actions under the mutex of an object that serves a host key: IBV_POST_SEND, IBV_POST_RECV,
-- IBV_POLL_CQ and the last part of IBV_MODIFY_QP.
use mathlib.Core.Path.{subst}
use cs252aproject.Base.{
  nat_eq, ℕ, ◌≤◌, ◌≡◌, refl, sym, ap, ◌∙◌, Bool, true, false, some, ◌∷◌, if◌then◌else◌, arith, inl,
  inr, Bool-cases, nat_beq, nat_beq_iff,
}
use cs252aproject.Base.Int.{ℤ, is_zero}
use cs252aproject.Base.Map.{Map, find, insert, find-insert, find-insert_self}
use cs252aproject.Common.Keys.{HostKey, host_key_eq}
use cs252aproject.Router.State.{ibv_poll_cq, Env, Router, Call, ConnResources}
use cs252aproject.Router.Exec.{ok, err, killed}
use cs252aproject.Router.Triple.{Post, Triple}
use cs252aproject.Router.Handlers.Transfer.{post_on, poll_on}
use cs252aproject.Router.Invariant.Users.{users}
use cs252aproject.Router.Invariant.Defs.{Core, core_of, Serves, IsServing, IsSound, Sound, Fails}

-- One object is replaced by another that serves as well and counts the users of its host key.
module _ (c : Core) (h : IsSound c) (key : HostKey) (p : ℕ) (r r' : ConnResources)
    (serves : Serves c key p r) (serving : IsServing r')
    (covers : users key c.src_qp_map ≤ r'.ref_cnt) (conns : Map ℕ ConnResources)
    (law : (j : ℕ) → find conns j ≡ (if nat_beq p j then some r' else find c.conns j)) where
  abbrev c' : Core
  c' = record c { conns = conns }

  replaced : (j : ℕ) → (nat_beq p j ≡ true) → find conns j ≡ some r'
  replaced j e = law j ∙ ap (λ b. if b then some r' else find c.conns j) e

  kept : (j : ℕ) → (nat_beq p j ≡ false) → find conns j ≡ find c.conns j
  kept j e = law j ∙ ap (λ b. if b then some r' else find c.conns j) e

  same_user :
      (k : HostKey) (q : ℕ) (x : ConnResources)
      → nat_beq p q ≡ true
      → Serves c' k q x
      → users k c.src_qp_map ≤ x.ref_cnt
  same_user k q x same s =
      let here =
        subst (λ t. find c.host_map key ≡ some (some t)) ((nat_beq_iff p q).0 same) serves.0 in
      let object : x ≡ r' = cc (s.1, replaced q same) in
      rw (h.alone k key q s.0 here, object) covers

  pub replace-IsSound : IsSound c'
  replace-IsSound = record {
    free_locks = h.free_locks;
    entries = λ k slot e.
        let (q, x, s, y) = h.entries k slot e in
        elim (Bool-cases (nat_beq p q)) [
          | inl same ↦ (q, r', (s.0, replaced q same), serving)
          | inr other ↦ (q, x, (s.0, kept q other ∙ s.1), y)
        ];
    alone = h.alone;
    fresh = λ q above. elim (Bool-cases (nat_beq p q)) [
      | inl same ↦ absurd (cc (h.fresh q above, (nat_beq_iff p q).0 same, serves.1))
      | inr other ↦ kept q other ∙ h.fresh q above
    ];
    orphans = h.orphans;
    counted = λ k q x s. elim (Bool-cases (nat_beq p q)) [
      | inl same ↦ same_user k q x same s
      | inr other ↦ h.counted k q x (s.0, sym (kept q other) ∙ s.1)
    ];
  }

-- The address of an object that serves a host key
abbrev pub Live : ℕ → Router → Type 0
Live p s = Sound s × ((key : HostKey) × (find s.host_map key ≡ some (some p)))

-- What a live object is
pub record LiveObject (s : Router) (p : ℕ) : Type 0 where
  pub sound : Sound s
  pub key : HostKey
  pub object : ConnResources
  pub serves : Serves (core_of s) key p object
  pub serving : IsServing object

pub live_object : (p : ℕ) (s : Router) → Live p s → LiveObject s p
live_object p s (h, (key, e)) =
    let (q, r, serves, serving) = h.entries key (some p) e in
    record {
      sound = h;
      key = key;
      object = r;
      serves = (e, subst (λ t. find s.conns t ≡ some r) (cc (e, serves.0)) serves.1);
      serving = serving;
    }

-- A live object is written twice, and serves again after the second write.
pub rewrite-Sound :
    (s : Router) (p : ℕ) (l : LiveObject s p) (x r' : ConnResources)
    → IsServing r'
    → l.object.ref_cnt ≤ r'.ref_cnt
    → IsSound (record (core_of s) { conns = insert (insert s.conns p x) p r' })
rewrite-Sound s p l x r' serving more =
    replace-IsSound (core_of s) l.sound l.key p l.object r' l.serves serving
      (omega (arith, l.sound.counted l.key p l.object l.serves)) _
      λ j. ground (arith, find-insert (insert s.conns p x) p j r', find-insert s.conns p j x)

pub unlocked-IsServing : (r : ConnResources) → IsServing r → IsServing (record r { locked = false })
unlocked-IsServing r v = record {
  free = refl;
  qp = v.qp;
  has_qp = v.has_qp;
  cq = v.cq;
  has_cq = v.has_cq;
  used = v.used;
  fits = v.fits;
}

module _ (env : Env) (p : ℕ) (request : ℕ → Call) (s : Router) (l : LiveObject s p) where
  -- The state after a request is posted on a live object
  abbrev pub posted : Router
  posted = record s {
    conns =
        insert (insert s.conns p (record l.object { locked = true })) p
          (record l.object { locked = false });
    calls = request l.serving.qp.ptr ∷ s.calls;
  }

  pub post_on_lem :
      post_on env p request s
      ≡ (if is_zero (env.rc posted.calls) then (ok tt, posted) else (err killed, posted))
  unfolding post_on
  post_on_lem = simp (l.serves.1, l.serving.free, l.serving.has_qp, find-insert_self) (ground arith)

  pub posted-Sound : Sound posted
  posted-Sound = rewrite-Sound s p l _ _ (unlocked-IsServing l.object l.serving) (omega arith)

-- The state after completions are polled on a live object
abbrev pub polled : (s : Router) (p : ℕ) → LiveObject s p → ℤ → Router
polled s p l n = record s {
  conns =
      insert (insert s.conns p (record l.object { locked = true })) p
        (record l.object { locked = false });
  calls = ibv_poll_cq l.serving.cq n ∷ s.calls;
}

module _ (env : Env) (p : ℕ) (n : ℤ) (s : Router) (l : LiveObject s p) where
  pub poll_on_lem :
      poll_on env p n s
      ≡ (ok (env.rc (polled s p l n).calls, env.completions (polled s p l n).calls), polled s p l n)
  unfolding poll_on
  poll_on_lem = simp (l.serves.1, l.serving.free, l.serving.has_cq, find-insert_self)

  pub polled-Sound : Sound (polled s p l n)
  polled-Sound = rewrite-Sound s p l _ _ (unlocked-IsServing l.object l.serving) (omega arith)

module _ {w : Bool} (env : Env) (p : ℕ) where
  pub post_on_rule :
      (request : ℕ → Call) → Triple (Fails w) (Live p) (post_on env p request) (λ _. Sound)
  post_on_rule request = record {
    at = λ s h.
        let l = live_object p s h in
        let sound = posted-Sound env p request s l in
        rw (post_on_lem env p request s l)
          (elim (is_zero (env.rc (posted env p request s l).calls))
            as (λ b.
              Post {A = Unit {0}} (λ _. Sound) (Fails w)
                (if b
                  then (ok tt, posted env p request s l)
                  else (err killed, posted env p request s l))) [ true ↦ sound | false ↦ sound ]);
  }

  pub poll_on_rule : (n : ℤ) → Triple (Fails w) (Live p) (poll_on env p n) (λ _. Sound)
  poll_on_rule n = record {
    at =
        λ s h. let l = live_object p s h in rw (poll_on_lem env p n s l) (polled-Sound env p n s l);
  }
