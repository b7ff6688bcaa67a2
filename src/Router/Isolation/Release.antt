-- ===== src/Router/Isolation/Release.antt =====
-- IBV_DESTROY_QP of one handle leaves the object of a host key that another handle uses.
use mathlib.Core.Path.{subst}
use cs252aproject.Base.{
  ℕ, ◌≤◌, ◌≡◌, sym, ap, ◌∙◌, true, false, some, nat_eq, nat_beq, arith, inl, inr, Bool-cases,
}
use cs252aproject.Base.Map.{find, erase, find-erase}
use cs252aproject.Common.Keys.{HostKey, host_key_eq, host_key_beq, host_key_beq_iff}
use cs252aproject.Router.State.{Router}
use cs252aproject.Router.Triple.{Post, Triple}
use cs252aproject.Router.Handlers.Attach.{count_down}
use cs252aproject.Router.Handlers.QueuePair.{release_host}
use cs252aproject.Router.Invariant.Users.{users, users-pos}
use cs252aproject.Router.Invariant.Defs.{core_of, IsServing}
use cs252aproject.Router.Invariant.Frame.{settled, settled_eq}
use cs252aproject.Router.Invariant.Shared.{Spare}
use cs252aproject.Router.Invariant.Counts.{Serves-one}
use cs252aproject.Router.Isolation.Rules.{Holds}

module _ (h : ℕ) (own : HostKey) (object : ℕ) where
  -- Before a user of a host key is dropped: its handle is taken out, and the other one is there.
  abbrev pub Dropping : HostKey → Router → Type 0
  Dropping key s = Spare key (core_of s) × Holds h own object s

  module _ (key : HostKey) (s : Router) (sp : Spare key (core_of s)) (v : IsServing sp.object)
      (k : Holds h own object s) where
    -- The last user of a host key is not the last user of the other handle's host key.
    last_apart : nat_beq (count_down sp.object.ref_cnt) 0 ≡ true → host_key_beq key own ≡ false
    last_apart last = elim (Bool-cases (host_key_beq key own)) [
      | inl same ↦
          let used : 1 ≤ users key s.src_qp_map =
            users-pos key h s.src_qp_map
              (k.0 ∙ ap some (sym ((host_key_beq_iff key own).0 same))) in
          absurd (ground (arith, used, sp.room, v.used, v.fits, last))
      | inr other ↦ other
    ]

    erased-Holds :
        nat_beq (count_down sp.object.ref_cnt) 0 ≡ true
        → find (erase s.host_map key) own ≡ some (some object)
    erased-Holds last = find-erase s.host_map key own ∙ rw (last_apart last) k.1

  settled_release :
      (key : HostKey) (s : Router) (sp : Spare key (core_of (settled s)))
      → IsServing sp.object
      → Holds h own object s
      → Post (λ _. Holds h own object) (λ f. Holds h own object) (release_host key (settled s))
  unfolding release_host
  settled_release key s sp v k = elim (Bool-cases (nat_beq (count_down sp.object.ref_cnt) 0)) [
    | inl last ↦
        simp (sp.serves.0, sp.serves.1, last) (k.0, erased-Holds key (settled s) sp v k last)
    | inr more ↦ simp (sp.serves.0, sp.serves.1, more) k
  ]

  -- What `release_host` needs of the entry that it counts down
  abbrev Counted : HostKey → Router → Type 0
  Counted key s = (sp : Spare key (core_of s)) × IsServing sp.object

  Spare-Counted : (key : HostKey) (s : Router) → Spare key (core_of s) → Counted key s
  Spare-Counted key s sp =
      let (q, x, serves, serving) = sp.sound.entries key (some sp.ptr) sp.serves.0 in
      (
        sp,
        subst IsServing (sym (Serves-one (core_of s) key sp.ptr q sp.object x sp.serves serves))
            serving,
      )

  pub release_host_rule :
      (key : HostKey)
      → Triple (λ f. Holds h own object) (Dropping key) (release_host key) (λ _. Holds h own object)
  release_host_rule key = record {
    at = λ s (sp, k).
        let e = settled_eq s sp.sound.free_locks in
        let (sp', v) = subst (Counted key) (sym e) (Spare-Counted key s sp) in
        subst (λ t. Post (λ _. Holds h own object) (λ f. Holds h own object) (release_host key t)) e
          (settled_release key s sp' v k);
  }
