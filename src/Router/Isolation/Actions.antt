-- ===== src/Router/Isolation/Actions.antt =====
-- The entry of a host key in `host_map`, and the creation of shared memory, leave a handle with its
-- host key and its object.
use mathlib.Core.Path.{subst}
use cs252aproject.Base.{
  ℕ, ◌≡◌, ◌≢◌, sym, ◌∙◌, inl, inr, Bool-cases, refl, Option, none, some, List, nat_eq, bytes_eq,
}
use cs252aproject.Base.Int.{ℤ}
use cs252aproject.Base.Map.{Map, find, insert, find-insert}
use cs252aproject.Common.Keys.{HostKey, host_key_eq, host_key_beq, host_key_beq_iff}
use cs252aproject.Router.State.{Env, Router, ShmPiece}
use cs252aproject.Router.Exec.{pure, modify, gets, hostmap, ◌>>=◌}
use cs252aproject.Router.Triple.{Triple, bind_rule, Keeps-bind, Keeps-pure}
use cs252aproject.Router.Shm.{add_shm_piece}
use cs252aproject.Router.Handlers.Attach.{attach_host, share_host, enter_host}
use cs252aproject.Router.Isolation.Rules.{Holds, Holds-Framed}
use cs252aproject.Router.Framed.Actions.{Still-open_piece, Still-settle}
use cs252aproject.Router.Framed.Rules.{Framed, Still, still_rules, Still-lock, Still-unlock}

module _ (h : ℕ) (own : HostKey) (object : ℕ) where
  abbrev fr : Framed (Holds h own object)
  fr = Holds-Framed h own object

  Still-pieces :
      (f : Router → Map ℕ (List ShmPiece)) (g : Router → ℕ)
      → Still (Holds h own object) (modify (λ s. record s { shm_map = f s; next_shm = g s }))
  unfolding modify
  Still-pieces f g = record { at = λ s k. k }

  pub Still-add_shm_piece :
      (env : Env) (process_id : ℕ) (size : ℤ)
      → Still (Holds h own object) (add_shm_piece env process_id size)
  unfolding add_shm_piece
  Still-add_shm_piece env process_id size =
      search (still_rules, Holds-Framed, Still-pieces, Still-open_piece) depth 20

  -- A state in which the entry of a host key has been read
  abbrev Read : HostKey → Option (Option ℕ) → Router → Type 0
  Read key entry s = Holds h own object s × (find s.host_map key ≡ entry)

  -- An entry that leads to no object is not the one that is kept.
  entered-Holds :
      (key : HostKey) (entry : Option (Option ℕ)) (new : ℕ) (s : Router)
      → ((q : ℕ) → entry ≢ some (some q))
      → Read key entry s
      → Holds h own object (record s { host_map = insert s.host_map key (some new) })
  entered-Holds key entry new s vacant (k, e) = elim (Bool-cases (host_key_beq key own)) [
    | inl same ↦ absurd (
        vacant object (
          sym e
          ∙ subst (λ j. find s.host_map j ≡ some (some object))
              (sym ((host_key_beq_iff key own).0 same)) (k.1)))
    | inr other ↦ (k.0, find-insert s.host_map key own (some new) ∙ rw other k.1)
  ]

  enter_host_rule :
      (key : HostKey) (new : ℕ) (entry : Option (Option ℕ))
      → Triple
          (λ f. Holds h own object)
          (Read key entry)
          (enter_host key new entry)
          (λ _. Holds h own object)
  unfolding enter_host modify pure ◌>>=◌
  enter_host_rule key new none = record { at = λ s k. entered-Holds key none new s (λ q e. cc e) k }
  enter_host_rule key new (some none) = record {
    at = λ s k. entered-Holds key (some none) new s (λ q e. cc e) k;
  }
  enter_host_rule key new (some (some old)) =
      let counted : Still (Holds h own object) (enter_host key new (some (some old))) =
        search (still_rules, Holds-Framed) depth 20 in
      record { at = λ s k. counted.at s k.0 }

  pub Still-share_host : (key : HostKey) (new : ℕ) → Still (Holds h own object) (share_host key new)
  unfolding share_host gets
  Still-share_host key new = Keeps-bind _ _ (Still-lock fr hostmap) λ u.
      bind_rule (Holds h own object) (gets (λ s. find s.host_map key)) _ (Read key)
        (record { at = λ s k. (k, refl) })
        λ entry.
          bind_rule (Read key entry) _ _ (λ _. Holds h own object) (enter_host_rule key new entry)
            λ old. Keeps-bind _ _ (Still-unlock fr hostmap) λ v. Keeps-pure old

  pub Still-attach_host :
      (env : Env) (key : HostKey) → Still (Holds h own object) (attach_host env key)
  unfolding attach_host
  Still-attach_host env key =
      search (still_rules, Holds-Framed, Still-share_host, Still-settle) depth 20
