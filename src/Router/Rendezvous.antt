-- ===== src/Router/Rendezvous.antt =====
-- IBV_MODIFY_QP waits for the number of the peer's queue pair, which the peer's router sends.
use cs252aproject.Base.{
  nat_eq, bytes_eq, ℕ, ◌≡◌, ◌≢◌, refl, ap, Bool, true, false, none, some, List, [], ◌∷◌, ◌++◌, ◌==◌,
  ◌⊎◌, inl, inr, Option-cases, Bool-cases, arith, list_beq_iff,
}
use cs252aproject.Base.Map.{Map, find, insert, find-insert, find-erase, find-insert_self}
use cs252aproject.Common.Keys.{Gid}
use cs252aproject.Router.State.{Router, Info, Operation, unlocked}
use cs252aproject.Router.Exec.{Result, ok, err, ◌>>=◌}
use cs252aproject.Router.Remote.{dst_update, handle_all, await_dst, handle_remote_router}
use cs252aproject.Router.Invariant.Frame.{settled, settled_eq}
use mathlib.Core.Path.{subst}

abbrev pub is_ok : Result ℕ → Bool
is_ok (ok q) = true
is_ok (err f) = false

-- The entries of `dst_qp_map` after a batch of messages
abbrev after_all : List Info → Map Gid ℕ → Map Gid ℕ
after_all [] m = m
after_all (i ∷ batch) m = after_all batch (dst_update i i.op m)

handle_all_lem :
    (batch : List Info) (s : Router)
    → handle_all batch (settled s)
      ≡ (ok tt, settled (record s { dst_qp_map = after_all batch s.dst_qp_map }))
unfolding handle_all handle_remote_router ◌>>=◌
handle_all_lem [] s = refl
handle_all_lem (i ∷ batch) s =
    handle_all_lem batch (record s { dst_qp_map = dst_update i i.op s.dst_qp_map })

module _ (gid : Gid) where
  -- No message of the batch is a DELETE for the peer.
  abbrev pub Spares : List Info → Type 0
  Spares [] = Unit
  Spares (i ∷ batch) = ((i.op ≡ Operation.insert) ⊎ (i.gid ≢ gid)) × Spares batch

  abbrev Present : Map Gid ℕ → Type 0
  Present m = (q : ℕ) × (find m gid ≡ some q)

  update-Present :
      (i : Info) (op : Operation) (m : Map Gid ℕ)
      → (op ≡ Operation.insert) ⊎ (i.gid ≢ gid)
      → Present m
      → Present (dst_update i op m)
  update-Present i Operation.insert m spared (q, found) = elim (Bool-cases (i.gid == gid)) [
    | inl same ↦ (i.qp_num, ground (arith, find-insert m i.gid gid i.qp_num, same))
    | inr other ↦ (q, ground (arith, find-insert m i.gid gid i.qp_num, other, found))
  ]
  update-Present i Operation.delete m (inl e) (q, found) = absurd (cc e)
  update-Present i Operation.delete m (inr other) (q, found) =
      let apart : (i.gid == gid) ≡ false = elim (Bool-cases (i.gid == gid)) [
        | inl same ↦ absurd (other ((list_beq_iff i.gid gid).0 same))
        | inr differs ↦ differs
      ] in
      elim (Option-cases (find m i.gid)) [
        | inl missing ↦ rw (missing, dst_update) (q, found)
        | inr (x, there) ↦
            rw (there, dst_update) (q, ground (arith, find-erase m i.gid gid, apart, found))
      ]

  after_all-Present :
      (batch : List Info) (m : Map Gid ℕ) → Spares batch → Present m → Present (after_all batch m)
  after_all-Present [] m spared there = there
  after_all-Present (i ∷ batch) m (first, spared) there =
      after_all-Present batch (dst_update i i.op m) spared (update-Present i i.op m first there)

  inserted-Present :
      (before after : List Info) (number : ℕ) (m : Map Gid ℕ)
      → Spares after
      → Present (
          after_all
            (before ++ record { op = Operation.insert; gid = gid; qp_num = number } ∷ after)
            m)
  inserted-Present [] after number m spared =
      after_all-Present after (insert m gid number) spared (number, find-insert_self m gid number)
  inserted-Present (i ∷ before) after number m spared =
      inserted-Present before after number (dst_update i i.op m) spared

  -- Once the number is there, the wait is over.
  found_returns :
      (rest : List (List Info)) (s : Router) (q : ℕ)
      → find s.dst_qp_map gid ≡ some q
      → (await_dst gid rest (settled s)).0 ≡ ok q
  unfolding await_dst
  found_returns [] s q found = rw (found, await_dst) refl
  found_returns (batch ∷ rest) s q found = rw (found, await_dst) refl

  later_returns :
      (batch : List Info) (rest : List (List Info)) (s : Router)
      → find s.dst_qp_map gid ≡ none
      → await_dst gid (batch ∷ rest) (settled s)
        ≡ await_dst gid rest (settled (record s { dst_qp_map = after_all batch s.dst_qp_map }))
  unfolding await_dst ◌>>=◌
  later_returns batch rest s missing = simp (missing, handle_all_lem) refl

  module _ (before after : List Info) (number : ℕ) (spared : Spares after) where
    abbrev telling : List Info
    telling = before ++ record { op = Operation.insert; gid = gid; qp_num = number } ∷ after

    settled_returns :
        (earlier later : List (List Info)) (s : Router)
        → is_ok (await_dst gid (earlier ++ telling ∷ later) (settled s)).0 ≡ true
    settled_returns [] later s = elim (Option-cases (find s.dst_qp_map gid)) [
      | inl missing ↦
          let (q, there) = inserted-Present before after number s.dst_qp_map spared in
          rw (later_returns telling later s missing) (
            ap is_ok (
              found_returns later (record s { dst_qp_map = after_all telling s.dst_qp_map }) q
                there))
      | inr (q, found) ↦ ap is_ok (found_returns (telling ∷ later) s q found)
    ]
    settled_returns (batch ∷ earlier) later s = elim (Option-cases (find s.dst_qp_map gid)) [
      | inl missing ↦
          rw (later_returns batch (earlier ++ telling ∷ later) s missing)
            (settled_returns earlier later (record s { dst_qp_map = after_all batch s.dst_qp_map }))
      | inr (q, found) ↦ ap is_ok (found_returns (batch ∷ (earlier ++ telling ∷ later)) s q found)
    ]

    -- The wait of IBV_MODIFY_QP for a peer, with the mutexes of the maps free at the start, ends with
    -- a number when the peer's router sends an INSERT for it and no DELETE for it is handled between
    -- that INSERT and the next read of `dst_qp_map`, whatever other messages are handled before,
    -- between and after.
    pub await_dst-returns :
        (earlier later : List (List Info)) (s : Router)
        → s.locks ≡ unlocked
        → is_ok (await_dst gid (earlier ++ telling ∷ later) s).0 ≡ true
    await_dst-returns earlier later s free =
        subst (λ t. is_ok (await_dst gid (earlier ++ telling ∷ later) t).0 ≡ true)
          (settled_eq s free) (settled_returns earlier later s)
