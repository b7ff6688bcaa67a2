-- ===== src/Router/Pieces.antt =====
-- The shared memory of all clients: the names in `shm_map`.
pub mod Handlers
pub mod Runs
use mathlib.Core.Path.{subst}
use cs252aproject.Base.{
  ℕ, suc, ◌+◌, ◌≡◌, refl, sym, ap, ◌∙◌, Bool, true, false, Option, none, some, List, [], ◌∷◌, ◌++◌,
  length, nat_eq, nat_beq, nat_beq_iff, arith, inl, inr, Bool-cases, if◌then◌else◌,
}
use cs252aproject.Base.Int.{ℤ, negsuc, to_signed}
use cs252aproject.Base.Map.{Map, find, insert, find-insert}
use cs252aproject.Router.State.{Env, Router, ShmPiece, shm_open, ftruncate, mmap}
use cs252aproject.Router.Exec.{
  Exec, modify, is_locked, shmmap, lock, unlock, gets, perform, pure, ◌>>=◌,
}
use cs252aproject.Router.Triple.{Triple}
use cs252aproject.Router.Shm.{pieces_of, shm_name_of, add_shm_piece, open_piece, is_mapped}
use cs252aproject.Router.Framed.Rules.{Framed, Still}

-- The name of a piece has its process, its size, and its position in the vector of the process
-- as an `int`.
abbrev pub Numbered : ℕ → ℕ → List ShmPiece → Type 0
Numbered process_id i [] = Unit
Numbered process_id i (sp ∷ v) =
    (sp.name ≡ shm_name_of process_id sp.size (to_signed 32 i)) × Numbered process_id (suc i) v

abbrev pub Named : Router → Type 0
Named s = (process_id : ℕ) → Numbered process_id 0 (pieces_of s.shm_map process_id)

pub Named-Framed : Framed Named
Named-Framed = record {
  move = λ s t users hosts pieces k id.
      subst (λ m. Numbered id 0 (pieces_of m id)) (sym pieces) (k id);
}

Numbered-append :
    (id i : ℕ) (v : List ShmPiece) (sp : ShmPiece)
    → Numbered id i v
    → sp.name ≡ shm_name_of id sp.size (to_signed 32 (i + length v))
    → Numbered id i (v ++ sp ∷ [])
Numbered-append id i [] sp k e =
    (subst (λ j. sp.name ≡ shm_name_of id sp.size (to_signed 32 j)) (omega arith) e, tt)
Numbered-append id i (x ∷ v) sp (first, k) e =
    let next : i + length (x ∷ v) ≡ suc i + length v = omega arith in
    (
      first,
      Numbered-append id (suc i) v sp k
          (subst (λ j. sp.name ≡ shm_name_of id sp.size (to_signed 32 j)) next e),
    )

-- A piece with the next position is appended.
added-Numbered :
    (m : Map ℕ (List ShmPiece)) (id : ℕ) (sp : ShmPiece)
    → ((j : ℕ) → Numbered j 0 (pieces_of m j))
    → sp.name ≡ shm_name_of id sp.size (to_signed 32 (length (pieces_of m id)))
    → (j : ℕ) → Numbered j 0 (pieces_of (insert m id (pieces_of m id ++ sp ∷ [])) j)
added-Numbered m id sp k e j =
    let v : List ShmPiece = pieces_of m id ++ sp ∷ [] in
    elim (Bool-cases (nat_beq id j)) [
      | inl same ↦
          let found : find (insert m id v) j ≡ some v =
            find-insert m id j v ∙ ap (λ b. if b then some v else find m j) same in
          let here : Numbered id 0 v =
            Numbered-append id 0 (pieces_of m id) sp (k id)
              (subst (λ n. sp.name ≡ shm_name_of id sp.size (to_signed 32 n)) (omega arith) e) in
          subst (λ o. Numbered j 0 (elim o [ none ↦ [] | some x ↦ x ])) (sym found)
            (subst (λ t. Numbered t 0 v) ((nat_beq_iff id j).0 same) here)
      | inr other ↦
          let found : find (insert m id v) j ≡ find m j =
            find-insert m id j v ∙ ap (λ b. if b then some v else find m j) other in
          subst (λ o. Numbered j 0 (elim o [ none ↦ [] | some x ↦ x ])) (sym found) (k j)
    ]

pub Still-add_shm_piece : (env : Env) (id : ℕ) (size : ℤ) → Still Named (add_shm_piece env id size)
unfolding add_shm_piece open_piece lock unlock gets perform modify pure ◌>>=◌
Still-add_shm_piece env id size = record {
  at = λ s k.
      let name = shm_name_of id size (to_signed 32 (length (pieces_of s.shm_map id))) in
      let opened = shm_open name ∷ s.calls in
      let fd = env.rc opened in
      let sp : ShmPiece = record {
        self = s.next_shm;
        name = name;
        size = size;
        shm_fd = fd;
        ptr = env.mmap_ptr (mmap size fd ∷ ftruncate fd size ∷ opened);
      } in
      elim (Bool-cases s.locks.shmmap) [
        | inl held ↦ rw held k
        | inr free ↦ rw free (added-Numbered s.shm_map id sp k refl)
      ];
}
