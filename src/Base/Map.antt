-- ===== src/Base/Map.antt =====
-- `std::map` and `std::unordered_map`: an association list behind its laws. The program looks keys
-- up, assigns and erases them, and walks over a map only in `ScaleRouter::freeShmPiece`.
use mathlib.Core.Path.{◌≡◌, refl}
use mathlib.Core.Option.{Option, none, some}
use mathlib.Core.List.{List, [], ◌∷◌}
use native.Mathlib.Omega.{arith}
use cs252aproject.Base.Tests.{Eq, ◌==◌, if◌then◌else◌, beq_refl}

pub record Map {ℓ κ} (K : Type ℓ) (V : Type κ) : Type (ℓ ⊔ κ) where
  pub entries : List (K × V)

module _ {ℓ κ} {K : Type ℓ} {V : Type κ} where
  unfoldable pub empty : Map K V
  empty = record { entries = [] }

module _ {ℓ κ} {K : Type ℓ} {V : Type κ} ⦃e : Eq K⦄ where
  unfoldable pub assoc : K → List (K × V) → Option V
  assoc k [] = none
  assoc k ((j, v) ∷ l) = if j == k then some v else assoc k l

  unfoldable pub without : K → List (K × V) → List (K × V)
  without k [] = []
  without k ((j, v) ∷ l) = let rest = without k l in if j == k then rest else (j, v) ∷ rest

  -- m.find(k)
  unfoldable pub find : Map K V → K → Option V
  unfolding assoc
  find m k = assoc k m.entries

  -- m.erase(k)
  unfoldable pub erase : Map K V → K → Map K V
  unfolding without
  erase m k = record { entries = without k m.entries }

  -- m[k] = v
  unfoldable pub insert : Map K V → K → V → Map K V
  unfolding without
  insert m k v = record { entries = (k, v) ∷ without k m.entries }

  assoc-without :
      (k j : K) (l : List (K × V)) → assoc j (without k l) ≡ (if k == j then none else assoc j l)
  unfolding assoc without
  assoc-without k j [] = ground arith
  assoc-without k j ((i, v) ∷ l) =
      ground
        (arith, assoc-without k j l, e.is_equal_iff i k, e.is_equal_iff i j, e.is_equal_iff k j)

  pub find-erase :
      (m : Map K V) (k j : K) → find (erase m k) j ≡ (if k == j then none else find m j)
  unfolding find erase
  find-erase m k j = assoc-without k j m.entries

  pub find-insert :
      (m : Map K V) (k j : K) (v : V)
      → find (insert m k v) j ≡ (if k == j then some v else find m j)
  unfolding find insert
  find-insert m k j v = ground (arith, assoc-without k j m.entries)

  pub find-insert_self : (m : Map K V) (k : K) (v : V) → find (insert m k v) k ≡ some v
  find-insert_self m k v = ground (arith, find-insert m k k v, beq_refl k)

  pub find-erase_self : (m : Map K V) (k : K) → find (erase m k) k ≡ none
  find-erase_self m k = ground (arith, find-erase m k k, beq_refl k)

pub find-empty {ℓ κ} : {K : Type ℓ} {V : Type κ} ⦃e : Eq K⦄ (k : K) → find (empty {V = V}) k ≡ none
unfolding find empty
find-empty k = refl

pub ruleset map_laws = (find-empty, find-erase, find-insert, find-insert_self, find-erase_self)
