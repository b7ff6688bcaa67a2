-- ===== src/Router/Names.antt =====
-- The names of the shared memory that clients get: scalerouter/scalerouter.cpp, `addShmPiece`.
use mathlib.Core.List.{append_assoc}
use cs252aproject.Base.{
  ℕ, ◌+◌, ◌≤◌, ◌^◌, ◌<◌, ◌≡◌, refl, sym, ◌∙◌, ap, List, [], ◌∷◌, ◌++◌, length, arith,
}
use cs252aproject.Base.Int.{ℤ, to_signed}
use cs252aproject.Base.Text.{codes, show_ℕ, show_ℤ}
use cs252aproject.Base.Decimal.{
  length-show_ℕ, length-show_ℤ, Stops-dash, show_ℕ-cancel, show_ℤ-cancel,
}
use cs252aproject.Router.Shm.{shm_name_of}

-- A text without a prefix of the same length as another text
abbrev skip : List ℕ → List ℕ → List ℕ
skip [] text = text
skip (x ∷ prefix) [] = []
skip (x ∷ prefix) (c ∷ text) = skip prefix text

abbrev index_part : ℤ → List ℕ
index_part i = codes "-index-" ++ show_ℤ i

abbrev size_part : ℤ → ℤ → List ℕ
size_part a i = codes "-memsize-" ++ (show_ℤ a ++ index_part i)

shm_name_of_lem :
    (p : ℕ) (a i : ℤ) → shm_name_of p a i ≡ codes "client-" ++ (show_ℕ p ++ size_part a i)
unfolding shm_name_of
shm_name_of_lem p a i = simp append_assoc refl

-- The names of two pieces are equal only if the process ids, the sizes and the positions are.
pub shm_name_of_injective :
    (p q : ℕ) (a b i j : ℤ) → shm_name_of p a i ≡ shm_name_of q b j → (p ≡ q) × (a ≡ b) × (i ≡ j)
shm_name_of_injective p q a b i j same =
    let whole : codes "client-" ++ (show_ℕ p ++ size_part a i)
        ≡ codes "client-" ++ (show_ℕ q ++ size_part b j) =
      sym (shm_name_of_lem p a i) ∙ same ∙ shm_name_of_lem q b j in
    let numbers : show_ℕ p ++ size_part a i ≡ show_ℕ q ++ size_part b j =
      ap (skip (codes "client-")) whole in
    let (same_process, sizes) = show_ℕ-cancel p q _ _ (Stops-dash _) (Stops-dash _) numbers in
    let after : show_ℤ a ++ index_part i ≡ show_ℤ b ++ index_part j =
      ap (skip (codes "-memsize-")) sizes in
    let (same_size, counts) = show_ℤ-cancel b'i' a b _ _ refl after in
    let last : show_ℤ i ≡ show_ℤ j = ap (skip (codes "ndex-")) counts in
    let (same_index, ends) =
      show_ℤ-cancel b'i' i j _ _ refl (ap (λ t. t ++ b'-' ∷ b'i' ∷ []) last) in
    (same_process, same_size, same_index)

length-append : (xs ys : List ℕ) → length (xs ++ ys) ≡ length xs + length ys
length-append [] ys = omega arith
length-append (x ∷ xs) ys = omega (arith, length-append xs ys)

-- For a process id that is an `int` and not negative, and a size and a position that are `int`s, the
-- name and its terminator fit the 100 bytes of `shm_name` in the response.
pub length-shm_name_of :
    (p size i : ℕ)
    → p < 2 ^ 31
    → length (shm_name_of p (to_signed 32 size) (to_signed 32 i)) + 1 ≤ 100
length-shm_name_of p size n small =
    let a : ℤ = to_signed 32 size in
    let i : ℤ = to_signed 32 n in
    let numbers : length (show_ℕ p ++ size_part a i) ≡ length (show_ℕ p) + length (size_part a i) =
      length-append _ _ in
    let indices : length (index_part i) ≡ 7 + length (show_ℤ i) =
      length-append (codes "-index-") (show_ℤ i) in
    let sizes : length (show_ℤ a ++ index_part i) ≡ length (show_ℤ a) + length (index_part i) =
      length-append _ _ in
    rw (shm_name_of_lem p a i) (
      omega (
        arith,
        numbers,
        sizes,
        indices,
        length-show_ℕ 9 p (omega (arith, small)),
        length-show_ℤ n,
        length-show_ℤ size,
      ))
