-- ===== src/Base/Decimal.antt =====
-- Decimal text can be read back, so different numbers have different texts.
use Prim.Native.Nat.{ℕ, zero, suc, ◌+◌, ◌-◌, ◌*◌, ◌/◌, ◌%◌, ◌<◌, ◌≤◌, ◌^◌}
use mathlib.Core.Path.{◌≡◌, refl, sym, ap, ◌∙◌}
use mathlib.Core.Logic.{◌≢◌, inl, inr}
use mathlib.Core.Bool.{Bool, true, false, ◌&&◌}
use mathlib.Core.List.{List, [], ◌∷◌, ◌++◌}
use cs252aproject.Base.Lists.{length}
use native.Mathlib.Omega.{arith}
use cs252aproject.Base.Tests.{ltb, leb, if◌then◌else◌, Bool-cases}
use cs252aproject.Base.Int.{ℤ, pos, negsuc, to_signed}
use cs252aproject.Base.Text.{digits_onto, show_ℕ, show_ℤ}

abbrev is_digit : ℕ → Bool
is_digit c = leb 48 c && ltb c 58

-- The number at the start of a text, after the digits that are read already, and the text after it
unfoldable pub read_onto : ℕ → List ℕ → ℕ × List ℕ
read_onto n [] = (n, [])
read_onto n (c ∷ text) =
    let rest = read_onto (n * 10 + (c - 48)) text in if is_digit c then rest else (n, c ∷ text)

digits_onto-append :
    (fuel n : ℕ) (acc rest : List ℕ)
    → digits_onto fuel n acc ++ rest ≡ digits_onto fuel n (acc ++ rest)
unfolding digits_onto
digits_onto-append zero n acc rest = refl
digits_onto-append (suc fuel) n acc rest = elim (Bool-cases (ltb n 10)) [
  | inl small ↦ rw (small, digits_onto) refl
  | inr large ↦
      rw (large, digits_onto) (digits_onto-append fuel (n / 10) ((48 + n % 10) ∷ acc) rest)
]

read_onto-digit :
    (n d : ℕ) (text : List ℕ) → d < 10 → read_onto n ((48 + d) ∷ text) ≡ read_onto (n * 10 + d) text
unfolding read_onto
read_onto-digit n d text small =
    let digit : is_digit (48 + d) ≡ true = ground arith in
    let value : n * 10 + ((48 + d) - 48) ≡ n * 10 + d = omega arith in simp (digit, value) refl

read_onto-digits_onto :
    (fuel n : ℕ) (acc : List ℕ) → n < fuel → read_onto 0 (digits_onto fuel n acc) ≡ read_onto n acc
unfolding digits_onto
read_onto-digits_onto zero n acc below = absurd (omega (arith, below))
read_onto-digits_onto (suc fuel) n acc below = elim (Bool-cases (ltb n 10)) [
  | inl small ↦
      rw (small, digits_onto)
        (read_onto-digit 0 n acc (ground (arith, small)) ∙ ap (λ m. read_onto m acc) (omega arith))
  | inr large ↦
      let big : 10 < n + 1 = ground (arith, large) in
      rw (large, digits_onto)
        (read_onto-digits_onto fuel (n / 10) ((48 + n % 10) ∷ acc) (omega (arith, big, below))
          ∙ read_onto-digit (n / 10) (n % 10) acc (omega arith)
          ∙ ap (λ m. read_onto m acc) (omega arith))
]

-- The text of a number with another text after it reads back as the number.
pub read_onto-show_ℕ : (n : ℕ) (rest : List ℕ) → read_onto 0 (show_ℕ n ++ rest) ≡ read_onto n rest
unfolding show_ℕ
read_onto-show_ℕ n rest =
    ap (read_onto 0) (digits_onto-append (suc n) n [] rest)
    ∙ read_onto-digits_onto (suc n) n rest (omega arith)

-- A text at which the reading of a number ends
abbrev pub Stops : List ℕ → Type 0
Stops text = (n : ℕ) → read_onto n text ≡ (n, text)

pub Stops-dash : (text : List ℕ) → Stops (45 ∷ text)
unfolding read_onto
Stops-dash text n = refl

Stops-letter : (letter : ℕ) (text : List ℕ) → is_digit letter ≡ false → Stops (letter ∷ text)
unfolding read_onto
Stops-letter letter text other n = rw (other, read_onto) refl

pub Stops-end : Stops []
unfolding read_onto
Stops-end n = refl

pub show_ℕ-cancel :
    (n m : ℕ) (rest rest' : List ℕ)
    → Stops rest
    → Stops rest'
    → show_ℕ n ++ rest ≡ show_ℕ m ++ rest'
    → (n ≡ m) × (rest ≡ rest')
show_ℕ-cancel n m rest rest' h h' same =
    let read : ◌≡◌ {A = ℕ × List ℕ} (n, rest) (m, rest') =
      sym (h n)
      ∙ sym (read_onto-show_ℕ n rest)
      ∙ ap (read_onto 0) same
      ∙ read_onto-show_ℕ m rest'
      ∙ h' m in
    (ap (λ x. x.0) read, ap (λ x. x.1) read)

-- A text that starts with a letter after a dash
abbrev pub dashed : ℕ → List ℕ → List ℕ
dashed letter text = 45 ∷ letter ∷ text

-- A number that is not negative and one that is are not both followed by such texts.
mixed :
    (letter n m : ℕ) (rest rest' : List ℕ)
    → is_digit letter ≡ false
    → show_ℕ n ++ dashed letter rest ≢ 45 ∷ show_ℕ (suc m) ++ dashed letter rest'
mixed letter n m rest rest' other same =
    let negative : List ℕ = show_ℕ (suc m) ++ dashed letter rest' in
    let first : ◌≡◌ {A = ℕ × List ℕ} (n, dashed letter rest) (0, 45 ∷ negative) =
      sym (Stops-dash _ n)
      ∙ sym (read_onto-show_ℕ n (dashed letter rest))
      ∙ ap (read_onto 0) same
      ∙ Stops-dash _ 0 in
    let tails : letter ∷ rest ≡ negative = cc (ap (λ x. x.1) first) in
    let second : ◌≡◌ {A = ℕ × List ℕ} (0, letter ∷ rest) (suc m, dashed letter rest') =
      sym (Stops-letter letter rest other 0)
      ∙ ap (read_onto 0) tails
      ∙ read_onto-show_ℕ (suc m) (dashed letter rest')
      ∙ Stops-dash _ (suc m) in
    omega (arith, ap (λ x. x.0) second)

pub show_ℤ-cancel :
    (letter : ℕ) (a b : ℤ) (rest rest' : List ℕ)
    → is_digit letter ≡ false
    → show_ℤ a ++ dashed letter rest ≡ show_ℤ b ++ dashed letter rest'
    → (a ≡ b) × (rest ≡ rest')
unfolding show_ℤ
show_ℤ-cancel letter (pos n) (pos m) rest rest' other same =
    let (e, f) = show_ℕ-cancel n m _ _ (Stops-dash _) (Stops-dash _) same in (ap pos e, cc f)
show_ℤ-cancel letter (pos n) (negsuc m) rest rest' other same =
    absurd (mixed letter n m rest rest' other same)
show_ℤ-cancel letter (negsuc n) (pos m) rest rest' other same =
    absurd (mixed letter m n rest' rest other (sym same))
show_ℤ-cancel letter (negsuc n) (negsuc m) rest rest' other same =
    let tails : show_ℕ (suc n) ++ dashed letter rest ≡ show_ℕ (suc m) ++ dashed letter rest' =
      cc same in
    let (e, f) = show_ℕ-cancel (suc n) (suc m) _ _ (Stops-dash _) (Stops-dash _) tails in
    (ap negsuc (omega (arith, e)), cc f)

-- 10 to the power of a number of digits
abbrev pub pow10 : ℕ → ℕ
pow10 zero = 1
pow10 (suc k) = 10 * pow10 k

length-digits_onto :
    (fuel k n : ℕ) (acc : List ℕ)
    → n < pow10 (suc k)
    → length (digits_onto fuel n acc) ≤ suc k + length acc
unfolding digits_onto
length-digits_onto zero k n acc below = omega arith
length-digits_onto (suc fuel) zero n acc below = elim (Bool-cases (ltb n 10)) [
  | inl small ↦ rw (small, digits_onto) (omega arith)
  | inr large ↦ absurd (ground (arith, below, large))
]
length-digits_onto (suc fuel) (suc k) n acc below =
    let fewer : n / 10 < pow10 (suc k) = omega (arith, below) in
    let rest = length-digits_onto fuel k (n / 10) ((48 + n % 10) ∷ acc) fewer in
    elim (Bool-cases (ltb n 10)) [
      | inl small ↦ rw (small, digits_onto) (omega arith)
      | inr large ↦ rw (large, digits_onto) (omega (arith, rest))
    ]

-- A number below 10 ^ (k + 1) has at most k + 1 digits.
pub length-show_ℕ : (k n : ℕ) → n < pow10 (suc k) → length (show_ℕ n) ≤ suc k
unfolding show_ℕ
length-show_ℕ k n below = omega (arith, length-digits_onto (suc n) k n [] below)

-- A 32-bit number has at most ten digits and a sign.
pub length-show_ℤ : (m : ℕ) → length (show_ℤ (to_signed 32 m)) ≤ 11
unfolding show_ℤ
length-show_ℤ m = elim (Bool-cases (ltb (m % 2 ^ 32) (2 ^ 31))) [
  | inl low ↦ rw low (omega (arith, length-show_ℕ 9 (m % 2 ^ 32) (omega arith)))
  | inr high ↦
      rw high (omega (arith, length-show_ℕ 9 (suc ((2 ^ 32 - 1) - m % 2 ^ 32)) (omega arith)))
]
