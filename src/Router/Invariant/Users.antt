-- ===== src/Router/Invariant/Users.antt =====
-- How many virtual queue pairs `src_qp_map` maps to a host key.
use cs252aproject.Base.{ℕ, ◌+◌, ◌≤◌, ◌≡◌, some, List, [], ◌∷◌, if◌then◌else◌, arith, nat_eq}
use cs252aproject.Base.Map.{Map, assoc, without, find, insert, erase}
use cs252aproject.Common.Keys.{HostKey, host_key_eq, host_key_beq, host_key_beq_iff}

abbrev users_in : HostKey → List (ℕ × HostKey) → ℕ
users_in key [] = 0
users_in key ((handle, k) ∷ l) = (if host_key_beq k key then 1 else 0) + users_in key l

unfoldable pub users : HostKey → Map ℕ HostKey → ℕ
users key m = users_in key m.entries

users_in-without-le :
    (key : HostKey) (h : ℕ) (l : List (ℕ × HostKey)) → users_in key (without h l) ≤ users_in key l
unfolding without
users_in-without-le key h [] = omega arith
users_in-without-le key h ((i, k) ∷ l) = ground (arith, users_in-without-le key h l)

users_in-without-lt :
    (key : HostKey) (h : ℕ) (l : List (ℕ × HostKey))
    → assoc h l ≡ some key
    → users_in key (without h l) + 1 ≤ users_in key l
unfolding without assoc
users_in-without-lt key h [] e = ground arith
users_in-without-lt key h ((i, k) ∷ l) e =
    ground
      (arith, users_in-without-lt key h l, users_in-without-le key h l, host_key_beq_iff key key)

users_in-pos :
    (key : HostKey) (h : ℕ) (l : List (ℕ × HostKey)) → assoc h l ≡ some key → 1 ≤ users_in key l
users_in-pos key h l e = omega (arith, users_in-without-lt key h l e)

module _ (key : HostKey) (h : ℕ) (m : Map ℕ HostKey) where
  -- A handle that is assigned a host key adds one user to that key at most, and none to others.
  pub users-insert-le :
      (k : HostKey) → users key (insert m h k) ≤ (if host_key_beq k key then 1 else 0) + users key m
  unfolding users insert
  users-insert-le k = omega (arith, users_in-without-le key h m.entries)

  pub users-erase-le : users key (erase m h) ≤ users key m
  unfolding users erase
  users-erase-le = users_in-without-le key h m.entries

  -- A handle that is taken out was a user.
  pub users-erase-lt : find m h ≡ some key → users key (erase m h) + 1 ≤ users key m
  unfolding users erase find
  users-erase-lt e = users_in-without-lt key h m.entries e

  pub users-pos : find m h ≡ some key → 1 ≤ users key m
  unfolding users find
  users-pos e = users_in-pos key h m.entries e
