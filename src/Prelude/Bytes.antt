-- ===== src/Prelude/Bytes.antt =====
-- Byte strings (`[]byte`) as lists of numbers, with `bytes.Equal` and `bytes.Compare`.
use Prim.Native.Nat.{ℕ}
use mathlib.Core.Path.{◌≡◌, refl}
use mathlib.Core.Logic.{◌⊎◌, inl, inr}
use mathlib.Core.Bool.{Bool, true, false, not, ◌&&◌, ◌||◌}
use mathlib.Core.List.{List, [], ◌∷◌}
use native.Mathlib.Omega.{arith}
use matrixcube.Prelude.Tests.{ltb, ◌==◌, Bool-cases}

abbrev pub Bytes : Type 0
Bytes = List ℕ

unfoldable pub bytes_eq : Bytes → Bytes → Bool
bytes_eq [] [] = true
bytes_eq [] (b ∷ ys) = false
bytes_eq (a ∷ xs) [] = false
bytes_eq (a ∷ xs) (b ∷ ys) = a == b && bytes_eq xs ys

-- `bytes.Compare(a, b) < 0`, the lexicographic order
unfoldable pub bytes_lt : Bytes → Bytes → Bool
bytes_lt [] [] = false
bytes_lt [] (b ∷ ys) = true
bytes_lt (a ∷ xs) [] = false
bytes_lt (a ∷ xs) (b ∷ ys) = ltb a b || (a == b && bytes_lt xs ys)

-- `bytes.Compare(a, b) <= 0`
abbrev pub bytes_le : Bytes → Bytes → Bool
bytes_le a b = not (bytes_lt b a)

pub bytes_eq→eq : (a b : Bytes) → bytes_eq a b ≡ true → a ≡ b
unfolding bytes_eq
bytes_eq→eq [] [] h = refl
bytes_eq→eq [] (b ∷ ys) h = cc
bytes_eq→eq (a ∷ xs) [] h = cc
bytes_eq→eq (a ∷ xs) (b ∷ ys) h = ground (arith, bytes_eq→eq xs ys)

pub bytes_eq_refl : (a : Bytes) → bytes_eq a a ≡ true
unfolding bytes_eq
bytes_eq_refl [] = refl
bytes_eq_refl (a ∷ xs) = ground (arith, bytes_eq_refl xs)

pub bytes_lt_irrefl : (a : Bytes) → bytes_lt a a ≡ false
unfolding bytes_lt
bytes_lt_irrefl [] = refl
bytes_lt_irrefl (a ∷ xs) = ground (arith, bytes_lt_irrefl xs)

pub bytes_lt_trans :
    (a b c : Bytes) → bytes_lt a b ≡ true → bytes_lt b c ≡ true → bytes_lt a c ≡ true
unfolding bytes_lt
bytes_lt_trans [] [] c h k = cc
bytes_lt_trans [] (b ∷ ys) [] h k = cc
bytes_lt_trans [] (b ∷ ys) (c ∷ zs) h k = refl
bytes_lt_trans (a ∷ xs) [] c h k = cc
bytes_lt_trans (a ∷ xs) (b ∷ ys) [] h k = cc
bytes_lt_trans (a ∷ xs) (b ∷ ys) (c ∷ zs) h k = ground (arith, bytes_lt_trans xs ys zs)

-- what is not below is above or equal: the order is total
pub bytes_lt_total : (a b : Bytes) → bytes_lt a b ≡ false → (bytes_lt b a ≡ true) ⊎ (a ≡ b)
unfolding bytes_lt
bytes_lt_total [] [] h = inr refl
bytes_lt_total [] (b ∷ ys) h = cc
bytes_lt_total (a ∷ xs) [] h = inl refl
bytes_lt_total (a ∷ xs) (b ∷ ys) h = ground (arith, bytes_lt_total xs ys)

pub bytes_le_lt_trans :
    (a b c : Bytes) → bytes_lt b a ≡ false → bytes_lt b c ≡ true → bytes_lt a c ≡ true
bytes_le_lt_trans a b c h k = elim (bytes_lt_total b a h) [
  | inl s ↦ bytes_lt_trans a b c s k
  | inr e ↦ rw (← e) k
]

pub bytes_lt_asym : (a b : Bytes) → bytes_lt a b ≡ true → bytes_lt b a ≡ false
bytes_lt_asym a b h = elim (Bool-cases (bytes_lt b a)) [
  | inl k ↦ cc (bytes_lt_trans a b a h k, bytes_lt_irrefl a)
  | inr k ↦ k
]

pub bytes_lt_nil : (a : Bytes) → bytes_lt a [] ≡ false
unfolding bytes_lt
bytes_lt_nil [] = refl
bytes_lt_nil (a ∷ xs) = refl

-- `bytes.HasPrefix`
unfoldable pub has_prefix : Bytes → Bytes → Bool
has_prefix bs [] = true
has_prefix [] (p ∷ ps) = false
has_prefix (b ∷ bs) (p ∷ ps) = b == p && has_prefix bs ps

-- what has a prefix is not below it
pub has_prefix-le : (bs ps : Bytes) → has_prefix bs ps ≡ true → bytes_lt bs ps ≡ false
unfolding has_prefix bytes_lt
has_prefix-le [] [] h = refl
has_prefix-le (b ∷ bs) [] h = refl
has_prefix-le [] (p ∷ ps) h = cc
has_prefix-le (b ∷ bs) (p ∷ ps) h = ground (arith, has_prefix-le bs ps)

-- From the prefix on, what has it comes before what has it not.
pub has_prefix-lt :
    (qs bs ps : Bytes)
    → bytes_lt qs ps ≡ false
    → has_prefix qs ps ≡ false
    → bytes_lt qs bs ≡ true
    → has_prefix bs ps ≡ false
unfolding has_prefix bytes_lt
has_prefix-lt qs bs [] h k l = cc
has_prefix-lt [] bs (p ∷ ps) h k l = cc
has_prefix-lt (a ∷ qs) [] (p ∷ ps) h k l = cc
has_prefix-lt (a ∷ qs) (b ∷ bs) (p ∷ ps) h k l = ground (arith, has_prefix-lt qs bs ps)

pub bytes_lt_le_trans :
    (a b c : Bytes) → bytes_lt a b ≡ true → bytes_lt c b ≡ false → bytes_lt a c ≡ true
bytes_lt_le_trans a b c h k = elim (bytes_lt_total c b k) [
  | inl s ↦ bytes_lt_trans a b c h s
  | inr e ↦ rw e h
]
