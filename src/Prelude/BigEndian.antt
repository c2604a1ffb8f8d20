-- ===== src/Prelude/BigEndian.antt =====
-- `binary.BigEndian` of Go's standard library: an unsigned number as its bytes, the highest first.
use matrixcube.Prelude.Tests.{ltb, ◌==◌}
use matrixcube.Prelude.Lists.{length}
use matrixcube.Prelude.Bytes.{Bytes, bytes_lt}
use Prim.Native.Nat.{ℕ, zero, suc, ◌+◌, ◌*◌, ◌/◌, ◌%◌, ◌<◌}
use mathlib.Core.Path.{◌≡◌, ap, ◌∙◌}
use mathlib.Core.Bool.{◌&&◌, ◌||◌}
use mathlib.Core.List.{[], ◌∷◌}
use native.Mathlib.Omega.{arith}

-- the `width` lowest bytes of `n`, written in front of `acc`
unfoldable pub put_bytes : ℕ → ℕ → Bytes → Bytes
put_bytes zero n acc = acc
put_bytes (suc width) n acc = put_bytes width (n / 256) (n % 256 ∷ acc)

-- `PutUint64`, and `PutUint32` for the value `uint32(n)`
abbrev pub put_uint64 : ℕ → Bytes
put_uint64 n = put_bytes 8 n []

abbrev pub put_uint32 : ℕ → Bytes
put_uint32 n = put_bytes 4 n []

-- the number that some bytes write down
unfoldable pub value_from : ℕ → Bytes → ℕ
value_from v [] = v
value_from v (b ∷ bs) = value_from (v * 256 + b) bs

-- `Uint64` reads the first eight bytes
unfoldable pub uint64 : Bytes → ℕ
uint64 (a ∷ b ∷ c ∷ d ∷ e ∷ f ∷ g ∷ h ∷ rest) = value_from 0 (a ∷ b ∷ c ∷ d ∷ e ∷ f ∷ g ∷ h ∷ [])
uint64 _ = 0

unfoldable pub uint32 : Bytes → ℕ
uint32 (a ∷ b ∷ c ∷ d ∷ rest) = value_from 0 (a ∷ b ∷ c ∷ d ∷ [])
uint32 _ = 0

pub length-put_bytes :
    (width n : ℕ) (acc : Bytes) → length (put_bytes width n acc) ≡ width + length acc
unfolding put_bytes
length-put_bytes zero n acc = omega arith
length-put_bytes (suc width) n acc = omega (arith, length-put_bytes width (n / 256) (n % 256 ∷ acc))

-- the numbers of `width` bytes are those below
abbrev pub limit : ℕ → ℕ
limit zero = 1
limit (suc width) = 256 * limit width

next : (width n : ℕ) → n < limit (suc width) → n / 256 < limit width
next width n h = omega arith

pub value_from-put_bytes :
    (width n : ℕ) (acc : Bytes)
    → n < limit width
    → value_from 0 (put_bytes width n acc) ≡ value_from n acc
unfolding put_bytes value_from
value_from-put_bytes zero n acc h = ap (λ v. value_from v acc) (omega arith)
value_from-put_bytes (suc width) n acc h =
    value_from-put_bytes width (n / 256) (n % 256 ∷ acc) (next width n h)
    ∙ ap (λ v. value_from v acc) (omega arith)

-- Bytes of the same width are ordered as their numbers, then as what follows them.
pub bytes_lt-put_bytes :
    (width m n : ℕ) (a b : Bytes)
    → m < limit width
    → n < limit width
    → bytes_lt (put_bytes width m a) (put_bytes width n b) ≡ ltb m n || (m == n && bytes_lt a b)
unfolding put_bytes bytes_lt
bytes_lt-put_bytes zero m n a b h k = ground arith
bytes_lt-put_bytes (suc width) m n a b h k =
    bytes_lt-put_bytes width (m / 256) (n / 256) (m % 256 ∷ a) (n % 256 ∷ b) (next width m h)
      (next width n k)
    ∙ ground arith
