-- ===== src/Base/ByteSlices.antt =====
-- Byte slices: bytes.Equal and the big-endian words of encoding/binary.
use Prim.Native.Nat.{ℕ, ◌+◌, ◌*◌, ◌/◌, ◌%◌, ◌^◌, ◌<◌}
use mathlib.Core.Path.{◌≡◌, refl}
use mathlib.Core.Logic.{◌↔◌}
use mathlib.Core.Bool.{Bool, true, false, ◌&&◌}
use mathlib.Core.List.{List, [], ◌∷◌}
use native.Mathlib.Omega.{arith}
use part_ii_project.Base.Tests.{◌==◌}
use part_ii_project.Base.Maps.{Key}

-- `[]byte`. A nil slice and an empty one are both `[]`.
abbrev pub Bytes : Type 0
Bytes = List ℕ

-- bytes.Equal
unfoldable pub bytes_equal : Bytes → Bytes → Bool
bytes_equal [] [] = true
bytes_equal (x ∷ xs) (y ∷ ys) = x == y && bytes_equal xs ys
bytes_equal _ _ = false

pub bytes_equal_iff : (xs ys : Bytes) → (bytes_equal xs ys ≡ true) ↔ (xs ≡ ys)
unfolding bytes_equal
bytes_equal_iff [] [] = (λ _. refl, λ _. refl)
bytes_equal_iff [] (y ∷ ys) = (λ e. cc, λ e. cc)
bytes_equal_iff (x ∷ xs) [] = (λ e. cc, λ e. cc)
bytes_equal_iff (x ∷ xs) (y ∷ ys) =
    (λ e. ground (arith, bytes_equal_iff xs ys), λ e. ground (arith, bytes_equal_iff xs ys))

instance abbrev pub bytes_key : Key Bytes
bytes_key = record { same = bytes_equal; same_iff = bytes_equal_iff }

-- binary.BigEndian.PutUint64 and Uint64, on a slice of eight bytes.
unfoldable pub put_uint64 : ℕ → Bytes
put_uint64 x =
    (x / 2 ^ 56 % 256)
    ∷ (x / 2 ^ 48 % 256)
    ∷ (x / 2 ^ 40 % 256)
    ∷ (x / 2 ^ 32 % 256)
    ∷ (x / 2 ^ 24 % 256)
    ∷ (x / 2 ^ 16 % 256)
    ∷ (x / 2 ^ 8 % 256)
    ∷ (x % 256)
    ∷ []

big_endian : ℕ → Bytes → ℕ
big_endian acc [] = acc
big_endian acc (b ∷ bs) = big_endian (acc * 256 + b) bs

unfoldable pub uint64 : Bytes → ℕ
unfolding big_endian
uint64 bs = big_endian 0 bs

pub uint64-put_uint64 : (x : ℕ) → x < 2 ^ 64 → uint64 (put_uint64 x) ≡ x
unfolding uint64 put_uint64
uint64-put_uint64 x h = omega arith

-- binary.BigEndian.PutUint32 and Uint32, on a slice of four bytes; the argument is `uint32(x)`.
unfoldable pub put_uint32 : ℕ → Bytes
put_uint32 x = (x / 2 ^ 24 % 256) ∷ (x / 2 ^ 16 % 256) ∷ (x / 2 ^ 8 % 256) ∷ (x % 256) ∷ []

unfoldable pub uint32 : Bytes → ℕ
unfolding big_endian
uint32 bs = big_endian 0 bs

pub uint32-put_uint32 : (x : ℕ) → x < 2 ^ 32 → uint32 (put_uint32 x) ≡ x
unfolding uint32 put_uint32
uint32-put_uint32 x h = omega arith
