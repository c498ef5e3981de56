-- ===== src/Base/Decimals.antt =====
-- strconv.Itoa and strconv.Atoi, which are part of the language's library: a number that is not
-- negative has as many decimal digits as it needs.
use Prim.Native.Nat.{ℕ, zero, suc, ◌+◌, ◌-◌, ◌*◌, ◌/◌, ◌%◌, ◌^◌, ◌≤◌, ◌<◌}
use mathlib.Core.Path.{◌≡◌, ap, ◌∙◌}
use mathlib.Core.Logic.{inl, inr}
use mathlib.Core.Bool.{Bool, true, false, ◌&&◌}
use mathlib.Core.Option.{Option, none, some}
use mathlib.Core.List.{[], ◌∷◌, ◌++◌}
use native.Mathlib.Omega.{arith}
use part_ii_project.Base.Tests.{ltb, leb, ◌==◌, if◌then◌else◌, Bool-cases}
use part_ii_project.Base.ByteSlices.{Bytes}

-- strconv.Itoa, for a number that is not negative; each step but the last takes one digit, so that
-- `id + 1` steps are enough.
unfoldable pub digits : ℕ → ℕ → Bytes
digits zero id = []
digits (suc k) id =
    let rest = digits k (id / 10) in
    if ltb id 10 then (48 + id) ∷ [] else rest ++ (48 + id % 10) ∷ []

unfoldable pub itoa : ℕ → Bytes
unfolding digits
itoa id = digits (id + 1) id

-- strconv.Itoa, for any `int`.
unfoldable pub itoa_int : ℕ → Bytes
unfolding itoa
itoa_int x = if ltb x (2 ^ 63) then itoa x else 45 ∷ itoa (2 ^ 64 - x)

-- The value of decimal digits after those with the value `acc`.
unfoldable pub unsigned : ℕ → Bytes → Option ℕ
unsigned acc [] = some acc
unsigned acc (b ∷ bs) =
    let rest = unsigned (acc * 10 + (b - 48)) bs in if leb 48 b && leb b 57 then rest else none

-- Digits with the sign that is before them; none is an error, and so is a number out of range.
unfoldable pub signed : Bool → Bytes → Option ℕ
signed negative [] = none
signed negative (b ∷ bs) = elim (unsigned 0 (b ∷ bs)) [
  | none ↦ none
  | some v ↦
      if negative
      then (if leb v (2 ^ 63) then some ((2 ^ 64 - v) % 2 ^ 64) else none)
      else if ltb v (2 ^ 63)
      then some v
      else none
]

-- strconv.Atoi
unfoldable pub atoi : Bytes → Option ℕ
unfolding unsigned signed
atoi [] = none
atoi (b ∷ bs) =
    if b == 43 then signed false bs else if b == 45 then signed true bs else signed false (b ∷ bs)

-- The same up to the first digit that makes the value exceed 64 bits: it is the largest number then, and
-- the rest is not read.
unfoldable pub saturating : ℕ → Bytes → Option ℕ
saturating acc [] = some acc
saturating acc (b ∷ bs) =
    let next = acc * 10 + (b - 48) in
    let rest = saturating next bs in
    if leb 48 b && leb b 57 then (if ltb next (2 ^ 64) then rest else some (2 ^ 64 - 1)) else none

-- The number that comes with the error: the nearest `int` to digits with a sign, and 0 if they are none.
unfoldable pub nearest : Bool → Bytes → ℕ
unfolding saturating
nearest negative [] = 0
nearest negative (b ∷ bs) = elim (saturating 0 (b ∷ bs)) [
  | none ↦ 0
  | some v ↦
      if negative
      then (if leb v (2 ^ 63) then (2 ^ 64 - v) % 2 ^ 64 else 2 ^ 63)
      else if ltb v (2 ^ 63)
      then v
      else 2 ^ 63 - 1
]

-- The first result of strconv.Atoi, also where the second is an error.
unfoldable pub atoi_value : Bytes → ℕ
unfolding nearest
atoi_value [] = 0
atoi_value (b ∷ bs) =
    if b == 43
    then nearest false bs
    else if b == 45
    then nearest true bs
    else nearest false (b ∷ bs)

-- The first digit of a sequence is a digit.
abbrev HasDigit : Bytes → Type 0
HasDigit [] = ⊥
HasDigit (b ∷ bs) = (48 ≤ b) × (b ≤ 57)

HasDigit-append : (xs ys : Bytes) → HasDigit xs → HasDigit (xs ++ ys)
HasDigit-append [] ys h = elim h [ ]
HasDigit-append (x ∷ xs) ys h = h

digits-HasDigit : (k id : ℕ) → HasDigit (digits (suc k) id)
unfolding digits
digits-HasDigit zero id = elim (Bool-cases (ltb id 10)) [
  | inl small ↦ rw small (ground arith)
  | inr large ↦ rw large (omega arith)
]
digits-HasDigit (suc k) id = elim (Bool-cases (ltb id 10)) [
  | inl small ↦ rw small (ground (arith, small))
  | inr large ↦ rw large (HasDigit-append _ _ (digits-HasDigit k (id / 10)))
]

-- One more digit at the end.
unsigned-append :
    (acc : ℕ) (bs : Bytes) (v d : ℕ)
    → unsigned acc bs ≡ some v
    → d < 10
    → unsigned acc (bs ++ (48 + d) ∷ []) ≡ some (v * 10 + d)
unfolding unsigned
unsigned-append acc [] v d e h = ground arith
unsigned-append acc (b ∷ bs) v d e h = ground (arith, unsigned-append (acc * 10 + (b - 48)) bs v d)

unsigned-digits : (k id : ℕ) → id < k → unsigned 0 (digits k id) ≡ some id
unfolding unsigned digits
unsigned-digits zero id h = elim h [ ]
unsigned-digits (suc k) id h = elim (Bool-cases (ltb id 10)) [
  | inl small ↦ ground (arith, small)
  | inr large ↦ rw large (
      unsigned-append 0 (digits k (id / 10)) (id / 10) (id % 10)
        (unsigned-digits k (id / 10) (ground (arith, large))) (omega arith)
      ∙ ap some (omega arith))
]

signed_lem :
    (bs : Bytes) (v : ℕ) → HasDigit bs → unsigned 0 bs ≡ some v → v < 2 ^ 63 → atoi bs ≡ some v
unfolding atoi signed
signed_lem [] v h e small = elim h [ ]
signed_lem (b ∷ bs) v h e small = ground (arith, e)

-- The digits of an `int` that is not negative read back as it.
pub atoi-itoa : (id : ℕ) → id < 2 ^ 63 → atoi (itoa id) ≡ some id
unfolding itoa
atoi-itoa id h =
    let e : id + 1 ≡ suc id = omega arith in
    ap (λ k. atoi (digits k id)) e
    ∙ signed_lem (digits (suc id) id) id (digits-HasDigit id id)
        (unsigned-digits (suc id) id (omega arith)) h

unsigned-le : (acc : ℕ) (bs : Bytes) (v : ℕ) → unsigned acc bs ≡ some v → acc ≤ v
unfolding unsigned
unsigned-le acc [] v e = ground (arith, e)
unsigned-le acc (b ∷ bs) v e = ground (arith, e, unsigned-le (acc * 10 + (b - 48)) bs v)

saturating-unsigned :
    (acc : ℕ) (bs : Bytes) (v : ℕ)
    → unsigned acc bs ≡ some v
    → v < 2 ^ 64
    → saturating acc bs ≡ some v
unfolding unsigned saturating
saturating-unsigned acc [] v e h = e
saturating-unsigned acc (b ∷ bs) v e h = ground (
  arith,
  e,
  unsigned-le (acc * 10 + (b - 48)) bs v,
  saturating-unsigned (acc * 10 + (b - 48)) bs v,
)

nearest_lem :
    (bs : Bytes) (v : ℕ) → HasDigit bs → unsigned 0 bs ≡ some v → v < 2 ^ 63 → atoi_value bs ≡ v
unfolding atoi_value nearest
nearest_lem [] v h e small = elim h [ ]
nearest_lem (b ∷ bs) v h e small =
    ground (arith, e, saturating-unsigned 0 (b ∷ bs) v e (omega arith))

pub atoi_value-itoa : (id : ℕ) → id < 2 ^ 63 → atoi_value (itoa id) ≡ id
unfolding itoa
atoi_value-itoa id h =
    let e : id + 1 ≡ suc id = omega arith in
    ap (λ k. atoi_value (digits k id)) e
    ∙ nearest_lem (digits (suc id) id) id (digits-HasDigit id id)
        (unsigned-digits (suc id) id (omega arith)) h
