-- ===== src/Elector/Ring/Tokens.antt =====
-- dbnode/elector/ring.go: the operations on a token's value, on the sequence of numbers that it stands
-- for.
use part_ii_project.Base.{
  ltb, ◌==◌, if◌then◌else◌, ltb→lt, Bool-cases, length, All, minus_one, int_ltb, Bytes, digits,
  unsigned, signed, atoi, ◌>>=◌, ok, ℕ, suc, ◌+◌, ◌-◌, ◌/◌, ◌%◌, ◌≤◌, ◌<◌, ◌≡◌, refl, ap, ◌∙◌, inl,
  inr, List, [], ◌∷◌, ◌++◌, arith,
}
use part_ii_project.Elector.Ring.Ids.{
  pad, id_as_bytes, bytes_as_id, add_id, remove_id, highest_from, highest_id,
}

-- A number in three decimal digits.
abbrev pub three : ℕ → Bytes
three id = (48 + id / 100) ∷ (48 + id / 10 % 10) ∷ (48 + id % 10) ∷ []

-- The value of the token for a sequence of numbers.
abbrev pub token : List ℕ → Bytes
token [] = []
token (id ∷ ids) = (48 + id / 100) ∷ (48 + id / 10 % 10) ∷ (48 + id % 10) ∷ token ids

-- Each number has at most three digits.
abbrev pub AllShort : List ℕ → Type 0
AllShort = All (λ id. id < 1000)

digits_one : (k id : ℕ) → id < 10 → digits (suc k) id ≡ (48 + id) ∷ []
unfolding digits
digits_one k id h = ground arith

digits_two :
    (k id : ℕ) → 10 ≤ id → id < 100 → digits (suc (suc k)) id ≡ (48 + id / 10) ∷ (48 + id % 10) ∷ []
unfolding digits
digits_two k id h l = ground (arith, digits_one k (id / 10) (omega arith))

digits-three : (k id : ℕ) → 100 ≤ id → id < 1000 → digits (suc (suc (suc k))) id ≡ three id
unfolding digits
digits-three k id h l = ground (arith, digits_two k (id / 10) (omega arith) (omega arith))

digits_fuel : (k j id : ℕ) → k ≡ j → digits k id ≡ digits j id
digits_fuel k j id e = ap (λ i. digits i id) e

id_as_bytes_lem : (id : ℕ) → id < 1000 → id_as_bytes id ≡ ok (three id)
unfolding id_as_bytes pad
id_as_bytes_lem id h = elim (Bool-cases (ltb id 10)) [
  | inl small ↦
      ap pad
        (digits_fuel (id + 1) (suc id) id (omega arith) ∙ digits_one id id (ltb→lt id 10 small))
      ∙ ground (arith, small)
  | inr e ↦ elim (Bool-cases (ltb id 100)) [
    | inl small ↦
        ap pad (
          digits_fuel (id + 1) (suc (suc (id - 1))) id (ground (arith, e))
          ∙ digits_two (id - 1) id (ground (arith, e)) (ltb→lt id 100 small))
        ∙ ground (arith, e)
    | inr f ↦ ap pad (
        digits_fuel (id + 1) (suc (suc (suc (id - 2)))) id (ground (arith, f))
        ∙ digits-three (id - 2) id (ground (arith, f)) h)
  ]
]

bytes_as_id-three : (id : ℕ) → id < 1000 → bytes_as_id (three id) ≡ ok id
unfolding bytes_as_id signed unsigned atoi
bytes_as_id-three id h = ground (arith, h)

-- The highest of the numbers and a start, as signed 64-bit integers.
unfoldable pub highest : ℕ → List ℕ → ℕ
highest most [] = most
highest most (id ∷ ids) = highest (if int_ltb most id then id else most) ids

-- The numbers without the first occurrence of one.
unfoldable pub without : List ℕ → ℕ → List ℕ
without [] id = []
without (i ∷ ids) id = let rest = without ids id in if i == id then ids else i ∷ rest

-- Appending a number of at most three digits to a token appends it to the sequence.
pub add_id-token :
    (ids : List ℕ) (id : ℕ) → id < 1000 → add_id (token ids) id ≡ ok (token (ids ++ id ∷ []))
unfolding add_id
add_id-token ids id h = rw (id_as_bytes_lem id h, ◌>>=◌) (ap ok (appended ids))
  where
    appended : (xs : List ℕ) → token xs ++ three id ≡ token (xs ++ id ∷ [])
    appended [] = refl
    appended (x ∷ xs) = ground (arith, appended xs)

highest_from-token :
    (most : ℕ) (ids : List ℕ) → AllShort ids → highest_from most (token ids) ≡ ok (highest most ids)
unfolding highest_from highest
highest_from-token most [] a = refl
highest_from-token most (id ∷ ids) a =
    rw (bytes_as_id-three id a.0, ◌>>=◌)
      (highest_from-token (if int_ltb most id then id else most) ids a.1)

token-length : (ids : List ℕ) → length (token ids) % 3 ≡ 0
token-length [] = refl
token-length (id ∷ ids) = omega (arith, token-length ids)

-- The highest number of a token is that of the sequence, or -1 if there is none.
pub highest_id-token :
    (ids : List ℕ) → AllShort ids → highest_id (token ids) ≡ ok (highest minus_one ids)
unfolding highest_id
highest_id-token ids a = ground (arith, token-length ids, highest_from-token minus_one ids a)

-- Removing a number from a token takes its first occurrence out of the sequence, and no other.
pub remove_id-token :
    (ids : List ℕ) (id : ℕ) → AllShort ids → remove_id (token ids) id ≡ ok (token (without ids id))
unfolding remove_id without
remove_id-token [] id a = refl
remove_id-token (i ∷ ids) id a = ground (arith, bytes_as_id-three i a.0, remove_id-token ids id a.1)
