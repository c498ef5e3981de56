-- ===== src/Elector/Ring/Ids.antt =====
-- dbnode/elector/ring.go: the token's value, a sequence of node numbers in three decimal digits each.
-- `strconv.Itoa` and `strconv.Atoi` are part of the language's library. The numbers of nodes are not
-- negative; a slice of fewer than three bytes is out of range.
use part_ii_project.Base.{
  ltb, ◌==◌, if◌then◌else◌, length, minus_one, int_ltb, Bytes, itoa, atoi, ◌>>=◌, Outcome,
  log_fatal, out_of_range, ok, fault, ℕ, ◌%◌, none, some, [], ◌∷◌, ◌++◌,
}

-- The `switch` of `idAsBytes` on the number of digits.
unfoldable pub pad : Bytes → Outcome Bytes
pad (a ∷ []) = ok (48 ∷ 48 ∷ a ∷ [])
pad (a ∷ b ∷ []) = ok (48 ∷ a ∷ b ∷ [])
pad (a ∷ b ∷ c ∷ []) = ok (a ∷ b ∷ c ∷ [])
pad _ = fault log_fatal

unfoldable pub id_as_bytes : ℕ → Outcome Bytes
unfolding itoa pad
id_as_bytes id = pad (itoa id)

unfoldable pub bytes_as_id : Bytes → Outcome ℕ
unfolding atoi
bytes_as_id bs = elim (atoi bs) [ none ↦ fault log_fatal | some id ↦ ok id ]

unfoldable pub add_id : Bytes → ℕ → Outcome Bytes
unfolding id_as_bytes
add_id bs id = do end ← id_as_bytes id; ok (bs ++ end)

-- The bytes without the first occurrence of the number.
unfoldable pub remove_id : Bytes → ℕ → Outcome Bytes
unfolding bytes_as_id
remove_id [] id = ok []
remove_id (a ∷ b ∷ c ∷ bs) id = do
  i ← bytes_as_id (a ∷ b ∷ c ∷ [])
  if i == id then ok bs else (do rest ← remove_id bs id; ok (a ∷ b ∷ c ∷ rest))
remove_id _ id = fault out_of_range

-- The loop of `highestId`.
unfoldable pub highest_from : ℕ → Bytes → Outcome ℕ
unfolding bytes_as_id
highest_from highest (a ∷ b ∷ c ∷ bs) = do
  id ← bytes_as_id (a ∷ b ∷ c ∷ [])
  highest_from (if int_ltb highest id then id else highest) bs
highest_from highest _ = ok highest

unfoldable pub highest_id : Bytes → Outcome ℕ
unfolding highest_from
highest_id bs = if ltb 0 (length bs % 3) then fault log_fatal else highest_from minus_one bs
