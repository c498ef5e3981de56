-- ===== src/Datastore/Persistent/Pages.antt =====
-- datastore/persistent.go: pages as sequences of records.
use part_ii_project.Base.{
  if◌then◌else◌, Bool-cases, length, take, drop, length-append, All, Bytes, bytes_equal, put_uint32,
  uint32-put_uint32, ◌>>=◌, ok, ℕ, zero, suc, ◌+◌, ◌-◌, ◌^◌, ◌≤◌, ◌<◌, ◌≡◌, refl, ap, ◌∙◌, inl, inr,
  List, [], ◌∷◌, ◌++◌, arith,
}
use part_ii_project.Datastore.Persistent.{slice, slice_from, field_end, find_loop, value_record}

-- The page with the given keys and values.
unfoldable pub encode : List (Bytes × Bytes) → Bytes
encode [] = []
encode ((k, v) ∷ rs) = put_uint32 (length k) ++ (k ++ (put_uint32 (length v) ++ (v ++ encode rs)))

-- A key or a value whose length and 4 are a 32-bit number.
abbrev pub Fits : Bytes → Type 0
Fits bs = length bs + 4 < 2 ^ 32

-- Each key and each value fits.
abbrev pub AllFit : List (Bytes × Bytes) → Type 0
AllFit = All (λ r. Fits r.0 × Fits r.1)

take-append : (xs ys : Bytes) → take (length xs) (xs ++ ys) ≡ xs
take-append [] ys = refl
take-append (x ∷ xs) ys = ap (λ l. x ∷ l) (take-append xs ys)

drop-append : (xs ys : Bytes) → drop (length xs) (xs ++ ys) ≡ ys
drop-append [] ys = refl
drop-append (x ∷ xs) ys = drop-append xs ys

take-length : (xs : Bytes) → take (length xs) xs ≡ xs
take-length [] = refl
take-length (x ∷ xs) = ap (λ l. x ∷ l) (take-length xs)

slice_lem :
    (lo hi : ℕ) (bs : Bytes)
    → lo ≤ hi
    → hi ≤ length bs
    → slice lo hi bs ≡ ok (take (hi - lo) (drop lo bs))
unfolding slice
slice_lem lo hi bs a b = ground arith

-- A field at the start of a page: its length, its bytes, and the rest.
module _ (k x : Bytes) (small : Fits k) where
  abbrev field : Bytes
  field = put_uint32 (length k) ++ (k ++ x)

  length-field : length field ≡ 4 + (length k + length x)
  unfolding put_uint32
  length-field = omega (arith, length-append k x)

  field_end_lem : field_end field ≡ ok (length k + 4)
  unfolding field_end slice put_uint32
  field_end_lem = ground (arith, uint32-put_uint32 (length k) (omega arith))

  slice-field : slice 4 (length k + 4) field ≡ ok k
  unfolding put_uint32
  slice-field =
      slice_lem 4 (length k + 4) field (omega arith) (omega (arith, length-field))
      ∙ ap ok (ap (λ (n : ℕ). take n (k ++ x)) (omega arith) ∙ take-append k x)

  head-field : slice 0 (length k + 4) field ≡ ok (put_uint32 (length k) ++ k)
  unfolding put_uint32
  head-field =
      let e : length k + 4 - 0 ≡ suc (suc (suc (suc (length k)))) = omega arith in
      slice_lem 0 (length k + 4) field (omega arith) (omega (arith, length-field))
      ∙ ap ok (ap (λ n. take n field) e ∙ ap (λ l. put_uint32 (length k) ++ l) (take-append k x))

  slice_from-field : slice_from (length k + 4) field ≡ ok x
  unfolding slice_from put_uint32
  slice_from-field =
      let e : length k + 4 ≡ suc (suc (suc (suc (length k)))) = omega arith in
      let n : length field - (length k + 4) ≡ length x = omega (arith, length-field) in
      slice_lem (length k + 4) (length field) field (omega (arith, length-field)) (omega arith)
      ∙ ap ok (
          ap (λ m. take (length field - (length k + 4)) (drop m field)) e
          ∙ ap (λ l. take (length field - (length k + 4)) l) (drop-append k x)
          ∙ ap (λ m. take m x) n
          ∙ take-length x)

-- The value of a key: that of its first record, and an empty one if there is none.
unfoldable pub first_value : Bytes → List (Bytes × Bytes) → Bytes
first_value key [] = []
first_value key ((k, v) ∷ rs) = if bytes_equal k key then v else first_value key rs

-- How a page reads that starts with a record.
pub record Starts (k v rest bs : Bytes) : Type 0 where
  pub page : Bytes
  pub key_end : field_end bs ≡ ok (length k + 4)
  pub key_slice : slice 4 (length k + 4) bs ≡ ok k
  pub key_head : slice 0 (length k + 4) bs ≡ ok (put_uint32 (length k) ++ k)
  pub key_rest : slice_from (length k + 4) bs ≡ ok page
  pub value_end : field_end page ≡ ok (length v + 4)
  pub value_slice : slice 4 (length v + 4) page ≡ ok v
  pub value_head : slice 0 (length v + 4) page ≡ ok (value_record v)
  pub value_rest : slice_from (length v + 4) page ≡ ok rest

pub Starts-record :
    (k v rest : Bytes)
    → Fits k
    → Fits v
    → Starts k v rest (put_uint32 (length k) ++ (k ++ (put_uint32 (length v) ++ (v ++ rest))))
unfolding value_record
Starts-record k v rest fk fv =
    let page = put_uint32 (length v) ++ (v ++ rest) in
    record {
      page = page;
      key_end = field_end_lem k page fk;
      key_slice = slice-field k page fk;
      key_head = head-field k page fk;
      key_rest = slice_from-field k page fk;
      value_end = field_end_lem v rest fv;
      value_slice = slice-field v rest fv;
      value_head = head-field v rest fv;
      value_rest = slice_from-field v rest fv;
    }

find_loop-Starts :
    (fuel : ℕ) (key k v rest bs : Bytes) (b : ℕ)
    → Starts k v rest (b ∷ bs)
    → find_loop (suc fuel) key (b ∷ bs)
      ≡ (if bytes_equal k key then ok v else find_loop fuel key rest)
unfolding find_loop
find_loop-Starts fuel key k v rest bs b s =
    rw (s.key_end, ◌>>=◌)
      (rw (s.key_slice, ◌>>=◌)
        (rw (s.key_rest, ◌>>=◌)
          (rw (s.value_end, ◌>>=◌)
            (elim (Bool-cases (bytes_equal k key)) [
              | inl same ↦ rw same s.value_slice
              | inr other ↦ rw other (rw (s.value_rest, ◌>>=◌) refl)
            ]))))

find_loop-nil : (fuel : ℕ) (key : Bytes) → find_loop fuel key [] ≡ ok []
unfolding find_loop
find_loop-nil zero key = refl
find_loop-nil (suc fuel) key = refl

find_loop-record :
    (fuel : ℕ) (key k v rest : Bytes)
    → Fits k
    → Fits v
    → find_loop
        (suc fuel)
        key
        (put_uint32 (length k) ++ (k ++ (put_uint32 (length v) ++ (v ++ rest))))
      ≡ (if bytes_equal k key then ok v else find_loop fuel key rest)
unfolding put_uint32
find_loop-record fuel key k v rest fk fv =
    find_loop-Starts fuel key k v rest _ _ (Starts-record k v rest fk fv)

pub length-encode :
    (k v : Bytes) (rs : List (Bytes × Bytes))
    → Fits k
    → Fits v
    → length (encode ((k, v) ∷ rs)) ≡ 8 + (length k + length v) + length (encode rs)
unfolding encode
length-encode k v rs fk fv = omega (
  arith,
  length-field k (put_uint32 (length v) ++ (v ++ encode rs)) fk,
  length-field v (encode rs) fv,
)

-- `Get` finds the first value of the key in a page, whose length is enough fuel.
pub find_loop-encode :
    (fuel : ℕ) (key : Bytes) (rs : List (Bytes × Bytes))
    → AllFit rs
    → length (encode rs) ≤ fuel
    → find_loop fuel key (encode rs) ≡ ok (first_value key rs)
unfolding encode first_value
find_loop-encode zero key [] fit h = find_loop-nil zero key
find_loop-encode (suc fuel) key [] fit h = find_loop-nil (suc fuel) key
find_loop-encode zero key ((k, v) ∷ rs) fit h =
    absurd (omega (arith, length-encode k v rs fit.0.0 fit.0.1))
find_loop-encode (suc fuel) key ((k, v) ∷ rs) fit h =
    find_loop-record fuel key k v (encode rs) fit.0.0 fit.0.1
    ∙ ap (λ r. if bytes_equal k key then ok v else r)
        (find_loop-encode fuel key rs fit.1 (omega (arith, length-encode k v rs fit.0.0 fit.0.1)))
    ∙ ground arith
