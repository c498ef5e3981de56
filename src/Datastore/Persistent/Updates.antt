-- ===== src/Datastore/Persistent/Updates.antt =====
-- datastore/persistent.go: the page that a put writes.
use mathlib.Core.List.{append-nil, append_assoc}
use part_ii_project.Base.{
  if◌then◌else◌, Bool-cases, length, Bytes, bytes_equal, bytes_equal_iff, put_uint32, ◌>>=◌, ok, ℕ,
  zero, suc, ◌+◌, ◌≤◌, ◌≡◌, refl, sym, ap, subst, ◌∙◌, inl, inr, Bool, true, false, ◌||◌, List, [],
  ◌∷◌, ◌++◌, arith,
}
use part_ii_project.Datastore.Persistent.{
  reliable, write, value_record, new_record, finish_page, copy_loop,
}
use part_ii_project.Datastore.Persistent.Pages.{
  encode, Starts, Starts-record, length-encode, Fits, AllFit, first_value,
}

-- The records with the value of every record of the key replaced.
unfoldable pub replace : Bytes → Bytes → List (Bytes × Bytes) → List (Bytes × Bytes)
replace key val [] = []
replace key val ((k, v) ∷ rs) = (k, if bytes_equal k key then val else v) ∷ replace key val rs

unfoldable pub has_key : Bytes → List (Bytes × Bytes) → Bool
has_key key [] = false
has_key key ((k, v) ∷ rs) = bytes_equal k key || has_key key rs

-- The records after a put.
unfoldable pub update : Bytes → Bytes → List (Bytes × Bytes) → List (Bytes × Bytes)
update key val rs = replace key val rs ++ (if has_key key rs then [] else (key, val) ∷ [])

first_value-other :
    (key val j : Bytes) (b : Bool) (rs : List (Bytes × Bytes))
    → bytes_equal key j ≡ false
    → first_value j (replace key val rs ++ (if b then [] else (key, val) ∷ [])) ≡ first_value j rs
unfolding first_value replace
first_value-other key val j b [] e = ground (arith, e)
first_value-other key val j b ((k, v) ∷ rs) e = ground (
  arith,
  e,
  bytes_equal_iff k key,
  bytes_equal_iff k j,
  bytes_equal_iff key j,
  first_value-other key val j b rs e,
)

first_value-same :
    (key val : Bytes) (rs : List (Bytes × Bytes)) → first_value key (update key val rs) ≡ val
unfolding update first_value replace has_key
first_value-same key val [] = ground (arith, bytes_equal_iff key key)
first_value-same key val ((k, v) ∷ rs) = ground (arith, first_value-same key val rs)

-- After a put the page has the new value at the key, and what was there at any other.
pub first_value-update :
    (key val j : Bytes) (rs : List (Bytes × Bytes))
    → first_value j (update key val rs) ≡ (if bytes_equal key j then val else first_value j rs)
unfolding update
first_value-update key val j rs = elim (Bool-cases (bytes_equal key j)) [
  | inl same ↦ rw same (
      subst (λ x. first_value x (update key val rs) ≡ val) ((bytes_equal_iff key j).0 same)
        (first_value-same key val rs))
  | inr other ↦ rw other (first_value-other key val j (has_key key rs) rs other)
]

copy_loop-nil :
    (fuel : ℕ) (key val : Bytes) (i : ℕ) (out : Bytes) (written : Bool)
    → copy_loop fuel reliable key val i out written []
      ≡ ok (out ++ encode (if written then [] else (key, val) ∷ []), true)
unfolding copy_loop finish_page write new_record value_record encode
copy_loop-nil zero key val i out true = ap (λ l. ok (l, true)) (sym (append-nil out))
copy_loop-nil zero key val i out false = rw (append-nil val) refl
copy_loop-nil (suc fuel) key val i out true = ap (λ l. ok (l, true)) (sym (append-nil out))
copy_loop-nil (suc fuel) key val i out false = rw (append-nil val) refl

copy_loop-Starts :
    (fuel : ℕ) (key val : Bytes) (i : ℕ) (out : Bytes) (written : Bool) (k v rest bs : Bytes)
    (b : ℕ)
    → Starts k v rest (b ∷ bs)
    → copy_loop (suc fuel) reliable key val i out written (b ∷ bs)
      ≡ copy_loop fuel reliable key val
          (i + 2)
          ((out ++ (put_uint32 (length k) ++ k))
            ++ value_record (if bytes_equal k key then val else v))
          (written || bytes_equal k key)
          rest
unfolding copy_loop write
copy_loop-Starts fuel key val i out written k v rest bs b s =
    rw (s.key_end, ◌>>=◌)
      (rw (s.key_slice, ◌>>=◌)
        (rw (s.key_head, ◌>>=◌)
          (rw (s.key_rest, ◌>>=◌)
            (rw (s.value_end, ◌>>=◌)
              (elim (Bool-cases (bytes_equal k key)) [
                | inl same ↦ rw same (
                    rw (s.value_rest, ◌>>=◌)
                      (ap
                        (λ x.
                          copy_loop fuel reliable key val (i + 2)
                            ((out ++ (put_uint32 (length k) ++ k)) ++ value_record val)
                            (written || x) rest)
                        same))
                | inr other ↦ rw other (
                    rw (s.value_head, ◌>>=◌)
                      (rw (s.value_rest, ◌>>=◌)
                        (ap
                          (λ x.
                            copy_loop fuel reliable key val (i + 2)
                              ((out ++ (put_uint32 (length k) ++ k)) ++ value_record v)
                              (written || x) rest)
                          other)))
              ])))))

or_false : (b : Bool) → b ≡ (b || false)
or_false b = ground arith

copy_loop-record :
    (fuel : ℕ) (key val : Bytes) (i : ℕ) (out : Bytes) (written : Bool) (k v rest : Bytes)
    → Fits k
    → Fits v
    → copy_loop
        (suc fuel)
        reliable
        key
        val
        i
        out
        written
        (put_uint32 (length k) ++ (k ++ (put_uint32 (length v) ++ (v ++ rest))))
      ≡ copy_loop fuel reliable key val
          (i + 2)
          ((out ++ (put_uint32 (length k) ++ k))
            ++ value_record (if bytes_equal k key then val else v))
          (written || bytes_equal k key)
          rest
unfolding put_uint32
copy_loop-record fuel key val i out written k v rest fk fv =
    copy_loop-Starts fuel key val i out written k v rest _ _ (Starts-record k v rest fk fv)

or_assoc : (a b c : Bool) → ((a || b) || c) ≡ (a || (b || c))
or_assoc a b c = ground arith

-- The content after one more record.
encode-append :
    (out k v : Bytes) (rs : List (Bytes × Bytes))
    → ((out ++ (put_uint32 (length k) ++ k)) ++ value_record v) ++ encode rs
      ≡ out ++ encode ((k, v) ∷ rs)
unfolding value_record encode
encode-append out k v rs = simp (append_assoc)

-- A put copies the records of a page with the value of its key replaced, or adds the key at the end.
pub copy_loop-encode :
    (fuel : ℕ) (key val : Bytes) (i : ℕ) (out : Bytes) (written : Bool) (rs : List (Bytes × Bytes))
    → AllFit rs
    → length (encode rs) ≤ fuel
    → copy_loop fuel reliable key val i out written (encode rs)
      ≡ ok (
        out
            ++ encode
                (replace key val rs ++ (if written || has_key key rs then [] else (key, val) ∷ [])),
        true,
      )
unfolding replace has_key encode
copy_loop-encode fuel key val i out written [] fit h =
    copy_loop-nil fuel key val i out written
    ∙ ap (λ b. ok (out ++ encode (if b then [] else (key, val) ∷ []), true)) (or_false written)
copy_loop-encode zero key val i out written ((k, v) ∷ rs) fit h =
    absurd (omega (arith, length-encode k v rs fit.0.0 fit.0.1))
copy_loop-encode (suc fuel) key val i out written ((k, v) ∷ rs) fit h =
    let found = bytes_equal k key in
    let v' = if found then val else v in
    copy_loop-record fuel key val i out written k v (encode rs) fit.0.0 fit.0.1
    ∙ copy_loop-encode fuel key val (i + 2)
        ((out ++ (put_uint32 (length k) ++ k)) ++ value_record v') (written || found) rs fit.1
        (omega (arith, length-encode k v rs fit.0.0 fit.0.1))
    ∙ ap (λ l. ok (l, true))
        (encode-append out k v' (
          replace key val rs
          ++ (if (written || found) || has_key key rs then [] else (key, val) ∷ [])))
    ∙ ap
        (λ b. ok (
          out ++ encode ((k, v') ∷ (replace key val rs ++ (if b then [] else (key, val) ∷ []))),
          true,
        ))
        (or_assoc written found (has_key key rs))
