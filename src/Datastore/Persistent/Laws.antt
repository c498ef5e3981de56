-- ===== src/Datastore/Persistent/Laws.antt =====
-- datastore/persistent.go: the files after a put and after its commit.
use mathlib.Core.List.{append-nil}
use part_ii_project.Base.{
  if◌then◌else◌, Option-cases, if_holds, length, lookup, insert, erase, lookup-insert, lookup-erase,
  increment, Bytes, bytes_equal, bytes_equal_iff, ok, ℕ, ◌/◌, ◌%◌, ◌≤◌, ◌<◌, ◌≡◌, ap, ◌∙◌, ◌≢◌, inl,
  inr, Bool, true, false, none, some, List, [], ◌∷◌, ◌++◌, arith, bytes_key, nat_key,
}
use part_ii_project.Datastore.Persistent.{
  Persistent, get, put, commit, reliable, hex, tx_name, advance_txid, page_name, put_new, put_page,
  hex_digit, write, value_record, new_record,
}
use part_ii_project.Datastore.Persistent.Pages.{encode, Fits, AllFit, first_value, find_loop-encode}
use part_ii_project.Datastore.Persistent.Updates.{update, replace, has_key, copy_loop-encode}

hex_digit-le : (d : ℕ) → d < 16 → hex_digit d ≤ 102
unfolding hex_digit
hex_digit-le d h = ground arith

hex-ne-tx_name : (bs : Bytes) (id : ℕ) → hex bs ≢ tx_name id
unfolding hex tx_name
hex-ne-tx_name [] id e = cc
hex-ne-tx_name (b ∷ bs) id e =
    let h : hex_digit (b / 16 % 16) ≡ 116 = ap first e in
    omega (arith, hex_digit-le (b / 16 % 16) (omega arith))
  where
    first : Bytes → ℕ
    first [] = 0
    first (x ∷ xs) = x

pub advance_txid-ne-zero : (i : ℕ) → advance_txid i ≢ 0
unfolding advance_txid increment
advance_txid-ne-zero i = ground arith

pub AllFit-update :
    (key val : Bytes) (b : Bool) (rs : List (Bytes × Bytes))
    → Fits key
    → Fits val
    → AllFit rs
    → AllFit (replace key val rs ++ (if b then [] else (key, val) ∷ []))
unfolding replace
AllFit-update key val true [] fk fv h = tt
AllFit-update key val false [] fk fv h = ((fk, fv), tt)
AllFit-update key val b ((k, v) ∷ rs) fk fv h =
    ((h.0.0, if_holds Fits (bytes_equal k key) fv h.0.1), AllFit-update key val b rs fk fv h.1)

module _ (md5 : Bytes → Bytes) where
  -- The page of each key is a sequence of records.
  abbrev pub IsWf : Persistent → Type 0
  IsWf s =
      (k page : Bytes)
      → lookup (page_name md5 k) s.files ≡ some page
      → (rs : List (Bytes × Bytes)) × (page ≡ encode rs) × AllFit rs

  -- The records of the page of a key.
  pub record HasRecords (s : Persistent) (key : Bytes) (rs : List (Bytes × Bytes)) : Type 0 where
    pub fit : AllFit rs
    pub read :
        (j : Bytes)
        → page_name md5 j ≡ page_name md5 key
        → get md5 reliable s j ≡ ok (some (first_value j rs))

  pub get-page :
      (s : Persistent) (j : Bytes) (rs : List (Bytes × Bytes))
      → AllFit rs
      → lookup (page_name md5 j) s.files ≡ some (encode rs)
      → get md5 reliable s j ≡ ok (some (first_value j rs))
  unfolding get
  get-page s j rs fit e = ground (arith, e, find_loop-encode (length (encode rs)) j rs fit)

  get-none :
      (s : Persistent) (j : Bytes)
      → lookup (page_name md5 j) s.files ≡ none
      → get md5 reliable s j ≡ ok (some [])
  unfolding get
  get-none s j e = ground (arith, e)

  -- The state after a put that succeeds.
  abbrev pub with_page : Persistent → Bytes → Persistent
  with_page s page = record s {
    txid = advance_txid s.txid;
    files = insert (tx_name (advance_txid s.txid)) page s.files;
  }

  pub none_first :
      (s : Persistent) (j : Bytes)
      → lookup (page_name md5 j) s.files ≡ none
      → get md5 reliable s j ≡ ok (some (first_value j []))
  unfolding first_value
  none_first s j e = get-none s j e

  put_missing :
      (s : Persistent) (key val : Bytes)
      → lookup (page_name md5 key) s.files ≡ none
      → put md5 reliable s key val
        ≡ ok (with_page s (encode (update key val [])), advance_txid s.txid)
  unfolding put put_new update encode replace has_key write new_record value_record
  put_missing s key val e = ground (arith, e, append-nil val)

  put_present :
      (s : Persistent) (key val : Bytes) (rs : List (Bytes × Bytes))
      → AllFit rs
      → lookup (page_name md5 key) s.files ≡ some (encode rs)
      → put md5 reliable s key val
        ≡ ok (with_page s (encode (update key val rs)), advance_txid s.txid)
  unfolding put put_page update
  put_present s key val rs fit e =
      ground (arith, e, copy_loop-encode (length (encode rs)) key val 0 [] false rs fit)

  pub put_lem :
      (s : Persistent) (key val : Bytes)
      → IsWf s
      → (rs : List (Bytes × Bytes)) × HasRecords s key rs
        × (put md5 reliable s key val
            ≡ ok (with_page s (encode (update key val rs)), advance_txid s.txid))
  put_lem s key val wf = elim (Option-cases (lookup (page_name md5 key) s.files)) [
    | inl e ↦ (
      [],
      record { fit = tt; read = λ j p. none_first s j (ap (λ n. lookup n s.files) p ∙ e) },
      put_missing s key val e,
    )
    | inr (page, e) ↦
        let (rs, same, fit) = wf key page e in
        let there : lookup (page_name md5 key) s.files ≡ some (encode rs) = e ∙ ap some same in
        (
          rs,
          record {
            fit = fit;
            read = λ j p. get-page s j rs fit (ap (λ n. lookup n s.files) p ∙ there);
          },
          put_present s key val rs fit there,
        )
  ]

  -- The files of pages are not those of transactions.
  pub page_name-ne-tx_name :
      (k : Bytes) (id : ℕ) → bytes_equal (tx_name id) (page_name md5 k) ≡ false
  unfolding page_name
  page_name-ne-tx_name k id =
      ground (arith, bytes_equal_iff (tx_name id) (hex (md5 k)), hex-ne-tx_name (md5 k) id)

  -- What the names of pages lead to after a put, and after its commit.
  pub lookup-put :
      (s : Persistent) (page j : Bytes)
      → lookup (page_name md5 j) (with_page s page).files ≡ lookup (page_name md5 j) s.files
  lookup-put s page j = ground (
    arith,
    lookup-insert (tx_name (advance_txid s.txid)) (page_name md5 j) page s.files,
    page_name-ne-tx_name j (advance_txid s.txid),
  )

  -- The state after the commit.
  abbrev pub committed : Persistent → Bytes → Bytes → Persistent
  committed s key page = record (with_page s page) {
    files =
        insert (page_name md5 key) page
          (erase (tx_name (advance_txid s.txid)) (with_page s page).files);
  }

  pub commit_lem :
      (s : Persistent) (key page : Bytes)
      → commit md5 reliable (with_page s page) key (advance_txid s.txid)
        ≡ (committed s key page, true)
  unfolding commit
  commit_lem s key page = ground (
    arith,
    lookup-insert (tx_name (advance_txid s.txid)) (tx_name (advance_txid s.txid)) page s.files,
    bytes_equal_iff (tx_name (advance_txid s.txid)) (tx_name (advance_txid s.txid)),
  )

  pub lookup-commit :
      (s : Persistent) (key page j : Bytes)
      → lookup (page_name md5 j) (committed s key page).files ≡ (
          if bytes_equal (page_name md5 key) (page_name md5 j)
          then some page
          else lookup (page_name md5 j) s.files)
  lookup-commit s key page j = ground (
    arith,
    lookup-insert (page_name md5 key) (page_name md5 j) page
        (erase (tx_name (advance_txid s.txid)) (with_page s page).files),
    lookup-erase (tx_name (advance_txid s.txid)) (page_name md5 j) (with_page s page).files,
    lookup-put s page j,
    page_name-ne-tx_name j (advance_txid s.txid),
  )
