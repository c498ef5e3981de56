-- ===== src/Datastore/Persistent.antt =====
-- datastore/persistent.go: a store in the files of a directory. A committed page has the hash of its
-- keys as a name, an uncommitted one the number of its transaction. `files` maps the names in the
-- directory to contents. `crypto/md5` is the parameter `md5`, of which nothing is supposed. What the
-- operating system refuses is an argument of each operation: a write may stop after some bytes. A page
-- that is not a sequence of records may end the program; a slice bound between the length and the
-- capacity of such a page counts as out of range.
pub mod Pages
pub mod Updates
pub mod Laws
pub mod Failures
pub mod Termination
pub mod Lost
pub mod Commits
use part_ii_project.Base.{
  ltb, leb, ◌==◌, if◌then◌else◌, length, take, drop, lookup, insert, erase, increment, Bytes,
  bytes_equal, put_uint32, uint32, itoa_int, ◌>>=◌, Outcome, out_of_range, out_of_fuel, ok, fault,
  ℕ, zero, suc, ◌+◌, ◌-◌, ◌/◌, ◌%◌, ◌^◌, Bool, true, false, ◌&&◌, ◌||◌, not, Option, none, some,
  List, [], ◌∷◌, ◌++◌, bytes_key, nat_key,
}

-- `read_error` is an error of ReadFile other than a missing file; `write_error i` is the number of
-- bytes that are written by the write with number `i` of an operation before it fails.
pub record Io : Type 0 where
  pub read_error : Bool
  pub create_error : Bool
  pub write_error : ℕ → Option ℕ
  pub rename_error : Bool
  pub remove_error : Bool

-- Nothing is refused.
abbrev pub reliable : Io
reliable = record {
  read_error = false;
  create_error = false;
  write_error = λ i. none;
  rename_error = false;
  remove_error = false;
}

pub record Persistent : Type 0 where
  pub files : List (Bytes × Bytes)
  pub txid : ℕ

-- hex.EncodeToString
unfoldable pub hex_digit : ℕ → ℕ
hex_digit d = if ltb d 10 then 48 + d else 87 + d

unfoldable pub hex : Bytes → Bytes
unfolding hex_digit
hex [] = []
hex (b ∷ bs) = hex_digit (b / 16 % 16) ∷ hex_digit (b % 16) ∷ hex bs

-- "tx" and the number of a transaction.
unfoldable pub tx_name : ℕ → Bytes
tx_name id = 116 ∷ 120 ∷ itoa_int id

-- `store.txid++`, once more if that is 0.
unfoldable pub advance_txid : ℕ → ℕ
advance_txid txid = if increment txid == 0 then increment (increment txid) else increment txid

-- A slice expression with both bounds, and one without the second.
unfoldable pub slice : ℕ → ℕ → Bytes → Outcome Bytes
slice lo hi bs =
    if leb lo hi && leb hi (length bs) then ok (take (hi - lo) (drop lo bs)) else fault out_of_range

unfoldable pub slice_from : ℕ → Bytes → Outcome Bytes
unfolding slice
slice_from lo bs = slice lo (length bs) bs

-- The end of the key or the value at the start of a page: its length and 4, as a `uint32`.
unfoldable pub field_end : Bytes → Outcome ℕ
unfolding slice
field_end bs = do head ← slice 0 4 bs; ok ((uint32 head + 4) % 2 ^ 32)

-- The loop of `Get`. Each round shortens the page, so that its length is enough fuel.
unfoldable pub find_loop : ℕ → Bytes → Bytes → Outcome Bytes
unfolding field_end slice slice_from
find_loop fuel key [] = ok []
find_loop zero key (b ∷ bs) = fault out_of_fuel
find_loop (suc fuel) key (b ∷ bs) = do
  e ← field_end (b ∷ bs)
  k ← slice 4 e (b ∷ bs)
  page ← slice_from e (b ∷ bs)
  d ← field_end page
  elim (bytes_equal k key) [
    | true ↦ slice 4 d page
    | false ↦ slice_from d page >>= λ rest. find_loop fuel key rest
  ]

-- newPage.Write, the write with number `i`: the content, and whether there was no error.
unfoldable pub write : Io → ℕ → Bytes → Bytes → Bytes × Bool
write io i out bs = elim (io.write_error i) [
  | none ↦ (out ++ bs, true)
  | some n ↦ (out ++ take n bs, false)
]

-- A value as it stands in a page, and a key with its value.
unfoldable pub value_record : Bytes → Bytes
value_record val = put_uint32 (length val) ++ val

unfoldable pub new_record : Bytes → Bytes → Bytes
unfolding value_record
new_record key val = put_uint32 (length key) ++ (key ++ value_record val)

-- The end of `Put` after its loop: the key is added, unless it was found.
unfoldable pub finish_page : Io → Bytes → Bytes → ℕ → Bytes → Bool → Bytes × Bool
unfolding write new_record
finish_page io key val i out true = (out, true)
finish_page io key val i out false = write io i out (new_record key val)

-- The loop of `Put` over the rest of the old page, with `i` writes before, and what follows it. The
-- error of the write of a value that stays is not looked at.
unfoldable pub copy_loop :
    ℕ → Io → Bytes → Bytes → ℕ → Bytes → Bool → Bytes → Outcome (Bytes × Bool)
unfolding field_end slice slice_from write value_record finish_page
copy_loop fuel io key val i out written [] = ok (finish_page io key val i out written)
copy_loop zero io key val i out written (b ∷ bs) = fault out_of_fuel
copy_loop (suc fuel) io key val i out written (b ∷ bs) = do
  e ← field_end (b ∷ bs)
  k ← slice 4 e (b ∷ bs)
  let found = bytes_equal k key
  head ← slice 0 e (b ∷ bs)
  let w1 = write io i out head
  elim w1.1 [
    | false ↦ ok w1
    | true ↦ do
      page ← slice_from e (b ∷ bs)
      d ← field_end page
      new ← if found then ok (value_record val) else slice 0 d page
      let w2 = write io (i + 1) w1.0 new
      elim (found && not w2.1) [
        | true ↦ ok w2
        | false ↦ do
          rest ← slice_from d page
          copy_loop fuel io key val (i + 2) w2.0 (written || found) rest
      ]
  ]

-- The number that `Put` returns.
abbrev pub tx_or_zero : ℕ → Bool → ℕ
tx_or_zero id good = if good then id else 0

module _ (md5 : Bytes → Bytes) where
  -- The name of the page of a key.
  unfoldable pub page_name : Bytes → Bytes
  unfolding hex
  page_name key = hex (md5 key)

  -- `Get`: `none` is an error.
  unfoldable pub get : Io → Persistent → Bytes → Outcome (Option Bytes)
  unfolding page_name find_loop
  get io store key = elim (lookup (page_name key) store.files) [
    | none ↦ ok (some [])
    | some page ↦
        if io.read_error then ok none else (do v ← find_loop (length page) key page; ok (some v))
  ]

  -- `putNew`, which makes the page of the transaction with the record.
  unfoldable pub put_new : Io → Persistent → Bytes → Bytes → Persistent × ℕ
  unfolding write new_record
  put_new io store key val =
      if io.create_error
      then (store, 0)
      else let w = write io 0 [] (new_record key val) in
        (
          record store { files = insert (tx_name store.txid) w.0 store.files },
          tx_or_zero store.txid w.1,
        )

  -- The rest of `Put` where the key has a page already.
  unfoldable pub put_page : Io → Persistent → Bytes → Bytes → Bytes → Outcome (Persistent × ℕ)
  unfolding copy_loop
  put_page io store key val page = if io.create_error then ok (store, 0) else (do
    w ← copy_loop (length page) io key val 0 [] false page
    ok (
      record store { files = insert (tx_name store.txid) w.0 store.files },
      tx_or_zero store.txid w.1,
    ))

  -- `Put`
  unfoldable pub put : Io → Persistent → Bytes → Bytes → Outcome (Persistent × ℕ)
  unfolding page_name put_new put_page
  put io s key val =
      let store : Persistent = record s { txid = advance_txid s.txid } in
      if io.read_error then ok (store, 0) else elim (lookup (page_name key) store.files) [
        | none ↦ ok (put_new io store key val)
        | some page ↦ put_page io store key val page
      ]

  -- `Commit`: os.Rename, which takes the place of a file that is there.
  unfoldable pub commit : Io → Persistent → Bytes → ℕ → Persistent × Bool
  unfolding page_name
  commit io store key id =
      if io.rename_error then (store, false) else elim (lookup (tx_name id) store.files) [
        | none ↦ (store, false)
        | some page ↦ (
          record store { files = insert (page_name key) page (erase (tx_name id) store.files) },
          true,
        )
      ]

-- `Rollback`
unfoldable pub rollback : Io → Persistent → ℕ → Persistent
unfolding tx_name
rollback io store id =
    if io.remove_error then store else record store { files = erase (tx_name id) store.files }

-- `DeleteStore`, as far as the operating system lets it.
unfoldable pub delete_store : Io → Persistent → Persistent
delete_store io store = if io.remove_error then store else record store { files = [] }
