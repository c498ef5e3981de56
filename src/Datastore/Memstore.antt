-- ===== src/Datastore/Memstore.antt =====
-- datastore/memory.go: the in-memory store. The committed values are in a trie of `value` and
-- `children`; the root also has `uncommitted` and `txid`, which its descendants leave at their zero
-- values. The timers that simulate a disk are left out.
pub mod Nodes
pub mod Laws
use part_ii_project.Base.{
  ◌==◌, if◌then◌else◌, lookup, insert, erase, increment, Bytes, bytes_equal, ℕ, Bool, true, false,
  Option, none, some, List, [], nat_key,
}
use part_ii_project.Datastore.{Store}
use Nodes.{Trie, empty_trie, trie_get, trie_insert}

-- The `pair` of a pending transaction is its key and value.
pub record Memstore : Type 0 where
  pub trie : Trie
  pub uncommitted : List (ℕ × (Bytes × Bytes))
  pub txid : ℕ

-- `New("")`
unfoldable pub new_memstore : Memstore
new_memstore = record { trie = empty_trie; uncommitted = []; txid = 0 }

unfoldable pub get : Memstore → Bytes → Option Bytes
get store key = some (trie_get store.trie key)

-- `store.txid++`, once more if that is 0.
next_txid : ℕ → ℕ
next_txid txid = if increment txid == 0 then increment (increment txid) else increment txid

unfoldable pub put : Memstore → Bytes → Bytes → Memstore × ℕ
unfolding next_txid
put store key val =
    let id = next_txid store.txid in
    (record store { txid = id; uncommitted = insert id (key, val) store.uncommitted }, id)

-- A read of a missing transaction yields the zero pair, with a nil key.
abbrev pub pending_or_zero : Option (Bytes × Bytes) → Bytes × Bytes
pending_or_zero none = ([], [])
pending_or_zero (some p) = p

unfoldable pub commit : Memstore → Bytes → ℕ → Memstore × Bool
commit store key id =
    let p = pending_or_zero (lookup id store.uncommitted) in
    if bytes_equal p.0 key
    then (
      record store {
        trie = trie_insert key p.1 store.trie;
        uncommitted = erase id store.uncommitted;
      },
      true,
    )
    else (store, false)

unfoldable pub rollback : Memstore → ℕ → Memstore
rollback store id = record store { uncommitted = erase id store.uncommitted }

abbrev pub memstore : Store Memstore
memstore = record { get = get; put = put; commit = commit; rollback = rollback }
