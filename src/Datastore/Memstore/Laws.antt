-- ===== src/Datastore/Memstore/Laws.antt =====
-- The in-memory store keeps the promises of the interface, and its transaction numbers.
use part_ii_project.Base.{
  ◌==◌, if◌then◌else◌, ==_refl, lookup, lookup-insert, lookup-erase, increment, Bytes, bytes_equal,
  bytes_equal_iff, ℕ, ◌≡◌, refl, ap, ◌∙◌, ◌≢◌, true, false, Option, none, some, arith, nat_key,
}
use part_ii_project.Datastore.{StoreLaws}
use part_ii_project.Datastore.Memstore.{
  Memstore, get, put, commit, rollback, memstore, next_txid, pending_or_zero,
}
use part_ii_project.Datastore.Memstore.Nodes.{trie_get-trie_insert}

-- A transaction number is never 0, also where the counter wraps around.
pub put-ne-zero : (s : Memstore) (k v : Bytes) → (put s k v).1 ≢ 0
unfolding put increment
put-ne-zero s k v = ground arith

-- The uncommitted write with a number.
abbrev pub pending : Memstore → ℕ → Option (Bytes × Bytes)
pending s i = lookup i s.uncommitted

pub pending-put :
    (s : Memstore) (k v : Bytes) (i : ℕ)
    → pending (put s k v).0 i ≡ (if (put s k v).1 == i then some (k, v) else pending s i)
unfolding put
pending-put s k v i = lookup-insert (next_txid s.txid) i (k, v) s.uncommitted

-- Committing a pending write under its own key succeeds, shows its value under that key and no
-- other, and ends the transaction; other transactions stay pending.
pub commit_pending :
    (s : Memstore) (k v : Bytes) (i : ℕ)
    → pending s i ≡ some (k, v)
    → ((commit s k i).1 ≡ true)
      × ((j : Bytes) → get (commit s k i).0 j ≡ (if bytes_equal k j then some v else get s j))
      × ((m : ℕ) → pending (commit s k i).0 m ≡ (if i == m then none else pending s m))
unfolding commit get
commit_pending s k v i h = (
  ground (arith, bytes_equal_iff k k),
  λ j. ground (arith, bytes_equal_iff k k, trie_get-trie_insert k j v s.trie),
  λ m. ground (arith, bytes_equal_iff k k, lookup-erase i m s.uncommitted),
)

-- With another key than the pending one, or with no such transaction and a key that is not empty,
-- a commit is refused and changes nothing.
pub commit_refused :
    (s : Memstore) (k : Bytes) (i : ℕ)
    → (pending_or_zero (pending s i)).0 ≢ k
    → commit s k i ≡ (s, false)
unfolding commit
commit_refused s k i h = ground (arith, bytes_equal_iff (pending_or_zero (pending s i)).0 k)

pub get-put : (s : Memstore) (k v j : Bytes) → get (put s k v).0 j ≡ get s j
unfolding put get
get-put s k v j = refl

pub get-rollback : (s : Memstore) (i : ℕ) (j : Bytes) → get (rollback s i) j ≡ get s j
unfolding rollback get
get-rollback s i j = refl

pub put-pending :
    (s : Memstore) (k v : Bytes)
    → (put s k v).1 ≢ 0
    → pending (put s k v).0 (put s k v).1 ≡ some (k, v)
put-pending s k v h =
    pending-put s k v (put s k v).1
    ∙ ap (λ b. if b then some (k, v) else pending s (put s k v).1) (==_refl _)

pub get-commit :
    (s : Memstore) (k v j : Bytes) (i : ℕ)
    → pending s i ≡ some (k, v)
    → (commit s k i).1 ≡ true
    → get (commit s k i).0 j ≡ (if bytes_equal k j then some v else get s j)
get-commit s k v j i h e = (commit_pending s k v i h).1 j

abbrev pub memstore_laws : StoreLaws memstore
memstore_laws = record {
  pending = pending;
  get-put = get-put;
  pending-put = put-pending;
  get-commit = get-commit;
  get-rollback = get-rollback;
}

-- A put that is committed at once succeeds, and shows its value.
pub put_committed :
    (s : Memstore) (k v : Bytes)
    → ((commit (put s k v).0 k (put s k v).1).1 ≡ true)
      × ((j : Bytes)
          → get (commit (put s k v).0 k (put s k v).1).0 j
            ≡ (if bytes_equal k j then some v else get s j))
put_committed s k v =
    let c =
      commit_pending (put s k v).0 k v (put s k v).1 (put-pending s k v (put-ne-zero s k v)) in
    (c.0, λ j. c.1 j ∙ ap (λ o. if bytes_equal k j then some v else o) (get-put s k v j))
