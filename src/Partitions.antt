-- ===== src/Partitions.antt =====
-- net/partitions.go: the links of the network that simulated partitions have cut. The lock makes each
-- method one step. The manager names a link with its lower node first.
pub mod Cuts
use part_ii_project.Base.{
  lookup, insert, erase, ◌>>=◌, Outcome, nil_map_write, ok, fault, ℕ, zero, suc, ◌+◌, Bool, true,
  false, not, none, some, List, [], ◌∷◌, nat_key,
}

-- node → node → unavailable
abbrev pub Links : Type 0
Links = List (ℕ × List (ℕ × Bool))

-- The rows of the nodes from `i` on; `k` of them are left.
unfoldable pub rows_from : ℕ → ℕ → Links
rows_from zero i = []
rows_from (suc k) i = (i, []) ∷ rows_from k (i + 1)

-- `newPartitions`, with a row for each of the `n` nodes and one for the clients.
unfoldable pub new_partitions : ℕ → Links
unfolding rows_from
new_partitions n = rows_from (n + 1) 0

-- A read of `unavailableLinks[s][d]`.
unfoldable pub unavailable : Links → ℕ → ℕ → Bool
unavailable u s d = elim (lookup s u) [
  | none ↦ false
  | some row ↦ elim (lookup d row) [ none ↦ false | some b ↦ b ]
]

-- `linkAvailable`
unfoldable pub link_available : Links → ℕ → ℕ → Bool
unfolding unavailable
link_available u s d = not (unavailable u s d)

-- p.unavailableLinks[source][dest] = true
unfoldable pub cut_link : ℕ → ℕ → Links → Outcome Links
cut_link source dest u = elim (lookup source u) [
  | none ↦ fault nil_map_write
  | some row ↦ ok (insert source (insert dest true row) u)
]

-- The inner loop of `createPartition`.
unfoldable pub cut_links : ℕ → List (ℕ × Bool) → Links → Outcome Links
unfolding cut_link
cut_links source [] u = ok u
cut_links source ((dest, b) ∷ dests) u = do v ← cut_link source dest u; cut_links source dests v

-- `createPartition`
unfoldable pub create_partition : Links → Links → Outcome Links
unfolding cut_links
create_partition [] u = ok u
create_partition ((source, dests) ∷ links) u = do
  v ← cut_links source dests u
  create_partition links v

-- delete(p.unavailableLinks[source], dest), which does nothing to a missing row.
unfoldable pub restore_link : ℕ → ℕ → Links → Links
restore_link source dest u = elim (lookup source u) [
  | none ↦ u
  | some row ↦ insert source (erase dest row) u
]

-- The inner loop of `removePartition`.
unfoldable pub restore_links : ℕ → List (ℕ × Bool) → Links → Links
unfolding restore_link
restore_links source [] u = u
restore_links source ((dest, b) ∷ dests) u = restore_links source dests (restore_link source dest u)

-- `removePartition`
unfoldable pub remove_partition : Links → Links → Links
unfolding restore_links
remove_partition [] u = u
remove_partition ((source, dests) ∷ links) u = remove_partition links (restore_links source dests u)
