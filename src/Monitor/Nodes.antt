-- ===== src/Monitor/Nodes.antt =====
-- net/monitor.go: what a poll says of the nodes, each in its state when it was asked.
use part_ii_project.Base.{
  ◌==◌, if◌then◌else◌, length, lookup, lookup-insert, increment, ℕ, ◌+◌, ◌^◌, ◌<◌, ◌≡◌, ◌∙◌, some,
  List, [], ◌∷◌, map, arith, nat_key,
}
use part_ii_project.Dbnode.State.{Dbnode, query_state}
use part_ii_project.Monitor.{Monitor, count_in, count_or_zero, count_states, poll_nodes}

count_in-lookup :
    (k t : ℕ) (row : List (ℕ × ℕ))
    → count_or_zero (lookup t row) + 1 < 2 ^ 64
    → count_or_zero (lookup t (count_in k row))
      ≡ count_or_zero (lookup t row) + (if k == t then 1 else 0)
unfolding count_in increment
count_in-lookup k t row h =
    ground (arith, lookup-insert k t (increment (count_or_zero (lookup k row))) row)

module _ {S E : Type 0} where
  -- The number of nodes that work on the transaction.
  unfoldable pub working_on : ℕ → List (Dbnode S E) → ℕ
  working_on t [] = 0
  working_on t (n ∷ nodes) = (if n.current_txid == t then 1 else 0) + working_on t nodes

  count_states-working_on :
      (t : ℕ) (nodes : List (Dbnode S E)) (row : List (ℕ × ℕ))
      → count_or_zero (lookup t row) + length nodes < 2 ^ 64
      → count_or_zero (lookup t (count_states (map query_state nodes) row))
        ≡ count_or_zero (lookup t row) + working_on t nodes
  unfolding count_states working_on query_state
  count_states-working_on t [] row h = omega arith
  count_states-working_on t (n ∷ nodes) row h =
      let c = count_in-lookup n.current_txid t row (omega arith) in
      count_states-working_on t nodes (count_in n.current_txid row) (ground (arith, c))
      ∙ omega (arith, c)

  -- A poll counts under each number the nodes that work on the transaction of that number.
  pub poll_nodes-working_on :
      (t : ℕ) (nodes : List (Dbnode S E)) (m : Monitor)
      → length nodes < 2 ^ 64
      → (row : List (ℕ × ℕ)) × (lookup m.poll (poll_nodes (map query_state nodes) m).node_states
          ≡ some row)
        × (count_or_zero (lookup t row) ≡ working_on t nodes)
  unfolding poll_nodes lookup
  poll_nodes-working_on t nodes m h = (
    count_states (map query_state nodes) [],
    ground (
      arith,
      lookup-insert m.poll m.poll (count_states (map query_state nodes) []) m.node_states,
    ),
    count_states-working_on t nodes [] (omega arith) ∙ omega arith,
  )
