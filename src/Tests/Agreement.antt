-- ===== src/Tests/Agreement.antt =====
-- The quorums of the default options, in a system of five nodes.
use part_ii_project.Base.{
  length, All, ok, ℕ, zero, suc, ◌+◌, ◌≤◌, ◌<◌, ◌≡◌, refl, false, List, [], ◌∷◌, arith,
}
use part_ii_project.Quorums.{elem, Distinct}
use part_ii_project.Tests.Runs.{descending, descending-IsPermutation}
use part_ii_project.Datastore.Memstore.{Memstore, new_memstore}
use part_ii_project.Packet.{
  node_lock_request_no_timeout, node_get_request, node_lock_response, node_get_response,
}
use part_ii_project.Repeater.{response_type}
use part_ii_project.Options.{default_options, check_options}
use part_ii_project.Dbnode.State.{Dbnode}
use part_ii_project.Dbnode.Startup.{new_node}
use part_ii_project.Dbnode.Quorum.{assemble_quorum}
use part_ii_project.Dbnode.Assembly.{IsPermutation, assemble_quorum-IsQuorum, IsQuorum, quorum_of}
use part_ii_project.Dbnode.Assembly.Meeting.{Meet, IsNodeOf, read_meets_write, write_meets_write}
use part_ii_project.Dbnode.Invariant.Initial.{new_node-IsWf}

abbrev a_node : ℕ → Dbnode Memstore (Unit {0})
a_node id = new_node 5 id new_memstore tt 3 3 false

a_node-IsNodeOf : (id : ℕ) → id < 5 → IsNodeOf default_options (a_node id)
unfolding new_node
a_node-IsNodeOf id h = record {
  num = refl;
  self = omega arith;
  reads = refl;
  writes = refl;
  rows = (new_node-IsWf 5 id new_memstore tt 3 3 false h).rows;
}

assemble_quorum-IsQuorum_example :
    (b : Dbnode Memstore (Unit {0})) × (assemble_quorum descending 3 node_get_request (a_node 1)
      ≡ ok b)
    × IsQuorum 4 3 (quorum_of b)
unfolding new_node response_type
assemble_quorum-IsQuorum_example =
    assemble_quorum-IsQuorum descending descending-IsPermutation 3 node_get_request
      node_get_response (a_node 1) refl (omega arith) (a_node-IsNodeOf 1 (omega arith)).rows
      (omega arith) (omega arith)

-- The permutation that counts up.
abbrev range : ℕ → ℕ → List ℕ
range a zero = []
range a (suc count) = a ∷ range (a + 1) count

range-below : (a count k : ℕ) → a + count ≤ k → All (λ d. d < k) (range a count)
range-below a zero k h = tt
range-below a (suc count) k h = (omega arith, range-below (a + 1) count k (omega arith))

range-fresh : (a count x : ℕ) → x < a → elem x (range a count) ≡ false
range-fresh a zero x h = refl
range-fresh a (suc count) x h = ground (arith, range-fresh (a + 1) count x (omega arith))

range-Distinct : (a count : ℕ) → Distinct (range a count)
range-Distinct a zero = tt
range-Distinct a (suc count) =
    (range-fresh (a + 1) count a (omega arith), range-Distinct (a + 1) count)

length-range : (a count : ℕ) → length (range a count) ≡ count
length-range a zero = refl
length-range a (suc count) = omega (arith, length-range (a + 1) count)

abbrev ascending : ℕ → List ℕ
ascending k = range 0 k

ascending-IsPermutation : IsPermutation ascending
ascending-IsPermutation = record {
  below = λ k. range-below 0 k k (omega arith);
  distinct = λ k. range-Distinct 0 k;
  full = λ k. length-range 0 k;
}

read_meets_write_example :
    Meet
      (assemble_quorum descending 3 node_get_request (a_node 1))
      (assemble_quorum ascending 3 node_lock_request_no_timeout (a_node 4))
unfolding new_node response_type check_options
read_meets_write_example =
    read_meets_write descending ascending descending-IsPermutation ascending-IsPermutation
      default_options (a_node 1) (a_node 4) node_get_request node_lock_request_no_timeout
      node_get_response node_lock_response refl refl (a_node-IsNodeOf 1 (omega arith))
      (a_node-IsNodeOf 4 (omega arith)) refl refl

write_meets_write_example :
    Meet
      (assemble_quorum descending 3 node_lock_request_no_timeout (a_node 0))
      (assemble_quorum ascending 3 node_lock_request_no_timeout (a_node 4))
unfolding new_node response_type check_options
write_meets_write_example =
    write_meets_write descending ascending descending-IsPermutation ascending-IsPermutation
      default_options (a_node 0) (a_node 4) node_lock_request_no_timeout
      node_lock_request_no_timeout node_lock_response node_lock_response refl
      (a_node-IsNodeOf 0 (omega arith)) (a_node-IsNodeOf 4 (omega arith)) refl refl
