-- ===== src/Dbnode/Invariant/Initial.antt =====
-- dbnode/dbnode.go: the invariant holds of a node that `New` has made.
use part_ii_project.Base.{
  ◌==◌, Bool-cases, lookup, ℕ, zero, suc, ◌+◌, ◌≤◌, ◌<◌, ◌≢◌, inl, inr, Bool, none, arith, nat_key,
}
use part_ii_project.Repeater.{empty_rows, new_repeater}
use part_ii_project.Dbnode.Startup.{new_node}
use part_ii_project.Dbnode.Invariant.{IsWf}

empty_rows-lookup : (n i d : ℕ) → i ≤ d → d < n + i → lookup d (empty_rows n i) ≢ none
unfolding empty_rows lookup
empty_rows-lookup zero i d h k e = omega arith
empty_rows-lookup (suc n) i d h k e = elim (Bool-cases (i == d)) [
  | inl here ↦ absurd (ground (arith, here, e))
  | inr there ↦
      empty_rows-lookup n (i + 1) d (ground (arith, there)) (omega arith) (ground (arith, there, e))
]

module _ {S E : Type 0} where
  -- A new node of a system has the invariant, if its number is below that of the nodes.
  pub new_node-IsWf :
      (n id : ℕ) (store : S) (elector : E) (rqs wqs : ℕ) (sloppy : Bool)
      → id < n
      → IsWf (new_node n id store elector rqs wqs sloppy)
  unfolding new_node new_repeater
  new_node-IsWf n id store elector rqs wqs sloppy h = record {
    self = omega arith;
    rows = λ d le. empty_rows-lookup n 0 d (omega arith) (omega arith);
    nodes = tt;
    members = λ e. cc;
  }
