-- ===== src/Dbnode/Process.antt =====
-- dbnode/dbnode.go: `continueProcessing`, the next step of a transaction that this node coordinates.
use part_ii_project.Base.{Outcome, ok, ℕ, none, some, List}
use part_ii_project.Datastore.{Store}
use part_ii_project.Packet.{node_lock_request_no_timeout}
use part_ii_project.Dbnode.State.{
  Mode, assembling_quorum, coordinating_read, coordinating_write, coordinating_fast_read, Dbnode,
}
use part_ii_project.Dbnode.Quorum.{assemble_quorum}
use part_ii_project.Dbnode.Read.{continue_fast_read, continue_read}
use part_ii_project.Dbnode.Write.{continue_write}

module _ {S E : Type 0} (st : Store S) (perm : ℕ → List ℕ) where
  -- `case assemblingQuorum`: with the locks granted the write goes on in its own mode.
  unfoldable pub continue_assembly : Dbnode S E → Outcome (Dbnode S E)
  unfolding continue_write
  continue_assembly n = elim n.quorum_members [
    | none ↦ assemble_quorum perm n.write_quorum_size node_lock_request_no_timeout n
    | some members ↦ continue_write st (record n { current_mode = coordinating_write })
  ]

  unfoldable pub continue_in : Mode → Dbnode S E → Outcome (Dbnode S E)
  unfolding continue_fast_read continue_read continue_write continue_assembly
  continue_in coordinating_fast_read n = continue_fast_read st perm n
  continue_in coordinating_read n = continue_read st perm n
  continue_in coordinating_write n = continue_write st n
  continue_in assembling_quorum n = continue_assembly n
  continue_in _ n = ok n

  unfoldable pub continue_processing : Dbnode S E → Outcome (Dbnode S E)
  unfolding continue_in
  continue_processing n = continue_in n.current_mode n
