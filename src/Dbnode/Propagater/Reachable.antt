-- ===== src/Dbnode/Propagater/Reachable.antt =====
-- dbnode/backgroundWriter.go: the states that the daemon of background writes comes to.
use part_ii_project.Base.{Bytes, ok, ℕ, ◌≡◌, sym, subst, List}
use part_ii_project.Packet.{Message}
use part_ii_project.Dbnode.Propagater.{
  Propagater, new_propagater, stream_writes, propagate_transaction, response,
}
use part_ii_project.Dbnode.Propagater.Tally.{
  AllTallied, OneEach, stream_writes-Tallies, propagate_transaction-Tallies, response-Tallies,
}

-- A new transaction for a quorum that names no node twice, a sweep, or an answer.
pub data DaemonStep (p : Propagater) (b : Propagater) : Type 0 where
  propagates :
      (id : ℕ) (q : List (ℕ × Message)) (key value : Bytes) (timestamp : ℕ)
      → OneEach q
      → b ≡ propagate_transaction p id q key value timestamp
      → DaemonStep p b
  sweeps : b ≡ (stream_writes p).0 → DaemonStep p b
  hears : (m : Message) → response p m ≡ ok b → DaemonStep p b

pub data DaemonReach (p : Propagater) : Propagater → Type 0 where
  start : DaemonReach p p
  later : {b c : Propagater} → DaemonReach p b → DaemonStep b c → DaemonReach p c

DaemonStep-AllTallied :
    {p b : Propagater} → DaemonStep p b → AllTallied p.transactions → AllTallied b.transactions
DaemonStep-AllTallied {p} (propagates id q key value timestamp one e) a =
    subst (λ r. AllTallied r.transactions) (sym e)
      (propagate_transaction-Tallies p id q key value timestamp one a)
DaemonStep-AllTallied {p} (sweeps e) a =
    subst (λ r. AllTallied r.transactions) (sym e) (stream_writes-Tallies p a)
DaemonStep-AllTallied {p} {b} (hears m e) a = response-Tallies p b m a e

-- In every state that the daemon of a new node comes to, the count of each transaction is the number
-- of marked nodes, and no node is marked false: a node that answers again is not counted again.
pub daemon-AllTallied :
    (id num_nodes rqs : ℕ) (p : Propagater)
    → DaemonReach (new_propagater id num_nodes rqs) p
    → AllTallied p.transactions
unfolding new_propagater
daemon-AllTallied id num_nodes rqs p start = tt
daemon-AllTallied id num_nodes rqs p (later r s) =
    DaemonStep-AllTallied s (daemon-AllTallied id num_nodes rqs _ r)
