-- ===== src/Dbnode/Startup.antt =====
-- dbnode/dbnode.go: `New`, and the simulated failure and recovery of a node.
use part_ii_project.Base.{
  if◌then◌else◌, minus_one, ℕ, ◌-◌, Bool, true, false, ◌&&◌, not, none, some, [], ◌∷◌, ◌++◌,
}
use part_ii_project.Packet.{no_message, control_fail, control_recover}
use part_ii_project.Elector.{Elector}
use part_ii_project.Repeater.{Repeater, new_repeater}
use part_ii_project.Repeater
use part_ii_project.Dbnode.Propagater.{new_propagater}
use part_ii_project.Dbnode.State.{Dbnode, same_mode, idle, assembling_quorum, coordinating_write}

module _ {S E : Type 0} where
  -- `New(n, id, ..., rqs, wqs, sloppyQuorum)` with a new store and elector; the first timer is set
  -- by the main loop.
  unfoldable pub new_node : ℕ → ℕ → S → E → ℕ → ℕ → Bool → Dbnode S E
  new_node n id store elector rqs wqs sloppy_quorum = record {
    id = id;
    num_peers = n - 1;
    read_quorum_size = rqs;
    write_quorum_size = wqs;
    outgoing = [];
    current_mode = idle;
    store = store;
    current_txid = minus_one;
    lock_requests = [];
    client_request = no_message;
    quorum_members = none;
    num_waiting_nodes = 0;
    request_repeater = new_repeater n 3;
    background_write_daemon = if sloppy_quorum then some (new_propagater id n rqs) else none;
    uncommited_txid = 0;
    uncommited_key = none;
    unlock_txids = [];
    timers = 0 ∷ [];
    elector = elector;
    disabled = false;
    memory = λ p. no_message;
    next_cell = 0;
    sleeping = [];
    timeout_counter = 0;
  }

module _ {S E : Type 0} (el : Elector E) where
  -- `ControlFail`: a node forgets a transaction, but not a write that it coordinates.
  unfoldable pub fail_node : Dbnode S E → Dbnode S E
  fail_node n =
      let n1 : Dbnode S E = record n {
        disabled = true;
        request_repeater = Repeater.fail n.request_repeater;
        elector = el.process_msg n.elector (record no_message { demux_key = control_fail });
      } in
      if not (same_mode n.current_mode coordinating_write)
        && not (same_mode n.current_mode assembling_quorum)
      then record n1 {
        current_mode = idle;
        current_txid = minus_one;
        client_request = no_message;
        quorum_members = none;
      }
      else n1

  -- `ControlRecover`
  unfoldable pub recover_node : Dbnode S E → Dbnode S E
  recover_node n = record n {
    disabled = false;
    timeout_counter = 0;
    timers = n.timers ++ 0 ∷ [];
    request_repeater = Repeater.recover n.request_repeater;
    elector = el.process_msg n.elector (record no_message { demux_key = control_recover });
  }
