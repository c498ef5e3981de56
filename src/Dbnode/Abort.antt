-- ===== src/Dbnode/Abort.antt =====
-- dbnode/dbnode.go: `abortProcessing`.
pub mod Release
use part_ii_project.Base.{
  if◌then◌else◌, is_positive, ◌>>=◌, Outcome, ok, ℕ, Bool, true, false, none,
}
use part_ii_project.Datastore.{Store}
use part_ii_project.Packet.{
  Message, Messagetype, no_message, client_read_response, client_write_response,
  node_unlock_request, node_unlock_ack,
}
use part_ii_project.Dbnode.State.{
  Mode, assembling_quorum, coordinating_read, coordinating_write, processing_read, processing_write,
  Dbnode, emit, members_or_empty, request_members, go_idle,
}

module _ {S E : Type 0} where
  -- The request that releases a member of the quorum of the client's request.
  abbrev pub unlock_request : Dbnode S E → Bool → ℕ → Message
  unlock_request n success node = record no_message {
    id = n.client_request.id;
    src = n.id;
    dest = node;
    demux_key = node_unlock_request;
    ok = success;
  }

  -- The answer of an aborted coordinator to the client.
  abbrev pub failure : Dbnode S E → Messagetype → Message
  failure n type = record {
    id = n.client_request.id;
    src = n.id;
    dest = n.client_request.src;
    demux_key = type;
    key = n.client_request.key;
    value = n.client_request.value;
    timestamp = n.client_request.timestamp;
    ok = false;
  }

  abbrev pub unlocked : Dbnode S E → Message
  unlocked n = record no_message {
    id = n.client_request.id;
    src = n.id;
    dest = n.client_request.src;
    demux_key = node_unlock_ack;
    ok = false;
  }

  -- The `switch` of `abortProcessing` on the mode `m`.
  unfoldable pub report_abort : Mode → Dbnode S E → Dbnode S E
  unfolding emit
  report_abort assembling_quorum n = emit n (failure n client_write_response)
  report_abort coordinating_read n = emit n (failure n client_read_response)
  report_abort coordinating_write n = emit n (failure n client_write_response)
  report_abort processing_read n = emit n (unlocked n)
  report_abort processing_write n = emit n (unlocked n)
  report_abort _ n = n

  unfoldable pub rollback_uncommited : Store S → Dbnode S E → Dbnode S E
  rollback_uncommited st n =
      if is_positive n.uncommited_txid
      then record n {
        store = st.rollback n.store n.uncommited_txid;
        uncommited_txid = 0;
        uncommited_key = none;
      }
      else n

  unfoldable pub abort_processing : Store S → Dbnode S E → Outcome (Dbnode S E)
  unfolding report_abort rollback_uncommited request_members go_idle
  abort_processing st n = do
    let n1 = rollback_uncommited st n
    n2 ← request_members (unlock_request n1 false) true (members_or_empty n1.quorum_members) n1
    ok (go_idle (report_abort n2.current_mode n2))
