-- ===== src/Dbnode/Read.antt =====
-- dbnode/dbnode.go: the cases of `continueProcessing` for a read. As `fast_reads` is true, a node takes
-- `continue_fast_read`; the locking read stays in the code.
pub mod Newest
use part_ii_project.Base.{
  ltb, ◌==◌, if◌then◌else◌, decrement, Bytes, ◌>>=◌, Outcome, log_fatal, ok, fault, ℕ, true, false,
  none, some, List, [], ◌∷◌,
}
use part_ii_project.Datastore.{Store}
use part_ii_project.Packet.{
  Message, Messagetype, no_message, client_read_response, node_lock_request, node_unlock_request,
  node_get_request,
}
use part_ii_project.Dbnode.Coordinator.{decode_timestamp_val}
use part_ii_project.Dbnode.State.{
  Dbnode, emit, request, member, set_member, request_members, go_idle, marker, key_request,
}
use part_ii_project.Dbnode.Quorum.{assemble_quorum}
use part_ii_project.Dbnode.Abort.{abort_processing}

-- The most recent of a value and those that the members returned.
unfoldable pub latest : List (ℕ × Message) → ℕ → Bytes → ℕ × Bytes
latest [] timestamp value = (timestamp, value)
latest ((node, m) ∷ members) timestamp value =
    if ltb timestamp m.timestamp
    then latest members m.timestamp m.value
    else latest members timestamp value

module _ {S E : Type 0} where
  abbrev pub read_response : Dbnode S E → ℕ → Bytes → Message
  read_response n timestamp value = record {
    id = n.client_request.id;
    src = n.id;
    dest = n.client_request.src;
    demux_key = client_read_response;
    key = n.client_request.key;
    value = value;
    timestamp = timestamp;
    ok = true;
  }

  -- The loop of a read coordinator over the answers: the most recent value, and an unlock request
  -- for each member.
  unfoldable pub collect_and_unlock :
      List (ℕ × Message) → ℕ → Bytes → Dbnode S E → Outcome ((ℕ × Bytes) × Dbnode S E)
  collect_and_unlock [] timestamp value n = ok ((timestamp, value), n)
  collect_and_unlock ((node, res) ∷ members) timestamp value n =
      if node == n.id then collect_and_unlock members timestamp value n else (do
        (t, v) ← decode_timestamp_val res.value
        n' ←
            request n
              (record no_message {
                id = res.id;
                src = n.id;
                dest = node;
                demux_key = node_unlock_request;
                ok = true;
              })
              true
        let newer = ltb timestamp t
        collect_and_unlock members (if newer then t else timestamp) (if newer then v else value) n')

module _ {S E : Type 0} (st : Store S) (perm : ℕ → List ℕ) where
  unfoldable pub continue_fast_read : Dbnode S E → Outcome (Dbnode S E)
  unfolding go_idle emit
  continue_fast_read n = elim n.quorum_members [
    | none ↦ assemble_quorum perm n.read_quorum_size node_get_request n
    | some members ↦ elim (st.get n.store n.client_request.key) [
      | none ↦ abort_processing st n
      | some local_val ↦ do
        (timestamp, value) ← decode_timestamp_val local_val
        let newest = latest members timestamp value
        ok (go_idle (emit n (read_response n newest.0 newest.1)))
    ]
  ]

  -- `case packet.NodeUnlockRequest` of a read.
  unfoldable pub finish_read : List (ℕ × Message) → Dbnode S E → Outcome (Dbnode S E)
  unfolding go_idle emit
  finish_read members n = elim (st.get n.store n.client_request.key) [
    | none ↦ abort_processing st n
    | some local_val ↦ do
      (timestamp, value) ← decode_timestamp_val local_val
      (newest, n') ← collect_and_unlock members timestamp value n
      ok (go_idle (emit n' (read_response n' newest.0 newest.1)))
  ]

  -- The step that the marker names.
  unfoldable pub read_step : Messagetype → List (ℕ × Message) → Dbnode S E → Outcome (Dbnode S E)
  unfolding finish_read
  read_step node_get_request members n = do
    n1 ← request_members (key_request n n.current_txid node_get_request) false members n
    n2 ← set_member n1 n.id (marker node_unlock_request 0)
    ok (record n2 { num_waiting_nodes = decrement n.read_quorum_size })
  read_step node_unlock_request members n = finish_read members n
  read_step _ members n = fault log_fatal

  unfoldable pub continue_read : Dbnode S E → Outcome (Dbnode S E)
  unfolding read_step
  continue_read n = elim n.quorum_members [
    | none ↦ assemble_quorum perm n.read_quorum_size node_lock_request n
    | some members ↦ read_step (member n n.id).demux_key members n
  ]
