-- ===== src/Dbnode/Write.antt =====
-- dbnode/dbnode.go: the cases of `continueProcessing` for a write, after the locks are granted.
pub mod Timestamps
pub mod Commit
use part_ii_project.Base.{
  ltb, ◌==◌, if◌then◌else◌, length, increment, decrement, Bytes, ◌>>=◌, Outcome, ok, ℕ, true, ◌&&◌,
  not, none, some, List, [], ◌∷◌,
}
use part_ii_project.Datastore.{Store}
use part_ii_project.Packet.{
  Message, Messagetype, same_type, client_write_response, client_strong_write_request,
  node_unlock_request, node_put_request, node_timestamp_request,
}
use part_ii_project.Dbnode.Coordinator.{decode_timestamp_val, encode_timestamp_val}
use part_ii_project.Dbnode.Propagater.{Propagater}
use part_ii_project.Dbnode.Propagater
use part_ii_project.Dbnode.State.{
  Dbnode, emit, member, members_or_empty, set_member, key_or_nil, request_members, go_idle, marker,
  key_request,
}
use part_ii_project.Dbnode.Abort.{abort_processing, unlock_request}

-- The highest timestamp of a number and those of the members other than `id`.
unfoldable pub latest_timestamp : ℕ → List (ℕ × Message) → ℕ → ℕ
latest_timestamp id [] timestamp = timestamp
latest_timestamp id ((node, m) ∷ members) timestamp =
    latest_timestamp id members (
      if node == id
      then timestamp
      else if ltb timestamp m.timestamp
      then m.timestamp
      else timestamp)

-- The timestamp of the local value, 0 if there is none.
unfoldable pub local_timestamp : Bytes → Outcome ℕ
local_timestamp local_val =
    if ltb 0 (length local_val)
    then (do (timestamp, _) ← decode_timestamp_val local_val; ok timestamp)
    else ok 0

module _ {S E : Type 0} where
  abbrev pub write_response : Dbnode S E → Message
  write_response n = record {
    id = n.client_request.id;
    src = n.id;
    dest = n.client_request.src;
    demux_key = client_write_response;
    key = n.client_request.key;
    value = n.client_request.value;
    timestamp = (member n n.id).timestamp;
    ok = true;
  }

  abbrev pub put_request : Dbnode S E → ℕ → ℕ → Message
  put_request n timestamp node = record {
    id = n.client_request.id;
    src = n.id;
    dest = node;
    demux_key = node_put_request;
    key = n.client_request.key;
    value = n.client_request.value;
    timestamp = timestamp;
    ok = true;
  }

  -- Background writes go to the daemon, if there is one.
  unfoldable pub propagate : Dbnode S E → Dbnode S E
  propagate n = elim n.background_write_daemon [
    | none ↦ n
    | some p ↦ record n {
      background_write_daemon = some (
          Propagater.propagate_transaction p n.client_request.id (members_or_empty n.quorum_members)
            n.client_request.key n.client_request.value (member n n.id).timestamp);
    }
  ]

module _ {S E : Type 0} (st : Store S) where
  -- `case packet.NodeTimestampRequest` of a write: ask the members for their timestamps.
  unfoldable pub ask_timestamps : Dbnode S E → Outcome (Dbnode S E)
  ask_timestamps n = do
    n1 ←
        request_members (key_request n n.client_request.id node_timestamp_request) true
          (members_or_empty n.quorum_members) n
    n2 ← set_member n1 n.id (marker node_put_request 0)
    ok (record n2 { num_waiting_nodes = decrement n.write_quorum_size })

  -- Put the value at the timestamp locally, and ask the members to do so.
  unfoldable pub put_all : ℕ → Dbnode S E → Outcome (Dbnode S E)
  put_all timestamp n = do
    let (store', txid) =
        st.put n.store n.client_request.key (encode_timestamp_val timestamp n.client_request.value)
    n1 ←
        request_members (put_request n timestamp) true (members_or_empty n.quorum_members)
          (record n {
            store = store';
            uncommited_txid = txid;
            uncommited_key = some n.client_request.key;
          })
    n2 ← set_member n1 n.id (marker node_unlock_request timestamp)
    ok (record n2 { num_waiting_nodes = decrement n.write_quorum_size })

  -- A strong write must name the timestamp that comes next; else the request gets it and is refused.
  unfoldable pub put_checked : ℕ → Dbnode S E → Outcome (Dbnode S E)
  unfolding put_all
  put_checked next n =
      if same_type n.client_request.demux_key client_strong_write_request
        && not (n.client_request.timestamp == next)
      then abort_processing st
          (record n { client_request = record (n.client_request) { timestamp = next } })
      else put_all next n

  -- `case packet.NodePutRequest` of a write: choose the timestamp.
  unfoldable pub choose_timestamp : Dbnode S E → Outcome (Dbnode S E)
  unfolding put_checked local_timestamp
  choose_timestamp n = elim (st.get n.store n.client_request.key) [
    | none ↦ abort_processing st n
    | some local_val ↦ do
      here ← local_timestamp local_val
      put_checked (increment (latest_timestamp n.id (members_or_empty n.quorum_members) here)) n
  ]

  -- `case packet.NodeUnlockRequest` of a write: commit locally and at the members, and answer.
  unfoldable pub commit_all : Dbnode S E → Outcome (Dbnode S E)
  unfolding go_idle emit propagate
  commit_all n =
      let (store', success) = st.commit n.store (key_or_nil n.uncommited_key) n.uncommited_txid in
      let n0 : Dbnode S E = record n { store = store' } in
      if not success then abort_processing st n0 else (do
        let n1 : Dbnode S E = record n0 { uncommited_key = none; uncommited_txid = 0 }
        n2 ← request_members (unlock_request n1 true) true (members_or_empty n1.quorum_members) n1
        ok (go_idle (propagate (emit n2 (write_response n2)))))

  unfoldable pub write_step : Messagetype → Dbnode S E → Outcome (Dbnode S E)
  unfolding ask_timestamps choose_timestamp commit_all
  write_step node_timestamp_request n = ask_timestamps n
  write_step node_put_request n = choose_timestamp n
  write_step node_unlock_request n = commit_all n
  write_step _ n = ok n

  -- `case coordinatingWrite`
  unfoldable pub continue_write : Dbnode S E → Outcome (Dbnode S E)
  unfolding write_step
  continue_write n = write_step (member n n.id).demux_key n
