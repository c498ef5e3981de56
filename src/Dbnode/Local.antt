-- ===== src/Dbnode/Local.antt =====
-- dbnode/dbnode.go: `processLocalRead` and `processLocalWrite`, for quorums of one node.
pub mod Rereading
use part_ii_project.Base.{
  ltb, ◌==◌, if◌then◌else◌, length, increment, Bytes, ◌>>=◌, Outcome, ok, ℕ, Bool, true, false,
  ◌&&◌, not, none, some,
}
use part_ii_project.Datastore.{Store}
use part_ii_project.Packet.{
  Message, client_read_response, client_write_response, client_strong_write_request, same_type,
  no_message,
}
use part_ii_project.Dbnode.Coordinator.{decode_timestamp_val, encode_timestamp_val}
use part_ii_project.Dbnode.State.{Dbnode, emit, key_or_nil}

module _ {S E : Type 0} where
  -- A response to the client of a message, about the key of the message.
  abbrev pub client_response : Dbnode S E → Message → Message
  client_response n msg = record no_message {
    id = msg.id;
    src = n.id;
    dest = msg.src;
    key = msg.key;
  }

  -- `len(n.uncommitedKey) > 0`: a write is in progress, so the message goes round again.
  unfoldable pub is_busy : Dbnode S E → Bool
  is_busy n = ltb 0 (length (key_or_nil n.uncommited_key))

module _ {S E : Type 0} (st : Store S) where
  unfoldable pub process_local_read : Dbnode S E → Message → Outcome (Dbnode S E)
  unfolding emit is_busy
  process_local_read n msg = if is_busy n then ok (emit n msg) else elim (st.get n.store msg.key) [
    | none ↦
        ok
          (emit n (record (client_response n msg) { demux_key = client_read_response; ok = false }))
    | some stored ↦ do
      (timestamp, val) ← decode_timestamp_val stored
      ok (
          emit n (record (client_response n msg) {
            demux_key = client_read_response;
            value = val;
            timestamp = timestamp;
            ok = true;
          }))
  ]

  -- The answer to a strong write that does not name the next timestamp.
  abbrev pub stale_response : Dbnode S E → Message → ℕ → Bytes → Message
  stale_response n msg timestamp old_val = record (client_response n msg) {
    demux_key = client_write_response;
    value = old_val;
    timestamp = timestamp;
    ok = false;
  }

  -- Put and commit at the timestamp, and answer.
  unfoldable pub write_at : Dbnode S E → Message → ℕ → Dbnode S E
  unfolding emit
  write_at n msg timestamp =
      let (s1, txid) = st.put n.store msg.key (encode_timestamp_val timestamp msg.value) in
      let (s2, success) = st.commit s1 msg.key txid in
      emit (record n { store = s2 })
        (record (client_response n msg) {
          demux_key = client_write_response;
          value = msg.value;
          timestamp = timestamp;
          ok = success;
        })

  unfoldable pub process_local_write : Dbnode S E → Message → Outcome (Dbnode S E)
  unfolding emit is_busy write_at
  process_local_write n msg = if is_busy n then ok (emit n msg) else elim (st.get n.store msg.key) [
    | none ↦ ok (
        emit n (record (client_response n msg) {
          demux_key = client_write_response;
          value = msg.value;
          ok = false;
        }))
    | some stored ↦ do
      (old_timestamp, old_val) ← decode_timestamp_val stored
      let timestamp = increment old_timestamp
      if not (timestamp == msg.timestamp) && same_type msg.demux_key client_strong_write_request
          then ok (emit n (stale_response n msg timestamp old_val))
          else ok (write_at n msg timestamp)
  ]
