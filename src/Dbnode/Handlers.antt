-- ===== src/Dbnode/Handlers.antt =====
-- dbnode/dbnode.go: the handlers of the messages between nodes.
pub mod Participant
pub mod Repetition
use part_ii_project.Base.{
  ◌==◌, if◌then◌else◌, insert, minus_one, decrement, is_positive, Bytes, ◌>>=◌, Outcome, ok, ℕ,
  Bool, true, false, ◌&&◌, ◌||◌, not, none, some, List, [], nat_key,
}
use part_ii_project.Datastore.{Store}
use part_ii_project.Packet.{
  Message, Messagetype, same_type, no_message, node_unlock_request, node_unlock_ack,
  node_get_response, node_put_response,
}
use part_ii_project.Dbnode.Coordinator.{decode_timestamp_val, encode_timestamp_val}
use part_ii_project.Dbnode.State.{
  Dbnode, emit, same_mode, fast_reads, key_or_nil, request, acknowledge, member, set_member, Mode,
  idle, assembling_quorum, coordinating_read, coordinating_write, processing_read, processing_write,
  coordinating_fast_read,
}
use part_ii_project.Dbnode.Abort.{abort_processing}
use part_ii_project.Dbnode.Process.{continue_processing}

-- The modes in which a node counts answers to lock, get and put requests.
abbrev pub counts_locks : Mode → Bool
counts_locks m = same_mode m coordinating_read || same_mode m assembling_quorum

abbrev pub counts_gets : Mode → Bool
counts_gets m =
    same_mode m coordinating_read
    || (same_mode m coordinating_write || same_mode m coordinating_fast_read)

abbrev pub counts_puts : Mode → Bool
counts_puts m = same_mode m coordinating_write

module _ {S E : Type 0} where
  -- A reply to a message, with the fields that every reply sets.
  abbrev pub reply : Dbnode S E → Message → Messagetype → Message
  reply n msg type = record no_message { id = msg.id; src = n.id; dest = msg.src; demux_key = type }

  -- `handleUnlockAck`
  unfoldable pub handle_unlock_ack : Dbnode S E → Message → Dbnode S E
  unfolding acknowledge
  handle_unlock_ack n msg = acknowledge n msg

  -- A node that waits for answers about the message's transaction, in one of the modes.
  abbrev pub awaits : (Mode → Bool) → Dbnode S E → Message → Bool
  awaits in_mode n msg = n.current_txid == msg.id && in_mode n.current_mode

module _ {S E : Type 0} (st : Store S) (perm : ℕ → List ℕ) where
  -- The end of the three handlers of answers: a failure aborts; an answer of another type than the
  -- last one from its node is recorded and counted, and the last one that was missing goes on.
  unfoldable pub count_answer : Dbnode S E → Message → Outcome (Dbnode S E)
  unfolding set_member
  count_answer n msg =
      if not msg.ok
      then abort_processing st n
      else if not (same_type (member n msg.src).demux_key msg.demux_key)
      then (do
        n1 ← set_member n msg.src msg
        let n2 : Dbnode S E = record n1 { num_waiting_nodes = decrement n1.num_waiting_nodes }
        if n2.num_waiting_nodes == 0 then continue_processing st perm n2 else ok n2)
      else ok n

  -- `handleLockRes`: a lock that is granted too late is given back.
  unfoldable pub handle_lock_res : Dbnode S E → Message → Outcome (Dbnode S E)
  unfolding count_answer acknowledge
  handle_lock_res n msg =
      let n1 = acknowledge n msg in
      if awaits counts_locks n1 msg
      then count_answer n1 msg
      else if msg.ok
      then request n1 (record (reply n1 msg node_unlock_request) { ok = false }) true
      else ok n1

  -- `handleGetRes`
  unfoldable pub handle_get_res : Dbnode S E → Message → Outcome (Dbnode S E)
  unfolding count_answer acknowledge
  handle_get_res n msg =
      let n1 = acknowledge n msg in if awaits counts_gets n1 msg then count_answer n1 msg else ok n1

  -- `handlePutRes`
  unfoldable pub handle_put_res : Dbnode S E → Message → Outcome (Dbnode S E)
  unfolding count_answer acknowledge
  handle_put_res n msg =
      let n1 = acknowledge n msg in if awaits counts_puts n1 msg then count_answer n1 msg else ok n1

module _ {S E : Type 0} (st : Store S) where
  unfoldable pub commit_uncommited : Dbnode S E → Message → Dbnode S E
  commit_uncommited n msg =
      if n.current_txid == msg.id && (is_positive n.uncommited_txid && msg.ok)
      then record n {
        store = (st.commit n.store (key_or_nil n.uncommited_key) n.uncommited_txid).0;
        uncommited_key = none;
        uncommited_txid = 0;
      }
      else n

  unfoldable pub release_lock : Dbnode S E → Message → Dbnode S E
  release_lock n msg =
      if n.current_txid == msg.id
      then record n { current_mode = idle; current_txid = minus_one }
      else n

  -- `handleUnlockReq`
  unfoldable pub handle_unlock_req : Dbnode S E → Message → Dbnode S E
  unfolding emit commit_uncommited release_lock
  handle_unlock_req n msg =
      let n1 = release_lock (commit_uncommited n msg) msg in
      emit (record n1 { unlock_txids = insert msg.id true n1.unlock_txids })
        (record (reply n1 msg node_unlock_ack) { ok = true })

  -- Whether the node may read for the message: under its lock, or, as reads are fast, while it
  -- holds no uncommitted write.
  unfoldable pub may_read : Dbnode S E → Message → Bool
  may_read n msg =
      same_mode n.current_mode processing_read && n.current_txid == msg.id
      || fast_reads && elim n.uncommited_key [ none ↦ true | some k ↦ false ]

  -- `handleGetReq`
  unfoldable pub handle_get_req : Dbnode S E → Message → Outcome (Dbnode S E)
  unfolding emit may_read
  handle_get_req n msg =
      let refused : Message = record (reply n msg node_get_response) { key = msg.key } in
      if may_read n msg
      then elim (st.get n.store msg.key) [
        | none ↦ ok (emit n refused)
        | some stored ↦ do
          (timestamp, val) ← decode_timestamp_val stored
          ok (emit n (record refused { value = val; timestamp = timestamp; ok = true }))
      ]
      else ok (emit n refused)

  -- `handlePutReq`, for a key that is not nil.
  unfoldable pub handle_put_req : Dbnode S E → Message → Dbnode S E
  unfolding emit
  handle_put_req n msg =
      let answer : Message = record (reply n msg node_put_response) {
        key = msg.key;
        value = msg.value;
        timestamp = msg.timestamp;
      } in
      if same_mode n.current_mode processing_write && n.current_txid == msg.id
      then (let (store', txid) =
            st.put n.store msg.key (encode_timestamp_val msg.timestamp msg.value) in
          let n1 : Dbnode S E = record n { store = store'; uncommited_txid = txid } in
          if is_positive txid
          then emit (record n1 { uncommited_key = some msg.key }) (record answer { ok = true })
          else emit n1 answer)
      else emit n answer

  -- `n.Store.Get` with its error ignored: a failed read has no value.
  abbrev pub get_or_nil : Dbnode S E → Bytes → Bytes
  get_or_nil n key = elim (st.get n.store key) [ none ↦ [] | some v ↦ v ]

  -- `handleTimestampReq`
  unfoldable pub handle_timestamp_req : Dbnode S E → Message → Outcome (Dbnode S E)
  unfolding emit
  handle_timestamp_req n msg =
      let answer : Message = record (reply n msg node_get_response) { key = msg.key; ok = true } in
      if same_mode n.current_mode processing_write && n.current_txid == msg.id
      then (do
        (timestamp, _) ← decode_timestamp_val (get_or_nil n msg.key)
        ok (emit n (record answer { timestamp = timestamp })))
      else ok (emit n answer)
