-- ===== src/Dbnode/Background.antt =====
-- dbnode/dbnode.go: the handlers of background writes.
pub mod Convergence
use part_ii_project.Base.{
  ltb, leb, ◌==◌, if◌then◌else◌, Bytes, bytes_equal, ◌>>=◌, Outcome, log_fatal, nil_dereference, ok,
  fault, ℕ, Bool, true, false, ◌&&◌, not, none, some,
}
use part_ii_project.Datastore.{Store}
use part_ii_project.Packet.{Message, node_background_write_response}
use part_ii_project.Dbnode.Coordinator.{decode_timestamp_val, encode_timestamp_val}
use part_ii_project.Dbnode.Propagater
use part_ii_project.Dbnode.State.{Dbnode, emit}
use part_ii_project.Dbnode.Handlers.{reply, get_or_nil}

module _ {S E : Type 0} (st : Store S) where
  -- Put and commit a value under its own timestamp.
  abbrev pub store_value : Dbnode S E → Message → Dbnode S E
  store_value n msg =
      let (s1, txid) = st.put n.store msg.key (encode_timestamp_val msg.timestamp msg.value) in
      record n { store = (st.commit s1 msg.key txid).0 }

  -- Two values with one timestamp are fatal; a newer value is stored.
  unfoldable pub store_newer : Dbnode S E → Message → ℕ → Bytes → Outcome (Dbnode S E)
  store_newer n msg current_timestamp current_val =
      if msg.timestamp == current_timestamp && not (bytes_equal current_val msg.value)
      then fault log_fatal
      else ok (if ltb current_timestamp msg.timestamp then store_value n msg else n)

  abbrev pub background_answer : Dbnode S E → Message → Bytes → ℕ → Bool → Message
  background_answer n msg value timestamp success =
      record (reply n msg node_background_write_response) {
        key = msg.key;
        value = value;
        timestamp = timestamp;
        ok = success;
      }

  -- `handleBackgroundWriteReq`
  unfoldable pub handle_background_write_req : Dbnode S E → Message → Outcome (Dbnode S E)
  unfolding emit store_newer
  handle_background_write_req n msg = do
    (current_timestamp, current_val) ← decode_timestamp_val (get_or_nil st n msg.key)
    n1 ← store_newer n msg current_timestamp current_val
    ok (
        emit n1 (
          if leb current_timestamp msg.timestamp
          then background_answer n1 msg msg.value msg.timestamp true
          else background_answer n1 msg current_val current_timestamp false))

  -- n.backgroundWriteDaemon.response(msg), on a daemon that may be missing.
  unfoldable pub daemon_response : Dbnode S E → Message → Outcome (Dbnode S E)
  daemon_response n msg = elim n.background_write_daemon [
    | none ↦ fault nil_dereference
    | some p ↦ do
      p' ← Propagater.response p msg
      ok (record n { background_write_daemon = some p' })
  ]

  -- A refusal carries a newer value, which is stored.
  unfoldable pub store_refusal : Dbnode S E → Message → Outcome (Dbnode S E)
  unfolding store_newer
  store_refusal n msg = do
    (current_timestamp, current_val) ← decode_timestamp_val (get_or_nil st n msg.key)
    store_newer n msg current_timestamp current_val

  -- `handleBackgroundWriteRes`
  unfoldable pub handle_background_write_res : Dbnode S E → Message → Outcome (Dbnode S E)
  unfolding daemon_response store_refusal
  handle_background_write_res n msg = do
    n1 ← daemon_response n msg
    if not msg.ok then store_refusal n1 msg else ok n1
