-- ===== src/Dbnode/Invariant/Rounds/Serving.antt =====
-- The handlers of requests, which change no member and no row, keep the invariant.
use part_ii_project.Base.{
  ltb, leb, ◌==◌, if_holds, lookup, increment, is_positive, if-Safe, option-Safe, >>=-Safe,
  log_fatal-Safe, nil_dereference-Safe, Safe, returns, Bytes, bytes_equal, ℕ, ◌&&◌, not, Option,
  none, some, nat_key,
}
use part_ii_project.Datastore.{Store}
use part_ii_project.Packet.{
  Message, same_type, client_strong_write_request, node_background_write_response,
}
use part_ii_project.Dbnode.State.{Dbnode, same_mode, processing_write}
use part_ii_project.Dbnode.Local.{process_local_read, process_local_write, is_busy}
use part_ii_project.Dbnode.Handlers.{
  handle_unlock_req, handle_get_req, handle_put_req, handle_timestamp_req, may_read,
  commit_uncommited, release_lock, get_or_nil,
}
use part_ii_project.Dbnode.Background.{
  handle_background_write_req, handle_background_write_res, store_newer, store_refusal,
  daemon_response,
}
use part_ii_project.Dbnode.Invariant.{IsWf}
use part_ii_project.Dbnode.Coordinator.{encode_timestamp_val}
use part_ii_project.Dbnode.Propagater.{Propagater, response, respond, has_node, Transaction}
use part_ii_project.Dbnode.Invariant.Rounds.Writing.{decode-Safe}

response-Safe : (p : Propagater) (m : Message) → Safe (λ q. Unit {0}) (response p m)
unfolding response
response-Safe p m =
    if-Safe (not (same_type m.demux_key node_background_write_response)) (λ _. log_fatal-Safe)
      λ _. respond-Safe (lookup m.id p.transactions)
  where
    respond-Safe : (t : Option Transaction) → Safe (λ q. Unit {0}) (respond p m t)
    respond-Safe none = returns tt
    respond-Safe (some t) =
        if-Safe m.ok
          (λ _. if-Safe (not (has_node t.nodes m.src)) (λ _. returns tt) (λ _. returns tt))
          λ _. if-Safe (leb m.timestamp t.timestamp) (λ _. log_fatal-Safe) (λ _. returns tt)

module _ {S E : Type 0} (st : Store S) where
  release_lock-IsWf : (n : Dbnode S E) (m : Message) → IsWf n → IsWf (release_lock st n m)
  unfolding release_lock
  release_lock-IsWf n m w =
      if_holds IsWf (n.current_txid == m.id)
        (record { self = w.self; rows = w.rows; nodes = w.nodes; members = λ e. cc }) w

  commit_uncommited-IsWf : (n : Dbnode S E) (m : Message) → IsWf n → IsWf (commit_uncommited st n m)
  unfolding commit_uncommited
  commit_uncommited-IsWf n m w =
      if_holds IsWf (n.current_txid == m.id && (is_positive n.uncommited_txid && m.ok)) w w

  pub handle_unlock_req-IsWf :
      (n : Dbnode S E) (m : Message) → IsWf n → IsWf (handle_unlock_req st n m)
  unfolding handle_unlock_req
  handle_unlock_req-IsWf n m w =
      release_lock-IsWf (commit_uncommited st n m) m (commit_uncommited-IsWf n m w)

  pub handle_get_req-Safe :
      (n : Dbnode S E) (m : Message) → IsWf n → Safe IsWf (handle_get_req st n m)
  unfolding handle_get_req
  handle_get_req-Safe n m w =
      if-Safe (may_read st n m)
        (λ _.
          option-Safe (st.get n.store m.key) (λ _. returns w)
            λ v _. >>=-Safe (decode-Safe v) (λ r _ _. returns w))
        (λ _. returns w)

  pub handle_put_req-IsWf : (n : Dbnode S E) (m : Message) → IsWf n → IsWf (handle_put_req st n m)
  unfolding handle_put_req
  handle_put_req-IsWf n m w =
      if_holds IsWf (same_mode n.current_mode processing_write && n.current_txid == m.id)
        (if_holds IsWf
          (is_positive (st.put n.store m.key (encode_timestamp_val m.timestamp m.value)).1) w w)
        w

  pub handle_timestamp_req-Safe :
      (n : Dbnode S E) (m : Message) → IsWf n → Safe IsWf (handle_timestamp_req st n m)
  unfolding handle_timestamp_req
  handle_timestamp_req-Safe n m w =
      if-Safe (same_mode n.current_mode processing_write && n.current_txid == m.id)
        (λ _. >>=-Safe (decode-Safe (get_or_nil st n m.key)) (λ r _ _. returns w)) (λ _. returns w)

  store_newer-Safe :
      (n : Dbnode S E) (m : Message) (t : ℕ) (v : Bytes)
      → IsWf n
      → Safe IsWf (store_newer st n m t v)
  unfolding store_newer
  store_newer-Safe n m t v w =
      if-Safe (m.timestamp == t && not (bytes_equal v m.value)) (λ _. log_fatal-Safe)
        (λ _. returns (if_holds IsWf (ltb t m.timestamp) w w))

  pub handle_background_write_req-Safe :
      (n : Dbnode S E) (m : Message) → IsWf n → Safe IsWf (handle_background_write_req st n m)
  unfolding handle_background_write_req
  handle_background_write_req-Safe n m w =
      >>=-Safe (decode-Safe (get_or_nil st n m.key))
        λ r _ _. >>=-Safe (store_newer-Safe n m r.0 r.1 w) λ b _ w1. returns w1

  daemon_response-Safe :
      (n : Dbnode S E) (m : Message) → IsWf n → Safe IsWf (daemon_response st n m)
  unfolding daemon_response
  daemon_response-Safe n m w =
      option-Safe n.background_write_daemon (λ _. nil_dereference-Safe)
        λ p _. >>=-Safe {Q = λ p. Unit {0}} (response-Safe p m) (λ p' _ _. returns w)

  pub handle_background_write_res-Safe :
      (n : Dbnode S E) (m : Message) → IsWf n → Safe IsWf (handle_background_write_res st n m)
  unfolding handle_background_write_res store_refusal
  handle_background_write_res-Safe n m w = >>=-Safe (daemon_response-Safe n m w) λ b _ w1.
      if-Safe (not m.ok)
        (λ _.
          >>=-Safe (decode-Safe (get_or_nil st b m.key)) λ r _ _. store_newer-Safe b m r.0 r.1 w1)
        (λ _. returns w1)

  pub process_local_read-Safe :
      (n : Dbnode S E) (m : Message) → IsWf n → Safe IsWf (process_local_read st n m)
  unfolding process_local_read
  process_local_read-Safe n m w =
      if-Safe (is_busy n) (λ _. returns w)
        λ _.
          option-Safe (st.get n.store m.key) (λ _. returns w)
            λ v _. >>=-Safe (decode-Safe v) (λ r _ _. returns w)

  pub process_local_write-Safe :
      (n : Dbnode S E) (m : Message) → IsWf n → Safe IsWf (process_local_write st n m)
  unfolding process_local_write
  process_local_write-Safe n m w =
      if-Safe (is_busy n) (λ _. returns w)
        λ _.
          option-Safe (st.get n.store m.key) (λ _. returns w)
            λ v _. >>=-Safe (decode-Safe v) λ r _ _.
              if-Safe
                (not (increment r.0 == m.timestamp)
                  && same_type m.demux_key client_strong_write_request)
                (λ _. returns w) (λ _. returns w)
