-- ===== src/Dbnode/Invariant/Rounds.antt =====
-- The invariant through the steps of a transaction, the handlers, and each round of the main loop.
mod Writing
mod Reading
mod Handling
mod Serving
use part_ii_project.Base.{
  ◌==◌, if_holds, if-Safe, >>=-Safe, log_fatal-Safe, out_of_range-Safe, Safe, returns, ℕ, ◌≤◌, ◌≡◌,
  refl, Bool, true, false, ◌&&◌, ◌||◌, not, List, [], ◌∷◌,
}
use part_ii_project.Datastore.{Store}
use part_ii_project.Elector.{Elector}
use part_ii_project.Packet.{
  Message, Messagetype, same_type, client_read_request, client_write_request,
  client_strong_write_request, node_lock_request, node_lock_request_no_timeout, node_lock_response,
  node_unlock_request, node_unlock_ack, node_get_request, node_get_response, node_put_request,
  node_put_response, node_timestamp_request, node_background_write_request,
  node_background_write_response, internal_timer_signal, election_elect, election_coordinator,
  election_ack, control_fail, control_recover,
}
use part_ii_project.Repeater.{fail, recover}
use part_ii_project.Dbnode.State.{
  Dbnode, same_mode, idle, assembling_quorum, coordinating_write, coordinating_fast_read,
}
use part_ii_project.Dbnode.Startup.{fail_node, recover_node}
use part_ii_project.Dbnode.RequestQueue.{dequeue, is_empty, remove}
use part_ii_project.Dbnode.Requests.{
  start_request, start_at, take_request, allocate, queue_request, write_cell, is_unlocked,
  clean_unlock_txids,
}
use part_ii_project.Dbnode.Loop.{
  times_out, tick, client_write, client_read, election, dispatch, handle_message, on_incoming,
  is_client_request, on_timed_out,
}
use part_ii_project.Dbnode.Invariant.{IsWf, IsReady, IsReady-of-IsWf}
use part_ii_project.Dbnode.Invariant.Steps.{abort_processing-Safe, abort_processing-num, Bounded}
use Reading.{continue_processing-Safe}
use Handling.{
  handle_unlock_ack-IsWf, handle_lock_res-Safe, handle_get_res-Safe, handle_put_res-Safe,
}
use Serving.{
  handle_unlock_req-IsWf, handle_get_req-Safe, handle_put_req-IsWf, handle_timestamp_req-Safe,
  handle_background_write_req-Safe, handle_background_write_res-Safe, process_local_read-Safe,
  process_local_write-Safe,
}

-- The answers that a coordinator enters under their sender.
abbrev pub is_answer : Messagetype → Bool
is_answer node_lock_response = true
is_answer node_get_response = true
is_answer node_put_response = true
is_answer _ = false

module _ {S E : Type 0} (st : Store S) (perm : ℕ → List ℕ) where
  start_request-Safe :
      (t : Messagetype) (m : Message) (n : Dbnode S E)
      → Bounded perm
      → IsReady n
      → Safe IsWf (start_request st perm t m n)
  unfolding start_request
  start_request-Safe client_read_request m n a w =
      continue_processing-Safe st perm (record n { current_mode = coordinating_fast_read }) a w
        (λ e. cc)
  start_request-Safe client_write_request m n a w =
      continue_processing-Safe st perm (record n { current_mode = assembling_quorum }) a w (λ e. cc)
  start_request-Safe client_strong_write_request m n a w =
      continue_processing-Safe st perm (record n { current_mode = assembling_quorum }) a w (λ e. cc)
  start_request-Safe node_lock_request m n a w =
      returns (record { self = w.self; rows = w.rows; nodes = w.nodes; members = λ e. cc })
  start_request-Safe node_lock_request_no_timeout m n a w =
      returns (record { self = w.self; rows = w.rows; nodes = w.nodes; members = λ e. cc })
  start_request-Safe _ m n a w = log_fatal-Safe

  take_request-Safe :
      (current : ℕ) (n : Dbnode S E)
      → Bounded perm
      → IsWf n
      → Safe IsWf (take_request st perm current n)
  unfolding take_request start_at dequeue
  take_request-Safe current n a w =
      if-Safe (same_mode n.current_mode idle && not (is_empty n.lock_requests))
        (λ _. >>=-Safe {Q = λ r. Unit {0}} (dequeue-Safe n.lock_requests) λ r _ _.
          if-Safe (is_unlocked n (n.memory r.0).id) (λ _. returns w)
            (λ _.
              start_request-Safe (n.memory r.0).demux_key (n.memory r.0)
                (record n {
                  memory = write_cell n.memory current (n.memory r.0);
                  lock_requests = r.1;
                  current_txid = (n.memory r.0).id;
                  client_request = n.memory r.0;
                })
                a (IsReady-of-IsWf n w)))
        (λ _. returns w)
    where
      dequeue-Safe : (q : List ℕ) → Safe (λ r. Unit {0}) (dequeue q)
      dequeue-Safe [] = out_of_range-Safe
      dequeue-Safe (x ∷ q) = returns tt

module _ {S E : Type 0} (st : Store S) (el : Elector E) (perm next_perm : ℕ → List ℕ) where
  tick-Safe :
      (m : Message) (n : Dbnode S E)
      → IsWf n
      → Safe (λ b. IsWf b × (b.num_peers ≡ n.num_peers)) (tick st m n)
  unfolding tick
  tick-Safe m n w =
      if-Safe (same_type m.demux_key internal_timer_signal)
        (λ _.
          >>=-Safe
            (if-Safe (m.id == n.timeout_counter && times_out n.current_mode)
              (λ _. abort_processing-num st n w) (λ _. returns (w, refl)))
            λ b _ w1. returns w1)
        (λ _. returns (w, refl))

  fail_node-IsWf : (n : Dbnode S E) → IsWf n → IsWf (fail_node el n)
  unfolding fail_node fail
  fail_node-IsWf n w =
      if_holds IsWf
        (not (same_mode n.current_mode coordinating_write)
          && not (same_mode n.current_mode assembling_quorum))
        (record { self = w.self; rows = w.rows; nodes = tt; members = λ e. cc }) w

  client_write-Safe :
      (p : ℕ) (m : Message) (n : Dbnode S E) → IsWf n → Safe IsWf (client_write st el perm p m n)
  unfolding client_write queue_request
  client_write-Safe p m n w =
      if-Safe (n.write_quorum_size == 1) (λ _. process_local_write-Safe st n m w)
        λ _. if-Safe ((el.leader n.elector).1 == n.id) (λ _. returns w) (λ _. returns w)

  client_read-Safe :
      (p : ℕ) (m : Message) (n : Dbnode S E) → IsWf n → Safe IsWf (client_read st el perm p m n)
  unfolding client_read queue_request
  client_read-Safe p m n w =
      if-Safe (n.read_quorum_size == 1) (λ _. process_local_read-Safe st n m w) (λ _. returns w)

  dispatch-Safe :
      (t : Messagetype) (p : ℕ) (m : Message) (n : Dbnode S E)
      → Bounded perm
      → (is_answer t ≡ true → m.src ≤ n.num_peers)
      → IsWf n
      → Safe IsWf (dispatch st el perm t p m n)
  unfolding dispatch queue_request election
  dispatch-Safe client_write_request p m n a le w = client_write-Safe p m n w
  dispatch-Safe client_strong_write_request p m n a le w = client_write-Safe p m n w
  dispatch-Safe client_read_request p m n a le w = client_read-Safe p m n w
  dispatch-Safe node_lock_request p m n a le w = returns w
  dispatch-Safe node_lock_request_no_timeout p m n a le w = returns w
  dispatch-Safe node_lock_response p m n a le w = handle_lock_res-Safe st perm n m a (le refl) w
  dispatch-Safe node_unlock_request p m n a le w = returns (handle_unlock_req-IsWf st n m w)
  dispatch-Safe node_unlock_ack p m n a le w = returns (handle_unlock_ack-IsWf st perm n m w)
  dispatch-Safe node_get_request p m n a le w = handle_get_req-Safe st n m w
  dispatch-Safe node_get_response p m n a le w = handle_get_res-Safe st perm n m a (le refl) w
  dispatch-Safe node_put_request p m n a le w = returns (handle_put_req-IsWf st n m w)
  dispatch-Safe node_put_response p m n a le w = handle_put_res-Safe st perm n m a (le refl) w
  dispatch-Safe node_timestamp_request p m n a le w = handle_timestamp_req-Safe st n m w
  dispatch-Safe node_background_write_request p m n a le w =
      handle_background_write_req-Safe st n m w
  dispatch-Safe node_background_write_response p m n a le w =
      handle_background_write_res-Safe st n m w
  dispatch-Safe internal_timer_signal p m n a le w = returns w
  dispatch-Safe election_elect p m n a le w = returns w
  dispatch-Safe election_coordinator p m n a le w = returns w
  dispatch-Safe election_ack p m n a le w = returns w
  dispatch-Safe _ p m n a le w = log_fatal-Safe

  handle_message-Safe :
      (p : ℕ) (m : Message) (n : Dbnode S E)
      → Bounded perm
      → (is_answer m.demux_key ≡ true → m.src ≤ n.num_peers)
      → IsWf n
      → Safe IsWf (handle_message st el perm p m n)
  unfolding handle_message clean_unlock_txids
  handle_message-Safe p m n a le w = >>=-Safe (tick-Safe m n w) λ b _ h.
      dispatch-Safe m.demux_key p m _ a
        (λ e.
          if_holds (λ (c : Dbnode S E). m.src ≤ c.num_peers) cleans (rw h.1 (le e)) (rw h.1 (le e)))
        (if_holds IsWf cleans h.0 h.0)
    where
      cleans : Bool
      cleans = same_type m.demux_key election_elect

  -- A round of the main loop, in which an answer to a coordinator comes from a node of the system,
  -- keeps the invariant and never writes to a nil map: it ends with the invariant, or stops with
  -- another fault.
  pub on_incoming-Safe :
      (m : Message) (n : Dbnode S E)
      → Bounded perm
      → Bounded next_perm
      → (is_answer m.demux_key ≡ true → m.src ≤ n.num_peers)
      → IsWf n
      → Safe IsWf (on_incoming st el perm next_perm m n)
  unfolding on_incoming recover_node recover allocate
  on_incoming-Safe m n a a' le w =
      if-Safe (n.disabled || same_type m.demux_key control_recover)
        (λ _. returns (if_holds IsWf (n.disabled && same_type m.demux_key control_recover) w w))
        λ _.
          if-Safe (same_type m.demux_key control_fail) (λ _. returns (fail_node-IsWf n w))
            λ _.
              if-Safe (not (m.dest == n.id)) (λ _. log_fatal-Safe)
                λ _.
                  >>=-Safe (handle_message-Safe n.next_cell m (allocate n m) a le w)
                    λ b _ w1. take_request-Safe st next_perm n.next_cell b a' w1

module _ {S E : Type 0} (st : Store S) where
  -- The end of a request's time in the queue keeps the invariant and never writes to a nil map: it
  -- ends with the invariant, or stops with another fault.
  pub on_timed_out-Safe : (p : ℕ) (n : Dbnode S E) → IsWf n → Safe IsWf (on_timed_out st p n)
  unfolding on_timed_out
  on_timed_out-Safe p n w =
      if-Safe n.disabled (λ _. returns w)
        λ _.
          if-Safe (remove n.lock_requests p).1 (λ _. returns w)
            λ _.
              if-Safe
                ((n.memory p).id == n.current_txid && is_client_request (n.memory p).demux_key)
                (λ _. abort_processing-Safe st n w) (λ _. returns w)
