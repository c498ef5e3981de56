-- ===== src/Dbnode/Loop.antt =====
-- dbnode/dbnode.go: the main loop `handleRequests`, one case of its `select` at a time.
pub mod Locks
pub mod Retention
pub mod Overwriting
use part_ii_project.Base.{
  ◌==◌, if◌then◌else◌, increment, decrement, ◌>>=◌, Outcome, log_fatal, ok, fault, ℕ, Bool, true,
  false, ◌&&◌, ◌||◌, not, List, [], ◌∷◌, ◌++◌,
}
use part_ii_project.Datastore.{Store}
use part_ii_project.Dbnode.RequestQueue.{remove}
use part_ii_project.Dbnode.Abort.{abort_processing}
use part_ii_project.Dbnode.Local.{process_local_read, process_local_write}
use part_ii_project.Dbnode.Handlers.{
  handle_lock_res, handle_unlock_req, handle_unlock_ack, handle_get_req, handle_get_res,
  handle_put_req, handle_put_res, handle_timestamp_req,
}
use part_ii_project.Dbnode.Background.{handle_background_write_req, handle_background_write_res}
use part_ii_project.Elector.{Elector}
use part_ii_project.Packet.{
  Message, no_message, node_lock_response, control_fail, control_recover, same_type, Messagetype,
  client_read_request, client_write_request, client_strong_write_request, client_read_response,
  client_write_response, node_lock_request, node_lock_request_no_timeout, node_unlock_request,
  node_unlock_ack, node_get_request, node_get_response, node_put_request, node_put_response,
  node_timestamp_request, node_background_write_request, node_background_write_response,
  internal_timer_signal, election_elect, election_coordinator, election_ack,
}
use part_ii_project.Dbnode.State.{
  Dbnode, Mode, assembling_quorum, coordinating_read, coordinating_write, processing_read, emit,
}
use part_ii_project.Dbnode.Startup.{fail_node, recover_node}
use part_ii_project.Dbnode.Requests.{allocate, clean_unlock_txids, queue_request, take_request}

-- The modes that the internal timer aborts.
unfoldable pub times_out : Mode → Bool
times_out coordinating_read = true
times_out coordinating_write = true
times_out assembling_quorum = true
times_out processing_read = true
times_out _ = false

-- The answer to a request that timed out in the queue.
unfoldable pub timeout_type : Messagetype → Messagetype
timeout_type client_read_request = client_read_response
timeout_type client_write_request = client_write_response
timeout_type client_strong_write_request = client_write_response
timeout_type _ = node_lock_response

unfoldable pub is_client_request : Messagetype → Bool
is_client_request client_read_request = true
is_client_request client_write_request = true
is_client_request client_strong_write_request = true
is_client_request _ = false

module _ {S E : Type 0} (st : Store S) where
  -- The internal timer: a timeout that no other message came before aborts a transaction, and the
  -- timer is set again. Other messages count.
  unfoldable pub tick : Message → Dbnode S E → Outcome (Dbnode S E)
  unfolding times_out
  tick msg n =
      if same_type msg.demux_key internal_timer_signal
      then (do
        n1 ←
            if msg.id == n.timeout_counter && times_out n.current_mode
            then abort_processing st n
            else ok n
        ok (record n1 { timers = n1.timers ++ n1.timeout_counter ∷ [] }))
      else ok (record n { timeout_counter = increment n.timeout_counter })

module _ {S E : Type 0} (st : Store S) (el : Elector E) (perm : ℕ → List ℕ) where
  -- A client's write is done locally for a quorum of one, queued by the leader, and forwarded to the
  -- leader by any other node. `p` points to the message.
  unfoldable pub client_write : ℕ → Message → Dbnode S E → Outcome (Dbnode S E)
  client_write p msg n =
      if n.write_quorum_size == 1
      then process_local_write st n msg
      else (let (e, leader) = el.leader n.elector in
          let n1 : Dbnode S E = record n { elector = e } in
          if leader == n.id
          then ok (queue_request p n1)
          else ok (record n1 { elector = el.forward_to_leader e msg }))

  unfoldable pub client_read : ℕ → Message → Dbnode S E → Outcome (Dbnode S E)
  client_read p msg n =
      if n.read_quorum_size == 1 then process_local_read st n msg else ok (queue_request p n)

  -- Messages of an election do not count for the timer.
  unfoldable pub election : Message → Dbnode S E → Dbnode S E
  election msg n = record n {
    timeout_counter = decrement n.timeout_counter;
    elector = el.process_msg n.elector msg;
  }

  -- The `switch` on the type of a message.
  unfoldable pub dispatch : Messagetype → ℕ → Message → Dbnode S E → Outcome (Dbnode S E)
  unfolding client_write client_read election
  dispatch client_write_request p msg n = client_write p msg n
  dispatch client_strong_write_request p msg n = client_write p msg n
  dispatch client_read_request p msg n = client_read p msg n
  dispatch node_lock_request p msg n = ok (queue_request p n)
  dispatch node_lock_request_no_timeout p msg n = ok (queue_request p n)
  dispatch node_lock_response p msg n = handle_lock_res st perm n msg
  dispatch node_unlock_request p msg n = ok (handle_unlock_req st n msg)
  dispatch node_unlock_ack p msg n = ok (handle_unlock_ack n msg)
  dispatch node_get_request p msg n = handle_get_req st n msg
  dispatch node_get_response p msg n = handle_get_res st perm n msg
  dispatch node_put_request p msg n = ok (handle_put_req st n msg)
  dispatch node_put_response p msg n = handle_put_res st perm n msg
  dispatch node_timestamp_request p msg n = handle_timestamp_req st n msg
  dispatch node_background_write_request p msg n = handle_background_write_req st n msg
  dispatch node_background_write_response p msg n = handle_background_write_res st n msg
  dispatch internal_timer_signal p msg n = ok n
  dispatch election_elect p msg n = ok (election msg n)
  dispatch election_coordinator p msg n = ok (election msg n)
  dispatch election_ack p msg n = ok (election msg n)
  dispatch _ p msg n = fault log_fatal

  -- The part of a round of a working node before it looks at the queue. `p` points to the message.
  unfoldable pub handle_message : ℕ → Message → Dbnode S E → Outcome (Dbnode S E)
  unfolding tick dispatch
  handle_message p msg n = do
    n1 ← tick st msg n
    dispatch msg.demux_key p msg
        (if same_type msg.demux_key election_elect then clean_unlock_txids n1 else n1)

-- `perm` is what `rand.Perm` gives while the message is handled, and `next_perm` what it gives for the
-- request that is taken then; either calls it once at most.
module _ {S E : Type 0} (st : Store S) (el : Elector E) (perm next_perm : ℕ → List ℕ) where
  -- `case msg := <-n.Incoming`
  unfoldable pub on_incoming : Message → Dbnode S E → Outcome (Dbnode S E)
  unfolding handle_message
  on_incoming msg n =
      if n.disabled || same_type msg.demux_key control_recover
      then ok
          (if n.disabled && same_type msg.demux_key control_recover then recover_node el n else n)
      else if same_type msg.demux_key control_fail
      then ok (fail_node el n)
      else if not (msg.dest == n.id)
      then fault log_fatal
      else (do
        n1 ← handle_message st el perm n.next_cell msg (allocate n msg)
        take_request st next_perm n.next_cell n1)

module _ {S E : Type 0} (st : Store S) where
  -- `case msg := <-timedOutLockRequests`, for the pointer `p`: a request that still waits is
  -- refused, and a client's request that this node coordinates is aborted.
  unfoldable pub on_timed_out : ℕ → Dbnode S E → Outcome (Dbnode S E)
  unfolding timeout_type is_client_request emit
  on_timed_out p n =
      let msg = n.memory p in
      if n.disabled
      then ok n
      else (let (rest, found) = remove n.lock_requests p in
          if found
          then ok (
              emit (record n { lock_requests = rest })
                (record no_message {
                  id = msg.id;
                  src = n.id;
                  dest = msg.src;
                  demux_key = timeout_type msg.demux_key;
                  key = msg.key;
                  value = msg.value;
                  ok = false;
                }))
          else if msg.id == n.current_txid && is_client_request msg.demux_key
          then abort_processing st n
          else ok n)
