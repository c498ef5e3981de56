-- ===== src/Dbnode/Requests.antt =====
-- dbnode/dbnode.go: the requests that wait for a lock, and the next one to start. The queue holds
-- pointers to the variable `msg` of the round of the main loop in which a request came in; when a
-- request starts, that variable of the current round is overwritten by it.
use part_ii_project.Base.{
  ◌==◌, if◌then◌else◌, lookup, int_ltb, ◌>>=◌, Outcome, log_fatal, ok, fault, ℕ, ◌+◌, ◌-◌, ◌%◌, ◌^◌,
  Bool, true, false, ◌&&◌, not, none, some, List, [], ◌∷◌, ◌++◌, nat_key,
}
use part_ii_project.Datastore.{Store}
use part_ii_project.Packet.{
  Message, no_message, Messagetype, client_read_request, client_write_request,
  client_strong_write_request, node_lock_request, node_lock_request_no_timeout, node_lock_response,
}
use part_ii_project.Dbnode.RequestQueue.{enqueue, dequeue, is_empty}
use part_ii_project.Dbnode.State.{
  Dbnode, emit, same_mode, fast_reads, idle, assembling_quorum, coordinating_read, processing_read,
  processing_write, coordinating_fast_read,
}
use part_ii_project.Dbnode.Process.{continue_processing}

-- *p = msg
abbrev pub write_cell : (ℕ → Message) → ℕ → Message → ℕ → Message
write_cell memory p msg q = if p == q then msg else memory q

-- The highest id of `unlockTxids`, at least `threshold`.
highest_txid : List (ℕ × Bool) → ℕ → ℕ
highest_txid [] threshold = threshold
highest_txid ((id, b) ∷ ids) threshold =
    highest_txid ids (if int_ltb threshold id then id else threshold)

drop_below : ℕ → List (ℕ × Bool) → List (ℕ × Bool)
drop_below threshold [] = []
drop_below threshold ((id, b) ∷ ids) =
    if int_ltb id threshold then drop_below threshold ids else (id, b) ∷ drop_below threshold ids

module _ {S E : Type 0} where
  -- The variable `msg` of one round of the loop, which may be pointed to: a new cell.
  unfoldable pub allocate : Dbnode S E → Message → Dbnode S E
  allocate n msg = record n {
    memory = write_cell n.memory n.next_cell msg;
    next_cell = n.next_cell + 1;
  }

  -- `cleanUnlockTxids`
  unfoldable pub clean_unlock_txids : Dbnode S E → Dbnode S E
  unfolding highest_txid drop_below
  clean_unlock_txids n = record n {
    unlock_txids =
        drop_below ((highest_txid n.unlock_txids 0 + 2 ^ 64 - 50) % 2 ^ 64) n.unlock_txids;
  }

  -- n.unlockTxids[id]
  abbrev pub is_unlocked : Dbnode S E → ℕ → Bool
  is_unlocked n id = elim (lookup id n.unlock_txids) [ none ↦ false | some b ↦ b ]

  -- A lock that is granted to the sender of the request.
  abbrev pub lock_granted : Dbnode S E → Message → Message
  lock_granted n msg = record no_message {
    id = msg.id;
    src = n.id;
    dest = msg.src;
    demux_key = node_lock_response;
    ok = true;
  }

  -- The new request in the queue, and its timeout.
  unfoldable pub queue_request : ℕ → Dbnode S E → Dbnode S E
  queue_request p n = record n {
    lock_requests = enqueue n.lock_requests p;
    sleeping = n.sleeping ++ p ∷ [];
  }

module _ {S E : Type 0} (st : Store S) (perm : ℕ → List ℕ) where
  -- The `switch` that starts a request in its mode.
  unfoldable pub start_request : Messagetype → Message → Dbnode S E → Outcome (Dbnode S E)
  unfolding emit
  start_request client_read_request msg n =
      continue_processing st perm (record n {
        current_mode = if fast_reads then coordinating_fast_read else coordinating_read;
      })
  start_request client_write_request msg n =
      continue_processing st perm (record n { current_mode = assembling_quorum })
  start_request client_strong_write_request msg n =
      continue_processing st perm (record n { current_mode = assembling_quorum })
  start_request node_lock_request msg n =
      ok (emit (record n { current_mode = processing_read }) (lock_granted n msg))
  start_request node_lock_request_no_timeout msg n =
      ok (emit (record n { current_mode = processing_write }) (lock_granted n msg))
  start_request _ msg n = fault log_fatal

  -- The request that `p` points to goes into the cell `current`, and starts unless its transaction
  -- has been unlocked before.
  unfoldable pub start_at : ℕ → ℕ → Dbnode S E → Outcome (Dbnode S E)
  unfolding start_request
  start_at current p n =
      let msg = n.memory p in
      let n1 : Dbnode S E = record n { memory = write_cell n.memory current msg } in
      if is_unlocked n1 msg.id
      then ok n1
      else start_request msg.demux_key msg
          (record n1 { current_txid = msg.id; client_request = msg })

  -- The end of a round: an idle node takes the oldest request.
  unfoldable pub take_request : ℕ → Dbnode S E → Outcome (Dbnode S E)
  unfolding start_at
  take_request current n =
      if same_mode n.current_mode idle && not (is_empty n.lock_requests)
      then (do
        (p, rest) ← dequeue n.lock_requests
        start_at current p (record n { lock_requests = rest }))
      else ok n
