-- ===== src/Dbnode/Loop/Overwriting.antt =====
-- dbnode/dbnode.go: the end of a round of `handleRequests`, where the oldest request of the queue is
-- read into the variable of the message that came in.
use part_ii_project.Base.{
  increment, ok, ℕ, ◌+◌, ◌≡◌, refl, ◌≢◌, true, false, List, [], ◌∷◌, ◌++◌, arith,
}
use part_ii_project.Datastore.{Store}
use part_ii_project.Elector.{Elector}
use part_ii_project.Packet.{
  Message, no_message, node_lock_response, same_type, iota, node_lock_request_no_timeout,
}
use part_ii_project.Dbnode.RequestQueue.{Queue, enqueue, dequeue, is_empty, contains}
use part_ii_project.Dbnode.State.{emit, Dbnode, idle, processing_write}
use part_ii_project.Dbnode.Requests.{
  lock_granted, take_request, start_at, start_request, is_unlocked, allocate, queue_request,
  write_cell,
}
use part_ii_project.Dbnode.Loop.{on_incoming, handle_message, dispatch, tick}

-- An idle, working node whose queue starts with a request for a write lock, which it may grant.
pub record IsBehind {S E : Type 0} (p : ℕ) (rest : Queue) (n : Dbnode S E) : Type 0 where
  pub mode : n.current_mode ≡ idle
  pub enabled : n.disabled ≡ false
  pub queue : n.lock_requests ≡ p ∷ rest
  pub type_eq : (n.memory p).demux_key ≡ node_lock_request_no_timeout
  pub wanted : is_unlocked n (n.memory p).id ≡ false
  pub old : p ≢ n.next_cell
  pub fresh : contains rest n.next_cell ≡ false

module _ {S E : Type 0} (st : Store S) (el : Elector E) (perm next_perm : ℕ → List ℕ) where
  -- The node after it has queued the message, and before it looks at the queue.
  queued : Message → Dbnode S E → ℕ → Queue → Dbnode S E
  queued m n p rest = record n {
    memory = write_cell n.memory n.next_cell m;
    next_cell = n.next_cell + 1;
    timeout_counter = increment n.timeout_counter;
    lock_requests = p ∷ rest ++ n.next_cell ∷ [];
    sleeping = n.sleeping ++ n.next_cell ∷ [];
  }

  -- The node after the round.
  granted : Message → Dbnode S E → ℕ → Queue → Dbnode S E
  granted m n p rest =
      emit
        (record (queued m n p rest) {
          lock_requests = rest ++ n.next_cell ∷ [];
          memory = write_cell (write_cell n.memory n.next_cell m) n.next_cell (n.memory p);
          current_txid = (n.memory p).id;
          client_request = n.memory p;
          current_mode = processing_write;
        })
        (lock_granted n (n.memory p))

  handle_message-queued :
      (m : Message) (n : Dbnode S E) (p : ℕ) (rest : Queue)
      → m.demux_key ≡ node_lock_request_no_timeout
      → IsBehind p rest n
      → handle_message st el perm n.next_cell m (allocate n m) ≡ ok (queued m n p rest)
  unfolding queued handle_message tick dispatch queue_request allocate enqueue contains same_type
      iota
  handle_message-queued m n p rest type_eq w = ground (arith, type_eq, w.queue, w.old, w.fresh)

  take_request-granted :
      (m : Message) (n : Dbnode S E) (p : ℕ) (rest : Queue)
      → IsBehind p rest n
      → take_request st next_perm n.next_cell (queued m n p rest) ≡ ok (granted m n p rest)
  unfolding queued granted take_request start_at start_request dequeue is_empty emit
  take_request-granted m n p rest w = ground (arith, w.mode, w.old, w.wanted, w.type_eq)

  -- If an idle, working node whose queue starts with a request for a write lock, which it may grant,
  -- gets another request for a write lock, it grants the lock to the transaction of the older request,
  -- with the one answer that it sends, and the pointer to the new request, now in the queue, leads to a
  -- copy of the older one.
  pub on_incoming_overwrites :
      (m : Message) (n : Dbnode S E) (p : ℕ) (rest : Queue)
      → m.demux_key ≡ node_lock_request_no_timeout
      → m.dest ≡ n.id
      → IsBehind p rest n
      → (b : Dbnode S E) × (on_incoming st el perm next_perm m n ≡ ok b)
        × (b.current_mode ≡ processing_write)
        × (b.current_txid ≡ (n.memory p).id)
        × (b.outgoing
            ≡ n.outgoing
              ++ record no_message {
                id = (n.memory p).id;
                src = n.id;
                dest = (n.memory p).src;
                demux_key = node_lock_response;
                ok = true;
              }
                ∷ [])
        × (b.lock_requests ≡ rest ++ n.next_cell ∷ [])
        × (b.memory n.next_cell ≡ n.memory p)
  unfolding on_incoming queued granted same_type iota emit
  on_incoming_overwrites m n p rest type_eq here w = (
    granted m n p rest,
    ground (
      arith,
      w.enabled,
      type_eq,
      here,
      handle_message-queued m n p rest type_eq w,
      take_request-granted m n p rest w,
    ),
    refl,
    refl,
    refl,
    refl,
    ground arith,
  )
