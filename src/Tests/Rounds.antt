-- ===== src/Tests/Rounds.antt =====
-- The rounds of the main loop and what they keep, at concrete nodes and messages.
use part_ii_project.Base.{
  lookup, insert, erase, increment, decrement, is_positive, Safe, bytes_equal, put_uint64, uint64,
  ok, ◌≡◌, refl, true, false, [], ◌∷◌, arith, nat_key,
}
use part_ii_project.Tests.Runs.{
  zero_leads, node0, write_request, value_or, descending, descending-IsPermutation, node_answer,
}
use part_ii_project.Datastore.Memstore.{memstore, Memstore, new_memstore}
use part_ii_project.Repeater.{
  send, ack, response_type, empty_rows, new_repeater, or_nil, is_unacked, mark, unmark,
}
use part_ii_project.Dbnode.Process.{continue_processing}
use part_ii_project.Dbnode.Quorum.{assemble_quorum}
use part_ii_project.Dbnode.Handlers.{handle_lock_res, handle_get_res, handle_put_res}
use part_ii_project.Dbnode.Write.{local_timestamp, latest_timestamp}
use part_ii_project.Dbnode.Coordinator.{encode_timestamp_val, decode_timestamp_val}
use part_ii_project.Datastore.Memstore.Nodes.{trie_insert, child, set_child, trie_get}
use part_ii_project.Dbnode.Invariant.Reachable.{next, incoming, reachable-Safe, here}
use part_ii_project.Packet.{
  node_get_response, node_lock_response, Message, no_message, node_lock_request_no_timeout,
  same_type, iota,
}
use part_ii_project.Dbnode.State.{
  Dbnode, processing_write, emit, request, acknowledge, set_member, request_members,
}
use part_ii_project.Dbnode.Startup.{new_node}
use part_ii_project.Dbnode.RequestQueue.{is_empty, enqueue, contains, dequeue}
use part_ii_project.Dbnode.Requests.{allocate, take_request, queue_request}
use part_ii_project.Dbnode.Loop.{tick, times_out, on_incoming, on_timed_out}
use part_ii_project.Dbnode.Loop.Locks.{HoldsLock, grants}
use part_ii_project.Dbnode.Loop.Overwriting.{on_incoming_overwrites}
use part_ii_project.Dbnode.Loop.Retention.{on_incoming-HoldsLock}
use part_ii_project.Dbnode.Invariant.{IsWf}
use part_ii_project.Dbnode.Invariant.Initial.{new_node-IsWf}
use part_ii_project.Dbnode.Invariant.Rounds.{on_incoming-Safe}

-- A coordinator after its first request, and after the first answer to it.
abbrev coordinator : Dbnode Memstore (Unit {0})
coordinator =
    value_or node0 (on_incoming memstore zero_leads descending descending write_request node0)

abbrev answered_coordinator : Dbnode Memstore (Unit {0})
answered_coordinator = value_or node0 (
    on_incoming memstore zero_leads descending descending (node_answer node_lock_response 0)
      coordinator)

request_round :
    on_incoming memstore zero_leads descending descending write_request node0 ≡ ok coordinator
unfolding on_incoming new_node new_memstore same_type iota allocate take_request queue_request
    is_empty enqueue contains dequeue lookup continue_processing assemble_quorum set_member request
    send response_type mark insert or_nil handle_lock_res handle_get_res handle_put_res ack unmark
    erase decrement increment encode_timestamp_val decode_timestamp_val put_uint64 trie_insert
    trie_get set_child child bytes_equal local_timestamp latest_timestamp request_members
    new_repeater empty_rows acknowledge emit times_out tick uint64 is_positive is_unacked
request_round = refl

answer_round :
    on_incoming memstore zero_leads descending descending
      (node_answer node_lock_response 0)
      coordinator
    ≡ ok answered_coordinator
unfolding on_incoming new_node new_memstore same_type iota allocate take_request queue_request
    is_empty enqueue contains dequeue lookup continue_processing assemble_quorum set_member request
    send response_type mark insert or_nil handle_lock_res handle_get_res handle_put_res ack unmark
    erase decrement increment encode_timestamp_val decode_timestamp_val put_uint64 trie_insert
    trie_get set_child child bytes_equal local_timestamp latest_timestamp request_members
    new_repeater empty_rows acknowledge emit times_out tick uint64 is_positive is_unacked
answer_round = refl

coordinator-peers : (coordinator.num_peers ≡ 2) × (answered_coordinator.num_peers ≡ 2)
unfolding on_incoming new_node new_memstore same_type iota allocate take_request queue_request
    is_empty enqueue contains dequeue lookup continue_processing assemble_quorum set_member request
    send response_type mark insert or_nil handle_lock_res handle_get_res handle_put_res ack unmark
    erase decrement increment encode_timestamp_val decode_timestamp_val put_uint64 trie_insert
    trie_get set_child child bytes_equal local_timestamp latest_timestamp request_members
    new_repeater empty_rows acknowledge emit times_out tick uint64 is_positive is_unacked
coordinator-peers = (refl, refl)

reachable-Safe_example :
    IsWf answered_coordinator
    × Safe IsWf (
        on_incoming memstore zero_leads descending descending
          (node_answer node_get_response 4)
          answered_coordinator)
    × Safe IsWf (on_timed_out memstore 0 answered_coordinator)
reachable-Safe_example =
    let below = descending-IsPermutation.below in
    reachable-Safe memstore zero_leads 3 0 new_memstore tt 2 2 false answered_coordinator descending
      descending (node_answer node_get_response 4) 0 below below (omega arith)
      (next
        (next here
          (incoming descending descending write_request below below (λ e. cc) request_round))
        (incoming descending descending (node_answer node_lock_response 0) below below
          (λ e. omega (arith, coordinator-peers.0)) answer_round))
      (λ e. omega (arith, coordinator-peers.1))

on_incoming-Safe_example :
    Safe IsWf (on_incoming memstore zero_leads descending descending write_request node0)
on_incoming-Safe_example =
    on_incoming-Safe memstore zero_leads descending descending write_request node0
      descending-IsPermutation.below descending-IsPermutation.below (λ e. cc)
      (new_node-IsWf 3 0 new_memstore tt 2 2 false (omega arith))

abbrev lock_request : Message
lock_request = record no_message {
  id = 10;
  src = 1;
  dest = 0;
  demux_key = node_lock_request_no_timeout;
  ok = true;
}

abbrev locked_node : Dbnode Memstore (Unit {0})
locked_node = record node0 { current_mode = processing_write; current_txid = 9 }

on_incoming-HoldsLock_example : HoldsLock 9 0 (
    value_or locked_node
      (on_incoming memstore zero_leads descending descending lock_request locked_node))
unfolding on_incoming new_node grants same_type iota allocate queue_request enqueue contains
    take_request times_out tick is_empty
on_incoming-HoldsLock_example =
    on_incoming-HoldsLock memstore zero_leads descending descending 9 0 lock_request locked_node _
      (λ e. cc) (λ e. cc) (record { mode = refl; txid = refl; granted = refl }) refl

abbrev older_request : Message
older_request = record lock_request { id = 9; src = 2 }

abbrev behind : Dbnode Memstore (Unit {0})
behind = record node0 { lock_requests = 0 ∷ []; memory = λ c. older_request; next_cell = 1 }

on_incoming_overwrites_example :
    (b : Dbnode Memstore (Unit {0})) × (on_incoming memstore zero_leads descending descending
        lock_request behind
      ≡ ok b)
    × (b.current_mode ≡ processing_write)
    × (b.current_txid ≡ 9)
    × (b.outgoing
        ≡ record no_message { id = 9; src = 0; dest = 2; demux_key = node_lock_response; ok = true }
          ∷ [])
    × (b.lock_requests ≡ 1 ∷ [])
    × (b.memory 1 ≡ older_request)
unfolding new_node lookup contains
on_incoming_overwrites_example =
    on_incoming_overwrites memstore zero_leads descending descending lock_request behind 0 [] refl
      refl
      (record {
        mode = refl;
        enabled = refl;
        queue = refl;
        type_eq = refl;
        wanted = refl;
        old = λ e. absurd (omega arith);
        fresh = refl;
      })
