-- ===== src/Tests/Runs.antt =====
-- Runs of one node over the in-memory store, in an election that node 0 has won.
use part_ii_project.Base.{
  length, All, lookup, insert, erase, increment, decrement, is_positive, Bytes, bytes_equal,
  put_uint64, uint64, ◌>>=◌, Outcome, ok, fault, ℕ, zero, suc, ◌≤◌, ◌<◌, ◌≡◌, refl, true, false,
  Option, some, List, [], ◌∷◌, arith, nat_key,
}
use part_ii_project.Elector.{Elector}
use part_ii_project.Datastore.Memstore.{Memstore, memstore, new_memstore, get, put, commit}
use part_ii_project.Packet.{
  same_type, iota, type_key, Message, no_message, Messagetype, client_write_request,
  client_write_response, node_lock_response, node_get_response, node_put_response,
}
use part_ii_project.Repeater.{
  is_unacked, send, response_type, mark, or_nil, ack, unmark, new_repeater, empty_rows,
}
use part_ii_project.Datastore.Memstore.Nodes.{trie_insert, trie_get, set_child, child}
use part_ii_project.Dbnode.Coordinator.{encode_timestamp_val, decode_timestamp_val}
use part_ii_project.Dbnode.RequestQueue.{is_empty, enqueue, contains, dequeue}
use part_ii_project.Dbnode.Process.{continue_processing}
use part_ii_project.Dbnode.Quorum.{assemble_quorum}
use part_ii_project.Dbnode.Handlers.{handle_lock_res, handle_get_res, handle_put_res}
use part_ii_project.Dbnode.Write.{local_timestamp, latest_timestamp}
use part_ii_project.Dbnode.Requests.{allocate, take_request, queue_request}
use part_ii_project.Quorums.{elem, Distinct}
use part_ii_project.Dbnode.Assembly.{IsPermutation}
use part_ii_project.Dbnode.State.{set_member, request, request_members, acknowledge, emit, Dbnode}
use part_ii_project.Dbnode.Startup.{new_node}
use part_ii_project.Dbnode.Loop.{tick, times_out, on_incoming}

-- An elector that always names node 0, and drops what it is given.
abbrev pub zero_leads : Elector (Unit {0})
zero_leads = record { leader = λ e. (e, 0); forward_to_leader = λ e m. e; process_msg = λ e m. e }

abbrev pub node0 : Dbnode Memstore (Unit {0})
node0 = new_node 3 0 new_memstore tt 2 2 false

abbrev pub write_request : Message
write_request = record no_message {
  id = 7;
  src = 3;
  dest = 0;
  demux_key = client_write_request;
  key = 1 ∷ [];
  value = 42 ∷ [];
  ok = true;
}

abbrev pub node_answer : Messagetype → ℕ → Message
node_answer type ts = record no_message {
  id = 7;
  src = 1;
  dest = 0;
  demux_key = type;
  timestamp = ts;
  ok = true;
}

-- The permutation that counts down.
abbrev pub descending : ℕ → List ℕ
descending zero = []
descending (suc k) = k ∷ descending k

descending-below : (k j : ℕ) → k ≤ j → All (λ d. d < j) (descending k)
descending-below zero j h = tt
descending-below (suc k) j h = (omega arith, descending-below k j (omega arith))

descending-fresh : (k x : ℕ) → k ≤ x → elem x (descending k) ≡ false
descending-fresh zero x h = refl
descending-fresh (suc k) x h = ground (arith, descending-fresh k x)

pub descending-IsPermutation : IsPermutation descending
descending-IsPermutation = record {
  below = λ k. descending-below k k (omega arith);
  distinct = distinct;
  full = full;
}
  where
    distinct : (k : ℕ) → Distinct (descending k)
    distinct zero = tt
    distinct (suc k) = (descending-fresh k k (omega arith), distinct k)

    full : (k : ℕ) → length (descending k) ≡ k
    full zero = refl
    full (suc k) = omega (arith, full k)

abbrev pub feed : List Message → Dbnode Memstore (Unit {0}) → Outcome (Dbnode Memstore (Unit {0}))
feed [] n = ok n
feed (m ∷ ms) n = on_incoming memstore zero_leads descending descending m n >>= feed ms

abbrev pub full_write : List Message
full_write =
    write_request
    ∷ node_answer node_lock_response 0
    ∷ node_answer node_get_response 4
    ∷ node_answer node_put_response 5
    ∷ []

-- What a run sends, and the value that it leaves under the key of the request.
abbrev shown : Outcome (Dbnode Memstore (Unit {0})) → Outcome (List Message × Option Bytes)
shown o = o >>= λ n. ok (n.outgoing, memstore.get n.store (1 ∷ []))

full_write_run :
    shown (feed full_write node0)
    ≡ ok (
      record no_message {
        id = 7;
        src = 0;
        dest = 3;
        demux_key = client_write_response;
        key = 1 ∷ [];
        value = 42 ∷ [];
        timestamp = 5;
        ok = true;
      }
          ∷ [],
      some (0 ∷ 0 ∷ 0 ∷ 0 ∷ 0 ∷ 0 ∷ 0 ∷ 5 ∷ 42 ∷ []),
    )
unfolding on_incoming new_node new_memstore get put commit same_type iota allocate take_request
    queue_request is_empty enqueue contains dequeue lookup continue_processing assemble_quorum
    set_member request send response_type mark insert or_nil handle_lock_res handle_get_res
    handle_put_res ack unmark erase decrement increment encode_timestamp_val decode_timestamp_val
    put_uint64 trie_insert trie_get set_child child bytes_equal local_timestamp latest_timestamp
    request_members new_repeater empty_rows acknowledge emit times_out tick uint64 is_positive
    is_unacked
full_write_run = refl

-- The value, or another one after a fault.
abbrev pub value_or {ℓ} : {A : Type ℓ} → A → Outcome A → A
value_or a (ok b) = b
value_or a (fault e) = a
