-- ===== src/Tests/Stores.antt =====
-- The in-memory store, and local writes, background writes and the writes of a quorum's members over
-- it, at concrete inputs.
use part_ii_project.Base.{
  ◌==◌, if◌then◌else◌, lookup, increment, is_positive, Bytes, bytes_equal, ok, ℕ, ◌≡◌, refl, ◌≢◌,
  Bool, true, false, none, some, List, [], ◌∷◌, ◌++◌, arith, bytes_key, nat_key,
}
use part_ii_project.Tests.Runs.{node0, write_request}
use part_ii_project.Packet.{
  node_get_request, Message, no_message, same_type, iota, client_write_response,
  client_read_response, node_unlock_request, node_put_request,
}
use part_ii_project.Datastore.Memstore.{Memstore, memstore, new_memstore, get, put, commit}
use part_ii_project.Datastore.Memstore.Nodes.{empty_trie, trie_get, child}
use part_ii_project.Datastore.Memstore.Laws.{pending, commit_pending}
use part_ii_project.Dbnode.Coordinator.{encode_timestamp_val, decode_timestamp_val}
use part_ii_project.Dbnode.State.{Dbnode, processing_write, idle, emit}
use part_ii_project.Dbnode.Startup.{new_node}
use part_ii_project.Dbnode.Local.{is_busy, process_local_read, process_local_write}
use part_ii_project.Dbnode.Local.Rereading.{answer_with, read-of_write}
use part_ii_project.Dbnode.Background.{background_answer, handle_background_write_req}
use part_ii_project.Dbnode.Background.Convergence.{Holds, background_write_converges}
use part_ii_project.Dbnode.Handlers.Participant.{
  read_requests, refusals, after_write, after_write_commits, refused_write_blocks_reads,
}

abbrev one_pending : Memstore
one_pending = record { trie = empty_trie; uncommitted = (1, (5 ∷ [], 42 ∷ [])) ∷ []; txid = 1 }

commit_pending_example :
    ((commit one_pending (5 ∷ []) 1).1 ≡ true)
    × ((j : Bytes)
        → get (commit one_pending (5 ∷ []) 1).0 j
          ≡ (if bytes_equal (5 ∷ []) j then some (42 ∷ []) else get one_pending j))
    × ((m : ℕ)
        → pending (commit one_pending (5 ∷ []) 1).0 m
          ≡ (if 1 == m then none else pending one_pending m))
unfolding lookup
commit_pending_example = commit_pending one_pending (5 ∷ []) (42 ∷ []) 1 refl

read-of_write_example :
    (b : Dbnode Memstore (Unit {0})) × (process_local_write memstore node0 write_request ≡ ok b)
    × (b.outgoing ≡ answer_with node0 write_request client_write_response 1 (42 ∷ []) ∷ [])
    × ((r : Message)
        → r.key ≡ 1 ∷ []
        → process_local_read memstore b r
          ≡ ok (emit b (answer_with b r client_read_response 1 (42 ∷ []))))
unfolding new_node new_memstore get trie_get child decode_timestamp_val is_busy same_type iota
read-of_write_example = read-of_write node0 write_request [] 0 [] refl refl refl (omega arith) refl

abbrev later_write : Message
later_write = record no_message {
  id = 8;
  src = 1;
  dest = 0;
  key = 1 ∷ [];
  value = 43 ∷ [];
  timestamp = 6;
  ok = true;
}

background_write_converges_example :
    (b : Dbnode Memstore (Unit {0})) × (handle_background_write_req memstore node0 later_write
      ≡ ok b)
    × Holds b (1 ∷ []) 6 (43 ∷ [])
    × ((j : Bytes) → 1 ∷ [] ≢ j → memstore.get b.store j ≡ memstore.get node0.store j)
    × (b.outgoing ≡ background_answer memstore node0 later_write (43 ∷ []) 6 true ∷ [])
unfolding new_node new_memstore get trie_get child decode_timestamp_val
background_write_converges_example =
    background_write_converges node0 later_write 0 [] ([], refl, refl) (omega arith)
      (λ e. absurd (omega arith))

abbrev locked : Dbnode Memstore (Unit {0})
locked = record node0 { current_mode = processing_write; current_txid = 8 }

abbrev stored_message : Message
stored_message = record later_write { demux_key = node_put_request }

abbrev unlock_message : Bool → Message
unlock_message success = record no_message {
  id = 8;
  src = 1;
  dest = 0;
  demux_key = node_unlock_request;
  ok = success;
}

after_write_commits_example :
    ((j : Bytes)
      → memstore.get (after_write locked stored_message (unlock_message true)).store j ≡ (
          if bytes_equal (1 ∷ []) j
          then some (encode_timestamp_val 6 (43 ∷ []))
          else memstore.get locked.store j))
    × ((after_write locked stored_message (unlock_message true)).current_mode ≡ idle)
    × ((after_write locked stored_message (unlock_message true)).uncommited_key ≡ none)
unfolding new_node new_memstore put increment is_positive
after_write_commits_example =
    after_write_commits locked stored_message (unlock_message true)
      (record { mode = refl; txid = refl }) refl refl refl

abbrev two_reads : List Message
two_reads =
    record no_message { id = 11; src = 1; demux_key = node_get_request; key = 5 ∷ [] }
    ∷ record no_message { id = 12; src = 2; demux_key = node_get_request; key = 6 ∷ [] }
    ∷ []

refused_write_blocks_reads_example :
    ((j : Bytes)
      → memstore.get (after_write locked stored_message (unlock_message false)).store j
        ≡ memstore.get locked.store j)
    × ((after_write locked stored_message (unlock_message false)).current_mode ≡ idle)
    × (read_requests two_reads (after_write locked stored_message (unlock_message false))
        ≡ ok (record (after_write locked stored_message (unlock_message false)) {
          outgoing =
              (after_write locked stored_message (unlock_message false)).outgoing
              ++ refusals 0 two_reads;
        }))
unfolding new_node new_memstore put increment is_positive
refused_write_blocks_reads_example =
    refused_write_blocks_reads locked stored_message (unlock_message false) two_reads
      (record { mode = refl; txid = refl }) refl refl (λ e. cc) refl
