-- ===== src/Tests/Writes.antt =====
-- The steps of a coordinator of a read or of a write, at concrete nodes.
use part_ii_project.Base.{
  ◌==◌, if◌then◌else◌, lookup, Bytes, bytes_equal, ◌>>=◌, ok, ℕ, ◌<◌, ◌≡◌, refl, true, false, ◌&&◌,
  not, Option, some, List, [], ◌∷◌, arith, bytes_key, nat_key,
}
use part_ii_project.Tests.Runs.{node0, write_request, descending}
use part_ii_project.Packet.{
  node_put_response, node_get_response, Message, no_message, same_type, client_strong_write_request,
}
use part_ii_project.Datastore.Memstore.{Memstore, memstore, new_memstore, get, commit}
use part_ii_project.Datastore.Memstore.Nodes.{empty_trie, trie_get, child}
use part_ii_project.Datastore.Memstore.Laws.{memstore_laws}
use part_ii_project.Dbnode.Coordinator.{decode_timestamp_val}
use part_ii_project.Dbnode.State.{Dbnode, coordinating_write, emit, go_idle}
use part_ii_project.Dbnode.Startup.{new_node}
use part_ii_project.Dbnode.Abort.{abort_processing}
use part_ii_project.Dbnode.Abort.Release.{IsReleased, abort_processing-IsReleased}
use part_ii_project.Dbnode.Handlers.{handle_put_res, handle_get_res}
use part_ii_project.Dbnode.Handlers.Repetition.{repetition_counts}
use part_ii_project.Dbnode.Write.{choose_timestamp, put_all, commit_all}
use part_ii_project.Dbnode.Write.Timestamps.{AllEarlier, choose_timestamp_lem}
use part_ii_project.Dbnode.Write.Commit.{IsCommitted, commit_all_shows}
use part_ii_project.Dbnode.Read.{continue_fast_read, read_response}
use part_ii_project.Dbnode.Read.Newest.{IsNewest, continue_fast_read-IsNewest}
use part_ii_project.Dbnode.Invariant.{IsWf}
use part_ii_project.Dbnode.Invariant.Initial.{new_node-IsWf}

abbrev answered : List (ℕ × Message)
answered =
    (1, record no_message { id = 7; src = 1; value = 41 ∷ []; timestamp = 4; ok = true }) ∷ []

abbrev coordinator : Dbnode Memstore (Unit {0})
coordinator = record node0 {
  current_mode = coordinating_write;
  current_txid = 7;
  client_request = write_request;
  quorum_members = some answered;
}

coordinator-IsWf :
    (s : Memstore) (txid : ℕ) (k : Option Bytes)
    → IsWf (record coordinator { store = s; uncommited_txid = txid; uncommited_key = k })
unfolding new_node
coordinator-IsWf s txid k =
    let w = new_node-IsWf 3 0 new_memstore tt 2 2 false (omega arith) in
    record { self = w.self; rows = w.rows; nodes = (omega arith, tt); members = λ e f. cc }

continue_fast_read-IsNewest_example :
    (r : ℕ × Bytes) × (continue_fast_read memstore descending coordinator
      ≡ ok (go_idle (emit coordinator (read_response coordinator r.0 r.1))))
    × IsNewest answered 0 [] r
unfolding new_node new_memstore get trie_get child decode_timestamp_val
continue_fast_read-IsNewest_example =
    continue_fast_read-IsNewest memstore descending coordinator answered [] 0 [] refl refl refl

choose_timestamp_lem_example :
    (next : ℕ) × (0 < next)
    × AllEarlier 0 answered next
    × (choose_timestamp memstore coordinator ≡ (
        if same_type write_request.demux_key client_strong_write_request && not (0 == next)
        then abort_processing memstore
            (record coordinator { client_request = record write_request { timestamp = next } })
        else put_all memstore next coordinator))
unfolding new_node new_memstore get trie_get child decode_timestamp_val
choose_timestamp_lem_example =
    choose_timestamp_lem memstore coordinator [] 0 [] refl refl (omega arith) (omega arith, tt)

abbrev put_done : Dbnode Memstore (Unit {0})
put_done = record coordinator {
  store = record { trie = empty_trie; uncommitted = (1, (1 ∷ [], 42 ∷ [])) ∷ []; txid = 1 };
  uncommited_txid = 1;
  uncommited_key = some (1 ∷ []);
}

commit_all_shows_example :
    (b : Dbnode Memstore (Unit {0})) × (commit_all memstore put_done ≡ ok b)
    × IsCommitted memstore memstore_laws (1 ∷ []) (42 ∷ []) put_done b
unfolding lookup commit bytes_equal
commit_all_shows_example =
    commit_all_shows memstore memstore_laws put_done (1 ∷ []) (42 ∷ [])
      (coordinator-IsWf put_done.store 1 (some (1 ∷ []))) refl refl refl

abort_processing-IsReleased_example :
    (b : Dbnode Memstore (Unit {0})) × (abort_processing memstore coordinator ≡ ok b)
    × IsReleased memstore coordinator b
unfolding new_node
abort_processing-IsReleased_example =
    abort_processing-IsReleased memstore memstore_laws coordinator
      (coordinator-IsWf coordinator.store coordinator.uncommited_txid coordinator.uncommited_key)

abbrev timed : List (ℕ × Message)
timed =
    (
      1,
      record no_message {
        id = 7;
        src = 1;
        demux_key = node_get_response;
        timestamp = 4;
        ok = true;
      },
    )
    ∷ []

abbrev waits_for_puts : Dbnode Memstore (Unit {0})
waits_for_puts = record coordinator { quorum_members = some timed; num_waiting_nodes = 3 }

abbrev put_answer : Message
put_answer = record no_message { id = 7; src = 1; demux_key = node_put_response; ok = true }

abbrev late_answer : Message
late_answer = record put_answer { demux_key = node_get_response }

repetition_counts_example :
    (b : Dbnode Memstore (Unit {0})) × ((handle_put_res memstore descending waits_for_puts
          put_answer
        >>= λ n. handle_get_res memstore descending n late_answer)
      ≡ ok b)
    × (b.num_waiting_nodes ≡ 1)
unfolding new_node lookup
repetition_counts_example =
    repetition_counts memstore descending waits_for_puts timed put_answer late_answer
      (record {
        mode = refl;
        members = refl;
        many = omega arith;
        small = omega arith;
        before = refl;
      })
      (record { type_eq = refl; txid_eq = refl; ok_eq = refl })
      (record { type_eq = refl; txid_eq = refl; ok_eq = refl }) refl
