-- ===== src/Tests/Daemon.antt =====
-- The daemon of background writes at a concrete transaction.
use part_ii_project.Base.{lookup, ℕ, refl, true, List, [], ◌∷◌, arith, bytes_key, nat_key}
use part_ii_project.Dbnode.Propagater.Reachable.{later, daemon-AllTallied, propagates, start}
use part_ii_project.Packet.{Message, no_message, node_background_write_response}
use part_ii_project.Dbnode.Propagater.{
  Transaction, Propagater, propagate_transaction, new_propagater,
}
use part_ii_project.Dbnode.Propagater.Tally.{IsTallied, AllTallied}

abbrev members : List (ℕ × Message)
members = (1, no_message) ∷ (2, no_message) ∷ []

abbrev written : Transaction
written = record {
  key = 5 ∷ [];
  value = 42 ∷ [];
  timestamp = 1;
  num_confirmed_nodes = 2;
  nodes = (1, true) ∷ (2, true) ∷ [];
}

abbrev daemon : Propagater
daemon = record { id = 0; n = 5; critical_size = 4; transactions = (7, written) ∷ []; timer = 1 }

written-IsTallied : IsTallied written
unfolding lookup
written-IsTallied = record { count = refl; marks = λ node e. ground (arith, e) }

abbrev confirmation : Message
confirmation = record no_message {
  id = 7;
  src = 3;
  demux_key = node_background_write_response;
  ok = true;
}

daemon-AllTallied_example :
    AllTallied
      (propagate_transaction (new_propagater 0 5 2) 8 members (5 ∷ []) (43 ∷ []) 2).transactions
unfolding lookup
daemon-AllTallied_example =
    daemon-AllTallied 0 5 2 _
      (later start (propagates 8 members (5 ∷ []) (43 ∷ []) 2 (refl, (refl, tt)) refl))
