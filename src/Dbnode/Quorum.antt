-- ===== src/Dbnode/Quorum.antt =====
-- dbnode/dbnode.go: `assembleQuorum`. The argument `perm` is `rand.Perm`.
use part_ii_project.Base.{
  ltb, ◌==◌, if◌then◌else◌, length, take, decrement, ◌>>=◌, Outcome, out_of_range, ok, fault, ℕ,
  ◌-◌, true, false, ◌||◌, some, List, [], ◌∷◌,
}
use part_ii_project.Packet.{
  Message, Messagetype, same_type, no_message, node_lock_request, node_lock_request_no_timeout,
  node_get_request, node_timestamp_request,
}
use part_ii_project.Dbnode.State.{Dbnode, request, set_member}

-- peers[:quorumSize-1], which panics on a bound that is negative or beyond the slice.
unfoldable pub first_peers : List ℕ → ℕ → Outcome (List ℕ)
first_peers peers quorum_size =
    if quorum_size == 0 || ltb (length peers) (quorum_size - 1)
    then fault out_of_range
    else ok (take (quorum_size - 1) peers)

-- The permutation is of 0 to `numPeers - 1`; the last node stands in for this one.
abbrev pub peer_address : ℕ → ℕ → ℕ → ℕ
peer_address id num_peers node = if node == id then num_peers else node

module _ {S E : Type 0} where
  abbrev pub quorum_request : Dbnode S E → Messagetype → ℕ → Message
  quorum_request n request_type node = record {
    id = n.client_request.id;
    src = n.id;
    dest = node;
    demux_key = request_type;
    key = if same_type request_type node_get_request then n.client_request.key else [];
    value = if same_type request_type node_get_request then n.client_request.value else [];
    timestamp = 0;
    ok = true;
  }

  -- The loop over the peers.
  unfoldable pub ask_peers : Messagetype → List ℕ → Dbnode S E → Outcome (Dbnode S E)
  ask_peers request_type [] n = ok n
  ask_peers request_type (node ∷ nodes) n = do
    let m = quorum_request n request_type (peer_address n.id n.num_peers node)
    n1 ← set_member n m.dest m
    n2 ← request n1 m false
    ask_peers request_type nodes n2

  -- The entry for this node marks the step that comes after the answers.
  unfoldable pub mark_next_step : Messagetype → Dbnode S E → Outcome (Dbnode S E)
  mark_next_step request_type n =
      if same_type request_type node_lock_request
      then set_member n n.id (record no_message { demux_key = node_get_request })
      else if same_type request_type node_lock_request_no_timeout
      then set_member n n.id (record no_message { demux_key = node_timestamp_request })
      else ok n

  unfoldable pub assemble_quorum :
      (ℕ → List ℕ) → ℕ → Messagetype → Dbnode S E → Outcome (Dbnode S E)
  unfolding first_peers ask_peers mark_next_step
  assemble_quorum perm quorum_size request_type n = do
    nodes ← first_peers (perm n.num_peers) quorum_size
    n1 ← ask_peers request_type nodes (record n { quorum_members = some [] })
    n2 ← mark_next_step request_type n1
    ok (record n2 { num_waiting_nodes = decrement quorum_size })
