-- ===== src/Dbnode/Handlers/Repetition.antt =====
-- dbnode/dbnode.go: how the handlers of answers (`handleGetRes`, `handlePutRes`) count a node that
-- answers more than once.
use part_ii_project.Base.{
  ==_refl, lookup, insert, lookup-insert, decrement-eq-sub, ◌>>=◌, ok, ℕ, ◌-◌, ◌^◌, ◌<◌, ◌≡◌, refl,
  true, false, some, List, arith, bytes_key, nat_key,
}
use part_ii_project.Datastore.{Store}
use part_ii_project.Packet.{
  Message, Messagetype, same_type, iota, node_get_response, node_put_response,
}
use part_ii_project.Dbnode.State.{
  message_or_zero, Dbnode, coordinating_write, set_member, acknowledge,
}
use part_ii_project.Dbnode.Handlers.{handle_put_res, handle_get_res, count_answer}

-- A positive answer of a type about a transaction.
pub record IsAnswer (type : Messagetype) (txid : ℕ) (m : Message) : Type 0 where
  pub type_eq : m.demux_key ≡ type
  pub txid_eq : m.id ≡ txid
  pub ok_eq : m.ok ≡ true

-- The coordinator of a write that waits for puts, after the node has answered with its timestamp.
pub record AwaitsPut {S E : Type 0} (node : ℕ) (q : List (ℕ × Message)) (n : Dbnode S E)
    : Type 0 where
  pub mode : n.current_mode ≡ coordinating_write
  pub members : n.quorum_members ≡ some q
  pub many : 2 < n.num_waiting_nodes
  pub small : n.num_waiting_nodes < 2 ^ 64
  pub before : (message_or_zero (lookup node q)).demux_key ≡ node_get_response

module _ {S E : Type 0} (st : Store S) (perm : ℕ → List ℕ) where
  -- A positive answer of another type than the last one of its node is one answer less to wait for.
  count_answer_lem :
      (n : Dbnode S E) (q : List (ℕ × Message)) (m : Message)
      → n.quorum_members ≡ some q
      → m.ok ≡ true
      → same_type (message_or_zero (lookup m.src q)).demux_key m.demux_key ≡ false
      → 1 < n.num_waiting_nodes
      → n.num_waiting_nodes < 2 ^ 64
      → count_answer st perm n m
        ≡ ok (record n {
          quorum_members = some (insert m.src m q);
          num_waiting_nodes = n.num_waiting_nodes - 1;
        })
  unfolding count_answer set_member
  count_answer_lem n q m there good other many small =
      ground (arith, there, good, other, decrement-eq-sub n.num_waiting_nodes (omega arith) small)

  -- A put answer and then a repeated timestamp answer of one node are counted as two puts: the
  -- repetition is of another type than the last answer of the node.
  pub repetition_counts :
      (n : Dbnode S E) (q : List (ℕ × Message)) (put late : Message)
      → AwaitsPut put.src q n
      → IsAnswer node_put_response n.current_txid put
      → IsAnswer node_get_response n.current_txid late
      → late.src ≡ put.src
      → (b : Dbnode S E) × ((handle_put_res st perm n put >>= λ n1. handle_get_res st perm n1 late)
          ≡ ok b)
        × (b.num_waiting_nodes ≡ n.num_waiting_nodes - 2)
  unfolding handle_get_res handle_put_res acknowledge same_type iota
  repetition_counts n q put late a p l same =
      let n1 : Dbnode S E = record (acknowledge n put) {
        quorum_members = some (insert put.src put q);
        num_waiting_nodes = n.num_waiting_nodes - 1;
      } in
      let n2 : Dbnode S E = record (acknowledge n1 late) {
        quorum_members = some (insert late.src late (insert put.src put q));
        num_waiting_nodes = n.num_waiting_nodes - 1 - 1;
      } in
      let first : count_answer st perm (acknowledge n put) put ≡ ok n1 =
        count_answer_lem (acknowledge n put) q put a.members p.ok_eq (rw (a.before, p.type_eq) refl)
          (omega (arith, a.many)) a.small in
      let second : count_answer st perm (acknowledge n1 late) late ≡ ok n2 =
        count_answer_lem (acknowledge n1 late) (insert put.src put q) late refl l.ok_eq
          (rw (same, lookup-insert put.src put.src put q, ==_refl put.src, p.type_eq, l.type_eq)
            refl)
          (omega (arith, a.many)) (omega (arith, a.small)) in
      (n2, ground (arith, first, second, a.mode, p.txid_eq, l.txid_eq), omega (arith, a.many))
