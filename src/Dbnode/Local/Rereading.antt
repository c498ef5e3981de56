-- ===== src/Dbnode/Local/Rereading.antt =====
-- dbnode/dbnode.go: a write and a read in quorums of one node, over the in-memory store.
use part_ii_project.Base.{
  ◌==◌, minus_one, increment-eq-add, Bytes, bytes_equal_iff, ok, ℕ, ◌+◌, ◌<◌, ◌≡◌, true, false,
  ◌&&◌, not, some, [], ◌∷◌, ◌++◌, arith,
}
use part_ii_project.Packet.{
  Message, client_write_response, client_read_response, same_type, Messagetype,
  client_strong_write_request,
}
use part_ii_project.Datastore.Memstore.{Memstore, memstore}
use part_ii_project.Datastore.Memstore.Laws.{put_committed}
use part_ii_project.Dbnode.Coordinator.{decode_timestamp_val, encode_timestamp_val, decode-encode}
use part_ii_project.Dbnode.State.{Dbnode, emit}
use part_ii_project.Dbnode.Local.{
  is_busy, client_response, process_local_read, process_local_write, write_at,
}

module _ {E : Type 0} where
  -- An answer to a client with a value and its timestamp.
  abbrev pub answer_with : Dbnode Memstore E → Message → Messagetype → ℕ → Bytes → Message
  answer_with n m type t v = record (client_response n m) {
    demux_key = type;
    value = v;
    timestamp = t;
    ok = true;
  }

  -- A local write that is not a strong one with another timestamp than the next, at a node with no
  -- uncommitted write and with a readable value of a timestamp before the last one, is answered with
  -- the next timestamp, and every later read of its key answers its value at that timestamp.
  pub read-of_write :
      (n : Dbnode Memstore E) (m : Message) (stored : Bytes) (t : ℕ) (v : Bytes)
      → is_busy n ≡ false
      → memstore.get n.store m.key ≡ some stored
      → decode_timestamp_val stored ≡ ok (t, v)
      → t < minus_one
      → (not (t + 1 == m.timestamp) && same_type m.demux_key client_strong_write_request) ≡ false
      → (b : Dbnode Memstore E) × (process_local_write memstore n m ≡ ok b)
        × (b.outgoing ≡ n.outgoing ++ answer_with n m client_write_response (t + 1) m.value ∷ [])
        × ((r : Message)
            → r.key ≡ m.key
            → process_local_read memstore b r
              ≡ ok (emit b (answer_with b r client_read_response (t + 1) m.value)))
  unfolding process_local_read process_local_write write_at is_busy emit
  read-of_write n m stored t v free read decoded lt accepted =
      let c = put_committed n.store m.key (encode_timestamp_val (t + 1) m.value) in
      (
        write_at memstore n m (t + 1),
        ground (arith, free, read, decoded, increment-eq-add t lt, accepted),
        ground (arith, c.0),
        λ r e. ground (
          arith,
          e,
          free,
          c.1 m.key,
          bytes_equal_iff m.key m.key,
          decode-encode (t + 1) m.value (omega arith),
        ),
      )
