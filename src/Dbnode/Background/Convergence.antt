-- ===== src/Dbnode/Background/Convergence.antt =====
-- dbnode/dbnode.go: what a background write does to a node's store, over the in-memory store.
use part_ii_project.Base.{
  ltb, leb, if◌then◌else◌, Bool-cases, Bytes, bytes_equal_iff, ok, ℕ, ◌^◌, ◌<◌, ◌≡◌, refl, ◌≢◌, inl,
  inr, true, false, some, [], ◌∷◌, ◌++◌, arith,
}
use part_ii_project.Packet.{Message, node_background_write_response}
use part_ii_project.Datastore.Memstore.{Memstore, memstore}
use part_ii_project.Datastore.Memstore.Laws.{put_committed}
use part_ii_project.Dbnode.Coordinator.{decode_timestamp_val, encode_timestamp_val, decode-encode}
use part_ii_project.Dbnode.State.{Dbnode, emit}
use part_ii_project.Dbnode.Background.{
  store_newer, background_answer, store_value, handle_background_write_req,
}

module _ {E : Type 0} where
  -- The value and timestamp of a key.
  abbrev pub Holds : Dbnode Memstore E → Bytes → ℕ → Bytes → Type 0
  Holds n k t v =
      (s : Bytes) × (memstore.get n.store k ≡ some s) × (decode_timestamp_val s ≡ ok (t, v))

  -- A background write at a node that holds a value of another timestamp, or the same value, ends
  -- with the later of the two values under the key, and with every other key as it was; the answer
  -- carries what the node then holds, and is positive exactly if the write was not the earlier one.
  pub background_write_converges :
      (n : Dbnode Memstore E) (m : Message) (t : ℕ) (v : Bytes)
      → Holds n m.key t v
      → m.timestamp < 2 ^ 64
      → (m.timestamp ≡ t → v ≡ m.value)
      → (b : Dbnode Memstore E) × (handle_background_write_req memstore n m ≡ ok b)
        × Holds b m.key
            (if ltb t m.timestamp then m.timestamp else t)
            (if ltb t m.timestamp then m.value else v)
        × ((j : Bytes) → m.key ≢ j → memstore.get b.store j ≡ memstore.get n.store j)
        × (b.outgoing
            ≡ n.outgoing
              ++ record {
                id = m.id;
                src = n.id;
                dest = m.src;
                demux_key = node_background_write_response;
                key = m.key;
                value = if ltb t m.timestamp then m.value else v;
                timestamp = if ltb t m.timestamp then m.timestamp else t;
                ok = leb t m.timestamp;
              }
                ∷ [])
  unfolding handle_background_write_req store_newer emit
  background_write_converges n m t v (s, read, decoded) small same =
      elim (Bool-cases (ltb t m.timestamp)) [
        | inl later ↦
            let c = put_committed n.store m.key (encode_timestamp_val m.timestamp m.value) in
            (
              emit (store_value memstore n m) (
                  background_answer memstore (store_value memstore n m) m m.value m.timestamp true),
              ground (arith, later, read, decoded),
              rw later (
                encode_timestamp_val m.timestamp m.value,
                ground (arith, c.1 m.key, bytes_equal_iff m.key m.key),
                decode-encode m.timestamp m.value small,
              ),
              λ j ne. ground (arith, c.1 j, bytes_equal_iff m.key j),
              ground (arith, later),
            )
        | inr e ↦ (
          emit n (
              if leb t m.timestamp
              then background_answer memstore n m m.value m.timestamp true
              else background_answer memstore n m v t false),
          ground (arith, e, read, decoded, bytes_equal_iff v m.value),
          rw e (s, read, decoded),
          λ j ne. refl,
          ground (arith, e),
        )
      ]
