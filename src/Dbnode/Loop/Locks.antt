-- ===== src/Dbnode/Loop/Locks.antt =====
-- dbnode/dbnode.go: a node that has granted a write lock keeps it for that transaction, whatever it
-- receives, until the unlock request of the transaction, or until it fails.
use part_ii_project.Base.{
  ◌==◌, if◌then◌else◌, increment, >>=-Returns, if-Returns, option-Returns, Returns, returned, ℕ,
  ◌+◌, ◌≡◌, refl, ◌≢◌, Bool, true, false, ◌&&◌, not, List, [], ◌∷◌, ◌++◌, arith,
}
use part_ii_project.Datastore.{Store}
use part_ii_project.Packet.{
  Message, node_put_response, client_write_response, node_lock_response, same_type,
  client_read_response, client_strong_write_request, node_get_response, Messagetype,
  node_unlock_ack,
}
use part_ii_project.Dbnode.State.{Dbnode, processing_write, same_mode}
use part_ii_project.Dbnode.Coordinator.{encode_timestamp_val}
use part_ii_project.Dbnode.Local.{
  process_local_read, process_local_write, is_busy, write_at, client_response, stale_response,
}
use part_ii_project.Dbnode.Handlers.{
  handle_unlock_req, commit_uncommited, release_lock, handle_get_req, may_read, handle_put_req,
  handle_timestamp_req, reply,
}

abbrev is_lock_response : Messagetype → Bool
is_lock_response node_lock_response = true
is_lock_response _ = false

-- The message grants a lock.
abbrev pub is_grant : Message → Bool
is_grant m = is_lock_response m.demux_key && m.ok

-- How many locks have been granted.
unfoldable pub grants : List Message → ℕ
grants [] = 0
grants (m ∷ ms) = (if is_grant m then 1 else 0) + grants ms

grants-snoc :
    (ms : List Message) (m : Message)
    → grants (ms ++ m ∷ []) ≡ grants ms + (if is_grant m then 1 else 0)
unfolding grants
grants-snoc [] m = omega arith
grants-snoc (x ∷ ms) m = omega (arith, grants-snoc ms m)

-- The node holds the write lock for the transaction, and has granted `g` locks.
pub record HoldsLock {S E : Type 0} (id g : ℕ) (n : Dbnode S E) : Type 0 where
  pub mode : n.current_mode ≡ processing_write
  pub txid : n.current_txid ≡ id
  pub granted : grants n.outgoing ≡ g

module _ {S E : Type 0} (id g : ℕ) where
  -- A message that grants no lock.
  pub says :
      (n : Dbnode S E) (m : Message)
      → HoldsLock id g n
      → is_grant m ≡ false
      → HoldsLock id g (record n { outgoing = n.outgoing ++ m ∷ [] })
  says n m h e = record {
    mode = h.mode;
    txid = h.txid;
    granted = ground (arith, grants-snoc n.outgoing m, h.granted);
  }

module _ {S E : Type 0} (st : Store S) (id g : ℕ) where
  pub process_local_read-HoldsLock :
      (n : Dbnode S E) (m : Message)
      → is_grant m ≡ false
      → HoldsLock id g n
      → Returns (HoldsLock id g) (process_local_read st n m)
  unfolding process_local_read
  process_local_read-HoldsLock n m e h =
      if-Returns (is_busy n) (λ _. returned (says id g n m h e))
        λ _.
          option-Returns (st.get n.store m.key) (λ _. returned (says id g n _ h (ground arith)))
            λ stored _. >>=-Returns λ (t, v) _. returned (
              says id g n
                (record (client_response n m) {
                  demux_key = client_read_response;
                  value = v;
                  timestamp = t;
                  ok = true;
                })
                h refl)

  pub write_at-HoldsLock :
      (n : Dbnode S E) (m : Message) (t : ℕ) → HoldsLock id g n → HoldsLock id g (write_at st n m t)
  unfolding write_at
  write_at-HoldsLock n m t h =
      let s = st.put n.store m.key (encode_timestamp_val t m.value) in
      record {
        mode = h.mode;
        txid = h.txid;
        granted = ground (
          arith,
          grants-snoc n.outgoing (record (client_response n m) {
            demux_key = client_write_response;
            value = m.value;
            timestamp = t;
            ok = (st.commit s.0 m.key s.1).1;
          }),
          h.granted,
        );
      }

  pub process_local_write-HoldsLock :
      (n : Dbnode S E) (m : Message)
      → is_grant m ≡ false
      → HoldsLock id g n
      → Returns (HoldsLock id g) (process_local_write st n m)
  unfolding process_local_write
  process_local_write-HoldsLock n m e h =
      if-Returns (is_busy n) (λ _. returned (says id g n m h e))
        λ _.
          option-Returns (st.get n.store m.key) (λ _. returned (says id g n _ h (ground arith)))
            λ stored _. >>=-Returns λ (t, v) _.
              if-Returns
                (not (increment t == m.timestamp)
                  && same_type m.demux_key client_strong_write_request)
                (λ _. returned (says id g n (stale_response st n m (increment t) v) h refl))
                (λ _. returned (write_at-HoldsLock n m (increment t) h))

  pub handle_unlock_req-HoldsLock :
      (n : Dbnode S E) (m : Message)
      → m.id ≢ id
      → HoldsLock id g n
      → HoldsLock id g (handle_unlock_req st n m)
  unfolding handle_unlock_req commit_uncommited release_lock
  handle_unlock_req-HoldsLock n m ne h = record {
    mode = ground (arith, h.mode, h.txid);
    txid = ground (arith, h.mode, h.txid);
    granted = ground (
      arith,
      grants-snoc n.outgoing (record (reply n m node_unlock_ack) { ok = true }),
      h.mode,
      h.txid,
      h.granted,
    );
  }

  pub handle_get_req-HoldsLock :
      (n : Dbnode S E) (m : Message)
      → HoldsLock id g n
      → Returns (HoldsLock id g) (handle_get_req st n m)
  unfolding handle_get_req
  handle_get_req-HoldsLock n m h =
      if-Returns (may_read st n m)
        (λ _.
          option-Returns (st.get n.store m.key) (λ _. returned (says id g n _ h (ground arith)))
            λ v _. >>=-Returns (λ (t, val) _. returned (
              says id g n
                (record (reply n m node_get_response) {
                  key = m.key;
                  value = val;
                  timestamp = t;
                  ok = true;
                })
                h refl)))
        (λ _. returned (says id g n _ h (ground arith)))

  pub handle_put_req-HoldsLock :
      (n : Dbnode S E) (m : Message) → HoldsLock id g n → HoldsLock id g (handle_put_req st n m)
  unfolding handle_put_req
  handle_put_req-HoldsLock n m h = record {
    mode = ground (arith, h.mode, h.txid);
    txid = ground (arith, h.mode, h.txid);
    granted = ground (
      arith,
      grants-snoc n.outgoing (put_answer true),
      grants-snoc n.outgoing (put_answer false),
      h.mode,
      h.txid,
      h.granted,
    );
  }
    where
      put_answer : Bool → Message
      put_answer b = record (reply n m node_put_response) {
        key = m.key;
        value = m.value;
        timestamp = m.timestamp;
        ok = b;
      }

  pub handle_timestamp_req-HoldsLock :
      (n : Dbnode S E) (m : Message)
      → HoldsLock id g n
      → Returns (HoldsLock id g) (handle_timestamp_req st n m)
  unfolding handle_timestamp_req
  handle_timestamp_req-HoldsLock n m h =
      if-Returns (same_mode n.current_mode processing_write && n.current_txid == m.id)
        (λ _. >>=-Returns (λ (t, val) _. returned (
          says id g n
            (record (reply n m node_get_response) { key = m.key; ok = true; timestamp = t }) h
            refl)))
        (λ _. returned (says id g n _ h (ground arith)))
