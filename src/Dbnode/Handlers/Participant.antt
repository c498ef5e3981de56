-- ===== src/Dbnode/Handlers/Participant.antt =====
-- dbnode/dbnode.go: a write at a member of a quorum (`handlePutReq`, then `handleUnlockReq`), over
-- the in-memory store.
use mathlib.Core.List.{append-nil, append_assoc}
use part_ii_project.Base.{
  if◌then◌else◌, is_positive, Bytes, bytes_equal, ◌>>=◌, Outcome, ok, ℕ, ◌≡◌, sym, ap, ◌∙◌, ◌≢◌,
  true, false, none, some, List, [], ◌∷◌, ◌++◌, arith,
}
use part_ii_project.Packet.{no_message, Message, node_get_response}
use part_ii_project.Datastore.Memstore.{Memstore, memstore}
use part_ii_project.Datastore.Memstore.Laws.{put_committed, get-put}
use part_ii_project.Dbnode.Coordinator.{encode_timestamp_val}
use part_ii_project.Dbnode.State.{Dbnode, emit, idle, processing_write}
use part_ii_project.Dbnode.Handlers.{
  handle_put_req, handle_unlock_req, handle_get_req, reply, commit_uncommited, release_lock,
  may_read,
}

-- The refusals of read requests by the node with the given number.
pub refusals : ℕ → List Message → List Message
refusals id [] = []
refusals id (r ∷ rs) =
    record no_message {
      id = r.id;
      src = id;
      dest = r.src;
      demux_key = node_get_response;
      key = r.key;
      ok = false;
    }
    ∷ refusals id rs

module _ {E : Type 0} where
  -- The node holds the write lock of a transaction.
  pub record IsLockedFor (id : ℕ) (n : Dbnode Memstore E) : Type 0 where
    pub mode : n.current_mode ≡ processing_write
    pub txid : n.current_txid ≡ id

  -- The store can give the next transaction a positive number.
  abbrev pub CanPut : Dbnode Memstore E → Bytes → Bytes → Type 0
  CanPut n k v = is_positive (memstore.put n.store k v).1 ≡ true

  -- The node after a put and the unlock request of its transaction.
  abbrev pub after_write : Dbnode Memstore E → Message → Message → Dbnode Memstore E
  after_write n put unlock = handle_unlock_req memstore (handle_put_req memstore n put) unlock

  -- A member that holds the write lock of the transaction stores a put with the unlock request that
  -- reports success: the key has the value with its timestamp, other keys are as before, nothing is
  -- uncommitted, and the lock is free.
  pub after_write_commits :
      (n : Dbnode Memstore E) (put unlock : Message)
      → IsLockedFor put.id n
      → unlock.id ≡ put.id
      → unlock.ok ≡ true
      → CanPut n put.key (encode_timestamp_val put.timestamp put.value)
      → ((j : Bytes)
          → memstore.get (after_write n put unlock).store j ≡ (
              if bytes_equal put.key j
              then some (encode_timestamp_val put.timestamp put.value)
              else memstore.get n.store j))
        × ((after_write n put unlock).current_mode ≡ idle)
        × ((after_write n put unlock).uncommited_key ≡ none)
  unfolding handle_put_req handle_unlock_req commit_uncommited release_lock emit
  after_write_commits n put unlock locked same success can =
      let c = put_committed n.store put.key (encode_timestamp_val put.timestamp put.value) in
      (
        λ j. ground (arith, locked.mode, locked.txid, same, success, can, c.1 j),
        ground (arith, locked.mode, locked.txid, same, success, can),
        ground (arith, locked.mode, locked.txid, same, success, can),
      )

  -- A node that holds no lock and an uncommitted key refuses a read request.
  handle_get_req-refused :
      (r : Message) (n : Dbnode Memstore E) (k : Bytes)
      → n.current_mode ≡ idle
      → n.uncommited_key ≡ some k
      → handle_get_req memstore n r
        ≡ ok (emit n (record (reply n r node_get_response) { key = r.key }))
  unfolding handle_get_req may_read emit
  handle_get_req-refused r n k at_rest held = ground (arith, at_rest, held)

  -- Read requests, one after the other.
  unfoldable pub read_requests : List Message → Dbnode Memstore E → Outcome (Dbnode Memstore E)
  read_requests [] n = ok n
  read_requests (r ∷ rs) n = do b ← handle_get_req memstore n r; read_requests rs b

  read_requests-refused :
      (rs : List Message) (n : Dbnode Memstore E) (k : Bytes)
      → n.current_mode ≡ idle
      → n.uncommited_key ≡ some k
      → read_requests rs n ≡ ok (record n { outgoing = n.outgoing ++ refusals n.id rs })
  unfolding read_requests refusals emit
  read_requests-refused [] n k at_rest held =
      ap (λ l. ok (record n { outgoing = l })) (sym (append-nil n.outgoing))
  read_requests-refused (r ∷ rs) n k at_rest held =
      let answer : Message = record (reply n r node_get_response) { key = r.key } in
      rw (handle_get_req-refused r n k at_rest held, ◌>>=◌)
        (read_requests-refused rs (emit n answer) k at_rest held
          ∙ ap (λ l. ok (record n { outgoing = l }))
              (append_assoc n.outgoing (answer ∷ []) (refusals n.id rs)))

  -- With an unlock request that reports a failure no read of the store changes and the lock is free,
  -- but the put stays uncommitted: of any number of read requests that come next, each is refused. The
  -- key of the put is not empty.
  pub refused_write_blocks_reads :
      (n : Dbnode Memstore E) (put unlock : Message) (rs : List Message)
      → IsLockedFor put.id n
      → unlock.id ≡ put.id
      → unlock.ok ≡ false
      → put.key ≢ []
      → CanPut n put.key (encode_timestamp_val put.timestamp put.value)
      → ((j : Bytes) → memstore.get (after_write n put unlock).store j ≡ memstore.get n.store j)
        × ((after_write n put unlock).current_mode ≡ idle)
        × (read_requests rs (after_write n put unlock)
            ≡ ok (record (after_write n put unlock) {
              outgoing = (after_write n put unlock).outgoing ++ refusals n.id rs;
            }))
  unfolding handle_put_req handle_unlock_req commit_uncommited release_lock emit
  refused_write_blocks_reads n put unlock rs locked same failed some_key can =
      let b = after_write n put unlock in
      let at_rest : b.current_mode ≡ idle =
        ground (arith, locked.mode, locked.txid, same, failed, can) in
      let held : b.uncommited_key ≡ some put.key =
        ground (arith, locked.mode, locked.txid, same, failed, can) in
      let number : b.id ≡ n.id = ground (arith, locked.mode, locked.txid, same, failed, can) in
      (
        λ j. ground (
          arith,
          locked.mode,
          locked.txid,
          same,
          failed,
          can,
          get-put n.store put.key (encode_timestamp_val put.timestamp put.value) j,
        ),
        at_rest,
        read_requests-refused rs b put.key at_rest held
            ∙ ap (λ i. ok (record b { outgoing = b.outgoing ++ refusals i rs })) number,
      )
