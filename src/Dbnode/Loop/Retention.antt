-- ===== src/Dbnode/Loop/Retention.antt =====
-- dbnode/dbnode.go: through a round of the main loop (`handleRequests`) a write lock stays with its
-- transaction, and no other is granted, until its unlock request or a simulated failure.
use part_ii_project.Base.{
  ltb, leb, ◌==◌, if◌then◌else◌, if_holds, Bytes, bytes_equal, Returns-value, >>=-Returns,
  if-Returns, option-Returns, >>=-Returns_with, Returns, ok, returned, faulted, ℕ, ◌≡◌, refl, ap,
  subst, ◌∙◌, ◌≢◌, Bool, true, false, ◌&&◌, ◌||◌, not, List, arith,
}
use part_ii_project.Datastore.{Store}
use part_ii_project.Elector.{Elector}
use part_ii_project.Packet.{
  Message, Messagetype, same_type, same_type_iff, client_read_request, client_write_request,
  client_strong_write_request, node_lock_request, node_lock_request_no_timeout, node_lock_response,
  node_unlock_request, node_unlock_ack, node_get_request, node_get_response, node_put_request,
  node_put_response, node_timestamp_request, node_background_write_request,
  node_background_write_response, internal_timer_signal, election_elect, election_coordinator,
  election_ack, control_fail, control_recover,
}
use part_ii_project.Repeater.{send}
use part_ii_project.Dbnode.State.{acknowledge, Dbnode, request, same_mode, idle}
use part_ii_project.Dbnode.RequestQueue.{is_empty}
use part_ii_project.Dbnode.Propagater.{response}
use part_ii_project.Dbnode.Handlers.{
  handle_unlock_ack, handle_lock_res, handle_get_res, handle_put_res, awaits, counts_locks,
  counts_gets, counts_puts,
}
use part_ii_project.Dbnode.Background.{
  store_newer, background_answer, handle_background_write_req, handle_background_write_res,
  daemon_response, store_refusal,
}
use part_ii_project.Dbnode.Requests.{take_request, queue_request, clean_unlock_txids, allocate}
use part_ii_project.Dbnode.Startup.{recover_node}
use part_ii_project.Dbnode.Loop.{
  tick, times_out, client_write, client_read, election, dispatch, handle_message, on_incoming,
}
use part_ii_project.Dbnode.Loop.Locks.{
  is_grant, HoldsLock, grants, says, process_local_read-HoldsLock, process_local_write-HoldsLock,
  handle_unlock_req-HoldsLock, handle_get_req-HoldsLock, handle_put_req-HoldsLock,
  handle_timestamp_req-HoldsLock,
}

-- The same lock, at a node that differs elsewhere.
same_lock :
    {S E : Type 0} {id g : ℕ} {n b : Dbnode S E}
    → HoldsLock id g n
    → b.current_mode ≡ n.current_mode
    → b.current_txid ≡ n.current_txid
    → b.outgoing ≡ n.outgoing
    → HoldsLock id g b
same_lock h e f k = record {
  mode = e ∙ h.mode;
  txid = f ∙ h.txid;
  granted = ap grants k ∙ h.granted;
}

request-HoldsLock :
    {S E : Type 0} (id g : ℕ) (n : Dbnode S E) (m : Message) (unlimited : Bool)
    → HoldsLock id g n
    → Returns (HoldsLock id g) (request n m unlimited)
unfolding request
request-HoldsLock id g n m unlimited h =
    >>=-Returns {m = send n.request_repeater m unlimited}
      (λ r _. returned (same_lock h refl refl refl))

module _ {S E : Type 0} (st : Store S) (id g : ℕ) where
  store_newer-HoldsLock :
      (n : Dbnode S E) (m : Message) (t : ℕ) (v : Bytes)
      → HoldsLock id g n
      → Returns (HoldsLock id g) (store_newer st n m t v)
  unfolding store_newer
  store_newer-HoldsLock n m t v h =
      if-Returns (m.timestamp == t && not (bytes_equal v m.value)) (λ _. faulted)
        λ _. returned (if_holds (HoldsLock id g) (ltb t m.timestamp) (same_lock h refl refl refl) h)

  handle_background_write_req-HoldsLock :
      (n : Dbnode S E) (m : Message)
      → HoldsLock id g n
      → Returns (HoldsLock id g) (handle_background_write_req st n m)
  unfolding handle_background_write_req
  handle_background_write_req-HoldsLock n m h = >>=-Returns λ (t, v) _.
      >>=-Returns_with (store_newer-HoldsLock n m t v h) λ b h1. returned (
        says id g b
          (if leb t m.timestamp
            then background_answer st b m m.value m.timestamp true
            else background_answer st b m v t false)
          h1 (ground arith))

  daemon_response-HoldsLock :
      (n : Dbnode S E) (m : Message)
      → HoldsLock id g n
      → Returns (HoldsLock id g) (daemon_response st n m)
  unfolding daemon_response
  daemon_response-HoldsLock n m h =
      option-Returns n.background_write_daemon (λ _. faulted)
        λ p _. >>=-Returns {m = response p m} (λ p' _. returned (same_lock h refl refl refl))

  handle_background_write_res-HoldsLock :
      (n : Dbnode S E) (m : Message)
      → HoldsLock id g n
      → Returns (HoldsLock id g) (handle_background_write_res st n m)
  unfolding handle_background_write_res store_refusal
  handle_background_write_res-HoldsLock n m h =
      >>=-Returns_with (daemon_response-HoldsLock n m h) λ b h1.
        if-Returns (not m.ok) (λ _. >>=-Returns λ (t, v) _. store_newer-HoldsLock b m t v h1)
          (λ _. returned h1)

module _ {S E : Type 0} (st : Store S) (perm : ℕ → List ℕ) (id g : ℕ) where
  handle_lock_res-HoldsLock :
      (n : Dbnode S E) (m : Message)
      → HoldsLock id g n
      → Returns (HoldsLock id g) (handle_lock_res st perm n m)
  unfolding handle_lock_res acknowledge
  handle_lock_res-HoldsLock n m h =
      if-Returns (awaits counts_locks n m) (λ e. absurd (ground (arith, e, h.mode)))
        λ _.
          if-Returns m.ok
            (λ _. request-HoldsLock id g (acknowledge n m) _ true (same_lock h refl refl refl))
            (λ _. returned (same_lock h refl refl refl))

  handle_get_res-HoldsLock :
      (n : Dbnode S E) (m : Message)
      → HoldsLock id g n
      → Returns (HoldsLock id g) (handle_get_res st perm n m)
  unfolding handle_get_res
  handle_get_res-HoldsLock n m h =
      if-Returns (awaits counts_gets n m) (λ e. absurd (ground (arith, e, h.mode)))
        (λ _. returned (same_lock h refl refl refl))

  handle_put_res-HoldsLock :
      (n : Dbnode S E) (m : Message)
      → HoldsLock id g n
      → Returns (HoldsLock id g) (handle_put_res st perm n m)
  unfolding handle_put_res
  handle_put_res-HoldsLock n m h =
      if-Returns (awaits counts_puts n m) (λ e. absurd (ground (arith, e, h.mode)))
        (λ _. returned (same_lock h refl refl refl))

  take_request-HoldsLock :
      (p : ℕ) (n : Dbnode S E)
      → HoldsLock id g n
      → Returns (HoldsLock id g) (take_request st perm p n)
  unfolding take_request
  take_request-HoldsLock p n h =
      if-Returns (same_mode n.current_mode idle && not (is_empty n.lock_requests))
        (λ e. absurd (ground (arith, e, h.mode))) (λ _. returned h)

module _ {S E : Type 0} (st : Store S) (el : Elector E) (perm next_perm : ℕ → List ℕ)
    (id g : ℕ) where
  tick-HoldsLock :
      (m : Message) (n : Dbnode S E) → HoldsLock id g n → Returns (HoldsLock id g) (tick st m n)
  unfolding tick times_out
  tick-HoldsLock m n h =
      if-Returns (same_type m.demux_key internal_timer_signal)
        (λ _.
          >>=-Returns_with {Q = HoldsLock id g}
            (if-Returns (m.id == n.timeout_counter && times_out n.current_mode)
              (λ e. absurd (ground (arith, e, h.mode))) (λ _. returned h))
            λ b h1. returned (same_lock h1 refl refl refl))
        (λ _. returned (same_lock h refl refl refl))

  client_write-HoldsLock :
      (p : ℕ) (m : Message) (n : Dbnode S E)
      → is_grant m ≡ false
      → HoldsLock id g n
      → Returns (HoldsLock id g) (client_write st el perm p m n)
  unfolding client_write queue_request
  client_write-HoldsLock p m n e h =
      if-Returns (n.write_quorum_size == 1) (λ _. process_local_write-HoldsLock st id g n m e h)
        λ _.
          if-Returns ((el.leader n.elector).1 == n.id) (λ _. returned (same_lock h refl refl refl))
            (λ _. returned (same_lock h refl refl refl))

  client_read-HoldsLock :
      (p : ℕ) (m : Message) (n : Dbnode S E)
      → is_grant m ≡ false
      → HoldsLock id g n
      → Returns (HoldsLock id g) (client_read st el perm p m n)
  unfolding client_read queue_request
  client_read-HoldsLock p m n e h =
      if-Returns (n.read_quorum_size == 1) (λ _. process_local_read-HoldsLock st id g n m e h)
        (λ _. returned (same_lock h refl refl refl))

  dispatch-HoldsLock :
      (t : Messagetype) (p : ℕ) (m : Message) (n : Dbnode S E)
      → m.demux_key ≡ t
      → (t ≡ node_unlock_request → m.id ≢ id)
      → HoldsLock id g n
      → Returns (HoldsLock id g) (dispatch st el perm t p m n)
  unfolding dispatch queue_request election handle_unlock_ack
  dispatch-HoldsLock client_write_request p m n e u h = client_write-HoldsLock p m n (rw e refl) h
  dispatch-HoldsLock client_strong_write_request p m n e u h =
      client_write-HoldsLock p m n (rw e refl) h
  dispatch-HoldsLock client_read_request p m n e u h = client_read-HoldsLock p m n (rw e refl) h
  dispatch-HoldsLock node_lock_request p m n e u h = returned (same_lock h refl refl refl)
  dispatch-HoldsLock node_lock_request_no_timeout p m n e u h =
      returned (same_lock h refl refl refl)
  dispatch-HoldsLock node_lock_response p m n e u h = handle_lock_res-HoldsLock st perm id g n m h
  dispatch-HoldsLock node_unlock_request p m n e u h =
      returned (handle_unlock_req-HoldsLock st id g n m (u refl) h)
  dispatch-HoldsLock node_unlock_ack p m n e u h = returned (same_lock h refl refl refl)
  dispatch-HoldsLock node_get_request p m n e u h = handle_get_req-HoldsLock st id g n m h
  dispatch-HoldsLock node_get_response p m n e u h = handle_get_res-HoldsLock st perm id g n m h
  dispatch-HoldsLock node_put_request p m n e u h =
      returned (handle_put_req-HoldsLock st id g n m h)
  dispatch-HoldsLock node_put_response p m n e u h = handle_put_res-HoldsLock st perm id g n m h
  dispatch-HoldsLock node_timestamp_request p m n e u h =
      handle_timestamp_req-HoldsLock st id g n m h
  dispatch-HoldsLock node_background_write_request p m n e u h =
      handle_background_write_req-HoldsLock st id g n m h
  dispatch-HoldsLock node_background_write_response p m n e u h =
      handle_background_write_res-HoldsLock st id g n m h
  dispatch-HoldsLock internal_timer_signal p m n e u h = returned h
  dispatch-HoldsLock election_elect p m n e u h = returned (same_lock h refl refl refl)
  dispatch-HoldsLock election_coordinator p m n e u h = returned (same_lock h refl refl refl)
  dispatch-HoldsLock election_ack p m n e u h = returned (same_lock h refl refl refl)
  dispatch-HoldsLock _ p m n e u h = faulted

  -- A node that holds a write lock for a transaction still holds it after a round of the main loop,
  -- and has granted no other, whatever message came in, a signal of its timer included, unless that is
  -- an unlock request of the transaction or a simulated failure.
  pub on_incoming-HoldsLock :
      (m : Message) (n b : Dbnode S E)
      → (m.demux_key ≡ node_unlock_request → m.id ≢ id)
      → m.demux_key ≢ control_fail
      → HoldsLock id g n
      → on_incoming st el perm next_perm m n ≡ ok b
      → HoldsLock id g b
  unfolding on_incoming handle_message clean_unlock_txids allocate recover_node
  on_incoming-HoldsLock m n b u f h e = Returns-value (
      subst (Returns (HoldsLock id g)) e (
        if-Returns (n.disabled || same_type m.demux_key control_recover)
          (λ _. returned (
            if_holds (HoldsLock id g) (n.disabled && same_type m.demux_key control_recover)
              (same_lock h refl refl refl) h))
          λ _.
            if-Returns (same_type m.demux_key control_fail)
              (λ c. absurd (f ((same_type_iff m.demux_key control_fail).0 c)))
              λ _.
                if-Returns (not (m.dest == n.id)) (λ _. faulted)
                  λ _.
                    >>=-Returns_with
                      (>>=-Returns_with
                        (tick-HoldsLock m (allocate n m) (same_lock h refl refl refl))
                        λ c h1. dispatch-HoldsLock m.demux_key n.next_cell m _ refl u (
                          if_holds (HoldsLock id g) (same_type m.demux_key election_elect)
                            (same_lock h1 refl refl refl) h1))
                      λ c h1. take_request-HoldsLock st next_perm id g n.next_cell c h1))
