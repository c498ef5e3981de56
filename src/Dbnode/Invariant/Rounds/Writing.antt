-- ===== src/Dbnode/Invariant/Rounds/Writing.antt =====
-- The steps of a write keep the invariant.
use part_ii_project.Base.{
  ltb, ◌==◌, Option-cases, length, increment, decrement, if-Safe, option-Safe, >>=-Safe,
  log_fatal-Safe, Safe, returns, Bytes, ◌>>=◌, ok, ℕ, ◌≤◌, refl, sym, ◌∙◌, ◌≢◌, inl, inr, true,
  ◌&&◌, not, none, some,
}
use part_ii_project.Datastore.{Store}
use part_ii_project.Packet.{
  Message, Messagetype, node_timestamp_request, same_type, client_strong_write_request,
  node_unlock_request, node_put_request,
}
use part_ii_project.Dbnode.Coordinator.{decode_timestamp_val, encode_timestamp_val}
use part_ii_project.Dbnode.State.{
  Dbnode, emit, marker, members_or_empty, set_member, key_request, key_or_nil,
}
use part_ii_project.Dbnode.Abort.{unlock_request}
use part_ii_project.Dbnode.Write.{
  local_timestamp, put_all, put_checked, choose_timestamp, commit_all, write_step, ask_timestamps,
  propagate, latest_timestamp, write_response, put_request,
}
use part_ii_project.Dbnode.Invariant.{IsWf}
use part_ii_project.Dbnode.Invariant.Steps.{
  Frame, request_members-Safe, set_member-Safe, go_idle-IsWf, abort_processing-Safe,
}

pub decode-Safe : (e : Bytes) → Safe (λ r. Unit {0}) (decode_timestamp_val e)
unfolding decode_timestamp_val
decode-Safe e =
    if-Safe (length e == 0) (λ _. returns tt)
      λ _. if-Safe (ltb (length e) 8) (λ _. log_fatal-Safe) (λ _. returns tt)

local_timestamp-Safe : (v : Bytes) → Safe (λ r. Unit {0}) (local_timestamp v)
unfolding local_timestamp
local_timestamp-Safe v =
    if-Safe (ltb 0 (length v)) (λ _. >>=-Safe (decode-Safe v) (λ r _ _. returns tt))
      (λ _. returns tt)

module _ {S E : Type 0} where
  pub emit-IsWf : (n : Dbnode S E) (m : Message) → IsWf n → IsWf (emit n m)
  unfolding emit
  emit-IsWf n m w = w

  propagate-IsWf : (n : Dbnode S E) → IsWf n → IsWf (propagate n)
  unfolding propagate
  propagate-IsWf n w = elim (Option-cases n.background_write_daemon) [
    | inl e ↦ rw (e, propagate) w
    | inr (p, e) ↦ rw (e, propagate) w
  ]

  -- The last steps of a loop over the members: the marker, and the number of answers to come.
  pub mark-Safe :
      (n b : Dbnode S E) (m : Message) (k : ℕ)
      → n.id ≤ n.num_peers
      → n.quorum_members ≢ none
      → Frame n b
      → Safe IsWf (set_member b n.id m >>= λ c. ok (record c { num_waiting_nodes = k }))
  mark-Safe n b m k self there f =
      >>=-Safe (set_member-Safe b n.id m (rw f.num self) (λ e. there (sym f.same_members ∙ e)) f.wf)
        λ c e g. returns g.wf

module _ {S E : Type 0} (st : Store S) where
  -- A write by the members' loop, for a node whose store may have changed.
  ask_timestamps-Safe :
      (n : Dbnode S E) → n.quorum_members ≢ none → IsWf n → Safe IsWf (ask_timestamps st n)
  unfolding ask_timestamps
  ask_timestamps-Safe n there w =
      >>=-Safe
        (request_members-Safe (key_request n n.client_request.id node_timestamp_request) true
          (members_or_empty n.quorum_members) n (λ d. refl) w.nodes w)
        λ b e f.
          mark-Safe n b (marker node_put_request 0) (decrement n.write_quorum_size) w.self there f

  put_all-Safe :
      (t : ℕ) (n : Dbnode S E) → n.quorum_members ≢ none → IsWf n → Safe IsWf (put_all st t n)
  unfolding put_all
  put_all-Safe t n there w =
      >>=-Safe
        (request_members-Safe (put_request n t) true (members_or_empty n.quorum_members) n1
          (λ d. refl) w.nodes w)
        λ b e f.
          mark-Safe n1 b (marker node_unlock_request t) (decrement n.write_quorum_size) w.self there
            f
    where
      n1 : Dbnode S E
      n1 = record n {
        store =
            (st.put n.store n.client_request.key (encode_timestamp_val t n.client_request.value)).0;
        uncommited_txid =
            (st.put n.store n.client_request.key (encode_timestamp_val t n.client_request.value)).1;
        uncommited_key = some n.client_request.key;
      }

  put_checked-Safe :
      (t : ℕ) (n : Dbnode S E) → n.quorum_members ≢ none → IsWf n → Safe IsWf (put_checked st t n)
  unfolding put_checked
  put_checked-Safe t n there w =
      if-Safe
        (same_type n.client_request.demux_key client_strong_write_request
          && not (n.client_request.timestamp == t))
        (λ _.
          abort_processing-Safe st
            (record n { client_request = record (n.client_request) { timestamp = t } }) w)
        (λ _. put_all-Safe t n there w)

  choose_timestamp-Safe :
      (n : Dbnode S E) → n.quorum_members ≢ none → IsWf n → Safe IsWf (choose_timestamp st n)
  unfolding choose_timestamp
  choose_timestamp-Safe n there w =
      option-Safe (st.get n.store n.client_request.key) (λ _. abort_processing-Safe st n w)
        λ v _. >>=-Safe (local_timestamp-Safe v) λ here _ _.
          put_checked-Safe
            (increment (latest_timestamp n.id (members_or_empty n.quorum_members) here)) n there w

  commit_all-Safe : (n : Dbnode S E) → IsWf n → Safe IsWf (commit_all st n)
  unfolding commit_all
  commit_all-Safe n w =
      if-Safe (not (st.commit n.store (key_or_nil n.uncommited_key) n.uncommited_txid).1)
        (λ _. abort_processing-Safe st n0 w)
        λ _.
          >>=-Safe
            (request_members-Safe (unlock_request n1 true) true (members_or_empty n1.quorum_members)
              n1 (λ d. refl) w.nodes w)
            λ b e f. returns (
              go_idle-IsWf (propagate (emit b (write_response b)))
                (propagate-IsWf (emit b (write_response b)) (emit-IsWf b (write_response b) f.wf)))
    where
      n0 : Dbnode S E
      n0 = record n {
        store = (st.commit n.store (key_or_nil n.uncommited_key) n.uncommited_txid).0;
      }

      n1 : Dbnode S E
      n1 = record n0 { uncommited_key = none; uncommited_txid = 0 }

  pub write_step-Safe :
      (t : Messagetype) (n : Dbnode S E)
      → n.quorum_members ≢ none
      → IsWf n
      → Safe IsWf (write_step st t n)
  unfolding write_step
  write_step-Safe node_timestamp_request n there w = ask_timestamps-Safe n there w
  write_step-Safe node_put_request n there w = choose_timestamp-Safe n there w
  write_step-Safe node_unlock_request n there w = commit_all-Safe n w
  write_step-Safe _ n there w = returns w
