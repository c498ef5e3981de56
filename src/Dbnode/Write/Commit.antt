-- ===== src/Dbnode/Write/Commit.antt =====
-- dbnode/dbnode.go: the put and the commit of a write that this node coordinates, over any store
-- that keeps the promises of its interface.
use part_ii_project.Base.{
  if◌then◌else◌, insert, decrement, Bytes, bytes_equal, ◌>>=◌, ok, ℕ, ◌≡◌, refl, ◌≢◌, true, none,
  some, List, [], ◌∷◌, ◌++◌, arith, nat_key,
}
use part_ii_project.Datastore.{Store, StoreLaws}
use part_ii_project.Packet.{Message, node_unlock_request, client_write_response}
use part_ii_project.Repeater.{response_type}
use part_ii_project.Dbnode.Coordinator.{encode_timestamp_val}
use part_ii_project.Dbnode.State.{Dbnode, idle, members_or_empty, emit, go_idle, marker, member}
use part_ii_project.Dbnode.Abort.{unlock_request}
use part_ii_project.Dbnode.Write.{put_all, put_request, propagate, commit_all, write_response}
use part_ii_project.Dbnode.Invariant.{IsWf}
use part_ii_project.Dbnode.Invariant.Sending.{request_members_ok, set_member_ok}

-- A background write leaves the store, the uncommitted key and the sent messages.
propagate_frame :
    {S E : Type 0} (n : Dbnode S E)
    → ((propagate n).store ≡ n.store)
      × ((propagate n).uncommited_key ≡ n.uncommited_key)
      × ((propagate n).outgoing ≡ n.outgoing)
unfolding propagate
propagate_frame n = (ground arith, ground arith, ground arith)

module _ {S E : Type 0} (st : Store S) (laws : StoreLaws st) where
  -- The state after a put at the timestamp `t`.
  pub record IsPut (t : ℕ) (n b : Dbnode S E) : Type 0 where
    pub waits :
        laws.pending b.store b.uncommited_txid
        ≡ some (n.client_request.key, encode_timestamp_val t n.client_request.value)
    pub key : b.uncommited_key ≡ some n.client_request.key
    pub count : b.num_waiting_nodes ≡ decrement n.write_quorum_size
    pub reads : (j : Bytes) → st.get b.store j ≡ st.get n.store j
    pub silent : b.outgoing ≡ n.outgoing

  -- A coordinator with a quorum, whose store takes the write, puts it at the given timestamp: the
  -- write waits for its commit and no read shows it, the answers of all others of the quorum are
  -- awaited, and the client has no answer.
  pub put_all_pending :
      (t : ℕ) (n : Dbnode S E) (q : List (ℕ × Message))
      → n.quorum_members ≡ some q
      → IsWf n
      → (st.put n.store n.client_request.key (encode_timestamp_val t n.client_request.value)).1 ≢ 0
      → (b : Dbnode S E) × (put_all st t n ≡ ok b) × IsPut t n b
  unfolding put_all response_type
  put_all_pending t n q there w taken =
      let val = encode_timestamp_val t n.client_request.value in
      let p = st.put n.store n.client_request.key val in
      let n0 : Dbnode S E = record n {
        store = p.0;
        uncommited_txid = p.1;
        uncommited_key = some n.client_request.key;
      } in
      let (r, sent, rows) =
        request_members_ok (put_request n t) true _ (λ d. (refl, refl))
          (members_or_empty n.quorum_members) n0 w.nodes w.rows in
      (
        record n0 {
          request_repeater = r;
          quorum_members = some (insert n.id (marker node_unlock_request t) q);
          num_waiting_nodes = decrement n.write_quorum_size;
        },
        rw (sent, ◌>>=◌)
            (rw
              (
                set_member_ok (record n0 { request_repeater = r }) n.id
                    (marker node_unlock_request t) q there,
                ◌>>=◌,
              )
              refl),
        record {
          waits = laws.pending-put n.store n.client_request.key val taken;
          key = refl;
          count = refl;
          reads = laws.get-put n.store n.client_request.key val;
          silent = refl;
        },
      )

  -- The state after the commit of the value `val` under the key `k`.
  pub record IsCommitted (k val : Bytes) (n b : Dbnode S E) : Type 0 where
    pub reads :
        (j : Bytes) → st.get b.store j ≡ (if bytes_equal k j then some val else st.get n.store j)
    pub at_rest : b.current_mode ≡ idle
    pub key : b.uncommited_key ≡ none
    pub answered :
        b.outgoing
        ≡ n.outgoing
          ++ record {
            id = n.client_request.id;
            src = n.id;
            dest = n.client_request.src;
            demux_key = client_write_response;
            key = n.client_request.key;
            value = n.client_request.value;
            timestamp = (member n n.id).timestamp;
            ok = true;
          }
            ∷ []

  -- A coordinator whose put waits, and whose store accepts the commit, commits it: reads of its key
  -- show its value and other reads are as before, the client has a positive answer with the value and
  -- the timestamp of the put, as it stands in the quorum, and the node is idle.
  pub commit_all_shows :
      (n : Dbnode S E) (k val : Bytes)
      → IsWf n
      → n.uncommited_key ≡ some k
      → laws.pending n.store n.uncommited_txid ≡ some (k, val)
      → (st.commit n.store k n.uncommited_txid).1 ≡ true
      → (b : Dbnode S E) × (commit_all st n ≡ ok b) × IsCommitted k val n b
  unfolding commit_all propagate emit go_idle response_type
  commit_all_shows n k val w there waits accepted =
      let n1 : Dbnode S E = record n {
        store = (st.commit n.store k n.uncommited_txid).0;
        uncommited_key = none;
        uncommited_txid = 0;
      } in
      let (r, sent, rows) =
        request_members_ok (unlock_request n1 true) true _ (λ d. (refl, refl))
          (members_or_empty n.quorum_members) n1 w.nodes w.rows in
      let n2 : Dbnode S E = record n1 { request_repeater = r } in
      (
        go_idle (propagate (emit n2 (write_response n2))),
        rw there (rw accepted (rw (sent, ◌>>=◌) refl)),
        record {
          reads = λ j.
              rw (propagate_frame (emit n2 (write_response n2))).0
                (laws.get-commit n.store k val j n.uncommited_txid waits accepted);
          at_rest = refl;
          key = (propagate_frame (emit n2 (write_response n2))).1;
          answered = (propagate_frame (emit n2 (write_response n2))).2;
        },
      )
