-- ===== src/Elector/Ring/Election.antt =====
-- dbnode/elector/ring.go: what a round of `mainLoop` does to the token and to the leader.
use mathlib.Core.List.{append-nil}
use part_ii_project.Base.{
  ◌==◌, if◌then◌else◌, Bool-cases, if_holds, minus_one, increment, decrement, int_ltb, ◌>>=◌, ok, ℕ,
  ◌+◌, ◌^◌, ◌<◌, ◌≡◌, refl, sym, ap, ap₂, ◌∙◌, inl, inr, Bool, true, false, List, [], ◌∷◌, ◌++◌,
  map, arith,
}
use part_ii_project.Packet.{
  Message, no_message, same_type, iota, election_elect, election_ack, internal_timer_signal,
}
use part_ii_project.Elector.Ring.{
  Ring, ring_step, ring_tick, take_token, drop_leader, pass_token, ring_dispatch, serve_requests,
  forward_token, forward_requests, next_node,
}
use part_ii_project.Elector.Ring.Tokens.{
  AllShort, highest, without, token, add_id-token, highest_id-token, remove_id-token,
}

-- What it has sent then: the acknowledgement, the token, and the requests that were waiting.
abbrev pub sent_then : Bool → List ℕ → Message → Ring → List Message
sent_then due ids m r =
    ((r.outgoing
        ++ record no_message { src = r.id; dest = m.src; demux_key = election_ack; ok = true } ∷ [])
      ++ (if due
          then record m { src = r.id; dest = r.next_in_ring; value = token (ids ++ r.id ∷ []) } ∷ []
          else []))
    ++ map {A = Message} (λ q. record q { dest = highest minus_one (ids ++ r.id ∷ []) })
        (if int_ltb minus_one (highest minus_one (ids ++ r.id ∷ [])) then r.requests else [])

-- The state of a ring after it took a token with the numbers `ids`, where `due` says that its last token
-- was sent long enough ago.
pub record HasTaken (due : Bool) (ids : List ℕ) (m : Message) (r b : Ring) : Type 0 where
  pub leader : b.leader ≡ highest minus_one (ids ++ r.id ∷ [])
  pub value : b.token.value ≡ token (ids ++ r.id ∷ [])
  pub addressed : b.token.dest ≡ r.next_in_ring
  pub next : b.next_in_ring ≡ next_node r.n r.id
  pub sent : b.outgoing ≡ sent_then due ids m r

AllShort-snoc : (ids : List ℕ) (id : ℕ) → AllShort ids → id < 1000 → AllShort (ids ++ id ∷ [])
AllShort-snoc [] id a h = (h, tt)
AllShort-snoc (x ∷ xs) id a h = (a.0, AllShort-snoc xs id a.1 h)

forward_token_frame :
    (due : Bool) (r : Ring)
    → ((forward_token due r).leader ≡ r.leader)
      × ((forward_token due r).token ≡ r.token)
      × ((forward_token due r).n ≡ r.n)
      × ((forward_token due r).id ≡ r.id)
unfolding forward_token
forward_token_frame due r = (ground arith, ground arith, ground arith, ground arith)

serve_requests_frame :
    (r : Ring)
    → ((serve_requests r).leader ≡ r.leader)
      × ((serve_requests r).token ≡ r.token)
      × ((serve_requests r).next_in_ring ≡ r.next_in_ring)
unfolding serve_requests forward_requests
serve_requests_frame r = (ground arith, ground arith, ground arith)

-- The state with the token of `m` and this node's number, before it is sent.
with_token : Message → List ℕ → Ring → Ring
with_token m ids r = record r {
  outgoing =
      r.outgoing
      ++ record no_message { src = r.id; dest = m.src; demux_key = election_ack; ok = true } ∷ [];
  token = record m { value = token (ids ++ r.id ∷ []); src = r.id; dest = r.next_in_ring };
  leader = highest minus_one (ids ++ r.id ∷ []);
}

taken : Bool → Message → List ℕ → Ring → Ring
taken due m ids r = record (forward_token due (with_token m ids r)) {
  next_in_ring =
      next_node (forward_token due (with_token m ids r)).n
        (forward_token due (with_token m ids r)).id;
}

take_token_lem :
    (due : Bool) (m : Message) (ids : List ℕ) (r : Ring)
    → m.value ≡ token ids
    → AllShort ids
    → r.id < 1000
    → take_token due m r ≡ ok (taken due m ids r)
unfolding take_token taken with_token
take_token_lem due m ids r value short small =
    rw (value, add_id-token ids r.id small, ◌>>=◌)
      (rw (highest_id-token (ids ++ r.id ∷ []) (AllShort-snoc ids r.id short small), ◌>>=◌) refl)

taken_sent :
    (due : Bool) (m : Message) (ids : List ℕ) (r : Ring)
    → (serve_requests (taken due m ids r)).outgoing ≡ sent_then due ids m r
unfolding taken with_token serve_requests forward_requests forward_token
taken_sent true m ids r =
    elim (Bool-cases (int_ltb minus_one (highest minus_one (ids ++ r.id ∷ [])))) [
      | inl led ↦ rw led refl
      | inr alone ↦ rw alone (sym (append-nil _))
    ]
taken_sent false m ids r =
    elim (Bool-cases (int_ltb minus_one (highest minus_one (ids ++ r.id ∷ [])))) [
      | inl led ↦ rw led (
          ap
            (λ l.
              l
              ++ map {A = Message} (λ q. record q { dest = highest minus_one (ids ++ r.id ∷ []) })
                  r.requests)
            (sym (append-nil _)))
      | inr alone ↦ rw alone (sym (append-nil _ ∙ append-nil _))
    ]

taken-HasTaken :
    (due : Bool) (m : Message) (ids : List ℕ) (r : Ring)
    → HasTaken due ids m r (serve_requests (taken due m ids r))
unfolding taken with_token
taken-HasTaken due m ids r =
    let f = forward_token_frame due (with_token m ids r) in
    let s = serve_requests_frame (taken due m ids r) in
    record {
      leader = s.0 ∙ f.0;
      value = ap (λ t. t.value) (s.1 ∙ f.1);
      addressed = ap (λ t. t.dest) (s.1 ∙ f.1);
      next = s.2 ∙ ap₂ next_node f.2 f.3;
      sent = taken_sent due m ids r;
    }

-- A working node that gets a token with numbers of at most three digits adds its own to them, takes
-- the highest as the leader, acknowledges the token, sends it on to its next node if the last token was
-- sent long enough ago, and forwards the waiting requests to the leader. Its next node is then its
-- neighbour again.
pub elect_lem :
    (due : Bool) (m : Message) (ids : List ℕ) (r : Ring)
    → m.demux_key ≡ election_elect
    → m.value ≡ token ids
    → AllShort ids
    → r.id < 1000
    → r.disabled ≡ false
    → (b : Ring) × (ring_step due m r ≡ ok b) × HasTaken due ids m r b
unfolding ring_step ring_tick ring_dispatch same_type iota
elect_lem due m ids r type_eq value short small enabled =
    let r1 : Ring = record r { timeout_counter = increment r.timeout_counter } in
    let w = taken-HasTaken due m ids r1 in
    (
      serve_requests (taken due m ids r1),
      ground (arith, type_eq, enabled, take_token_lem due m ids r1 value short small),
      record {
        leader = w.leader;
        value = w.value;
        addressed = w.addressed;
        next = w.next;
        sent = w.sent;
      },
    )

-- The state after the leader was taken from the token.
without_leader : List ℕ → Ring → Ring
without_leader ids r = record r {
  token = record (r.token) { value = token (without ids r.leader) };
  leader = highest minus_one (without ids r.leader);
}

AllShort-without : (ids : List ℕ) (id : ℕ) → AllShort ids → AllShort (without ids id)
unfolding without
AllShort-without [] id a = tt
AllShort-without (x ∷ ids) id a = if_holds AllShort (x == id) a.1 (a.0, AllShort-without ids id a.1)

drop_leader_lem :
    (ids : List ℕ) (r : Ring)
    → r.token.value ≡ token ids
    → AllShort ids
    → r.leader ≡ decrement r.next_in_ring
    → drop_leader r ≡ ok (without_leader ids r)
unfolding drop_leader without_leader
drop_leader_lem ids r value short last = ground (
  arith,
  last,
  value,
  remove_id-token ids r.leader short,
  highest_id-token (without ids r.leader) (AllShort-without ids r.leader short),
)

pass_token_frame :
    (due : Bool) (r : Ring)
    → ((pass_token due r).leader ≡ r.leader)
      × ((pass_token due r).token.value ≡ r.token.value)
      × ((pass_token due r).next_in_ring ≡ next_node r.n r.next_in_ring)
unfolding pass_token forward_token
pass_token_frame due r = (ground arith, ground arith, ground arith)

-- The timer of a working node ran out while the leader was the node that was asked last: the first
-- occurrence of the leader's number is taken from the token, and the highest of what is left leads.
pub timeout_lem :
    (due : Bool) (m : Message) (ids : List ℕ) (r : Ring)
    → m.demux_key ≡ internal_timer_signal
    → m.id ≡ r.timeout_counter
    → r.token.value ≡ token ids
    → AllShort ids
    → r.leader ≡ decrement r.next_in_ring
    → r.disabled ≡ false
    → (b : Ring) × (ring_step due m r ≡ ok b)
      × (b.leader ≡ highest minus_one (without ids r.leader))
      × (b.token.value ≡ token (without ids r.leader))
      × (b.next_in_ring ≡ next_node r.n r.next_in_ring)
unfolding ring_step ring_tick ring_dispatch same_type iota without_leader
timeout_lem due m ids r type_eq timed value short last enabled =
    let p = pass_token due (without_leader ids r) in
    let b : Ring = record p { timers = p.timers ++ p.timeout_counter ∷ [] } in
    let f = pass_token_frame due (without_leader ids r) in
    let s = serve_requests_frame b in
    (
      serve_requests b,
      ground (arith, type_eq, enabled, timed, drop_leader_lem ids r value short last),
      s.0 ∙ f.0,
      ap (λ t. t.value) s.1 ∙ f.1,
      s.2 ∙ f.2,
    )

-- The timer never takes the number of the last node of the ring from the token: whenever it runs out
-- at a working node whose next node is one of the ring, that leader and the token's value stay.
pub last_leader_stays :
    (due : Bool) (m : Message) (r : Ring)
    → m.demux_key ≡ internal_timer_signal
    → r.leader + 1 ≡ r.n
    → r.next_in_ring < r.n
    → r.n < 2 ^ 64
    → r.disabled ≡ false
    → (b : Ring) × (ring_step due m r ≡ ok b)
      × (b.leader ≡ r.leader)
      × (b.token.value ≡ r.token.value)
unfolding ring_step ring_tick ring_dispatch drop_leader same_type iota decrement
last_leader_stays due m r type_eq last next small enabled =
    elim (Bool-cases (m.id == r.timeout_counter)) [
      | inl out ↦
          let p = pass_token due r in
          let b : Ring = record p { timers = p.timers ++ p.timeout_counter ∷ [] } in
          let f = pass_token_frame due r in
          let s = serve_requests_frame b in
          (
            serve_requests b,
            ground (arith, type_eq, enabled, out, last, next, small),
            s.0 ∙ f.0,
            ap (λ t. t.value) s.1 ∙ f.1,
          )
      | inr early ↦
          let b : Ring = record r { timers = r.timers ++ r.timeout_counter ∷ [] } in
          let s = serve_requests_frame b in
          (serve_requests b, ground (arith, type_eq, enabled, early), s.0, ap (λ t. t.value) s.1)
    ]
