-- ===== src/Elector/Ring.antt =====
-- dbnode/elector/ring.go: an elector that passes a token with the numbers of working nodes around a
-- ring. `outgoing` is what has been sent on the channel of that name, `requests` what waits on
-- `requestsToForward`, `timers` the counters that `startInternalTimer` has taken, `answers` what has
-- been sent on `leaderQueryResChan`, and `timeout_counter` the local variable of the main loop. Whether
-- the last token was sent long enough ago is an argument of a step. The bytes of a token are values:
-- that the slices of two nodes may share an array is not modelled.
pub mod Ids
pub mod Tokens
pub mod Election
use part_ii_project.Base.{
  ◌==◌, if◌then◌else◌, minus_one, increment, decrement, int_ltb, ◌>>=◌, Outcome, ok, ℕ, ◌+◌, Bool,
  true, false, ◌&&◌, ◌||◌, List, [], ◌∷◌, ◌++◌, map,
}
use part_ii_project.Packet.{
  Message, Messagetype, no_message, same_type, election_elect, election_ack, control_fail,
  control_recover, internal_timer_signal, internal_leader_query,
}
use Ids.{add_id, remove_id, highest_id}

pub record Ring : Type 0 where
  pub id : ℕ
  pub n : ℕ
  pub outgoing : List Message
  pub leader : ℕ
  pub next_in_ring : ℕ
  pub token : Message
  pub requests : List Message
  pub disabled : Bool
  pub timers : List ℕ
  pub answers : List ℕ
  pub timeout_counter : ℕ

-- The node after the one with number `id`, in a ring of `n`.
unfoldable pub next_node : ℕ → ℕ → ℕ
next_node n id = if id + 1 == n then 0 else id + 1

-- `newRing`
unfoldable pub new_ring : ℕ → ℕ → Ring
unfolding next_node
new_ring id n = record {
  id = id;
  n = n;
  outgoing = [];
  leader = minus_one;
  next_in_ring = next_node n id;
  token = record no_message {
    id = minus_one;
    src = id;
    dest = next_node n id;
    demux_key = election_elect;
    ok = true;
  };
  requests = [];
  disabled = false;
  timers = [];
  answers = [];
  timeout_counter = 0;
}

-- `forwardToken`
unfoldable pub forward_token : Bool → Ring → Ring
forward_token due r = if due then record r { outgoing = r.outgoing ++ r.token ∷ [] } else r

-- The start of `mainLoop`: the last node makes the first token. No token has been sent before.
unfoldable pub start_loop : Ring → Outcome Ring
unfolding forward_token
start_loop r =
    let r1 : Ring = record r { timers = r.timers ++ 0 ∷ [] } in
    if r.id + 1 == r.n
    then (do
      v ← add_id r.token.value r.id
      ok (forward_token true (record r1 { token = record (r1.token) { value = v } })))
    else ok r1

-- A request that is readdressed to the leader.
abbrev to_leader : Ring → Message → Message
to_leader r m = record m { dest = r.leader }

-- `forwardRequests`
unfoldable pub forward_requests : Ring → Ring
forward_requests r = record r {
  requests = [];
  outgoing = r.outgoing ++ map (to_leader r) r.requests;
}

-- A leader just before the next node has not answered, and is taken from the token.
unfoldable pub drop_leader : Ring → Outcome Ring
drop_leader r =
    if r.leader == decrement r.next_in_ring
    then (do
      v ← remove_id r.token.value r.leader
      l ← highest_id v
      ok (record r { token = record (r.token) { value = v }; leader = l }))
    else ok r

-- The token goes to the next node, and after that to the one behind it.
unfoldable pub pass_token : Bool → Ring → Ring
unfolding forward_token next_node
pass_token due r =
    let r1 =
      forward_token due
        (record r { token = record (r.token) { src = r.id; dest = r.next_in_ring } }) in
    record r1 { next_in_ring = next_node r1.n r1.next_in_ring }

-- The timer: if no other message has come since it was set, the token is sent on.
unfoldable pub ring_tick : Bool → Message → Ring → Outcome Ring
unfolding drop_leader pass_token
ring_tick due msg r =
    if same_type msg.demux_key internal_timer_signal
    then (do
      r1 ←
          if msg.id == r.timeout_counter
          then (do r0 ← drop_leader r; ok (pass_token due r0))
          else ok r
      ok (record r1 { timers = r1.timers ++ r1.timeout_counter ∷ [] }))
    else ok (record r { timeout_counter = increment r.timeout_counter })

-- `case packet.ElectionElect`: an acknowledgement, and the token with this node's number.
unfoldable pub take_token : Bool → Message → Ring → Outcome Ring
unfolding forward_token next_node
take_token due msg r = do
  let ack : Message = record no_message {
    src = r.id;
    dest = msg.src;
    demux_key = election_ack;
    ok = true;
  }
  v ← add_id msg.value r.id
  l ← highest_id v
  let r1 = forward_token due (record r {
    outgoing = r.outgoing ++ ack ∷ [];
    token = record msg { value = v; src = r.id; dest = r.next_in_ring };
    leader = l;
  })
  ok (record r1 { next_in_ring = next_node r1.n r1.id })

-- The end of a round: requests go to a leader that is known.
unfoldable pub serve_requests : Ring → Ring
unfolding forward_requests
serve_requests r = if int_ltb minus_one r.leader then forward_requests r else r

-- The `switch` on the type of a message, and the end of the round.
unfoldable pub ring_dispatch : Messagetype → Bool → Message → Ring → Outcome Ring
unfolding take_token serve_requests
ring_dispatch election_elect due msg r = do r1 ← take_token due msg r; ok (serve_requests r1)
ring_dispatch election_ack due msg r = ok r
ring_dispatch internal_leader_query due msg r =
    ok (serve_requests (record r { answers = r.answers ++ r.leader ∷ [] }))
ring_dispatch _ due msg r = ok (serve_requests r)

-- One round of `mainLoop`.
unfoldable pub ring_step : Bool → Message → Ring → Outcome Ring
unfolding ring_tick ring_dispatch
ring_step due msg r =
    if r.disabled || same_type msg.demux_key control_recover
    then ok (
        if r.disabled && same_type msg.demux_key control_recover
        then record r { disabled = false; timeout_counter = 0; timers = r.timers ++ 0 ∷ [] }
        else r)
    else if same_type msg.demux_key control_fail
    then ok (record r { disabled = true; leader = minus_one })
    else (do r1 ← ring_tick due msg r; ring_dispatch msg.demux_key due msg r1)
