-- ===== src/Elector/Bully.antt =====
-- dbnode/elector/bully.go: an elector in which the working node with the highest number leads.
-- `outgoing` is what has been sent on the channel of that name, `requests` what waits on
-- `requestsToForward`, `timers` the counters that have been sent on `internalTimer`, `answers` what has
-- been sent on `leaderQueryResChan`, and `timeout_counter` the local variable of the main loop.
pub mod Timers
pub mod Requests
pub mod Agreement
use part_ii_project.Base.{
  ◌==◌, if◌then◌else◌, minus_one, increment, decrement, ℕ, zero, suc, ◌+◌, ◌-◌, Bool, true, false,
  ◌&&◌, ◌||◌, List, [], ◌∷◌, ◌++◌, map,
}
use part_ii_project.Packet.{
  Message, same_type, no_message, Messagetype, internal_timer_signal, internal_heartbeat,
  internal_leader_query, election_elect, election_coordinator, election_ack, control_fail,
  control_recover,
}

pub record Bully : Type 0 where
  pub id : ℕ
  pub n : ℕ
  pub outgoing : List Message
  pub leader : ℕ
  pub maybe_leader : Bool
  pub requests : List Message
  pub disabled : Bool
  pub timers : List ℕ
  pub answers : List ℕ
  pub timeout_counter : ℕ

-- `newBully`, and the start of `mainLoop`.
unfoldable pub new_bully : ℕ → ℕ → Bully
new_bully id n = record {
  id = id;
  n = n;
  outgoing = [];
  leader = decrement n;
  maybe_leader = false;
  requests = [];
  disabled = false;
  timers = 0 ∷ [];
  answers = [];
  timeout_counter = 0;
}

-- A message of the given type from this node.
unfoldable pub from_node : Messagetype → ℕ → ℕ → Message
from_node t id dest = record no_message { src = id; dest = dest; demux_key = t; ok = true }

-- The loops of `becomeCoordinator` and `broadcastHeartbeat`, from the node `i` on; `k` are left.
unfoldable pub to_others : ℕ → ℕ → ℕ → List Message
unfolding from_node
to_others zero i id = []
to_others (suc k) i id =
    let rest = to_others k (i + 1) id in
    if i == id then rest else from_node election_coordinator id i ∷ rest

-- The loop of `startElection`, in the same way.
unfoldable pub to_higher : ℕ → ℕ → ℕ → List Message
unfolding from_node
to_higher zero i id = []
to_higher (suc k) i id = from_node election_elect id i ∷ to_higher k (i + 1) id

-- `broadcastHeartbeat`
unfoldable pub broadcast_heartbeat : Bully → Bully
broadcast_heartbeat b = record b { outgoing = b.outgoing ++ to_others b.n 0 b.id }

-- `becomeCoordinator`
unfoldable pub become_coordinator : Bully → Bully
become_coordinator b = record b { leader = b.id; outgoing = b.outgoing ++ to_others b.n 0 b.id }

-- `startElection`
unfoldable pub start_election : Bully → Bully
unfolding become_coordinator
start_election b =
    let b1 : Bully = record b {
      maybe_leader = true;
      leader = minus_one;
      outgoing = b.outgoing ++ to_higher (b.n - (b.id + 1)) (b.id + 1) b.id;
    } in
    if b.id + 1 == b.n then become_coordinator b1 else b1

-- A request that is readdressed to the leader.
abbrev to_leader : Bully → Message → Message
to_leader b m = record m { dest = b.leader }

-- `forwardRequests`
unfoldable pub forward_requests : Bully → Bully
forward_requests b = record b {
  requests = [];
  outgoing = b.outgoing ++ map (to_leader b) b.requests;
}

-- The timer: if no other message has come since it was set, an election ends or starts.
unfoldable pub bully_tick : Message → Bully → Bully
bully_tick m b =
    if same_type m.demux_key internal_timer_signal
    then (let b1 =
          if m.id == b.timeout_counter
          then (if b.leader == minus_one && b.maybe_leader
              then become_coordinator b
              else start_election b)
          else b in
        record b1 { timers = b1.timers ++ b1.timeout_counter ∷ [] })
    else record b { timeout_counter = increment b.timeout_counter }

-- The `switch` on the type of a message.
unfoldable pub bully_dispatch : Messagetype → Message → Bully → Bully
bully_dispatch election_elect m b =
    start_election (record b { outgoing = b.outgoing ++ from_node election_ack b.id m.src ∷ [] })
bully_dispatch election_ack m b = record b { maybe_leader = false }
bully_dispatch election_coordinator m b =
    if b.leader == m.src || b.leader == minus_one
    then forward_requests (record b { leader = m.src })
    else start_election b
bully_dispatch internal_heartbeat m b = if b.leader == b.id then broadcast_heartbeat b else b
bully_dispatch internal_leader_query m b = record b { answers = b.answers ++ b.leader ∷ [] }
bully_dispatch _ m b = b

-- One round of `mainLoop`.
unfoldable pub bully_step : Message → Bully → Bully
unfolding bully_tick bully_dispatch
bully_step m b =
    if b.disabled || same_type m.demux_key control_recover
    then (if b.disabled && same_type m.demux_key control_recover
        then start_election
            (record b { disabled = false; timeout_counter = 0; timers = b.timers ++ 0 ∷ [] })
        else b)
    else if same_type m.demux_key control_fail
    then record b { disabled = true }
    else bully_dispatch m.demux_key m (bully_tick m b)

-- `ForwardToLeader`
unfoldable pub bully_forward : Bully → Message → Bully
bully_forward b m = record b { requests = b.requests ++ m ∷ [] }
