-- ===== src/Elector/Bully/Requests.antt =====
-- dbnode/elector/bully.go: when requests for the leader are forwarded.
use part_ii_project.Base.{
  All, minus_one, ℕ, ◌≡◌, refl, ◌∙◌, ◌≢◌, ◌⊎◌, inl, inr, false, List, [], ◌∷◌, ◌++◌, map, arith,
}
use part_ii_project.Packet.{
  Message, iota, same_type, Messagetype, election_elect, election_coordinator, election_ack,
}
use part_ii_project.Elector.Bully.{
  Bully, from_node, broadcast_heartbeat, become_coordinator, start_election, forward_requests,
  bully_tick, bully_dispatch, bully_step,
}
use part_ii_project.Elector.Bully.Timers.{run}

become_coordinator_requests : (b : Bully) → (become_coordinator b).requests ≡ b.requests
unfolding become_coordinator
become_coordinator_requests b = refl

start_election_requests : (b : Bully) → (start_election b).requests ≡ b.requests
unfolding start_election
start_election_requests b = ground arith

bully_tick_requests : (m : Message) (b : Bully) → (bully_tick m b).requests ≡ b.requests
unfolding bully_tick
bully_tick_requests m b = ground (arith, become_coordinator_requests b, start_election_requests b)

dispatch_requests :
    (t : Messagetype) (m : Message) (b : Bully)
    → t ≢ election_coordinator
    → (bully_dispatch t m b).requests ≡ b.requests
unfolding bully_dispatch broadcast_heartbeat
dispatch_requests election_elect m b other =
    start_election_requests
      (record b { outgoing = b.outgoing ++ from_node election_ack b.id m.src ∷ [] })
dispatch_requests election_coordinator m b other = absurd (other refl)
dispatch_requests _ m b other = ground arith

step_requests :
    (m : Message) (b : Bully)
    → m.demux_key ≢ election_coordinator
    → (bully_step m b).requests ≡ b.requests
unfolding bully_step
step_requests m b other = ground (
  arith,
  dispatch_requests m.demux_key m (bully_tick m b) other,
  bully_tick_requests m b,
  start_election_requests
      (record b { disabled = false; timeout_counter = 0; timers = b.timers ++ 0 ∷ [] }),
)

-- A message that announces no leader.
abbrev pub IsNoAnnouncement : Message → Type 0
IsNoAnnouncement m = m.demux_key ≢ election_coordinator

-- Whatever rounds a node makes, as long as no announcement of a leader comes in, the requests that
-- wait for a leader are kept and not forwarded: also when the node itself becomes the leader.
pub requests_wait :
    (ms : List Message) (b : Bully) → All IsNoAnnouncement ms → (run ms b).requests ≡ b.requests
unfolding run
requests_wait [] b h = refl
requests_wait (m ∷ ms) b h = requests_wait ms (bully_step m b) h.1 ∙ step_requests m b h.0

abbrev addressed_to : ℕ → Message → Message
addressed_to dest r = record r { dest = dest }

-- A working node in an election or under the same leader follows the sender of an announcement, and
-- sends it all requests that wait, in their order, unchanged but for their destination.
pub announcement_forwards :
    (m : Message) (b : Bully)
    → m.demux_key ≡ election_coordinator
    → b.disabled ≡ false
    → (b.leader ≡ m.src) ⊎ (b.leader ≡ minus_one)
    → ((bully_step m b).leader ≡ m.src)
      × ((bully_step m b).requests ≡ [])
      × ((bully_step m b).outgoing ≡ b.outgoing ++ map (addressed_to m.src) b.requests)
unfolding bully_step bully_tick bully_dispatch same_type iota forward_requests
announcement_forwards m b type_eq enabled (inl e) = (
  ground (arith, type_eq, enabled, e),
  ground (arith, type_eq, enabled, e),
  ground (arith, type_eq, enabled, e),
)
announcement_forwards m b type_eq enabled (inr e) = (
  ground (arith, type_eq, enabled, e),
  ground (arith, type_eq, enabled, e),
  ground (arith, type_eq, enabled, e),
)
