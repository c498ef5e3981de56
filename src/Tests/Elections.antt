-- ===== src/Tests/Elections.antt =====
-- The ring and the bully elector at concrete nodes and messages.
use part_ii_project.Base.{decrement, ok, ℕ, ◌≡◌, refl, true, List, [], ◌∷◌, ◌++◌, arith}
use part_ii_project.Elector.Bully.{
  Bully, new_bully, broadcast_heartbeat, become_coordinator, start_election, bully_tick,
  bully_dispatch, bully_step, bully_forward,
}
use part_ii_project.Elector.Bully.Timers.{run, stale_signal}
use part_ii_project.Elector.Bully.Agreement.{deliver, two_heartbeats}
use part_ii_project.Elector.Bully.Requests.{requests_wait}
use part_ii_project.Packet.{
  Message, no_message, election_elect, internal_timer_signal, iota, same_type, client_write_request,
  internal_heartbeat,
}
use part_ii_project.Elector.Ring.{Ring, new_ring, ring_step}
use part_ii_project.Elector.Ring.Tokens.{token}
use part_ii_project.Elector.Ring.Election.{HasTaken, elect_lem, last_leader_stays}

abbrev passed : Message
passed = record no_message {
  src = 1;
  dest = 2;
  demux_key = election_elect;
  value = token (4 ∷ 1 ∷ []);
  ok = true;
}

elect_lem_example :
    (b : Ring) × (ring_step true passed (new_ring 2 5) ≡ ok b)
    × HasTaken true (4 ∷ 1 ∷ []) passed (new_ring 2 5) b
unfolding new_ring
elect_lem_example =
    elect_lem true passed (4 ∷ 1 ∷ []) (new_ring 2 5) refl refl (omega arith, (omega arith, tt))
      (omega arith) refl

abbrev waits_for : ℕ → ℕ → Ring
waits_for leader next = record (new_ring 2 5) {
  leader = leader;
  next_in_ring = next;
  token = record passed { value = token (leader ∷ 1 ∷ 2 ∷ []); src = 2; dest = leader };
}

abbrev timer_signal : Message
timer_signal = record no_message { demux_key = internal_timer_signal }

last_leader_stays_example :
    (b : Ring) × (ring_step true timer_signal (waits_for 4 0) ≡ ok b)
    × (b.leader ≡ 4)
    × (b.token.value ≡ token (4 ∷ 1 ∷ 2 ∷ []))
unfolding new_ring
last_leader_stays_example =
    last_leader_stays true timer_signal (waits_for 4 0) refl refl (omega arith) (omega arith) refl

abbrev follower : Bully
follower = new_bully 1 5

abbrev own_heartbeat : Message
own_heartbeat = record no_message { demux_key = internal_heartbeat }

-- The first signal of the timer, for the count that it took at the start.
stale_signal_example :
    run (own_heartbeat ∷ timer_signal ∷ []) follower ≡ record (run (own_heartbeat ∷ []) follower) {
      timers =
          (run (own_heartbeat ∷ []) follower).timers
          ++ (run (own_heartbeat ∷ []) follower).timeout_counter ∷ [];
    }
unfolding new_bully same_type iota
stale_signal_example =
    stale_signal [] own_heartbeat timer_signal follower ((refl, refl, refl), tt) (omega arith) refl
      (omega arith) refl refl

-- A leader that is not the last node, and a node that follows another.
two_heartbeats_example :
    (sent : List Message) × ((bully_step
        (record no_message { demux_key = internal_heartbeat })
        (record (new_bully 3 5) { leader = 3 })).outgoing
      ≡ sent)
    × ((deliver sent (deliver sent follower)).leader ≡ 3)
unfolding new_bully
two_heartbeats_example =
    two_heartbeats (record (new_bully 3 5) { leader = 3 }) follower refl refl refl refl
      (omega arith) (λ e. absurd (omega arith))

-- A node that times out twice in an election leads, and its request waits.
abbrev asking : Bully
asking =
    bully_forward (new_bully 1 5) (record no_message { id = 7; demux_key = client_write_request })

requests_wait_example :
    (run (timer_signal ∷ timer_signal ∷ own_heartbeat ∷ []) asking).requests ≡ asking.requests
requests_wait_example =
    requests_wait (timer_signal ∷ timer_signal ∷ own_heartbeat ∷ []) asking
      ((λ e. cc), ((λ e. cc), ((λ e. cc), tt)))

asking_leads : (run (timer_signal ∷ timer_signal ∷ own_heartbeat ∷ []) asking).leader ≡ 1
unfolding run bully_step bully_tick bully_dispatch same_type iota new_bully bully_forward
    start_election become_coordinator broadcast_heartbeat decrement
asking_leads = refl
