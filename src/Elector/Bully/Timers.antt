-- ===== src/Elector/Bully/Timers.antt =====
-- dbnode/elector/bully.go: which signals of the internal timer end a round with an election.
use part_ii_project.Base.{
  length, All, increment, ◌+◌, ◌%◌, ◌^◌, ◌<◌, ◌≡◌, refl, ◌∙◌, ◌≢◌, false, List, [], ◌∷◌, ◌++◌,
  arith,
}
use part_ii_project.Packet.{
  Message, iota, same_type, Messagetype, internal_timer_signal, election_elect,
  election_coordinator, election_ack, control_fail, control_recover,
}
use part_ii_project.Elector.Bully.{
  Bully, from_node, broadcast_heartbeat, become_coordinator, start_election, forward_requests,
  bully_tick, bully_dispatch, bully_step,
}

-- The rounds for a sequence of messages.
unfoldable pub run : List Message → Bully → Bully
run [] b = b
run (m ∷ ms) b = run ms (bully_step m b)

-- A message that is no signal of the timer and no simulated failure or recovery.
abbrev pub IsOrdinary : Message → Type 0
IsOrdinary m =
    (same_type m.demux_key internal_timer_signal ≡ false)
    × (same_type m.demux_key control_fail ≡ false)
    × (same_type m.demux_key control_recover ≡ false)

become_coordinator_frame :
    (b : Bully)
    → ((become_coordinator b).disabled ≡ b.disabled)
      × ((become_coordinator b).timeout_counter ≡ b.timeout_counter)
      × ((become_coordinator b).timers ≡ b.timers)
unfolding become_coordinator
become_coordinator_frame b = (refl, refl, refl)

start_election_frame :
    (b : Bully)
    → ((start_election b).disabled ≡ b.disabled)
      × ((start_election b).timeout_counter ≡ b.timeout_counter)
      × ((start_election b).timers ≡ b.timers)
unfolding start_election
start_election_frame b = (ground arith, ground arith, ground arith)

dispatch_frame :
    (t : Messagetype) (m : Message) (b : Bully)
    → ((bully_dispatch t m b).disabled ≡ b.disabled)
      × ((bully_dispatch t m b).timeout_counter ≡ b.timeout_counter)
unfolding bully_dispatch forward_requests broadcast_heartbeat
dispatch_frame election_elect m b =
    let b1 : Bully = record b { outgoing = b.outgoing ++ from_node election_ack b.id m.src ∷ [] } in
    let f = start_election_frame b1 in (f.0, f.1)
dispatch_frame election_coordinator m b =
    let f = start_election_frame b in (ground arith, ground arith)
dispatch_frame _ m b = (ground arith, ground arith)

ordinary_step :
    (m : Message) (b : Bully)
    → IsOrdinary m
    → b.disabled ≡ false
    → ((bully_step m b).disabled ≡ false)
      × ((bully_step m b).timeout_counter ≡ increment b.timeout_counter)
unfolding bully_step bully_tick
ordinary_step m b h enabled =
    let f =
      dispatch_frame m.demux_key m (record b { timeout_counter = increment b.timeout_counter }) in
    (ground (arith, h.0, h.1, h.2), ground (arith, h.0, h.1, h.2))

ordinary_run :
    (ms : List Message) (b : Bully)
    → All IsOrdinary ms
    → b.disabled ≡ false
    → b.timeout_counter < 2 ^ 64
    → ((run ms b).disabled ≡ false)
      × ((run ms b).timeout_counter ≡ (b.timeout_counter + length ms) % 2 ^ 64)
unfolding run increment
ordinary_run [] b h enabled small = (enabled, omega arith)
ordinary_run (m ∷ ms) b h enabled small =
    let (e, c) = ordinary_step m b h.0 enabled in
    let (f, d) = ordinary_run ms (bully_step m b) h.1 e (omega arith) in (f, omega arith)

run-append : (ms ns : List Message) (b : Bully) → run (ms ++ ns) b ≡ run ns (run ms b)
unfolding run
run-append [] ns b = refl
run-append (m ∷ ms) ns b = run-append ms ns (bully_step m b)

ignored :
    (signal : Message) (b : Bully)
    → signal.demux_key ≡ internal_timer_signal
    → b.disabled ≡ false
    → signal.id ≢ b.timeout_counter
    → run (signal ∷ []) b ≡ record b { timers = b.timers ++ b.timeout_counter ∷ [] }
unfolding run bully_step bully_tick bully_dispatch same_type iota
ignored signal b type_eq enabled other = ground (arith, type_eq, enabled, other)

-- A working node took the timer's count, and then at least one message that is neither a signal of
-- the timer nor a simulated failure or recovery, be it a heartbeat of its own. The signal that the timer
-- then sends for that count only sets the timer again: no election starts or ends.
pub stale_signal :
    (ms : List Message) (m signal : Message) (b : Bully)
    → All IsOrdinary (m ∷ ms)
    → length ms + 1 < 2 ^ 64
    → b.disabled ≡ false
    → b.timeout_counter < 2 ^ 64
    → signal.demux_key ≡ internal_timer_signal
    → signal.id ≡ b.timeout_counter
    → run ((m ∷ ms) ++ signal ∷ []) b ≡ record (run (m ∷ ms) b) {
      timers = (run (m ∷ ms) b).timers ++ (run (m ∷ ms) b).timeout_counter ∷ [];
    }
stale_signal ms m signal b h few enabled small type_eq counted =
    let r = ordinary_run (m ∷ ms) b h enabled small in
    run-append (m ∷ ms) (signal ∷ []) b ∙ ignored signal (run (m ∷ ms) b) type_eq r.0 (omega arith)
