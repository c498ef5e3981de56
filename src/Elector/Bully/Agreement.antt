-- ===== src/Elector/Bully/Agreement.antt =====
-- dbnode/elector/bully.go: how the other nodes come to follow the last one.
use part_ii_project.Base.{
  ltb, leb, ◌==◌, if◌then◌else◌, ==_iff, Bool-cases, minus_one, increment, ℕ, zero, suc, ◌+◌, ◌<◌,
  ◌≡◌, refl, sym, ap, ◌∙◌, ◌≢◌, ◌⊎◌, inl, inr, false, ◌&&◌, ◌||◌, List, [], ◌∷◌, ◌++◌, arith,
}
use part_ii_project.Packet.{
  Message, iota, same_type, election_coordinator, no_message, internal_heartbeat,
}
use part_ii_project.Elector.Bully.{
  Bully, from_node, to_others, become_coordinator, start_election, forward_requests, bully_tick,
  bully_dispatch, bully_step, broadcast_heartbeat,
}

-- What the network brings to a node: those of the messages that are addressed to it.
unfoldable pub deliver : List Message → Bully → Bully
deliver [] b = b
deliver (m ∷ ms) b = if m.dest == b.id then deliver ms (bully_step m b) else deliver ms b

-- What an announcement of `s` does at a node.
abbrev announce : ℕ → Bully → Bully
announce s b = bully_step (from_node election_coordinator s b.id) b

become_coordinator_id : (b : Bully) → (become_coordinator b).id ≡ b.id
unfolding become_coordinator
become_coordinator_id b = refl

start_election_id : (b : Bully) → (start_election b).id ≡ b.id
unfolding start_election
start_election_id b = ground (arith)

announce_id : (s : ℕ) (b : Bully) → (announce s b).id ≡ b.id
unfolding bully_step bully_tick bully_dispatch same_type iota from_node forward_requests
announce_id s b =
    let f = start_election_id (record b { timeout_counter = increment b.timeout_counter }) in
    ground (
      arith,
      start_election_id
          (record b { disabled = false; timeout_counter = 0; timers = b.timers ++ 0 ∷ [] }),
    )

deliver-to_others :
    (k i s : ℕ) (b : Bully)
    → s ≢ b.id
    → deliver (to_others k i s) b ≡ (if leb i b.id && ltb b.id (i + k) then announce s b else b)
unfolding deliver to_others
deliver-to_others zero i s b ne = ground arith
deliver-to_others (suc k) i s b ne = elim (Bool-cases (i == b.id)) [
  | inl here ↦
      let e : i ≡ b.id = (==_iff i b.id).0 here in
      ground (
        arith,
        e,
        ap (λ j. bully_step (from_node election_coordinator s j) b) e,
        announce_id s b,
        deliver-to_others k (i + 1) s (announce s b),
      )
  | inr there ↦ ground (arith, there, deliver-to_others k (i + 1) s b ne)
]

-- The heartbeat of a leader announces it to every other node, and to no other.
deliver-heartbeat :
    (s n : ℕ) (b : Bully) → s ≢ b.id → b.id < n → deliver (to_others n 0 s) b ≡ announce s b
deliver-heartbeat s n b ne small = ground (arith, deliver-to_others n 0 s b ne)

-- After an announcement a node follows its sender, or has started an election.
announced :
    (s : ℕ) (b : Bully)
    → b.disabled ≡ false
    → b.id + 1 ≢ b.n
    → ((announce s b).disabled ≡ false)
      × ((announce s b).n ≡ b.n)
      × (((announce s b).leader ≡ s) ⊎ ((announce s b).leader ≡ minus_one))
unfolding bully_step bully_tick bully_dispatch same_type iota from_node forward_requests
    start_election
announced s b enabled inner = elim (Bool-cases (b.leader == s || b.leader == minus_one)) [
  | inl e ↦ (ground (arith, e), ground (arith, e), inl (ground (arith, e)))
  | inr e ↦ (ground (arith, e), ground (arith, e), inr (ground (arith, e)))
]

followed :
    (s : ℕ) (b : Bully)
    → b.disabled ≡ false
    → (b.leader ≡ s) ⊎ (b.leader ≡ minus_one)
    → (announce s b).leader ≡ s
unfolding bully_step bully_tick bully_dispatch same_type iota from_node forward_requests
followed s b enabled (inl e) = ground (arith, e)
followed s b enabled (inr e) = ground (arith, e)

-- The heartbeat of a working leader sends announcements, and any other working node of the system
-- but the last, whichever leader it had, follows the leader after it got two such heartbeats.
pub two_heartbeats :
    (l b : Bully)
    → l.disabled ≡ false
    → l.leader ≡ l.id
    → b.disabled ≡ false
    → b.n ≡ l.n
    → b.id + 1 < l.n
    → b.id ≢ l.id
    → (sent : List Message) × ((bully_step
          (record no_message { demux_key = internal_heartbeat })
          l).outgoing
        ≡ l.outgoing ++ sent)
      × ((deliver sent (deliver sent b)).leader ≡ l.id)
unfolding bully_step bully_tick bully_dispatch same_type iota broadcast_heartbeat
two_heartbeats l b enabled leads working same inner other =
    let (d, n, f) = announced l.id b working (omega arith) in
    let once = deliver-heartbeat l.id l.n b (λ e. other (sym e)) (omega arith) in
    let id = announce_id l.id b in
    let twice =
      deliver-heartbeat l.id l.n (announce l.id b) (λ e. other (sym (e ∙ id)))
        (omega (arith, id)) in
    (
      to_others l.n 0 l.id,
      ground (arith, enabled, leads),
      ap (λ c. (deliver (to_others l.n 0 l.id) c).leader) once
          ∙ ap (λ c. c.leader) twice
          ∙ followed l.id (announce l.id b) d f,
    )
