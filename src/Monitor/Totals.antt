-- ===== src/Monitor/Totals.antt =====
-- net/monitor.go: what the counts add up to.
use part_ii_project.Base.{
  ◌==◌, if◌then◌else◌, length, lookup, insert, lookup-insert, Key, minus_one, increment, ◌>>=◌,
  Outcome, ok, ℕ, ◌+◌, ◌^◌, ◌<◌, ◌≡◌, refl, ap, ◌∙◌, some, List, [], ◌∷◌, arith, nat_key,
}
use part_ii_project.Packet.{Messagetype, type_key}
use part_ii_project.Monitor.{
  Monitor, new_monitor, count_in, next_second, log_type, count_states, poll_nodes,
}

module _ {K : Type 0} ⦃e : Key K⦄ where
  -- The sum of the counts.
  unfoldable pub total : List (K × ℕ) → ℕ
  total [] = 0
  total ((k, count) ∷ row) = count + total row

  total-count_in :
      (k : K) (row : List (K × ℕ)) → total row < minus_one → total (count_in k row) ≡ total row + 1
  unfolding total count_in insert lookup increment
  total-count_in k [] h = omega arith
  total-count_in k ((j, count) ∷ row) h = ground (arith, total-count_in k row)

total-count_states :
    (txids : List ℕ) (row : List (ℕ × ℕ))
    → total row + length txids < 2 ^ 64
    → total (count_states txids row) ≡ total row + length txids
unfolding count_states
total-count_states [] row h = omega arith
total-count_states (txid ∷ txids) row h =
    let c = total-count_in txid row (omega arith) in
    omega (arith, total-count_states txids (count_in txid row) (omega arith))

-- The counts of a poll add up to the number of nodes that were asked, and those of other polls stay.
pub poll_nodes-total :
    (txids : List ℕ) (m : Monitor) (p : ℕ)
    → length txids < 2 ^ 64
    → (row : List (ℕ × ℕ)) × (lookup p (poll_nodes txids m).node_states
        ≡ (if m.poll == p then some row else lookup p m.node_states))
      × (total row ≡ length txids)
unfolding poll_nodes total
poll_nodes-total txids m p h = (
  count_states txids [],
  lookup-insert m.poll p (count_states txids []) m.node_states,
  total-count_states txids [] (omega arith) ∙ omega arith,
)

-- What the loop of `monitorMsgTypes` takes: a tick of its clock, or a message.
pub data Event : Type 0 where
  ticks : Event
  logs : Messagetype → Event

pub run_events : List Event → Monitor → Outcome Monitor
run_events [] m = ok m
run_events (ticks ∷ es) m = run_events es (next_second m)
run_events (logs t ∷ es) m = do m1 ← log_type t m; run_events es m1

-- The number of messages after the last tick, and `k` if there is none.
pub since_tick : ℕ → List Event → ℕ
since_tick k [] = k
since_tick k (ticks ∷ es) = since_tick 0 es
since_tick k (logs t ∷ es) = since_tick (k + 1) es

record Counted (k : ℕ) (m : Monitor) : Type 0 where
  row : List (Messagetype × ℕ)
  there : lookup m.second m.msg_types ≡ some row
  sum : total row ≡ k

run_events-Counted :
    (es : List Event) (k : ℕ) (m : Monitor)
    → Counted k m
    → k + length es < 2 ^ 64
    → (b : Monitor) × (run_events es m ≡ ok b) × Counted (since_tick k es) b
unfolding run_events since_tick next_second log_type total
run_events-Counted [] k m c h = (m, refl, c)
run_events-Counted (ticks ∷ es) k m c h =
    run_events-Counted es 0 (next_second m)
      (record {
        row = [];
        there =
            ground (arith, lookup-insert (increment m.second) (increment m.second) [] m.msg_types);
        sum = refl;
      })
      (omega arith)
run_events-Counted (logs t ∷ es) k m c h =
    let m1 : Monitor = record m { msg_types = insert m.second (count_in t c.row) m.msg_types } in
    let (b, e, d) =
      run_events-Counted es (k + 1) m1
        (record {
          row = count_in t c.row;
          there = ground (arith, lookup-insert m.second m.second (count_in t c.row) m.msg_types);
          sum = total-count_in t c.row (omega (arith, c.sum)) ∙ ap (λ n. n + 1) c.sum;
        })
        (omega arith) in
    (b, rw (c.there, ◌>>=◌) e, d)

-- The loop that counts messages never writes to a nil map, and the counts of the current second add up
-- to the number of messages that were logged since its clock ticked last.
pub run_events-total :
    (es : List Event)
    → length es < 2 ^ 64
    → (b : Monitor) × (row : List (Messagetype × ℕ)) × (run_events es new_monitor ≡ ok b)
      × (lookup b.second b.msg_types ≡ some row)
      × (total row ≡ since_tick 0 es)
unfolding new_monitor lookup total
run_events-total es h =
    let (b, e, c) =
      run_events-Counted es 0 new_monitor (record { row = []; there = refl; sum = refl })
        (omega arith) in
    (b, c.row, e, c.there, c.sum)
