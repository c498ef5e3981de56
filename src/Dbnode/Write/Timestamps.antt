-- ===== src/Dbnode/Write/Timestamps.antt =====
-- dbnode/dbnode.go: the timestamp of a write (`case packet.NodePutRequest` of `continueProcessing`).
use part_ii_project.Base.{
  ltb, ◌==◌, if◌then◌else◌, ltb→lt, ==_iff, Bool-cases, minus_one, increment, increment-eq-add,
  Bytes, ok, ℕ, ◌+◌, ◌≤◌, ◌<◌, ◌≡◌, sym, subst, ◌≢◌, inl, inr, ◌&&◌, not, some, List, [], ◌∷◌,
  arith,
}
use part_ii_project.Datastore.{Store}
use part_ii_project.Packet.{Message, same_type, client_strong_write_request}
use part_ii_project.Dbnode.Coordinator.{decode_timestamp_val}
use part_ii_project.Dbnode.State.{Dbnode, members_or_empty}
use part_ii_project.Dbnode.Abort.{abort_processing}
use part_ii_project.Dbnode.Write.{
  latest_timestamp, local_timestamp, put_all, put_checked, choose_timestamp,
}

-- Every member but `id` has an earlier timestamp.
abbrev pub AllEarlier : ℕ → List (ℕ × Message) → ℕ → Type 0
AllEarlier id [] t = Unit {0}
AllEarlier id ((d, m) ∷ q) t = (d ≢ id → m.timestamp < t) × AllEarlier id q t

-- The timestamps are below the last one, after which the counter starts again.
abbrev pub AllBelow : List (ℕ × Message) → Type 0
AllBelow [] = Unit {0}
AllBelow ((d, m) ∷ q) = (m.timestamp < minus_one) × AllBelow q

-- The timestamp that is found is as late as each of them, and no later than needed.
record IsLatest (id : ℕ) (q : List (ℕ × Message)) (t latest : ℕ) : Type 0 where
  local : t ≤ latest
  members : AllEarlier id q (latest + 1)
  below : t < minus_one → AllBelow q → latest < minus_one

latest_timestamp_lem :
    (id : ℕ) (q : List (ℕ × Message)) (t : ℕ) → IsLatest id q t (latest_timestamp id q t)
unfolding latest_timestamp
latest_timestamp_lem id [] t = record { local = omega arith; members = tt; below = λ h a. h }
latest_timestamp_lem id ((d, m) ∷ q) t = elim (Bool-cases (d == id)) [
  | inl own ↦
      let w = latest_timestamp_lem id q t in
      rw own (record {
        local = w.local;
        members = (λ e. absurd (e ((==_iff d id).0 own)), w.members);
        below = λ h a. w.below h a.1;
      })
  | inr e ↦ elim (Bool-cases (ltb t m.timestamp)) [
    | inl later ↦
        let w = latest_timestamp_lem id q m.timestamp in
        rw (e, later)
          (record {
            local = omega (arith, w.local, ltb→lt t m.timestamp later);
            members = (λ _. omega (arith, w.local), w.members);
            below = λ h a. w.below a.0 a.1;
          })
    | inr f ↦
        let w = latest_timestamp_lem id q t in
        rw (e, f)
          (record {
            local = w.local;
            members = (λ _. ground (arith, w.local), w.members);
            below = λ h a. w.below h a.1;
          })
  ]
]

local_timestamp_lem :
    (stored : Bytes) (t : ℕ) (v : Bytes)
    → decode_timestamp_val stored ≡ ok (t, v)
    → local_timestamp stored ≡ ok t
unfolding local_timestamp decode_timestamp_val
local_timestamp_lem [] t v h = ground (arith, h)
local_timestamp_lem (x ∷ xs) t v h = ground (arith, h)

module _ {S E : Type 0} (st : Store S) where
  -- A coordinator whose store holds a value or none at the key, and none of whose timestamps is the
  -- last 64-bit one, finds a timestamp after its own and every member's. It puts the value at that
  -- timestamp, unless the write is a strong one that names another timestamp: then it aborts, with
  -- the timestamp that it found in its answer.
  pub choose_timestamp_lem :
      (n : Dbnode S E) (stored : Bytes) (t : ℕ) (v : Bytes)
      → st.get n.store n.client_request.key ≡ some stored
      → decode_timestamp_val stored ≡ ok (t, v)
      → t < minus_one
      → AllBelow (members_or_empty n.quorum_members)
      → (next : ℕ) × (t < next)
        × AllEarlier n.id (members_or_empty n.quorum_members) next
        × (choose_timestamp st n ≡ (
            if same_type n.client_request.demux_key client_strong_write_request
              && not (n.client_request.timestamp == next)
            then abort_processing st
                (record n { client_request = record (n.client_request) { timestamp = next } })
            else put_all st next n))
  unfolding choose_timestamp put_checked
  choose_timestamp_lem n stored t v read decoded lt below =
      let q = members_or_empty n.quorum_members in
      let w = latest_timestamp_lem n.id q t in
      let next = increment-eq-add (latest_timestamp n.id q t) (w.below lt below) in
      (
        increment (latest_timestamp n.id q t),
        omega (arith, w.local, next),
        subst (AllEarlier n.id q) (sym next) w.members,
        ground (arith, read, local_timestamp_lem stored t v decoded),
      )
