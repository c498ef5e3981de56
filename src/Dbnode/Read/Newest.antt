-- ===== src/Dbnode/Read/Newest.antt =====
-- dbnode/dbnode.go: what a fast read (`coordinatingFastRead` of `continueProcessing`) answers.
use part_ii_project.Base.{
  ltb, ltb→lt, Bool-cases, Bytes, ok, ℕ, ◌≤◌, ◌≡◌, refl, ◌⊎◌, inl, inr, true, some, List, [], ◌∷◌,
  arith,
}
use part_ii_project.Datastore.{Store}
use part_ii_project.Packet.{Message, client_read_response}
use part_ii_project.Dbnode.Coordinator.{decode_timestamp_val}
use part_ii_project.Dbnode.State.{Dbnode, emit, go_idle}
use part_ii_project.Dbnode.Read.{latest, continue_fast_read}

-- A timestamp and value that some member answered.
abbrev pub Answered : List (ℕ × Message) → ℕ × Bytes → Type 0
Answered [] r = ⊥
Answered ((d, m) ∷ q) r = (r ≡ (m.timestamp, m.value)) ⊎ Answered q r

-- No member answered a later timestamp.
abbrev pub NoneLater : List (ℕ × Message) → ℕ → Type 0
NoneLater [] t = Unit {0}
NoneLater ((d, m) ∷ q) t = (m.timestamp ≤ t) × NoneLater q t

-- The most recent of a local value and the members' ones.
pub record IsNewest (q : List (ℕ × Message)) (t : ℕ) (v : Bytes) (r : ℕ × Bytes) : Type 0 where
  pub local : t ≤ r.0
  pub members : NoneLater q r.0
  pub origin : (r ≡ (t, v)) ⊎ Answered q r

latest_lem : (q : List (ℕ × Message)) (t : ℕ) (v : Bytes) → IsNewest q t v (latest q t v)
unfolding latest
latest_lem [] t v = record { local = omega arith; members = tt; origin = inl refl }
latest_lem ((d, m) ∷ q) t v = elim (Bool-cases (ltb t m.timestamp)) [
  | inl later ↦
      let w = latest_lem q m.timestamp m.value in
      rw later (record {
        local = omega (arith, w.local, ltb→lt t m.timestamp later);
        members = (w.local, w.members);
        origin = inr w.origin;
      })
  | inr e ↦
      let w = latest_lem q t v in
      rw e (record {
        local = w.local;
        members = (ground (arith, w.local), w.members);
        origin = elim w.origin [ inl o ↦ inl o | inr o ↦ inr (inr o) ];
      })
]

module _ {S E : Type 0} (st : Store S) (perm : ℕ → List ℕ) where
  -- A fast read whose members have answered, at a node whose store holds a value or none at the key,
  -- gives the client a positive answer with the highest timestamp among its own and the members', and
  -- the value of it, and is idle again.
  pub continue_fast_read-IsNewest :
      (n : Dbnode S E) (q : List (ℕ × Message)) (stored : Bytes) (t : ℕ) (v : Bytes)
      → n.quorum_members ≡ some q
      → st.get n.store n.client_request.key ≡ some stored
      → decode_timestamp_val stored ≡ ok (t, v)
      → (r : ℕ × Bytes) × (continue_fast_read st perm n
          ≡ ok (
              go_idle (
                emit n (record {
                  id = n.client_request.id;
                  src = n.id;
                  dest = n.client_request.src;
                  demux_key = client_read_response;
                  key = n.client_request.key;
                  value = r.1;
                  timestamp = r.0;
                  ok = true;
                }))))
        × IsNewest q t v r
  unfolding continue_fast_read
  continue_fast_read-IsNewest n q stored t v members read decoded =
      (latest q t v, ground (arith, members, read, decoded), latest_lem q t v)
