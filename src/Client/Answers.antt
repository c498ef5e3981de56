-- ===== src/Client/Answers.antt =====
-- net/client.go: which answers a call takes, and what it reports.
use mathlib.Core.List.{Mem, mem-cons_self, mem-cons_of_mem}
use part_ii_project.Base.{
  ◌==◌, ==_iff, Bool-cases, lookup, lookup-insert, ℕ, ◌≡◌, sym, ap, subst, ◌∙◌, ◌⊎◌, inl, inr,
  Option, none, some, List, [], ◌∷◌, arith, nat_key,
}
use part_ii_project.Packet.{Message}
use part_ii_project.Client.{
  Client, put_in_chan, route_response, route_when, route_responses, take_from, take_response,
  open_attempt, attempt_request, Attempt,
}

-- The first message in the channel of a transaction.
abbrev IsFirst : ℕ → Message → Client → Type 0
IsFirst id m c = (ms : List Message) × (lookup id c.chans ≡ some (m ∷ ms))

put_in_chan-IsFirst :
    (id : ℕ) (x m : Message) (o : Option (List Message)) (c : Client)
    → IsFirst id m (put_in_chan x o c)
    → IsFirst id m c ⊎ ((m ≡ x) × (x.id ≡ id))
unfolding put_in_chan
put_in_chan-IsFirst id x m none c h = inl h
put_in_chan-IsFirst id x m (some (y ∷ ys)) c h = inl h
put_in_chan-IsFirst id x m (some []) c (ms, e) = elim (Bool-cases (x.id == id)) [
  | inl same ↦
      inr (ground (arith, e, same, lookup-insert x.id id (x ∷ []) c.chans), (==_iff _ _).0 same)
  | inr other ↦ inl (ms, ground (arith, e, other, lookup-insert x.id id (x ∷ []) c.chans))
]

route_when-IsFirst :
    (id : ℕ) (o : Option Message) (x m : Message) (c : Client)
    → IsFirst id m (route_when o x c)
    → IsFirst id m c ⊎ ((m ≡ x) × (x.id ≡ id))
unfolding route_when
route_when-IsFirst id none x m c h = put_in_chan-IsFirst id x m (lookup x.id c.chans) c h
route_when-IsFirst id (some w) x m c h = inl h

-- The first message in a channel was there before, or was routed to it.
route_responses-IsFirst :
    (id : ℕ) (m : Message) (arrivals : List Message) (c : Client)
    → IsFirst id m (route_responses arrivals c)
    → IsFirst id m c ⊎ (Mem m arrivals × (m.id ≡ id))
unfolding route_responses route_response
route_responses-IsFirst id m [] c h = inl h
route_responses-IsFirst id m (x ∷ xs) c h =
    elim (route_responses-IsFirst id m xs (route_response x c) h) [
      | inr (there, e) ↦ inr (mem-cons_of_mem x there, e)
      | inl first ↦ elim (route_when-IsFirst id c.waiting x m c first) [
        | inl before ↦ inl before
        | inr (same, e) ↦
            inr (subst (λ y. Mem y (x ∷ xs)) (sym same) mem-cons_self, ap (λ y. y.id) same ∙ e)
      ]
    ]

take_from-IsFirst :
    (id : ℕ) (m : Message) (o : Option (List Message)) (c : Client)
    → (take_from id o c).1 ≡ some m
    → (ms : List Message) × (o ≡ some (m ∷ ms))
unfolding take_from
take_from-IsFirst id m none c e = absurd (cc)
take_from-IsFirst id m (some []) c e = absurd (cc)
take_from-IsFirst id m (some (x ∷ xs)) c e = (xs, cc)

pub opened_empty :
    (request : Message) (a : Attempt) (c : Client)
    → lookup a.id (open_attempt request a c).chans ≡ some []
unfolding open_attempt
opened_empty request a c = ground (arith, lookup-insert {V = List Message} a.id a.id [] c.chans)

-- An answer that an attempt takes came in during the attempt, and is for its transaction.
pub attempt_request-own :
    (request m : Message) (a : Attempt) (c : Client)
    → (attempt_request request a c).1 ≡ some m
    → Mem m a.arrivals × (m.id ≡ a.id)
unfolding attempt_request take_response
attempt_request-own request m a c e =
    let first =
      take_from-IsFirst a.id m
        (lookup a.id (route_responses a.arrivals (open_attempt request a c)).chans)
        (route_responses a.arrivals (open_attempt request a c)) e in
    elim (route_responses-IsFirst a.id m a.arrivals (open_attempt request a c) first) [
      | inr own ↦ own
      | inl (ms, old) ↦ absurd (cc (old, opened_empty request a c))
    ]
