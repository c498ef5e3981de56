-- ===== src/Client/Blocking.antt =====
-- net/client.go: the loop that routes answers, after it took an answer for a full channel.
use part_ii_project.Base.{
  ◌==◌, if◌then◌else◌, lookup, lookup-insert, Bytes, ℕ, zero, suc, ◌+◌, ◌<◌, ◌≡◌, refl, ap, ◌∙◌,
  Bool, false, Option, none, some, List, [], ◌∷◌, arith, nat_key,
}
use part_ii_project.Packet.{Message, no_message, client_read_request}
use part_ii_project.Client.{
  Client, Attempt, PutResponse, put_in_chan, route_when, route_response, route_responses, take_from,
  take_response, open_attempt, attempt_request, put_loop, unknown, get_loop, put_message,
  put_attempts, get, error,
}
use part_ii_project.Client.Calls.{put_loop-timeout}
use part_ii_project.Client.Answers.{opened_empty}

route_when_waits :
    (w m : Message) (c : Client)
    → ((route_when (some w) m c).waiting ≡ c.waiting) × ((route_when (some w) m c).chans ≡ c.chans)
unfolding route_when
route_when_waits w m c = (refl, refl)

take_from_empty :
    (id : ℕ) (c : Client)
    → ((take_from id (some []) c).1 ≡ none) × ((take_from id (some []) c).0.waiting ≡ c.waiting)
unfolding take_from
take_from_empty id c = (refl, refl)

opened_waiting :
    (request : Message) (a : Attempt) (c : Client) → (open_attempt request a c).waiting ≡ c.waiting
unfolding open_attempt
opened_waiting request a c = refl

route_responses-waiting :
    (w : Message) (ms : List Message) (c : Client)
    → c.waiting ≡ some w
    → ((route_responses ms c).waiting ≡ some w) × ((route_responses ms c).chans ≡ c.chans)
unfolding route_responses route_response
route_responses-waiting w [] c e = (e, refl)
route_responses-waiting w (m ∷ ms) c e =
    let f = ap (λ o. route_when o m c) e in
    let g = route_when_waits w m c in
    let (a, b) =
      route_responses-waiting w ms (route_response m c) (ap (λ d. d.waiting) f ∙ g.0 ∙ e) in
    (a, b ∙ ap (λ d. d.chans) f ∙ g.1)

-- While the loop waits for another channel, an attempt gets no answer, whatever comes in.
attempt_request-waiting :
    (request w : Message) (a : Attempt) (c : Client)
    → c.waiting ≡ some w
    → ((attempt_request request a c).1 ≡ none) × ((attempt_request request a c).0.waiting ≡ some w)
unfolding attempt_request take_response
attempt_request-waiting request w a c e =
    let opened = open_attempt request a c in
    let (still, same) =
      route_responses-waiting w a.arrivals opened (opened_waiting request a c ∙ e) in
    let o = ap (lookup a.id) same ∙ opened_empty request a c in
    (
      ap (λ x. (take_from a.id x (route_responses a.arrivals opened)).1) o
          ∙ (take_from_empty a.id (route_responses a.arrivals opened)).0,
      ap (λ x. (take_from a.id x (route_responses a.arrivals opened)).0.waiting) o
          ∙ (take_from_empty a.id (route_responses a.arrivals opened)).1
          ∙ still,
    )

get_loop-timeout :
    (k i : ℕ) (env : ℕ → Attempt) (key : Bytes) (c : Client)
    → (attempt_request
        (record no_message { demux_key = client_read_request; key = key })
        (env i)
        c).1
      ≡ none
    → get_loop (suc k) i env key c
      ≡ get_loop k
          (i + 1)
          env
          key
          (attempt_request
            (record no_message { demux_key = client_read_request; key = key })
            (env i)
            c).0
unfolding get_loop
get_loop-timeout k i env key c e = ground (arith, e)

put_loop-waiting :
    (k i : ℕ) (env : ℕ → Attempt) (request w : Message) (res : PutResponse) (c : Client)
    → c.waiting ≡ some w
    → ((put_loop k i env request res c).1 ≡ ((if k == 0 then res else unknown), 0))
      × ((put_loop k i env request res c).0.waiting ≡ some w)
unfolding put_loop
put_loop-waiting zero i env request w res c e = (refl, e)
put_loop-waiting (suc k) i env request w res c e =
    let a = attempt_request-waiting request w (env i) c e in
    let t = put_loop-timeout k i env request res c a.0 in
    let h =
      put_loop-waiting k (i + 1) env request w unknown (attempt_request request (env i) c).0 a.1 in
    (ap (λ r. r.1) t ∙ h.0 ∙ ground arith, ap (λ r. r.0.waiting) t ∙ h.1)

get_loop-waiting :
    (k i : ℕ) (env : ℕ → Attempt) (key : Bytes) (w : Message) (c : Client)
    → c.waiting ≡ some w
    → ((get_loop k i env key c).1 ≡ ([], 0, false)) × ((get_loop k i env key c).0.waiting ≡ some w)
unfolding get_loop
get_loop-waiting zero i env key w c e = (refl, e)
get_loop-waiting (suc k) i env key w c e =
    let request : Message = record no_message { demux_key = client_read_request; key = key } in
    let a = attempt_request-waiting request w (env i) c e in
    let t = get_loop-timeout k i env key c a.0 in
    let h = get_loop-waiting k (i + 1) env key w (attempt_request request (env i) c).0 a.1 in
    (ap (λ r. r.1) t ∙ h.0, ap (λ r. r.0.waiting) t ∙ h.1)

twice_routed :
    (m w : Message) (c : Client)
    → c.waiting ≡ none
    → lookup m.id c.chans ≡ some []
    → w.id ≡ m.id
    → (route_responses (m ∷ w ∷ []) c).waiting ≡ some w
unfolding route_responses route_response route_when put_in_chan
twice_routed m w c free here same =
    ground (arith, free, here, same, lookup-insert m.id w.id (m ∷ []) c.chans)

put_in_chan-attempts :
    (m : Message) (o : Option (List Message)) (c : Client)
    → (put_in_chan m o c).num_attempts ≡ c.num_attempts
unfolding put_in_chan
put_in_chan-attempts m none c = refl
put_in_chan-attempts m (some []) c = refl
put_in_chan-attempts m (some (x ∷ xs)) c = refl

route_when-attempts :
    (o : Option Message) (m : Message) (c : Client)
    → (route_when o m c).num_attempts ≡ c.num_attempts
unfolding route_when
route_when-attempts none m c = put_in_chan-attempts m (lookup m.id c.chans) c
route_when-attempts (some w) m c = refl

attempts_kept :
    (ms : List Message) (c : Client) → (route_responses ms c).num_attempts ≡ c.num_attempts
unfolding route_responses route_response
attempts_kept [] c = refl
attempts_kept (m ∷ ms) c = attempts_kept ms (route_response m c) ∙ route_when-attempts c.waiting m c

-- Two more answers to a request whose channel is left, since its timer ran out or a positive answer was
-- taken, block the loop that routes answers: from then on every write is reported as unknown and every
-- read fails, whatever comes in, and the loop stays blocked.
pub two_answers_block :
    (m w : Message) (c : Client) (env : ℕ → Attempt) (key val : Bytes) (strong : Bool) (ts : ℕ)
    → c.waiting ≡ none
    → lookup m.id c.chans ≡ some []
    → w.id ≡ m.id
    → 0 < c.num_attempts
    → ((put_attempts env key val strong ts (route_responses (m ∷ w ∷ []) c)).1 ≡ (unknown, 0))
      × ((put_attempts env key val strong ts (route_responses (m ∷ w ∷ []) c)).0.waiting ≡ some w)
      × ((get env key (route_responses (m ∷ w ∷ []) c)).1 ≡ ([], 0, false))
      × ((get env key (route_responses (m ∷ w ∷ []) c)).0.waiting ≡ some w)
unfolding put_attempts get
two_answers_block m w c env key val strong ts free here same some_attempts =
    let d = route_responses (m ∷ w ∷ []) c in
    let blocked = twice_routed m w c free here same in
    let p =
      put_loop-waiting d.num_attempts 0 env (put_message strong key val ts) w error d blocked in
    let g = get_loop-waiting d.num_attempts 0 env key w d blocked in
    (
      p.0
          ∙ ap (λ k. ((if k == 0 then error else unknown), 0)) (attempts_kept (m ∷ w ∷ []) c)
          ∙ ground arith,
      p.1,
      g.0,
      g.1,
    )
