-- ===== src/Client/Calls.antt =====
-- net/client.go: the requests of a call, and what its result rests on.
use mathlib.Core.List.{Mem, append-nil, append_assoc}
use part_ii_project.Base.{
  if◌then◌else◌, Bool-cases, Option-cases, Bytes, ℕ, zero, suc, ◌+◌, ◌≤◌, ◌<◌, ◌≡◌, sym, ap, ap₂,
  subst, ◌∙◌, ◌≢◌, inl, inr, Bool, true, false, Option, none, some, List, [], ◌∷◌, ◌++◌, arith,
}
use part_ii_project.Packet.{Message, no_message, client_write_request, client_strong_write_request}
use part_ii_project.Client.{
  Client, Attempt, PutResponse, success, attempt_request, delete_chan, put_loop, error, unknown,
  put_message, put_attempts,
}
use part_ii_project.Client.Frames.{
  IsSame-trans, attempt_request-IsSame, after_answer, after_answer-IsSame,
}
use part_ii_project.Client.Answers.{attempt_request-own}

-- The requests of `count` attempts from the one with number `i` on, which the address `src` sends: each
-- is a copy of the given one with the number and the destination of its attempt.
unfoldable pub copies : Message → ℕ → (ℕ → Attempt) → ℕ → ℕ → List Message
copies request src env i zero = []
copies request src env i (suc count) =
    record request { id = (env i).id; src = src; dest = (env i).dest; ok = true }
    ∷ copies request src env (i + 1) count

-- What a call adds to the requests that were sent.
pub record Sends (k : ℕ) (request : Message) (env : ℕ → Attempt) (i : ℕ) (c d : Client)
    : Type 0 where
  pub count : ℕ
  pub few : count ≤ k
  pub appended : d.sent ≡ c.sent ++ copies request c.num_nodes env i count

-- The requests after one more attempt.
Sends-attempt :
    (k : ℕ) (request : Message) (env : ℕ → Attempt) (i : ℕ) (o : Option Message) (c : Client)
    {d : Client}
    → Sends k request env
        (i + 1)
        (after_answer o (env i).id (attempt_request request (env i) c).0)
        d
    → Sends (suc k) request env i c d
unfolding copies
Sends-attempt k request env i o c s =
    let f =
      IsSame-trans (attempt_request-IsSame request (env i) c)
        (after_answer-IsSame o (env i).id (attempt_request request (env i) c).0) in
    record {
      count = suc s.count;
      few = omega (arith, s.few);
      appended =
          s.appended
          ∙ ap₂ (λ l n. l ++ copies request n env (i + 1) s.count) f.sent f.nodes
          ∙ append_assoc c.sent _ _;
    }

Sends-last :
    (k : ℕ) (request : Message) (env : ℕ → Attempt) (i : ℕ) (c : Client)
    → Sends (suc k) request env i c (attempt_request request (env i) c).0
unfolding copies
Sends-last k request env i c = record {
  count = 1;
  few = omega arith;
  appended = (attempt_request-IsSame request (env i) c).sent;
}

none_sent :
    (k : ℕ) (request : Message) (env : ℕ → Attempt) (i : ℕ) (c : Client) → Sends k request env i c c
unfolding copies
none_sent k request env i c = record { count = 0; few = omega arith; appended = sym (append-nil _) }

module _ (k i : ℕ) (env : ℕ → Attempt) (request : Message) (res : PutResponse) (c : Client) where
  pub put_loop-timeout :
      (attempt_request request (env i) c).1 ≡ none
      → put_loop (suc k) i env request res c
        ≡ put_loop k (i + 1) env request unknown (attempt_request request (env i) c).0
  unfolding put_loop
  put_loop-timeout e = ground (arith, e)

  pub put_loop-accepted :
      (m : Message)
      → (attempt_request request (env i) c).1 ≡ some m
      → m.ok ≡ true
      → put_loop (suc k) i env request res c
        ≡ ((attempt_request request (env i) c).0, (success, m.timestamp))
  unfolding put_loop
  put_loop-accepted m e good = ground (arith, e, good)

  pub put_loop-refused :
      (m : Message)
      → (attempt_request request (env i) c).1 ≡ some m
      → m.ok ≡ false
      → put_loop (suc k) i env request res c
        ≡ put_loop k
            (i + 1)
            env
            request
            error
            (delete_chan (env i).id (attempt_request request (env i) c).0)
  unfolding put_loop
  put_loop-refused m e bad = ground (arith, e, bad)

put_loop-Sends :
    (k i : ℕ) (env : ℕ → Attempt) (request : Message) (res : PutResponse) (c : Client)
    → Sends k request env i c (put_loop k i env request res c).0
unfolding put_loop
put_loop-Sends zero i env request res c = none_sent zero request env i c
put_loop-Sends (suc k) i env request res c =
    let c1 = (attempt_request request (env i) c).0 in
    elim (Option-cases (attempt_request request (env i) c).1) [
      | inl e ↦
          subst (λ r. Sends (suc k) request env i c r.0)
            (sym (put_loop-timeout k i env request res c e))
            (Sends-attempt k request env i none c (put_loop-Sends k (i + 1) env request unknown c1))
      | inr (m, e) ↦ elim (Bool-cases m.ok) [
        | inl good ↦
            subst (λ r. Sends (suc k) request env i c r.0)
              (sym (put_loop-accepted k i env request res c m e good))
              (Sends-last k request env i c)
        | inr bad ↦
            subst (λ r. Sends (suc k) request env i c r.0)
              (sym (put_loop-refused k i env request res c m e bad))
              (Sends-attempt k request env i (some m) c
                (put_loop-Sends k (i + 1) env request error (delete_chan (env i).id c1)))
      ]
    ]

-- A write sends at most as many requests as the client may attempt, one for each of its first attempts,
-- with the number and the destination of the attempt. Each is a request of the type that was asked for,
-- from the address of clients, and carries the key, the value and the timestamp of the write.
pub put_attempts-Sends :
    (env : ℕ → Attempt) (key val : Bytes) (strong : Bool) (ts : ℕ) (c : Client)
    → Sends c.num_attempts
        (record no_message {
          demux_key = if strong then client_strong_write_request else client_write_request;
          key = key;
          value = val;
          timestamp = ts;
        })
        env
        0
        c
        (put_attempts env key val strong ts c).0
unfolding put_attempts put_message
put_attempts-Sends env key val strong ts c =
    put_loop-Sends c.num_attempts 0 env (put_message strong key val ts) error c

-- A positive answer that came in during one of `k` attempts, for the transaction of that attempt.
pub record Confirms (k i : ℕ) (env : ℕ → Attempt) (ts : ℕ) (m : Message) : Type 0 where
  pub index : ℕ
  pub within : index < k
  pub arrived : Mem m (env (i + index)).arrivals
  pub numbered : m.id ≡ (env (i + index)).id
  pub good : m.ok ≡ true
  pub stamped : m.timestamp ≡ ts

Confirms-later :
    (k i : ℕ) (env : ℕ → Attempt) (ts : ℕ) (m : Message)
    → Confirms k (i + 1) env ts m
    → Confirms (suc k) i env ts m
Confirms-later k i env ts m h = record {
  index = suc h.index;
  within = omega (arith, h.within);
  arrived = subst (λ n. Mem m (env n).arrivals) (omega arith) h.arrived;
  numbered = h.numbered ∙ ap (λ n. (env n).id) (omega arith);
  good = h.good;
  stamped = h.stamped;
}

put_loop-Confirms :
    (k i : ℕ) (env : ℕ → Attempt) (request : Message) (res : PutResponse) (ts : ℕ) (c : Client)
    → res ≢ success
    → (put_loop k i env request res c).1 ≡ (success, ts)
    → (m : Message) × Confirms k i env ts m
unfolding put_loop
put_loop-Confirms zero i env request res ts c ne e = absurd (ne (ap (λ r. r.0) e))
put_loop-Confirms (suc k) i env request res ts c ne e =
    let c1 = (attempt_request request (env i) c).0 in
    elim (Option-cases (attempt_request request (env i) c).1) [
      | inl a ↦
          let (m, h) =
            put_loop-Confirms k (i + 1) env request unknown ts c1 (λ x. cc)
              (subst (λ r. r.1 ≡ (success, ts)) (put_loop-timeout k i env request res c a) e) in
          (m, Confirms-later k i env ts m h)
      | inr (m, a) ↦ elim (Bool-cases m.ok) [
        | inl good ↦
            let own = attempt_request-own request m (env i) c a in
            (
              m,
              record {
                index = 0;
                within = omega arith;
                arrived = subst (λ n. Mem m (env n).arrivals) (omega arith) own.0;
                numbered = own.1 ∙ ap (λ n. (env n).id) (omega arith);
                good = good;
                stamped =
                    ap (λ r. r.1)
                      (subst (λ r. r.1 ≡ (success, ts))
                        (put_loop-accepted k i env request res c m a good) e);
              },
            )
        | inr bad ↦
            let (w, h) =
              put_loop-Confirms k (i + 1) env request error ts (delete_chan (env i).id c1) (λ x. cc)
                (subst (λ r. r.1 ≡ (success, ts)) (put_loop-refused k i env request res c m a bad)
                  e) in
            (w, Confirms-later k i env ts w h)
      ]
    ]

-- A write is reported as a success only if a positive answer came in during one of its attempts, for
-- the transaction of that attempt; the timestamp is that of the answer. An answer to a request of another
-- transaction, which came in late, never confirms it.
pub success-Confirms :
    (env : ℕ → Attempt) (key val : Bytes) (strong : Bool) (at ts : ℕ) (c : Client)
    → (put_attempts env key val strong at c).1 ≡ (success, ts)
    → (m : Message) × Confirms c.num_attempts 0 env ts m
unfolding put_attempts
success-Confirms env key val strong at ts c e =
    put_loop-Confirms c.num_attempts 0 env (put_message strong key val at) error ts c (λ x. cc) e
