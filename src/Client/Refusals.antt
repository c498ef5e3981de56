-- ===== src/Client/Refusals.antt =====
-- net/client.go: a call whose earlier attempts timed out and whose last one is refused.
use part_ii_project.Base.{Bytes, ℕ, zero, suc, ◌+◌, ◌≡◌, refl, ap, ◌∙◌, Bool, false, none, some}
use part_ii_project.Packet.{Message}
use part_ii_project.Client.{
  Client, Attempt, PutResponse, attempt_request, put_message, put_loop, put_attempts, error,
  unknown, delete_chan,
}
use part_ii_project.Client.Calls.{put_loop-timeout, put_loop-refused}

-- The attempts of a loop time out until the last one, which gets a negative answer.
pub data EndsRefused (env : ℕ → Attempt) (request : Message) : ℕ → ℕ → Client → Type 0 where
  refused :
      {i : ℕ} {c : Client} (m : Message)
      → (attempt_request request (env i) c).1 ≡ some m
      → m.ok ≡ false
      → EndsRefused env request 1 i c
  timed_out :
      {k i : ℕ} {c : Client}
      → (attempt_request request (env i) c).1 ≡ none
      → EndsRefused env request k (i + 1) (attempt_request request (env i) c).0
      → EndsRefused env request (suc k) i c

put_loop-zero :
    (i : ℕ) (env : ℕ → Attempt) (request : Message) (res : PutResponse) (c : Client)
    → (put_loop zero i env request res c).1 ≡ (res, 0)
unfolding put_loop
put_loop-zero i env request res c = refl

put_loop-EndsRefused :
    (env : ℕ → Attempt) (request : Message) {k i : ℕ} {c : Client} (res : PutResponse)
    → EndsRefused env request k i c
    → (put_loop k i env request res c).1 ≡ (error, 0)
put_loop-EndsRefused env request {i = i} {c = c} res (refused m e bad) =
    ap (λ r. r.1) (put_loop-refused zero i env request res c m e bad)
    ∙ put_loop-zero (i + 1) env request error
        (delete_chan (env i).id (attempt_request request (env i) c).0)
put_loop-EndsRefused env request res (timed_out {k} {i} {c} e h) =
    ap (λ r. r.1) (put_loop-timeout k i env request res c e)
    ∙ put_loop-EndsRefused env request unknown h

-- A write whose attempts time out until the last one, and whose last attempt is refused, is reported as
-- an error, with no sign that an earlier attempt may have taken effect.
pub refusal_hides_timeouts :
    (env : ℕ → Attempt) (key val : Bytes) (strong : Bool) (ts : ℕ) (c : Client)
    → EndsRefused env (put_message strong key val ts) c.num_attempts 0 c
    → (put_attempts env key val strong ts c).1 ≡ (error, 0)
unfolding put_attempts
refusal_hides_timeouts env key val strong ts c h =
    put_loop-EndsRefused env (put_message strong key val ts) error h
