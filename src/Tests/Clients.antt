-- ===== src/Tests/Clients.antt =====
-- Calls of a client at concrete answers.
use part_ii_project.Base.{
  lookup, insert, increment, ℕ, zero, suc, ◌≡◌, refl, Bool, true, false, some, [], ◌∷◌, arith,
  nat_key,
}
use part_ii_project.Packet.{client_strong_write_request, Message, no_message, client_write_response}
use part_ii_project.Client.{
  Client, new_client, Attempt, put_attempts, get, put_in_chan, route_when, route_response,
  route_responses, resume, take_from, take_response, open_attempt, attempt_request, put_loop, error,
  unknown,
}
use part_ii_project.Client.Calls.{put_attempts-Sends, success-Confirms, Sends, Confirms}
use part_ii_project.Client.Refusals.{refused, timed_out, refusal_hides_timeouts}
use part_ii_project.Client.Blocking.{two_answers_block}

-- The first attempt times out, the second is answered.
abbrev answered : Bool → ℕ → Attempt
answered good zero = record { id = 0; dest = 2; arrivals = [] }
answered good (suc i) = record {
  id = suc i;
  dest = 0;
  arrivals =
      record no_message { id = 1; demux_key = client_write_response; timestamp = 4; ok = good }
      ∷ [];
}

put_attempts-Sends_example :
    Sends 2
      (record no_message {
        demux_key = client_strong_write_request;
        key = 1 ∷ [];
        value = 5 ∷ [];
        timestamp = 4;
      })
      (answered true)
      0
      (new_client 3 2)
      (put_attempts (answered true) (1 ∷ []) (5 ∷ []) true 4 (new_client 3 2)).0
unfolding new_client
put_attempts-Sends_example =
    put_attempts-Sends (answered true) (1 ∷ []) (5 ∷ []) true 4 (new_client 3 2)

success-Confirms_example : (m : Message) × Confirms 2 0 (answered true) 4 m
unfolding new_client put_attempts put_loop attempt_request open_attempt route_responses
    route_response route_when put_in_chan take_response take_from resume insert lookup increment
success-Confirms_example =
    success-Confirms (answered true) (1 ∷ []) (5 ∷ []) true 4 4 (new_client 3 2) refl

refusal_hides_timeouts_example :
    (put_attempts (answered false) (1 ∷ []) (5 ∷ []) true 4 (new_client 3 2)).1 ≡ (error, 0)
unfolding new_client attempt_request open_attempt route_responses route_response route_when
    put_in_chan take_response take_from resume insert lookup increment
refusal_hides_timeouts_example =
    refusal_hides_timeouts (answered false) (1 ∷ []) (5 ∷ []) true 4 (new_client 3 2) (
      timed_out refl (
        refused (record no_message { id = 1; demux_key = client_write_response; timestamp = 4 })
          refl refl))

abbrev late : Message
late = record no_message { id = 0; demux_key = client_write_response }

-- A client whose first request has timed out.
abbrev timed_out_client : Client
timed_out_client = record (new_client 3 2) { chans = (0, []) ∷ [] }

two_answers_block_example :
    ((put_attempts
        (answered true)
        (1 ∷ [])
        (5 ∷ [])
        false
        0
        (route_responses (late ∷ late ∷ []) timed_out_client)).1
      ≡ (unknown, 0))
    × ((put_attempts
          (answered true)
          (1 ∷ [])
          (5 ∷ [])
          false
          0
          (route_responses (late ∷ late ∷ []) timed_out_client)).0.waiting
        ≡ some late)
    × ((get (answered true) (1 ∷ []) (route_responses (late ∷ late ∷ []) timed_out_client)).1
        ≡ ([], 0, false))
    × ((get
          (answered true)
          (1 ∷ [])
          (route_responses (late ∷ late ∷ []) timed_out_client)).0.waiting
        ≡ some late)
unfolding new_client lookup
two_answers_block_example =
    two_answers_block late late timed_out_client (answered true) (1 ∷ []) (5 ∷ []) false 0 refl refl
      refl (omega arith)
