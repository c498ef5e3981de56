-- ===== src/Client.antt =====
-- net/client.go: the interface of a program to the database. `chans` is `responseChans`, each channel
-- with what is in its buffer of one message; `waiting` is what `routeResponses` has taken from
-- `incoming` and cannot yet put into a full buffer; `sent` is what has been sent on the nodes' `Outgoing`.
-- The number that an attempt takes from `idStream`, which all clients share, its random node, and what
-- comes in before its answer is taken or its timer runs out, are an `Attempt`. A call runs alone.
pub mod Answers
pub mod Frames
pub mod Refusals
pub mod Blocking
pub mod Calls
pub mod Names
use part_ii_project.Base.{
  ◌==◌, if◌then◌else◌, lookup, insert, erase, Bytes, ℕ, zero, suc, ◌+◌, Bool, true, false, Option,
  none, some, List, [], ◌∷◌, ◌++◌, nat_key,
}
use part_ii_project.Packet.{
  Message, no_message, client_read_request, client_write_request, client_strong_write_request,
}

-- The enum `PutResponse`.
pub data PutResponse : Type 0 where
  error success unknown : PutResponse

pub record Client : Type 0 where
  pub num_nodes : ℕ
  pub num_attempts : ℕ
  pub chans : List (ℕ × List Message)
  pub waiting : Option Message
  pub incoming : List Message
  pub sent : List Message

pub record Attempt : Type 0 where
  pub id : ℕ
  pub dest : ℕ
  pub arrivals : List Message

-- `NewClient`
unfoldable pub new_client : ℕ → ℕ → Client
new_client num_nodes num_attempts = record {
  num_nodes = num_nodes;
  num_attempts = num_attempts;
  chans = [];
  waiting = none;
  incoming = [];
  sent = [];
}

-- A message for the channel of its transaction, if there is one: a full buffer makes the loop wait.
unfoldable pub put_in_chan : Message → Option (List Message) → Client → Client
put_in_chan m none c = c
put_in_chan m (some []) c = record c { chans = insert m.id (m ∷ []) c.chans }
put_in_chan m (some (x ∷ xs)) c = record c { waiting = some m }

-- The loop takes no message while it waits.
unfoldable pub route_when : Option Message → Message → Client → Client
unfolding put_in_chan
route_when none m c = put_in_chan m (lookup m.id c.chans) c
route_when (some w) m c = record c { incoming = c.incoming ++ m ∷ [] }

-- One round of `routeResponses`.
unfoldable pub route_response : Message → Client → Client
unfolding route_when
route_response m c = route_when c.waiting m c

unfoldable pub route_responses : List Message → Client → Client
route_responses [] c = c
route_responses (m ∷ ms) c = route_responses ms (route_response m c)

-- The buffer of the channel has room again, and the loop goes on if it waited for that.
unfoldable pub resume : ℕ → Option Message → Client → Client
unfolding route_responses
resume id none c = c
resume id (some w) c =
    if w.id == id
    then route_responses c.incoming
        (record c { waiting = none; incoming = []; chans = insert id (w ∷ []) c.chans })
    else c

-- What `<-resChan` takes from the channel with the given buffer.
unfoldable pub take_from : ℕ → Option (List Message) → Client → Client × Option Message
unfolding resume
take_from id none c = (c, none)
take_from id (some []) c = (c, none)
take_from id (some (m ∷ ms)) c =
    (resume id c.waiting (record c { chans = insert id [] c.chans }), some m)

-- The `select`: `none` if the timer runs out first.
unfoldable pub take_response : ℕ → Client → Client × Option Message
unfolding take_from
take_response id c = take_from id (lookup id c.chans) c

-- The start of an attempt: a channel under a new transaction, and the request.
unfoldable pub open_attempt : Message → Attempt → Client → Client
open_attempt request a c = record c {
  chans = insert a.id [] c.chans;
  sent = c.sent ++ record request { id = a.id; src = c.num_nodes; dest = a.dest; ok = true } ∷ [];
}

-- An attempt up to its answer.
unfoldable pub attempt_request : Message → Attempt → Client → Client × Option Message
unfolding open_attempt route_responses take_response
attempt_request request a c =
    take_response a.id (route_responses a.arrivals (open_attempt request a c))

-- c.responseChans.Delete(id)
unfoldable pub delete_chan : ℕ → Client → Client
delete_chan id c = record c { chans = erase id c.chans }

-- The loop of `Get`, with `k` attempts left; `env i` is the attempt with number `i`.
unfoldable pub get_loop : ℕ → ℕ → (ℕ → Attempt) → Bytes → Client → Client × (Bytes × ℕ × Bool)
unfolding attempt_request delete_chan
get_loop zero i env key c = (c, ([], 0, false))
get_loop (suc k) i env key c =
    let r =
      attempt_request (record no_message { demux_key = client_read_request; key = key }) (env i)
        c in
    elim r.1 [
      | none ↦ get_loop k (i + 1) env key r.0
      | some m ↦ elim m.ok [
        | true ↦ (r.0, (m.value, m.timestamp, true))
        | false ↦ get_loop k (i + 1) env key (delete_chan (env i).id r.0)
      ]
    ]

-- `Get`
unfoldable pub get : (ℕ → Attempt) → Bytes → Client → Client × (Bytes × ℕ × Bool)
unfolding get_loop
get env key c = get_loop c.num_attempts 0 env key c

-- The request of `put`.
unfoldable pub put_message : Bool → Bytes → Bytes → ℕ → Message
put_message strong key val ts = record no_message {
  demux_key = if strong then client_strong_write_request else client_write_request;
  key = key;
  value = val;
  timestamp = ts;
}

-- The loop of `put`, with `k` attempts left and the result so far.
unfoldable pub put_loop :
    ℕ → ℕ → (ℕ → Attempt) → Message → PutResponse → Client → Client × (PutResponse × ℕ)
unfolding attempt_request delete_chan
put_loop zero i env request res c = (c, (res, 0))
put_loop (suc k) i env request res c =
    let r = attempt_request request (env i) c in
    elim r.1 [
      | none ↦ put_loop k (i + 1) env request unknown r.0
      | some m ↦ elim m.ok [
        | true ↦ (r.0, (success, m.timestamp))
        | false ↦ put_loop k (i + 1) env request error (delete_chan (env i).id r.0)
      ]
    ]

-- `put`, whose result is `Error` if there is no attempt.
unfoldable pub put_attempts :
    (ℕ → Attempt) → Bytes → Bytes → Bool → ℕ → Client → Client × (PutResponse × ℕ)
unfolding put_message put_loop
put_attempts env key val strong ts c =
    put_loop c.num_attempts 0 env (put_message strong key val ts) error c

-- `Put`
unfoldable pub put : (ℕ → Attempt) → Bytes → Bytes → Client → Client × (PutResponse × ℕ)
unfolding put_attempts
put env key val c = put_attempts env key val false 0 c

-- `StrongPut`
unfoldable pub strong_put : (ℕ → Attempt) → Bytes → Bytes → ℕ → Client → Client × (PutResponse × ℕ)
unfolding put_attempts
strong_put env key val ts c = put_attempts env key val true ts c
