-- ===== src/Client/Frames.antt =====
-- net/client.go: what an attempt leaves of a client, but for the request that it sends.
use part_ii_project.Base.{
  ◌==◌, if_holds, lookup, insert, ℕ, ◌≡◌, refl, ◌∙◌, true, Option, none, some, List, [], ◌∷◌, ◌++◌,
  nat_key,
}
use part_ii_project.Packet.{Message}
use part_ii_project.Client.{
  Client, Attempt, put_in_chan, route_when, route_response, route_responses, resume, take_from,
  take_response, open_attempt, attempt_request, delete_chan,
}

-- The parts of a client that routing leaves alone.
pub record IsSame (c d : Client) : Type 0 where
  pub nodes : d.num_nodes ≡ c.num_nodes
  pub sent : d.sent ≡ c.sent

pub IsSame-trans : {c d e : Client} → IsSame c d → IsSame d e → IsSame c e
IsSame-trans a b = record { nodes = b.nodes ∙ a.nodes; sent = b.sent ∙ a.sent }

put_in_chan-IsSame :
    (m : Message) (o : Option (List Message)) (c : Client) → IsSame c (put_in_chan m o c)
unfolding put_in_chan
put_in_chan-IsSame m none c = record { nodes = refl; sent = refl }
put_in_chan-IsSame m (some []) c = record { nodes = refl; sent = refl }
put_in_chan-IsSame m (some (x ∷ xs)) c = record { nodes = refl; sent = refl }

route_when-IsSame : (o : Option Message) (m : Message) (c : Client) → IsSame c (route_when o m c)
unfolding route_when
route_when-IsSame none m c = put_in_chan-IsSame m (lookup m.id c.chans) c
route_when-IsSame (some w) m c = record { nodes = refl; sent = refl }

route_responses-IsSame : (ms : List Message) (c : Client) → IsSame c (route_responses ms c)
unfolding route_responses route_response
route_responses-IsSame [] c = record { nodes = refl; sent = refl }
route_responses-IsSame (m ∷ ms) c =
    IsSame-trans (route_when-IsSame c.waiting m c) (route_responses-IsSame ms (route_response m c))

resume-IsSame : (id : ℕ) (o : Option Message) (c : Client) → IsSame c (resume id o c)
unfolding resume
resume-IsSame id none c = record { nodes = refl; sent = refl }
resume-IsSame id (some w) c =
    if_holds (IsSame c) (w.id == id)
      (IsSame-trans
        {d = record c { waiting = none; incoming = []; chans = insert id (w ∷ []) c.chans }}
        (record { nodes = refl; sent = refl }) (route_responses-IsSame c.incoming _))
      (record { nodes = refl; sent = refl })

take_from-IsSame : (id : ℕ) (o : Option (List Message)) (c : Client) → IsSame c (take_from id o c).0
unfolding take_from
take_from-IsSame id none c = record { nodes = refl; sent = refl }
take_from-IsSame id (some []) c = record { nodes = refl; sent = refl }
take_from-IsSame id (some (m ∷ ms)) c =
    IsSame-trans {d = record c { chans = insert id [] c.chans }}
      (record { nodes = refl; sent = refl }) (resume-IsSame id c.waiting _)

-- The request of an attempt as it is sent.
abbrev pub as_sent : Message → ℕ → Attempt → Message
as_sent request src a = record request { id = a.id; src = src; dest = a.dest; ok = true }

pub attempt_request-IsSame :
    (request : Message) (a : Attempt) (c : Client)
    → IsSame
        (record c { sent = c.sent ++ as_sent request c.num_nodes a ∷ [] })
        (attempt_request request a c).0
unfolding attempt_request take_response open_attempt
attempt_request-IsSame request a c =
    let opened = open_attempt request a c in
    let routed = route_responses-IsSame a.arrivals opened in
    let taken =
      take_from-IsSame a.id (lookup a.id (route_responses a.arrivals opened).chans)
        (route_responses a.arrivals opened) in
    let both = IsSame-trans routed taken in record { nodes = both.nodes; sent = both.sent }

-- The state from which the next attempt of a loop starts.
abbrev pub after_answer : Option Message → ℕ → Client → Client
after_answer none id c = c
after_answer (some m) id c = delete_chan id c

pub after_answer-IsSame :
    (o : Option Message) (id : ℕ) (c : Client) → IsSame c (after_answer o id c)
unfolding delete_chan
after_answer-IsSame none id c = record { nodes = refl; sent = refl }
after_answer-IsSame (some m) id c = record { nodes = refl; sent = refl }
