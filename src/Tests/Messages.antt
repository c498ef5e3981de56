-- ===== src/Tests/Messages.antt =====
-- Messages, their repeaters and the queue of requests, at concrete inputs.
use part_ii_project.Base.{
  ◌==◌, length, ◌+◌, ◌≤◌, max, ◌≡◌, refl, ◌↔◌, Bool, true, false, ◌&&◌, ◌||◌, not, [], ◌∷◌,
}
use part_ii_project.Packet.{
  Message, no_message, messages_equal, messages_equal_iff, type_key, node_get_request,
  node_get_response,
}
use part_ii_project.Repeater.{Repeater, Sender, new_repeater}
use part_ii_project.Repeater.Rounds.{sends, length-sends-le}
use part_ii_project.Dbnode.RequestQueue.{Queue, enqueue, remove, contains}
use part_ii_project.Dbnode.RequestQueue.Order.{IsDistinct, queue_membership}

abbrev get_request : Message
get_request = record no_message {
  id = 7;
  src = 0;
  dest = 1;
  demux_key = node_get_request;
  ok = true;
}

abbrev late_request : Message
late_request = record get_request { timestamp = 9 }

messages_equal_iff_example :
    (messages_equal get_request late_request ≡ true)
    ↔ (record get_request { timestamp = 9; ok = true } ≡ late_request)
messages_equal_iff_example = messages_equal_iff get_request late_request

abbrev fresh : Repeater
fresh = new_repeater 3 3

abbrev get_sender : Bool → Sender
get_sender unlimited = record {
  msg = get_request;
  awaits = node_get_response;
  unlimited = unlimited;
  i = 0;
}

abbrev asking : Repeater
asking = record fresh {
  unacked_reqs = (0, []) ∷ (1, (7, (node_get_response, true) ∷ []) ∷ []) ∷ (2, []) ∷ [];
  senders = get_sender false ∷ [];
}

abbrev get_answer : Message
get_answer = record no_message {
  id = 7;
  src = 1;
  dest = 0;
  demux_key = node_get_response;
  ok = true;
}

length-sends-le_example :
    length (sends (asking ∷ asking ∷ asking ∷ asking ∷ []) (get_sender false)) + 0 ≤ max 3 0
unfolding new_repeater
length-sends-le_example =
    length-sends-le 3 (asking ∷ asking ∷ asking ∷ asking ∷ []) (get_sender false)
      (refl, (refl, (refl, (refl, tt)))) refl

abbrev waiting : Queue
waiting = 4 ∷ 6 ∷ []

queue_membership_example :
    IsDistinct (enqueue waiting 5)
    × (contains (enqueue waiting 5) 6 ≡ (contains waiting 6 || 5 == 6))
    × ((remove waiting 5).1 ≡ contains waiting 5)
    × IsDistinct (remove waiting 5).0
    × (contains (remove waiting 5).0 6 ≡ (contains waiting 6 && not (5 == 6)))
unfolding contains
queue_membership_example = queue_membership waiting 5 6 (refl, (refl, tt))
