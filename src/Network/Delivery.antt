-- ===== src/Network/Delivery.antt =====
-- net/manager.go: what arrives in the buffers, for messages and delays in any order.
use mathlib.Core.List.{Mem, mem-cons_self, mem-cons_of_mem}
use part_ii_project.Base.{
  ltb, ◌==◌, if◌then◌else◌, ==_iff, Bool-cases, length, length-append, All, All-append, All-left,
  All-right, All-weaken, int_ltb, Returns-value, if-Returns, Returns, ok, returned, faulted, ℕ, ◌+◌,
  ◌≤◌, ◌<◌, ◌≡◌, refl, sym, subst, ◌⊎◌, inl, inr, ◌&&◌, not, List, [], ◌∷◌, ◌++◌, arith,
}
use part_ii_project.Packet.{Message}
use part_ii_project.Partitions.{Links}
use part_ii_project.Network.{
  Network, cut_off, route_message, capacity, arrive, new_network, post, failure_message,
  recovery_message, timer_message,
}

-- What is put into a node's buffer without being sent.
pub data Posted (d : ℕ) : Message → Type 0 where
  fails : Posted d failure_message
  recovers : Posted d recovery_message
  signals : (count : ℕ) → Posted d (timer_message d count)

-- A step of the network: a message is sent, one that is under way arrives, the first in a buffer is
-- taken, a node fails, recovers or gets a signal of its timer, or the links change by partitions that start or end.
pub data NetStep (net : Network) (sent : List Message) (next : Network) (sent' : List Message)
    : Type 0 where
  sends :
      (m : Message) → route_message m net ≡ ok next → sent' ≡ m ∷ sent → NetStep net sent next sent'
  arrives :
      (xs ys : List Message) (m : Message)
      → net.in_flight ≡ xs ++ m ∷ ys
      → next ≡ arrive m (record net { in_flight = xs ++ ys })
      → sent' ≡ sent
      → NetStep net sent next sent'
  takes :
      (d : ℕ) (m : Message) (ms : List Message)
      → net.inboxes d ≡ m ∷ ms
      → next ≡ record net { inboxes = λ j. if d == j then ms else net.inboxes j }
      → sent' ≡ sent
      → NetStep net sent next sent'
  posts :
      (d : ℕ) (m : Message)
      → Posted d m
      → d < net.num_nodes
      → length (net.inboxes d) < capacity net.num_nodes d
      → next ≡ post d m net
      → sent' ≡ sent
      → NetStep net sent next sent'
  relinks :
      (links : Links)
      → next ≡ record net { links = links }
      → sent' ≡ sent
      → NetStep net sent next sent'

-- The states that a new network comes to, with what has been sent.
pub data NetReach (n : ℕ) : Network → List Message → Type 0 where
  begins : NetReach n (new_network n) []
  goes_on :
      {net next : Network} {sent sent' : List Message}
      → NetReach n net sent
      → NetStep net sent next sent'
      → NetReach n next sent'

-- Each message was sent.
abbrev WereSent : List Message → List Message → Type 0
WereSent sent = All (λ m. Mem m sent)

-- The message was sent to the address, unless it was put there without being sent.
abbrev pub CameTo : ℕ → List Message → Message → Type 0
CameTo d sent m = (Mem m sent × (m.dest ≡ d)) ⊎ Posted d m

abbrev AllCameTo : ℕ → List Message → List Message → Type 0
AllCameTo d sent = All (CameTo d sent)

pub record IsHonest (net : Network) (sent : List Message) : Type 0 where
  pub under_way : WereSent sent net.in_flight
  pub received : (d : ℕ) → AllCameTo d sent (net.inboxes d)
  pub bounded : (d : ℕ) → length (net.inboxes d) ≤ capacity net.num_nodes d

-- What a round of `startHelper` leaves, if it ends.
abbrev Routed : Message → Network → Network → Type 0
Routed m net next =
    (next.num_nodes ≡ net.num_nodes)
    × (next.inboxes ≡ net.inboxes)
    × ((next.in_flight ≡ net.in_flight) ⊎ (next.in_flight ≡ net.in_flight ++ m ∷ []))

route_message-Routed : (m : Message) (net : Network) → Returns (Routed m net) (route_message m net)
unfolding route_message
route_message-Routed m net =
    if-Returns (not (int_ltb m.dest (net.num_nodes + 1))) (λ e. returned (refl, refl, inl refl))
      (λ e.
        if-Returns (cut_off net.links m) (λ f. returned (refl, refl, inl refl))
          (λ f.
            if-Returns (int_ltb m.dest 0) (λ g. faulted) (λ g. returned (refl, refl, inr refl))))

arrived :
    (m : Message) (sent : List Message) (net : Network)
    → Mem m sent
    → IsHonest net sent
    → IsHonest (arrive m net) sent
unfolding arrive
arrived m sent net there h = record {
  under_way = h.under_way;
  received = λ d.
      elim (Bool-cases (m.dest == d && ltb (length (net.inboxes d)) (capacity net.num_nodes d))) [
        | inl room ↦ rw room (
            All-append (CameTo d sent) (net.inboxes d) (m ∷ []) (h.received d)
              (inl (there, ground (arith, room)), tt))
        | inr full ↦ rw full (h.received d)
      ];
  bounded = λ d. ground (arith, h.bounded d, length-append (net.inboxes d) (m ∷ []));
}

CameTo-cons :
    (d : ℕ) (m : Message) (sent : List Message) (x : Message)
    → CameTo d sent x
    → CameTo d (m ∷ sent) x
CameTo-cons d m sent x (inl k) = inl (mem-cons_of_mem m k.0, k.1)
CameTo-cons d m sent x (inr p) = inr p

routed :
    (m : Message) (sent : List Message) (net next : Network)
    → Routed m net next
    → IsHonest net sent
    → IsHonest next (m ∷ sent)
routed m sent net next (n, boxes, flight) h =
    let under_way =
      All-weaken (λ x. Mem x sent) (λ x. Mem x (m ∷ sent)) net.in_flight
        (λ x k. mem-cons_of_mem m k) h.under_way in
    record {
      under_way = elim flight [
        | inl e ↦ subst (WereSent (m ∷ sent)) (sym e) under_way
        | inr e ↦ subst (WereSent (m ∷ sent)) (sym e) (
            All-append (λ x. Mem x (m ∷ sent)) net.in_flight (m ∷ []) under_way (mem-cons_self, tt))
      ];
      received = λ d.
          subst (λ b. AllCameTo d (m ∷ sent) (b d)) (sym boxes)
            (All-weaken (CameTo d sent) (CameTo d (m ∷ sent)) (net.inboxes d) (CameTo-cons d m sent)
              (h.received d));
      bounded = λ d.
          subst (λ b. length (b d) ≤ capacity next.num_nodes d) (sym boxes)
            (subst (λ k. length (net.inboxes d) ≤ capacity k d) (sym n) (h.bounded d));
    }

posted :
    (d : ℕ) (m : Message) (sent : List Message) (net : Network)
    → Posted d m
    → length (net.inboxes d) < capacity net.num_nodes d
    → IsHonest net sent
    → IsHonest (post d m net) sent
unfolding post
posted d m sent net p room h = record {
  under_way = h.under_way;
  received = λ j. elim (Bool-cases (d == j)) [
    | inl same ↦ rw same (
        All-append (CameTo j sent) (net.inboxes j) (m ∷ []) (h.received j)
          (inr (subst (λ k. Posted k m) ((==_iff d j).0 same) p), tt))
    | inr other ↦ rw other (h.received j)
  ];
  bounded = λ j. elim (Bool-cases (d == j)) [
    | inl same ↦ rw same (
        subst (λ k. length (net.inboxes k ++ m ∷ []) ≤ capacity net.num_nodes k)
          ((==_iff d j).0 same) (omega (arith, length-append (net.inboxes d) (m ∷ []))))
    | inr other ↦ rw other (h.bounded j)
  ];
}

taken :
    (d : ℕ) (m : Message) (ms sent : List Message) (net : Network)
    → net.inboxes d ≡ m ∷ ms
    → IsHonest net sent
    → IsHonest (record net { inboxes = λ j. if d == j then ms else net.inboxes j }) sent
taken d m ms sent net e h =
    let first = subst (AllCameTo d sent) e (h.received d) in
    let less = subst (λ l. length l ≤ capacity net.num_nodes d) e (h.bounded d) in
    record {
      under_way = h.under_way;
      received = λ j. elim (Bool-cases (d == j)) [
        | inl same ↦ rw same (subst (λ k. AllCameTo k sent ms) ((==_iff d j).0 same) first.1)
        | inr other ↦ rw other (h.received j)
      ];
      bounded = λ j. elim (Bool-cases (d == j)) [
        | inl same ↦
            rw same (
              subst (λ k. length ms ≤ capacity net.num_nodes k) ((==_iff d j).0 same) (omega arith))
        | inr other ↦ rw other (h.bounded j)
      ];
    }

NetStep-IsHonest :
    {net next : Network} {sent sent' : List Message}
    → NetStep net sent next sent'
    → IsHonest net sent
    → IsHonest next sent'
NetStep-IsHonest {net} {next} {sent} {sent'} (sends m e s) h = subst (IsHonest next) (sym s) (
    routed m sent net next
      (Returns-value (subst (Returns (Routed m net)) e (route_message-Routed m net))) h)
NetStep-IsHonest {net} {next} {sent} {sent'} (arrives xs ys m e n s) h =
    let flight = subst (WereSent sent) e h.under_way in
    let left = All-left (λ x. Mem x sent) xs (m ∷ ys) flight in
    let right = All-right (λ x. Mem x sent) xs (m ∷ ys) flight in
    subst (IsHonest next) (sym s) (
      subst (λ x. IsHonest x sent) (sym n)
        (arrived m sent (record net { in_flight = xs ++ ys }) right.0
          (record {
            under_way = All-append (λ x. Mem x sent) xs ys left right.1;
            received = h.received;
            bounded = h.bounded;
          })))
NetStep-IsHonest {net} {next} {sent} {sent'} (takes d m ms e n s) h =
    subst (IsHonest next) (sym s) (subst (λ x. IsHonest x sent) (sym n) (taken d m ms sent net e h))
NetStep-IsHonest {net} {next} {sent} {sent'} (posts d m p lt room n s) h =
    subst (IsHonest next) (sym s)
      (subst (λ x. IsHonest x sent) (sym n) (posted d m sent net p room h))
NetStep-IsHonest {net} {next} {sent} {sent'} (relinks links n s) h = subst (IsHonest next) (sym s) (
    subst (λ x. IsHonest x sent) (sym n)
      (record { under_way = h.under_way; received = h.received; bounded = h.bounded }))

-- Whatever is sent, however long it is under way, whichever links are cut and whichever nodes fail
-- meanwhile: each message under way is one that was sent, each message in a buffer was sent to its
-- address or is a simulated failure or recovery or a signal of the node's timer, and no buffer holds more
-- than it has room for.
pub NetReach-IsHonest :
    (n : ℕ) {net : Network} {sent : List Message} → NetReach n net sent → IsHonest net sent
unfolding new_network
NetReach-IsHonest n begins = record {
  under_way = tt;
  received = λ d. tt;
  bounded = λ d. omega arith;
}
NetReach-IsHonest n (goes_on r s) = NetStep-IsHonest s (NetReach-IsHonest n r)
