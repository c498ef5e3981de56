-- ===== src/Dbnode/Assembly/Addresses.antt =====
-- The addresses that stand for the numbers of a random permutation, and the keys of the members.
use part_ii_project.Base.{
  ◌==◌, if◌then◌else◌, take, All, insert, ℕ, zero, suc, ◌≤◌, ◌<◌, ◌≡◌, refl, ◌≢◌, false, List, [],
  ◌∷◌, ◌++◌, map, arith, nat_key,
}
use part_ii_project.Packet.{Message}
use part_ii_project.Quorums.{elem, Distinct}
use part_ii_project.Dbnode.Quorum.{peer_address}

-- The nodes of a map of members other than `id`.
unfoldable pub peers_of : ℕ → List (ℕ × Message) → List ℕ
peers_of id [] = []
peers_of id ((d, m) ∷ q) = let rest = peers_of id q in if d == id then rest else d ∷ rest

abbrev pub addresses : ℕ → ℕ → List ℕ → List ℕ
addresses id num = map (peer_address id num)

elem-take : (k x : ℕ) (xs : List ℕ) → elem x xs ≡ false → elem x (take k xs) ≡ false
elem-take zero x xs h = refl
elem-take (suc k) x [] h = refl
elem-take (suc k) x (y ∷ ys) h = ground (arith, elem-take k x ys)

pub Distinct-take : (k : ℕ) (xs : List ℕ) → Distinct xs → Distinct (take k xs)
Distinct-take zero xs d = tt
Distinct-take (suc k) [] d = tt
Distinct-take (suc k) (x ∷ xs) d = (elem-take k x xs d.0, Distinct-take k xs d.1)

pub elem-addresses :
    (id num x : ℕ) (xs : List ℕ)
    → x < num
    → All (λ d. d < num) xs
    → elem x xs ≡ false
    → elem (peer_address id num x) (addresses id num xs) ≡ false
elem-addresses id num x [] h a e = refl
elem-addresses id num x (y ∷ ys) h a e = ground (arith, elem-addresses id num x ys h a.1)

pub addresses-Distinct :
    (id num : ℕ) (xs : List ℕ)
    → All (λ d. d < num) xs
    → Distinct xs
    → Distinct (addresses id num xs)
addresses-Distinct id num [] a d = tt
addresses-Distinct id num (x ∷ xs) a d =
    (elem-addresses id num x xs a.0 a.1 d.0, addresses-Distinct id num xs a.1 d.1)

pub addresses-other :
    (id num : ℕ) (xs : List ℕ)
    → id ≤ num
    → All (λ d. d < num) xs
    → elem id (addresses id num xs) ≡ false
addresses-other id num [] h a = refl
addresses-other id num (x ∷ xs) h a = ground (arith, addresses-other id num xs h a.1)

pub addresses-below :
    (id num : ℕ) (xs : List ℕ)
    → All (λ d. d < num) xs
    → All (λ d. d < suc num) (addresses id num xs)
addresses-below id num [] a = tt
addresses-below id num (x ∷ xs) a = (ground arith, addresses-below id num xs a.1)

-- Inserting a new node other than `id` puts it at the end; inserting `id` changes no peer.
pub peers_of-insert :
    (id d : ℕ) (m : Message) (q : List (ℕ × Message))
    → d ≢ id
    → elem d (peers_of id q) ≡ false
    → peers_of id (insert d m q) ≡ peers_of id q ++ d ∷ []
unfolding peers_of insert
peers_of-insert id d m [] ne e = ground arith
peers_of-insert id d m ((c, w) ∷ q) ne e = ground (arith, peers_of-insert id d m q ne)

pub peers_of-insert_self :
    (id : ℕ) (m : Message) (q : List (ℕ × Message)) → peers_of id (insert id m q) ≡ peers_of id q
unfolding peers_of insert
peers_of-insert_self id m [] = ground arith
peers_of-insert_self id m ((c, w) ∷ q) = ground (arith, peers_of-insert_self id m q)
