-- ===== src/Datastore/Memstore/Nodes.antt =====
-- The trie of datastore/memory.go: a node for each prefix of a stored key.
use part_ii_project.Base.{
  ◌==◌, if◌then◌else◌, Bytes, bytes_equal, ℕ, ◌≡◌, refl, Option, none, some, [], ◌∷◌, arith,
}

mutual
  pub data Trie : Type 0 where
    node : Bytes → Children → Trie

  pub data Children : Type 0 where
    leaf : Children
    branch : ℕ → Trie → Children → Children

-- A new node, with no value and no children.
abbrev pub empty_trie : Trie
empty_trie = node [] leaf

-- store.children[b]
unfoldable pub child : ℕ → Children → Option Trie
child b leaf = none
child b (branch c t cs) = if c == b then some t else child b cs

-- store.children[b] = t
unfoldable pub set_child : ℕ → Trie → Children → Children
set_child b t leaf = branch b t leaf
set_child b t (branch c u cs) = if c == b then branch b t cs else branch c u (set_child b t cs)

-- The child for `b`, or a new one.
child_or_new : Option Trie → Trie
child_or_new none = empty_trie
child_or_new (some t) = t

-- `Get` on the nodes.
unfoldable pub trie_get : Trie → Bytes → Bytes
trie_get (node value children) [] = value
trie_get (node value children) (b ∷ key) = elim (child b children) [
  | none ↦ []
  | some t ↦ trie_get t key
]

-- `insert`
unfoldable pub trie_insert : Bytes → Bytes → Trie → Trie
unfolding child_or_new
trie_insert [] new (node value children) = node new children
trie_insert (b ∷ key) new (node value children) =
    node value (set_child b (trie_insert key new (child_or_new (child b children))) children)

pub child-set_child :
    (b c : ℕ) (t : Trie) (cs : Children)
    → child c (set_child b t cs) ≡ (if b == c then some t else child c cs)
unfolding child set_child
child-set_child b c t leaf = refl
child-set_child b c t (branch d u cs) = ground (arith, child-set_child b c t cs)

trie_get-empty : (k : Bytes) → trie_get empty_trie k ≡ []
unfolding trie_get child
trie_get-empty [] = refl
trie_get-empty (b ∷ k) = refl

-- A read after an insertion sees the new value at its key, and what was there at any other.
pub trie_get-trie_insert :
    (k j v : Bytes) (t : Trie)
    → trie_get (trie_insert k v t) j ≡ (if bytes_equal k j then v else trie_get t j)
unfolding trie_get trie_insert bytes_equal
trie_get-trie_insert [] [] v (node w cs) = refl
trie_get-trie_insert [] (c ∷ j) v (node w cs) = refl
trie_get-trie_insert (b ∷ k) [] v (node w cs) = refl
trie_get-trie_insert (b ∷ k) (c ∷ j) v (node w cs) = ground (
  arith,
  child-set_child b c (trie_insert k v (child_or_new (child b cs))) cs,
  trie_get-trie_insert k j v (child_or_new (child b cs)),
  trie_get-empty j,
)
