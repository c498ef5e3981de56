-- ===== src/Partitions/Cuts.antt =====
-- net/partitions.go: which links are available while a partition lasts, and after it.
use part_ii_project.Base.{
  ◌==◌, Option-cases, lookup, insert, erase, lookup-insert, lookup-erase, ◌>>=◌, ok, ℕ, ◌≡◌, refl,
  ◌≢◌, inl, inr, Bool, true, false, ◌&&◌, ◌||◌, not, none, List, [], ◌∷◌, arith, nat_key,
}
use part_ii_project.Partitions.{
  Links, unavailable, cut_link, cut_links, create_partition, restore_link, restore_links,
  remove_partition, link_available,
}

-- The link is one of those to a list of nodes.
unfoldable pub cuts_to : List (ℕ × Bool) → ℕ → Bool
cuts_to [] d = false
cuts_to ((dest, b) ∷ dests) d = dest == d || cuts_to dests d

-- The partition cuts the link.
unfoldable pub cuts : Links → ℕ → ℕ → Bool
unfolding cuts_to
cuts [] s d = false
cuts ((source, dests) ∷ links) s d = source == s && cuts_to dests d || cuts links s d

-- Each node that the partition names first has a row.
abbrev pub HasSources : Links → Links → Type 0
HasSources [] u = Unit {0}
HasSources ((source, dests) ∷ links) u = (lookup source u ≢ none) × HasSources links u

-- The rows of the first table are in the second.
abbrev Keeps : Links → Links → Type 0
Keeps u v = (s : ℕ) → lookup s u ≢ none → lookup s v ≢ none

HasSources-Keeps : (links u v : Links) → Keeps u v → HasSources links u → HasSources links v
HasSources-Keeps [] u v k h = tt
HasSources-Keeps ((source, dests) ∷ links) u v k h =
    (k source h.0, HasSources-Keeps links u v k h.1)

cut_link_lem :
    (source dest : ℕ) (u : Links)
    → lookup source u ≢ none
    → (v : Links) × (cut_link source dest u ≡ ok v)
      × Keeps u v
      × ((s d : ℕ) → unavailable v s d ≡ (unavailable u s d || source == s && dest == d))
unfolding cut_link unavailable
cut_link_lem source dest u there = elim (Option-cases (lookup source u)) [
  | inl e ↦ absurd (there e)
  | inr (row, e) ↦ (
    insert source (insert dest true row) u,
    ground (arith, e),
    λ s h k. ground (arith, lookup-insert source s (insert dest true row) u, h, k),
    λ s d.
        ground (
          arith,
          e,
          lookup-insert source s (insert dest true row) u,
          lookup-insert dest d true row,
        ),
  )
]

cut_links_lem :
    (source : ℕ) (dests : List (ℕ × Bool)) (u : Links)
    → lookup source u ≢ none
    → (v : Links) × (cut_links source dests u ≡ ok v)
      × Keeps u v
      × ((s d : ℕ) → unavailable v s d ≡ (unavailable u s d || source == s && cuts_to dests d))
unfolding cut_links cuts_to
cut_links_lem source [] u there = (u, refl, λ s h. h, λ s d. ground arith)
cut_links_lem source ((dest, b) ∷ dests) u there =
    let (v, e, k, c) = cut_link_lem source dest u there in
    let (w, f, l, g) = cut_links_lem source dests v (k source there) in
    (w, rw (e, ◌>>=◌) f, λ s h. l s (k s h), λ s d. ground (arith, c s d, g s d))

cut_all :
    (links u : Links)
    → HasSources links u
    → (v : Links) × (create_partition links u ≡ ok v)
      × ((s d : ℕ) → unavailable v s d ≡ (unavailable u s d || cuts links s d))
unfolding create_partition cuts
cut_all [] u h = (u, refl, λ s d. ground arith)
cut_all ((source, dests) ∷ links) u h =
    let (v, e, k, c) = cut_links_lem source dests u h.0 in
    let (w, f, g) = cut_all links v (HasSources-Keeps links u v k h.1) in
    (w, rw (e, ◌>>=◌) f, λ s d. ground (arith, c s d, g s d))

-- A partition whose lower nodes have rows is made, and cuts its own links besides those that were
-- cut before.
pub create_partition_lem :
    (links u : Links)
    → HasSources links u
    → (v : Links) × (create_partition links u ≡ ok v)
      × ((s d : ℕ) → link_available v s d ≡ (link_available u s d && not (cuts links s d)))
unfolding link_available
create_partition_lem links u h =
    let (v, e, c) = cut_all links u h in (v, e, λ s d. ground (arith, c s d))

restore_link_lem :
    (source dest : ℕ) (u : Links) (s d : ℕ)
    → unavailable (restore_link source dest u) s d
      ≡ (unavailable u s d && not (source == s && dest == d))
unfolding restore_link unavailable
restore_link_lem source dest u s d = elim (Option-cases (lookup source u)) [
  | inl e ↦ ground (arith, e)
  | inr (row, e) ↦
      ground (arith, e, lookup-insert source s (erase dest row) u, lookup-erase dest d row)
]

restore_links_lem :
    (source : ℕ) (dests : List (ℕ × Bool)) (u : Links) (s d : ℕ)
    → unavailable (restore_links source dests u) s d
      ≡ (unavailable u s d && not (source == s && cuts_to dests d))
unfolding restore_links cuts_to
restore_links_lem source [] u s d = ground arith
restore_links_lem source ((dest, b) ∷ dests) u s d = ground (
  arith,
  restore_link_lem source dest u s d,
  restore_links_lem source dests (restore_link source dest u) s d,
)

-- The end of a partition makes all of its links available, also those that another partition still
-- cuts, and changes no other link.
pub remove_partition_lem :
    (links u : Links) (s d : ℕ)
    → link_available (remove_partition links u) s d ≡ (link_available u s d || cuts links s d)
unfolding remove_partition cuts link_available
remove_partition_lem [] u s d = ground arith
remove_partition_lem ((source, dests) ∷ links) u s d = ground (
  arith,
  restore_links_lem source dests u s d,
  remove_partition_lem links (restore_links source dests u) s d,
)
