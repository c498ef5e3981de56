-- ===== src/Quorums.antt =====
-- Sets of node addresses as lists without repetition, and when two of them must meet.
use part_ii_project.Base.{
  ltb, ◌==◌, if◌then◌else◌, Bool-cases, Option-cases, length, All, ℕ, zero, suc, ◌+◌, ◌≤◌, ◌<◌, ◌≡◌,
  refl, inl, inr, Bool, true, false, ◌&&◌, ◌||◌, Option, none, some, List, [], ◌∷◌, arith,
}

-- x occurs in the list.
abbrev pub elem : ℕ → List ℕ → Bool
elem x [] = false
elem x (y ∷ ys) = y == x || elem x ys

abbrev pub Distinct : List ℕ → Type 0
Distinct [] = Unit {0}
Distinct (x ∷ xs) = (elem x xs ≡ false) × Distinct xs

-- The number of nodes below `n` that occur.
census : ℕ → List ℕ → ℕ
census zero xs = 0
census (suc n) xs = census n xs + (if elem n xs then 1 else 0)

census-le : (n : ℕ) (xs : List ℕ) → census n xs ≤ n
unfolding census
census-le zero xs = omega arith
census-le (suc n) xs = ground (arith, census-le n xs)

census-nil : (n : ℕ) → census n [] ≡ 0
unfolding census
census-nil zero = refl
census-nil (suc n) = omega (arith, census-nil n)

-- A new member below `n` counts once.
census-cons_ge : (n x : ℕ) (xs : List ℕ) → n ≤ x → census n (x ∷ xs) ≡ census n xs
unfolding census
census-cons_ge zero x xs h = refl
census-cons_ge (suc n) x xs h = ground (arith, census-cons_ge n x xs)

census-cons :
    (n x : ℕ) (xs : List ℕ) → x < n → elem x xs ≡ false → census n (x ∷ xs) ≡ census n xs + 1
unfolding census
census-cons zero x xs h e = absurd (omega arith)
census-cons (suc n) x xs h e = elim (Bool-cases (ltb x n)) [
  | inl below ↦ ground (arith, census-cons n x xs)
  | inr last ↦ ground (arith, census-cons_ge n x xs)
]

census-Distinct :
    (n : ℕ) (xs : List ℕ) → All (λ x. x < n) xs → Distinct xs → census n xs ≡ length xs
census-Distinct n [] a d = census-nil n
census-Distinct n (x ∷ xs) a d =
    omega (arith, census-cons n x xs a.0 d.0, census-Distinct n xs a.1 d.1)

-- The first node below `n` that is in both lists.
unfoldable pub common : ℕ → List ℕ → List ℕ → Option ℕ
common zero xs ys = none
common (suc n) xs ys = let rest = common n xs ys in if elem n xs && elem n ys then some n else rest

common-none : (n : ℕ) (xs ys : List ℕ) → common n xs ys ≡ none → census n xs + census n ys ≤ n
unfolding common census
common-none zero xs ys h = omega arith
common-none (suc n) xs ys h = ground (arith, common-none n xs ys)

common-some :
    (n : ℕ) (xs ys : List ℕ) (x : ℕ)
    → common n xs ys ≡ some x
    → (elem x xs ≡ true) × (elem x ys ≡ true)
unfolding common
common-some zero xs ys x h = absurd (ground arith)
common-some (suc n) xs ys x h = ground (arith, common-some n xs ys x)

-- Two sets of nodes below `n` with more than `n` members together share one.
pub sets_meet :
    (n : ℕ) (xs ys : List ℕ)
    → All (λ x. x < n) xs
    → Distinct xs
    → All (λ y. y < n) ys
    → Distinct ys
    → n < length xs + length ys
    → (x : ℕ) × (elem x xs ≡ true) × (elem x ys ≡ true)
sets_meet n xs ys a d b e more = elim (Option-cases (common n xs ys)) [
  | inl h ↦
      absurd
        (omega (arith, common-none n xs ys h, census-Distinct n xs a d, census-Distinct n ys b e))
  | inr (x, h) ↦ (x, (common-some n xs ys x h).0, (common-some n xs ys x h).1)
]
