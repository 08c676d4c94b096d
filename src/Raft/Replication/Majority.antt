-- ===== src/Raft/Replication/Majority.antt =====
-- The median of tryAdvanceCommitIndex in internal/raft/replication.go.
use distributed_kv.Common.{
  ℕ, zero, suc, ◌+◌, ◌-◌, ◌*◌, ◌/◌, ◌≤◌, ◌<◌, ◌≡◌, refl, ◌∙◌, ap, List, [], ◌∷◌, arith, leb, le→leb,
  lt→leb, length, get_or, if◌then◌else◌, dec_le,
}
use distributed_kv.Raft.Replication.{sort, insert_sorted, majority_index}

-- How many of the numbers are at least `m`.
pub count_ge : ℕ → List ℕ → ℕ
count_ge m [] = 0
count_ge m (x ∷ xs) = let rest = count_ge m xs in if leb m x then suc rest else rest

-- Every number is at least `y`.
abbrev AtLeast : ℕ → List ℕ → Type 0
AtLeast y [] = Unit
AtLeast y (z ∷ zs) = (y ≤ z) × AtLeast y zs

abbrev IsSorted : List ℕ → Type 0
IsSorted [] = Unit
IsSorted (y ∷ ys) = AtLeast y ys × IsSorted ys

AtLeast-trans : (x y : ℕ) (zs : List ℕ) → x ≤ y → AtLeast y zs → AtLeast x zs
AtLeast-trans x y [] h a = tt
AtLeast-trans x y (z ∷ zs) h a = (omega (arith, a.0), AtLeast-trans x y zs h a.1)

insert_sorted-AtLeast :
    (y x : ℕ) (zs : List ℕ) → y ≤ x → AtLeast y zs → AtLeast y (insert_sorted x zs)
unfolding insert_sorted
insert_sorted-AtLeast y x [] h a = (h, tt)
insert_sorted-AtLeast y x (z ∷ zs) h a =
    ground (arith, insert_sorted-AtLeast y x zs h a.1, a.0, a.1)

insert_sorted-IsSorted : (x : ℕ) (ys : List ℕ) → IsSorted ys → IsSorted (insert_sorted x ys)
unfolding insert_sorted
insert_sorted-IsSorted x [] s = (tt, tt)
insert_sorted-IsSorted x (y ∷ ys) s = elim (dec_le x y) [
  | yes p ↦ rw (le→leb _ _ p) ((p, AtLeast-trans x y ys p s.0), s)
  | no p ↦
      rw (lt→leb x y (omega arith))
        (insert_sorted-AtLeast y x ys (omega arith) s.0, insert_sorted-IsSorted x ys s.1)
]

sort-IsSorted : (xs : List ℕ) → IsSorted (sort xs)
unfolding sort
sort-IsSorted [] = tt
sort-IsSorted (x ∷ xs) = insert_sorted-IsSorted x (sort xs) (sort-IsSorted xs)

count_ge-insert_sorted :
    (m x : ℕ) (ys : List ℕ) → count_ge m (insert_sorted x ys) ≡ count_ge m (x ∷ ys)
unfolding insert_sorted count_ge
count_ge-insert_sorted m x [] = refl
count_ge-insert_sorted m x (y ∷ ys) = ground (arith, count_ge-insert_sorted m x ys)

count_ge-sort : (m : ℕ) (xs : List ℕ) → count_ge m (sort xs) ≡ count_ge m xs
unfolding sort count_ge
count_ge-sort m [] = refl
count_ge-sort m (x ∷ xs) =
    count_ge-insert_sorted m x (sort xs)
    ∙ ap (λ (n : ℕ). if leb m x then suc n else n) (count_ge-sort m xs)

length-insert_sorted : (x : ℕ) (ys : List ℕ) → length (insert_sorted x ys) ≡ suc (length ys)
unfolding insert_sorted
length-insert_sorted x [] = refl
length-insert_sorted x (y ∷ ys) = ground (arith, length-insert_sorted x ys)

length-sort : (xs : List ℕ) → length (sort xs) ≡ length xs
unfolding sort
length-sort [] = refl
length-sort (x ∷ xs) = length-insert_sorted x (sort xs) ∙ ap suc (length-sort xs)

-- If every number is at least `y`, all of them are counted at a bound up to `y`.
count_ge-all : (m y : ℕ) (ys : List ℕ) → m ≤ y → AtLeast y ys → count_ge m ys ≡ length ys
unfolding count_ge
count_ge-all m y [] h a = refl
count_ge-all m y (z ∷ zs) h a = ground (arith, a.0, count_ge-all m y zs h a.1)

count_ge-le : (m : ℕ) (ys : List ℕ) → count_ge m ys ≤ length ys
unfolding count_ge
count_ge-le m [] = omega arith
count_ge-le m (y ∷ ys) = ground (arith, count_ge-le m ys)

-- At place `i` of a sorted list stands a number that the places from `i` on reach, and a larger
-- bound is reached by later places alone.
count_ge-sorted :
    (ys : List ℕ) (i m : ℕ)
    → IsSorted ys
    → i < length ys
    → (length ys ≤ count_ge (get_or ys i 0) ys + i)
      × (get_or ys i 0 < m → count_ge m ys + i < length ys)
unfolding count_ge
count_ge-sorted [] i m s h = absurd (omega arith)
count_ge-sorted (y ∷ ys) zero m s h =
    (ground (arith, count_ge-all y y ys (omega arith) s.0), λ lt. ground (arith, count_ge-le m ys))
count_ge-sorted (y ∷ ys) (suc i) m s h =
    let (a, b) = count_ge-sorted ys i m s.1 (omega arith) in
    (ground arith, λ lt. let c = b lt in ground (arith, get_or-AtLeast y ys i s.0))
  where
    get_or-AtLeast :
        (y : ℕ) (ys : List ℕ) (i : ℕ) → AtLeast y ys → i < length ys → y ≤ get_or ys i 0
    get_or-AtLeast y [] i a h = absurd (omega arith)
    get_or-AtLeast y (z ∷ zs) zero a h = a.0
    get_or-AtLeast y (z ∷ zs) (suc i) a h = get_or-AtLeast y zs i a.1 (omega arith)

-- For a non-empty list of match indexes the index that tryAdvanceCommitIndex picks is reached by
-- more than half of them, and no larger index is.
pub majority_index_lem :
    (xs : List ℕ)
    → 0 < length xs
    → (length xs < 2 * count_ge (majority_index xs) xs)
      × ((m : ℕ) → majority_index xs < m → 2 * count_ge m xs ≤ length xs)
unfolding majority_index
majority_index_lem xs h =
    let i : ℕ = (length xs - 1) / 2 in
    let at =
      λ (m : ℕ). count_ge-sorted (sort xs) i m (sort-IsSorted xs) (omega (arith, length-sort xs)) in
    (
      omega (arith, (at 0).0, length-sort xs, count_ge-sort (get_or (sort xs) i 0) xs),
      λ m lt. omega (arith, (at m).1 lt, length-sort xs, count_ge-sort m xs),
    )
