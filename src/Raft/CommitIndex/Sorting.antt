-- ===== src/Raft/CommitIndex/Sorting.antt =====
-- Sorting the match indexes keeps their number and how many of them reach a bound.
use tors_hw.Base.{
  ℕ, suc, ◌≤◌, ◌≡◌, ◌∙◌, refl, ap, List, [], ◌∷◌, arith, All, length, leb, if◌then◌else◌,
  Bool-cases, inl, inr, leb→le, leb→lt,
}
use tors_hw.Raft.CommitIndex.{insert, sort}

-- How many of the values are at least `m`.
abbrev pub count_ge : ℕ → List ℕ → ℕ
count_ge m [] = 0
count_ge m (x ∷ xs) = let later = count_ge m xs in if leb m x then suc later else later

abbrev pub Sorted : List ℕ → Type 0
Sorted [] = Unit
Sorted (x ∷ xs) = All (λ y. x ≤ y) xs × Sorted xs

count_ge-insert : (m a : ℕ) (xs : List ℕ) → count_ge m (insert a xs) ≡ count_ge m (a ∷ xs)
unfolding insert
count_ge-insert m a [] = refl
count_ge-insert m a (x ∷ xs) = ground (arith, count_ge-insert m a xs)

pub count_ge-sort : (m : ℕ) (xs : List ℕ) → count_ge m (sort xs) ≡ count_ge m xs
unfolding sort
count_ge-sort m [] = refl
count_ge-sort m (x ∷ xs) = ground (arith, count_ge-insert m x (sort xs), count_ge-sort m xs)

length-insert : (a : ℕ) (xs : List ℕ) → length (insert a xs) ≡ suc (length xs)
unfolding insert
length-insert a [] = refl
length-insert a (x ∷ xs) = ground (arith, length-insert a xs)

pub length-sort : (xs : List ℕ) → length (sort xs) ≡ length xs
unfolding sort
length-sort [] = refl
length-sort (x ∷ xs) = length-insert x (sort xs) ∙ ap suc (length-sort xs)

All-le : (a b : ℕ) (xs : List ℕ) → a ≤ b → All (λ y. b ≤ y) xs → All (λ y. a ≤ y) xs
All-le a b [] h k = tt
All-le a b (x ∷ xs) h k = (omega (arith, k.0), All-le a b xs h k.1)

All-insert : (b a : ℕ) (xs : List ℕ) → b ≤ a → All (λ y. b ≤ y) xs → All (λ y. b ≤ y) (insert a xs)
unfolding insert
All-insert b a [] h k = (h, tt)
All-insert b a (x ∷ xs) h k = elim (Bool-cases (leb a x)) [
  | inl le ↦ rw le (h, k)
  | inr gt ↦ rw gt (k.0, All-insert b a xs h k.1)
]

insert-Sorted : (a : ℕ) (xs : List ℕ) → Sorted xs → Sorted (insert a xs)
unfolding insert
insert-Sorted a [] s = (tt, tt)
insert-Sorted a (x ∷ xs) s = elim (Bool-cases (leb a x)) [
  | inl le ↦ rw le ((leb→le a x le, All-le a x xs (leb→le a x le) s.0), s)
  | inr gt ↦ rw gt (All-insert x a xs (omega (arith, leb→lt a x gt)) s.0, insert-Sorted a xs s.1)
]

pub sort-Sorted : (xs : List ℕ) → Sorted (sort xs)
unfolding sort
sort-Sorted [] = tt
sort-Sorted (x ∷ xs) = insert-Sorted x (sort xs) (sort-Sorted xs)

pub count_ge-le : (m : ℕ) (xs : List ℕ) → count_ge m xs ≤ length xs
count_ge-le m [] = omega arith
count_ge-le m (x ∷ xs) = ground (arith, count_ge-le m xs)

pub count_ge-All : (m : ℕ) (xs : List ℕ) → All (λ y. m ≤ y) xs → count_ge m xs ≡ length xs
count_ge-All m [] h = refl
count_ge-All m (x ∷ xs) h = ground (arith, count_ge-All m xs h.1)
