-- ===== src/Raft/Cluster/Quorum.antt =====
-- Two sets of more than half of the nodes have a node in common.
use mathlib.Core.List.{Memᴰ}
use tors_hw.Base.{
  ℕ, zero, suc, ◌/◌, ◌<◌, ◌≤◌, ◌≡◌, ◌≢◌, ◌⊎◌, inl, inr, refl, ap, List, [], ◌∷◌, ◌++◌, All,
  All-append, NoRepeat, ◌==◌, ==→eq, if◌then◌else◌, length, length-append, Bool-cases, arith,
}

-- The list without a number.
abbrev without : ℕ → List ℕ → List ℕ
without x [] = []
without x (y ∷ ys) = if y == x then without x ys else y ∷ without x ys

without-absent : (x : ℕ) (ys : List ℕ) → All (λ y. x ≢ y) ys → length (without x ys) ≡ length ys
without-absent x [] h = refl
without-absent x (y ∷ ys) (ne, h) = ground (arith, without-absent x ys h)

length-without : (x : ℕ) (ys : List ℕ) → NoRepeat ys → length ys ≤ suc (length (without x ys))
length-without x [] h = omega arith
length-without x (y ∷ ys) (absent, h) = elim (Bool-cases (y == x)) [
  | inl same ↦
      rw same (
        omega (arith, without-absent y ys absent, ap (λ k. length (without k ys)) (==→eq y x same)))
  | inr other ↦ rw other (omega (arith, length-without x ys h))
]

All-without : (P : ℕ → Type 0) (x : ℕ) (ys : List ℕ) → All P ys → All P (without x ys)
All-without P x [] h = tt
All-without P x (y ∷ ys) (p, h) = elim (Bool-cases (y == x)) [
  | inl same ↦ rw same (All-without P x ys h)
  | inr other ↦ rw other (p, All-without P x ys h)
]

NoRepeat-without : (x : ℕ) (ys : List ℕ) → NoRepeat ys → NoRepeat (without x ys)
NoRepeat-without x [] h = tt
NoRepeat-without x (y ∷ ys) (absent, h) = elim (Bool-cases (y == x)) [
  | inl same ↦ rw same (NoRepeat-without x ys h)
  | inr other ↦ rw other (All-without (λ z. y ≢ z) x ys absent, NoRepeat-without x ys h)
]

below-without : (n : ℕ) (ys : List ℕ) → All (λ y. y < suc n) ys → All (λ y. y < n) (without n ys)
below-without n [] h = tt
below-without n (y ∷ ys) (p, h) = elim (Bool-cases (y == n)) [
  | inl same ↦ rw same (below-without n ys h)
  | inr other ↦ rw other (ground arith, below-without n ys h)
]

-- No more numbers than there are below `n`.
pub length-le-bound : (n : ℕ) (ys : List ℕ) → NoRepeat ys → All (λ y. y < n) ys → length ys ≤ n
length-le-bound zero [] r h = omega arith
length-le-bound zero (y ∷ ys) r (p, h) = absurd (omega arith)
length-le-bound (suc n) ys r h = omega (
  arith,
  length-without n ys r,
  length-le-bound n (without n ys) (NoRepeat-without n ys r) (below-without n ys h),
)

NoRepeat-append :
    (xs ys : List ℕ)
    → NoRepeat xs
    → NoRepeat ys
    → All (λ x. All (λ y. x ≢ y) ys) xs
    → NoRepeat (xs ++ ys)
NoRepeat-append [] ys rx ry apart = ry
NoRepeat-append (x ∷ xs) ys (absent, rx) ry (here, apart) =
    (All-append (λ y. x ≢ y) xs ys absent here, NoRepeat-append xs ys rx ry apart)

find : (x : ℕ) (ys : List ℕ) → Memᴰ x ys ⊎ All (λ y. x ≢ y) ys
find x [] = inr tt
find x (y ∷ ys) = elim (Bool-cases (x == y)) [
  | inl same ↦ inl (Memᴰ.head (==→eq x y same))
  | inr other ↦ elim (find x ys) [
    | inl there ↦ inl (Memᴰ.tail there)
    | inr absent ↦ inr ((λ e. ground arith), absent)
  ]
]

find_common :
    (xs ys : List ℕ) → ((v : ℕ) × Memᴰ v xs × Memᴰ v ys) ⊎ All (λ x. All (λ y. x ≢ y) ys) xs
find_common [] ys = inr tt
find_common (x ∷ xs) ys = elim (find x ys) [
  | inl there ↦ inl (x, Memᴰ.head refl, there)
  | inr absent ↦ elim (find_common xs ys) [
    | inl (v, in_xs, in_ys) ↦ inl (v, Memᴰ.tail in_xs, in_ys)
    | inr apart ↦ inr (absent, apart)
  ]
]

pub quorums_meet :
    (n : ℕ) (xs ys : List ℕ)
    → NoRepeat xs
    → NoRepeat ys
    → All (λ x. x < n) xs
    → All (λ y. y < n) ys
    → n / 2 < length xs
    → n / 2 < length ys
    → (v : ℕ) × Memᴰ v xs × Memᴰ v ys
quorums_meet n xs ys rx ry bx by mx my = elim (find_common xs ys) [
  | inl common ↦ common
  | inr apart ↦
      let many =
        length-le-bound n (xs ++ ys) (NoRepeat-append xs ys rx ry apart)
          (All-append (λ x. x < n) xs ys bx by) in
      absurd (omega (arith, many, length-append xs ys))
]
