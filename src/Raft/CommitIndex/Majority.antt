-- ===== src/Raft/CommitIndex/Majority.antt =====
-- `calcCommitIndex` returns the largest value that more than half of the indexes reach.
use native.Mathlib.Nat.{le_refl}
use tors_hw.Base.{
  ℕ, suc, ◌+◌, ◌-◌, ◌/◌, ◌≤◌, ◌<◌, ◌≡◌, ◌⊎◌, inl, inr, refl, sym, subst, List, [], ◌∷◌, ok, arith,
  All, length, ltb, false, true, ◌==◌, ==→eq, ltb→lt, ltb→le, Bool-cases,
}
use tors_hw.Raft.CommitIndex.{last_run, scan, scan_sorted, sort, calc_commit_index}
use tors_hw.Raft.CommitIndex.Sorting.{
  count_ge, Sorted, count_ge-sort, length-sort, sort-Sorted, count_ge-le, count_ge-All,
}

-- Once no run can reach a majority any more, the result stands.
scan_low :
    (n i prev cnt best : ℕ) (rest : List ℕ)
    → i + length rest ≡ n
    → cnt + length rest ≤ n / 2
    → scan n i prev cnt best rest ≡ best
unfolding scan
scan_low n i prev cnt best [] e low = ground arith
scan_low n i prev cnt best (x ∷ rest) e low = elim (Bool-cases (x == prev)) [
  | inl same ↦ rw same (scan_low n (suc i) prev (cnt + 1) best rest (omega arith) (omega arith))
  | inr other ↦ rw (other, too_few) (scan_low n (suc i) x 1 best rest (omega arith) (omega arith))
]
  where
    too_few : ltb (n / 2) (cnt + (n - i)) ≡ false
    too_few = ground arith

-- What the rest of the scan finds when the current value has a majority.
record Found (n prev : ℕ) (rest : List ℕ) (r : ℕ) : Type 0 where
  above : prev ≤ r
  majority : (r ≡ prev) ⊎ (n / 2 < count_ge r rest)
  largest : (k : ℕ) → prev < k → n / 2 < count_ge k rest → k ≤ r

Found-same :
    (n prev x : ℕ) (rest : List ℕ) (r : ℕ)
    → x ≡ prev
    → Found n prev rest r
    → Found n prev (x ∷ rest) r
Found-same n prev x rest r e f = record {
  above = f.above;
  majority = elim f.majority [ inl here ↦ inl here | inr later ↦ inr (ground arith) ];
  largest = λ k h q. ground (arith, f.largest k);
}

Found-next :
    (n prev x : ℕ) (rest : List ℕ) (r : ℕ)
    → prev ≤ x
    → All (λ y. x ≤ y) rest
    → n / 2 < 1 + length rest
    → Found n x rest r
    → Found n prev (x ∷ rest) r
Found-next n prev x rest r h above high f = record {
  above = omega (arith, f.above);
  majority = elim f.majority [
    | inl here ↦ inr (
        subst (λ y. n / 2 < count_ge y (x ∷ rest)) (sym here)
          (omega (arith, count_ge-All x (x ∷ rest) (le_refl x, above))))
    | inr later ↦ inr (ground arith)
  ];
  largest = λ k hk q. ground (arith, f.largest k, f.above);
}

Found-last : (n prev x : ℕ) (rest : List ℕ) → 1 + length rest ≤ n / 2 → Found n prev (x ∷ rest) prev
Found-last n prev x rest low = record {
  above = omega arith;
  majority = inl refl;
  largest = λ k hk q. absurd (ground (arith, count_ge-le k (x ∷ rest)));
}

scan_high :
    (n i prev cnt best : ℕ) (rest : List ℕ)
    → Sorted (prev ∷ rest)
    → i + length rest ≡ n
    → n / 2 < cnt + length rest
    → Found n prev rest (scan n i prev cnt best rest)
unfolding scan
scan_high n i prev cnt best [] s e high =
    rw ends (record {
      above = omega arith;
      majority = inl refl;
      largest = λ k hk q. absurd (omega arith);
    })
  where
    ends : last_run n prev cnt best ≡ prev
    ends = ground arith
scan_high n i prev cnt best (x ∷ rest) s e high = elim (Bool-cases (x == prev)) [
  | inl same ↦ rw same (
      Found-same n prev x rest _ (==→eq x prev same)
        (scan_high n (suc i) prev (cnt + 1) best rest (s.0.1, s.1.1) (omega arith) (omega arith)))
  | inr other ↦ elim (Bool-cases (ltb (n / 2) (1 + length rest))) [
    | inl many ↦
        rw (other, enough)
          (Found-next n prev x rest _ s.0.0 s.1.0 (ltb→lt _ _ many)
            (scan_high n (suc i) x 1 prev rest s.1 (omega arith) (ltb→lt _ _ many)))
    | inr few ↦
        rw (other, enough, scan_low n (suc i) x 1 prev rest (omega arith) (ltb→le _ _ few))
          (Found-last n prev x rest (ltb→le _ _ few))
  ]
]
  where
    enough : ltb (n / 2) (cnt + (n - i)) ≡ true
    enough = ground arith

scan_sorted_majority :
    (s : List ℕ)
    → Sorted s
    → 0 < length s
    → (m : ℕ) × (scan_sorted s ≡ ok m)
      × (length s / 2 < count_ge m s)
      × ((k : ℕ) → length s / 2 < count_ge k s → k ≤ m)
unfolding scan_sorted
scan_sorted_majority [] sorted h = absurd (omega arith)
scan_sorted_majority (x ∷ rest) sorted h =
    let n = length (x ∷ rest) in
    let r = scan n 0 x 0 0 (x ∷ rest) in
    let f : Found n x (x ∷ rest) r =
      scan_high n 0 x 0 0 (x ∷ rest) ((le_refl x, sorted.0), sorted) (omega arith) (omega arith) in
    let whole : count_ge x (x ∷ rest) ≡ n = count_ge-All x (x ∷ rest) (le_refl x, sorted.0) in
    (
      r,
      refl,
      (elim f.majority [
        | inl first ↦ subst (λ y. n / 2 < count_ge y (x ∷ rest)) (sym first) (omega (arith, whole))
        | inr many ↦ many
      ]),
      λ k q. elim (Bool-cases (ltb x k)) [
        | inl above ↦ f.largest k (ltb→lt x k above) q
        | inr below ↦ omega (arith, f.above, ltb→le x k below)
      ],
    )

-- For one node or more, the result is a value that more than half of the indexes reach, and no
-- larger value is reached by more than half of them.
pub calc_commit_index_majority :
    (match_index : List ℕ)
    → 0 < length match_index
    → (m : ℕ) × (calc_commit_index match_index ≡ ok m)
      × (length match_index / 2 < count_ge m match_index)
      × ((k : ℕ) → length match_index / 2 < count_ge k match_index → k ≤ m)
unfolding calc_commit_index
calc_commit_index_majority match_index h =
    let len = length-sort match_index in
    let (m, result, majority, largest) =
      scan_sorted_majority (sort match_index) (sort-Sorted match_index) (omega (arith, len)) in
    (
      m,
      result,
      rw (← len, ← count_ge-sort m match_index) majority,
      λ k q. largest k (rw (len, count_ge-sort k match_index) q),
    )
