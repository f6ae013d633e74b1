-- ===== src/Raft/Wal/Slices.antt =====
-- The cut of `CheckAndCorrect`, by cases, and the entries that `AppendEntries` adds.
use tors_hw.Base.{
  ℕ, zero, suc, ◌+◌, ◌-◌, ◌<◌, ◌≤◌, ◌≡◌, ◌≢◌, inl, inr, refl, ap, ◌∙◌, pos, ltb_ℤ, true, false,
  ◌==◌, eq→==, some, List, [], ◌∷◌, ok, ltb, ltb→le, add_u64, u64_mod, length, take, get_elem?,
  arith, Bool-cases, take-take, take_all,
}
use tors_hw.Raft.Log.{LogEntry}
use tors_hw.Raft.Wal.{slice, to_int, last_int, check_term, check_body}

get_elem?-take : (i k : ℕ) (l : List LogEntry) → i < k → get_elem? (take k l) i ≡ get_elem? l i
get_elem?-take i zero l h = absurd (omega arith)
get_elem?-take i (suc k) [] h = refl
get_elem?-take zero (suc k) (e ∷ l) h = refl
get_elem?-take (suc i) (suc k) (e ∷ l) h = get_elem?-take i k l (omega arith)

to_int-pos : (i : ℕ) → i < 9223372036854775808 → to_int i ≡ pos i
to_int-pos i h = ground arith

lt-last_int : (i n : ℕ) → 0 < n → ltb_ℤ (pos i) (last_int n) ≡ ltb (i + 1) n
lt-last_int i zero h = absurd (omega arith)
lt-last_int i (suc n) h = ground arith

lt-pos : (i n : ℕ) → i < n → ltb_ℤ (pos i) (pos n) ≡ true
lt-pos i n h = ground arith

slice_front :
    (i : ℕ) (l : List LogEntry)
    → i + 1 < u64_mod
    → i + 1 ≤ length l
    → slice 0 (add_u64 i 1) l ≡ some (take (i + 1) l)
unfolding slice
slice_front i l word h =
    let no_wrap : add_u64 i 1 ≡ i + 1 = omega arith in
    let whole : i + 1 - 0 ≡ i + 1 = omega arith in rw (no_wrap, whole) (ground arith)

module _ (i t : ℕ) (l : List LogEntry) (word : i < 9223372036854775808) where
  pub check_body_missing :
      length l ≤ i → check_body i t l ≡ record { result = ok false; entries = l; changed = false }
  unfolding check_body
  check_body_missing h = ground arith

  check_body-check_term :
      i < length l
      → check_body i t l ≡ check_term (get_elem? l i) i t (take (i + 1) l) (ltb (i + 1) (length l))
  unfolding check_body
  check_body-check_term h = elim (Bool-cases (ltb (i + 1) (length l))) [
    | inl shorter ↦ rw (
      to_int-pos i word,
      lt-pos i (length l) h,
      lt-last_int i (length l) (omega arith),
      shorter,
      slice_front i l (omega arith) (omega arith),
      get_elem?-take i (i + 1) l (omega arith),
    )
    | inr whole ↦ rw (
      to_int-pos i word,
      lt-pos i (length l) h,
      lt-last_int i (length l) (omega arith),
      whole,
      take_all (i + 1) l (ltb→le _ _ whole),
    )
  ]

  pub check_body_mismatch :
      (e : LogEntry)
      → get_elem? l i ≡ some e
      → i < length l
      → e.term ≢ t
      → check_body i t l ≡ record { result = ok false; entries = take i l; changed = true }
  unfolding check_term
  check_body_mismatch e at h ne =
      check_body-check_term h
      ∙ ap (λ o. check_term o i t (take (i + 1) l) (ltb (i + 1) (length l))) at
      ∙ rw differs (
          ap (λ m. record { result = ok false; entries = m; changed = true })
            (take-take i (i + 1) l (omega arith)))
    where
      differs : (e.term == t) ≡ false
      differs = ground arith

  pub check_body_match :
      (e : LogEntry)
      → get_elem? l i ≡ some e
      → i < length l
      → e.term ≡ t
      → check_body i t l
        ≡ record { result = ok true; entries = take (i + 1) l; changed = ltb (i + 1) (length l) }
  unfolding check_term
  check_body_match e at h eq =
      check_body-check_term h
      ∙ ap (λ o. check_term o i t (take (i + 1) l) (ltb (i + 1) (length l))) at
      ∙ (rw (eq→== e.term t eq))
