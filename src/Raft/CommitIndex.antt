-- ===== src/Raft/CommitIndex.antt =====
-- `calcCommitIndex` of 2/server/raft.go: the largest index that a majority of the nodes has.
pub mod Sorting
pub mod Majority
use tors_hw.Base.{
  ℕ, suc, ◌+◌, ◌-◌, ◌/◌, List, [], ◌∷◌, Result, ok, err, panic, length, ltb, leb, ◌==◌,
  if◌then◌else◌,
}

insert : ℕ → List ℕ → List ℕ
insert a [] = a ∷ []
insert a (x ∷ xs) = let later = insert a xs in if leb a x then a ∷ x ∷ xs else x ∷ later

-- slices.Sort: the ascending order of the values.
unfoldable pub sort : List ℕ → List ℕ
unfolding insert
sort [] = []
sort (x ∷ xs) = insert x (sort xs)

-- The test after the loop.
last_run : ℕ → ℕ → ℕ → ℕ → ℕ
last_run num_nodes prev_idx curr_cnt max_idx =
    if ltb (num_nodes / 2) curr_cnt then prev_idx else max_idx

-- The loop over the sorted indexes, from index `i` on.
scan : ℕ → ℕ → ℕ → ℕ → ℕ → List ℕ → ℕ
unfolding last_run
scan num_nodes i prev_idx curr_cnt max_idx [] = last_run num_nodes prev_idx curr_cnt max_idx
scan num_nodes i prev_idx curr_cnt max_idx (idx ∷ rest) =
    scan num_nodes (suc i) (if idx == prev_idx then prev_idx else idx)
      (if idx == prev_idx then curr_cnt + 1 else 1)
      (if idx == prev_idx
        then max_idx
        else if ltb (num_nodes / 2) (curr_cnt + (num_nodes - i))
        then prev_idx
        else max_idx)
      rest

scan_sorted : List ℕ → Result ℕ
unfolding scan
scan_sorted [] = err panic
scan_sorted (first ∷ rest) = ok (scan (length (first ∷ rest)) 0 first 0 0 (first ∷ rest))

-- `indexes[0]` panics on an empty slice.
unfoldable pub calc_commit_index : List ℕ → Result ℕ
unfolding sort scan_sorted
calc_commit_index match_index = scan_sorted (sort match_index)
