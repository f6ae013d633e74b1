-- ===== src/Raft/Broadcast/Targets.antt =====
-- The followers of a broadcast: each other node, once.
use mathlib.Core.List.Permᴰ
use tors_hw.Base.{
  ℕ, zero, suc, ◌+◌, ◌<◌, ◌≤◌, ◌≡◌, ◌≢◌, Bool-cases, inl, inr, List, [], ◌∷◌, ◌++◌, map, length,
  ◌==◌, All, All-perm, All-left, All-right, All-map, NoRepeat, NoRepeat-perm, Permᴰ, arith,
}
use tors_hw.Raft.Node.{LeaderState}
use tors_hw.Raft.Broadcast.{Answer, targets, targets_from}
use tors_hw.Raft.Broadcast.Effects.{InRange}

-- Each answer is another follower's.
abbrev pub Apart : List Answer → Type 0
Apart [] = Unit
Apart (a ∷ later) = All (λ (b : Answer). a.follower ≢ b.follower) later × Apart later

abbrev pub followers : List Answer → List ℕ
followers answers = map (λ (a : Answer). a.follower) answers

abbrev Between : ℕ → ℕ → ℕ → Type 0
Between i n k = (i ≤ k) × (k < i + n)

wider : (i n : ℕ) (ks : List ℕ) → All (Between (suc i) n) ks → All (Between i (suc n)) ks
wider i n [] h = tt
wider i n (k ∷ ks) (here, h) = ((omega (arith, here.0), omega (arith, here.1)), wider i n ks h)

others : (i n : ℕ) (ks : List ℕ) → All (Between (suc i) n) ks → All (λ k. i ≢ k) ks
others i n [] h = tt
others i n (k ∷ ks) (here, h) = ((λ e. omega (arith, here.0)), others i n ks h)

targets_from-Between : (node_id i n : ℕ) → All (Between i n) (targets_from node_id i n)
unfolding targets_from
targets_from-Between node_id i zero = tt
targets_from-Between node_id i (suc n) =
    let later = wider i n _ (targets_from-Between node_id (suc i) n) in
    elim (Bool-cases (i == node_id)) [
      | inl own ↦ rw own later
      | inr other ↦ rw other ((omega arith, omega arith), later)
    ]

targets_from-NoRepeat : (node_id i n : ℕ) → NoRepeat (targets_from node_id i n)
unfolding targets_from
targets_from-NoRepeat node_id i zero = tt
targets_from-NoRepeat node_id i (suc n) =
    let later = targets_from-NoRepeat node_id (suc i) n in
    elim (Bool-cases (i == node_id)) [
      | inl own ↦ rw own later
      | inr other ↦ rw other (others i n _ (targets_from-Between node_id (suc i) n), later)
    ]

Apart-followers : (xs : List Answer) → NoRepeat (followers xs) → Apart xs
Apart-followers [] h = tt
Apart-followers (a ∷ xs) h =
    (All-map (λ k. a.follower ≢ k) (λ (b : Answer). b.follower) xs h.0, Apart-followers xs h.1)

Apart-left : (xs ys : List Answer) → Apart (xs ++ ys) → Apart xs
Apart-left [] ys h = tt
Apart-left (x ∷ xs) ys h =
    (All-left (λ (b : Answer). x.follower ≢ b.follower) xs ys h.0, Apart-left xs ys h.1)

Apart-right : (xs ys : List Answer) → Apart (xs ++ ys) → Apart ys
Apart-right [] ys h = h
Apart-right (x ∷ xs) ys h = Apart-right xs ys h.1

-- Ends of the heartbeats of one broadcast, on the two sides of the commit.
abbrev pub Complete : ℕ → ℕ → List Answer → List Answer → Type 0
Complete node_id num_nodes before later =
    Permᴰ (followers (before ++ later)) (targets node_id num_nodes)

in_range :
    (ls : LeaderState) (n : ℕ) (xs : List Answer)
    → length ls.next_index ≡ n
    → length ls.match_index ≡ n
    → All (λ (a : Answer). a.follower < n) xs
    → All (InRange ls) xs
in_range ls n [] e e' h = tt
in_range ls n (a ∷ xs) e e' (here, h) = ((rw e here, rw e' here), in_range ls n xs e e' h)

below : (n : ℕ) (ks : List ℕ) → All (Between 0 n) ks → All (λ k. k < n) ks
below n [] h = tt
below n (k ∷ ks) (here, h) = (omega (arith, here.1), below n ks h)

pub Complete-Apart :
    (node_id n : ℕ) (before later : List Answer)
    → Complete node_id n before later
    → Apart before × Apart later
unfolding targets
Complete-Apart node_id n before later c =
    let apart =
      Apart-followers (before ++ later)
        (NoRepeat-perm (Permᴰ.symm c) (targets_from-NoRepeat node_id 0 n)) in
    (Apart-left before later apart, Apart-right before later apart)

pub Complete-InRange :
    (node_id n : ℕ) (before later : List Answer) (ls : LeaderState)
    → length ls.next_index ≡ n
    → length ls.match_index ≡ n
    → Complete node_id n before later
    → All (InRange ls) before × All (InRange ls) later
unfolding targets
Complete-InRange node_id n before later ls e e' c =
    let ends =
      below n _ (All-perm (Between 0 n) (Permᴰ.symm c) (targets_from-Between node_id 0 n)) in
    let range =
      in_range ls n (before ++ later) e e'
        (All-map (λ k. k < n) (λ (b : Answer). b.follower) (before ++ later) ends) in
    (All-left (InRange ls) before later range, All-right (InRange ls) before later range)
