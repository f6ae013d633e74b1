-- ===== src/Raft/Election/Counting.antt =====
-- The loop that counts votes, against the number of votes granted and refused.
use tors_hw.Base.{
  ℕ, ◌+◌, ◌/◌, ◌<◌, ◌≤◌, ◌≡◌, ◌⊎◌, inl, inr, ◌∙◌, Bool, true, false, List, [], ◌∷◌, length, arith,
  All,
}
use tors_hw.Raft.Vote.{VoteResponse}
use tors_hw.Raft.Election.{Verdict, elected, Tally, counted, turn, or_else, count_votes}

-- The votes granted, and refused.
abbrev pub one_if : Bool → ℕ
one_if true = 1
one_if false = 0

abbrev pub granted : List VoteResponse → ℕ
granted [] = 0
granted (v ∷ vs) = one_if v.vote_granted + granted vs

-- No answer is from a later term.
abbrev pub NoneNewer : ℕ → List VoteResponse → Type 0
NoneNewer term = All (λ (v : VoteResponse). v.term ≤ term)

counted_true : (b : Bool) (t : Tally) → (counted b t).true_count ≡ t.true_count + one_if b
counted_true true t = omega arith
counted_true false t = omega arith

counted_sum :
    (b : Bool) (t : Tally)
    → (counted b t).true_count + (counted b t).false_count ≡ t.true_count + t.false_count + 1
counted_sum true t = omega arith
counted_sum false t = omega arith

-- How a turn that ends the loop with `elected` ends it, and what it asks of a turn that does not.
turn-elected :
    (n term : ℕ) (v : VoteResponse) (t : Tally) (later : Verdict)
    → or_else (turn n term v t) later ≡ elected
    → (n / 2 < t.true_count) ⊎ (later ≡ elected)
unfolding turn or_else
turn-elected n term v t later h = ground arith

-- A node that is elected has taken more granted votes than half the nodes.
pub count_votes-elected :
    (n term : ℕ) (t : Tally) (vs : List VoteResponse)
    → count_votes n term t vs ≡ elected
    → n / 2 < t.true_count + granted vs
unfolding count_votes
count_votes-elected n term t [] h = cc
count_votes-elected n term t (v ∷ vs) h =
    let c = counted_true v.vote_granted t in
    elim (turn-elected n term v (counted v.vote_granted t) _ h) [
      | inl now ↦ omega arith
      | inr later ↦
          let rest = count_votes-elected n term (counted v.vote_granted t) vs later in omega arith
    ]

one_if_le : (b : Bool) → one_if b ≤ 1
one_if_le true = omega arith
one_if_le false = omega arith

granted_le_length : (vs : List VoteResponse) → granted vs ≤ length vs
granted_le_length [] = omega arith
granted_le_length (v ∷ vs) =
    let one = one_if_le v.vote_granted in omega (arith, granted_le_length vs)

turn-ends :
    (n term : ℕ) (v : VoteResponse) (t : Tally) (later : Verdict)
    → v.term ≤ term
    → t.false_count ≤ n / 2
    → (or_else (turn n term v t) later ≡ elected)
      ⊎ ((or_else (turn n term v t) later ≡ later) × (t.true_count ≤ n / 2))
unfolding turn or_else
turn-ends n term v t later h f = ground arith

-- More granted votes than half the nodes elect, where no answer is newer and no more than the
-- other nodes refuse.
pub count_votes-majority :
    (n term : ℕ) (t : Tally) (vs : List VoteResponse)
    → NoneNewer term vs
    → t.true_count ≤ n / 2
    → t.true_count + t.false_count + length vs ≤ n
    → n / 2 < t.true_count + granted vs
    → count_votes n term t vs ≡ elected
unfolding count_votes
count_votes-majority n term t [] newer below bound h = absurd (omega arith)
count_votes-majority n term t (v ∷ vs) (not_newer, newer) below bound h =
    let t' = counted v.vote_granted t in
    let c = counted_true v.vote_granted t in
    let sum = counted_sum v.vote_granted t in
    let few = granted_le_length vs in
    elim (turn-ends n term v t' (count_votes n term t' vs) not_newer (omega arith)) [
      | inl now ↦ now
      | inr (goes_on, below') ↦
          goes_on ∙ count_votes-majority n term t' vs newer below' (omega arith) (omega arith)
    ]
