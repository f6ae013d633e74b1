-- ===== src/Raft/Cluster/Support.antt =====
-- Who stands behind a leader: the nodes that have given it their vote for its term.
use mathlib.Core.List.{Memᴰ}
use tors_hw.Base.{
  ℕ, zero, suc, ◌/◌, ◌<◌, ◌≤◌, ◌≡◌, ◌≢◌, refl, List, [], ◌∷◌, All, NoRepeat, if◌then◌else◌, length,
  take, Bool-cases, inl, inr, arith,
}
use tors_hw.Raft.Vote.{VoteResponse}
use tors_hw.Raft.Election.{own_vote}
use tors_hw.Raft.Election.Counting.{granted}
use tors_hw.Raft.Ballot.{Ballot}
use tors_hw.Raft.Cluster.{Cluster, Honest}

-- More than half of the `n` nodes hold the ballot.
pub record Support (n : ℕ) (b : Ballot) (s : Cluster) : Type 0 where
  pub voters : List ℕ
  pub distinct : NoRepeat voters
  pub in_cluster : All (λ v. v < n) voters
  pub gave : All (λ v. Memᴰ b (s v).ballots) voters
  pub most : n / 2 < length voters

-- The voters that granted.
abbrev granting : List ℕ → List VoteResponse → List ℕ
granting [] rs = []
granting (v ∷ vs) [] = []
granting (v ∷ vs) (r ∷ rs) = if r.vote_granted then v ∷ granting vs rs else granting vs rs

length-granting :
    (b : Ballot) (s : Cluster) (vs : List ℕ) (rs : List VoteResponse)
    → Honest b s vs rs
    → length (granting vs rs) ≡ granted rs
length-granting b s [] [] h = refl
length-granting b s [] (r ∷ rs) h = absurd h
length-granting b s (v ∷ vs) [] h = absurd h
length-granting b s (v ∷ vs) (r ∷ rs) (_, h) = elim (Bool-cases r.vote_granted) [
  | inl yea ↦ rw yea (omega (arith, length-granting b s vs rs h))
  | inr nay ↦ rw nay (omega (arith, length-granting b s vs rs h))
]

gave-granting :
    (b : Ballot) (s : Cluster) (vs : List ℕ) (rs : List VoteResponse)
    → Honest b s vs rs
    → All (λ v. Memᴰ b (s v).ballots) (granting vs rs)
gave-granting b s [] rs h = tt
gave-granting b s (v ∷ vs) [] h = absurd h
gave-granting b s (v ∷ vs) (r ∷ rs) (here, h) = elim (Bool-cases r.vote_granted) [
  | inl yea ↦ rw yea (here yea, gave-granting b s vs rs h)
  | inr nay ↦ rw nay (gave-granting b s vs rs h)
]

All-granting :
    (P : ℕ → Type 0) (vs : List ℕ) (rs : List VoteResponse) → All P vs → All P (granting vs rs)
All-granting P [] rs h = tt
All-granting P (v ∷ vs) [] h = tt
All-granting P (v ∷ vs) (r ∷ rs) (p, h) = elim (Bool-cases r.vote_granted) [
  | inl yea ↦ rw yea (p, All-granting P vs rs h)
  | inr nay ↦ rw nay (All-granting P vs rs h)
]

NoRepeat-granting : (vs : List ℕ) (rs : List VoteResponse) → NoRepeat vs → NoRepeat (granting vs rs)
NoRepeat-granting [] rs h = tt
NoRepeat-granting (v ∷ vs) [] h = tt
NoRepeat-granting (v ∷ vs) (r ∷ rs) (absent, h) = elim (Bool-cases r.vote_granted) [
  | inl yea ↦ rw yea (All-granting (λ w. v ≢ w) vs rs absent, NoRepeat-granting vs rs h)
  | inr nay ↦ rw nay (NoRepeat-granting vs rs h)
]

granted-take : (k : ℕ) (rs : List VoteResponse) → granted (take k rs) ≤ granted rs
granted-take zero rs = omega arith
granted-take (suc k) [] = omega arith
granted-take (suc k) (r ∷ rs) = omega (arith, granted-take k rs)

All-gave :
    (b : Ballot) (s t : Cluster) (vs : List ℕ)
    → ((v : ℕ) → Memᴰ b (s v).ballots → Memᴰ b (t v).ballots)
    → All (λ v. Memᴰ b (s v).ballots) vs
    → All (λ v. Memᴰ b (t v).ballots) vs
All-gave b s t [] more h = tt
All-gave b s t (v ∷ vs) more (here, h) = (more v here, All-gave b s t vs more h)

-- Votes are not taken back.
pub Support-grows :
    (n : ℕ) (b : Ballot) (s t : Cluster)
    → ((v : ℕ) → Memᴰ b (s v).ballots → Memᴰ b (t v).ballots)
    → Support n b s
    → Support n b t
Support-grows n b s t more q = record {
  voters = q.voters;
  distinct = q.distinct;
  in_cluster = q.in_cluster;
  gave = All-gave b s t q.voters more q.gave;
  most = q.most;
}

-- The candidate, and the others that granted its request.
pub Support-elected :
    (n k taken : ℕ) (b : Ballot) (s t : Cluster) (arrivals : List VoteResponse)
    → (voters : List ℕ) → NoRepeat (k ∷ voters)
    → All (λ v. v < n) voters
    → Honest b s voters arrivals
    → k < n
    → n / 2 < granted (take taken (own_vote ∷ arrivals))
    → ((v : ℕ) → Memᴰ b (s v).ballots → Memᴰ b (t v).ballots)
    → Memᴰ b (t k).ballots
    → Support n b t
Support-elected n k taken b s t arrivals voters (apart, distinct) below honest h most more own =
    record {
      voters = k ∷ granting voters arrivals;
      distinct = (
        All-granting (λ w. k ≢ w) voters arrivals apart,
        NoRepeat-granting voters arrivals distinct,
      );
      in_cluster = (h, All-granting (λ v. v < n) voters arrivals below);
      gave = (
        own,
        All-gave b s t (granting voters arrivals) more (gave-granting b s voters arrivals honest),
      );
      most = omega (
        arith,
        granted-take taken (own_vote ∷ arrivals),
        length-granting b s voters arrivals honest,
      );
    }
