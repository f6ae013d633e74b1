-- ===== src/Raft/Cluster.antt =====
-- The nodes of 2/server together. Each event happens at one node; the votes that an election
-- takes are answers to the candidate, and a granted one has been given by the node that answers.
-- Whatever else travels is arbitrary: requests and answers may be lost, late or repeated.
pub mod Quorum
pub mod Support
pub mod OneLeader
use mathlib.Core.List.{Memᴰ}
use tors_hw.Base.{
  ℕ, ◌+◌, ◌<◌, ◌≡◌, Bool, true, false, Option, none, some, List, [], ◌∷◌, All, NoRepeat, ◌==◌,
  if◌then◌else◌,
}
use tors_hw.Raft.Node.{Node, LeaderState}
use tors_hw.Raft.Vote.{VoteResponse}
use tors_hw.Raft.Ballot.{
  Ballot, Event, asked, told, stood, heard, advanced, submitted, next, given, own_ballot, Room,
}

-- A node, the votes that it has given, and the terms in which it became leader.
pub record Member : Type 0 where
  pub node : Node
  pub ballots : List Ballot
  pub led : List ℕ

abbrev pub Cluster : Type 0
Cluster = ℕ → Member

-- The terms after an event: one more where an election is held and leaves the node a leader.
abbrev pub win : Option LeaderState → Bool → ℕ → List ℕ → List ℕ
win none leads term led = if leads then term ∷ led else led
win (some leader) leads term led = led

abbrev pub led_after : ℕ → ℕ → Event → Member → List ℕ
led_after k n (stood taken arrivals) m =
    win m.node.env.leader_state (next k n (stood taken arrivals) m.node).is_leader
      (m.node.env.p.current_term + 1) m.led
led_after k n e m = m.led

unfoldable pub member_after : ℕ → ℕ → Event → Member → Member
member_after k n e m = record {
  node = next k n e m.node;
  ballots = given k e m.node m.ballots;
  led = led_after k n e m;
}

unfoldable pub happen : ℕ → ℕ → Event → Cluster → Cluster
happen n k e s j = if j == k then member_after k n e (s j) else s j

-- The answers to a candidate, with the nodes that they come from.
abbrev pub Honest : Ballot → Cluster → List ℕ → List VoteResponse → Type 0
Honest b s [] [] = Unit
Honest b s [] (r ∷ rs) = ⊥
Honest b s (v ∷ vs) [] = ⊥
Honest b s (v ∷ vs) (r ∷ rs) = (r.vote_granted ≡ true → Memᴰ b (s v).ballots) × Honest b s vs rs

-- Each other node answers a candidate once at most.
pub record Voters (n k : ℕ) (s : Cluster) (arrivals : List VoteResponse) : Type 0 where
  pub voters : List ℕ
  pub others : NoRepeat (k ∷ voters)
  pub in_cluster : All (λ v. v < n) voters
  pub honest : Honest (own_ballot k (s k).node) s voters arrivals

abbrev pub Backed : ℕ → ℕ → Event → Cluster → Type 0
Backed n k (stood taken arrivals) s = Voters n k s arrivals
Backed n k e s = Unit

-- From a start in which no node leads.
pub data Reach (n : ℕ) (first : ℕ → Node) : Cluster → Type 0 where
  start : Reach n first (λ k. record { node = first k; ballots = []; led = [] })
  after :
      {s : Cluster}
      → Reach n first s
      → (k : ℕ) (e : Event) → k < n
      → Room e (s k).node
      → Backed n k e s
      → Reach n first (happen n k e s)
