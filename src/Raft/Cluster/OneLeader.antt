-- ===== src/Raft/Cluster/OneLeader.antt =====
-- No two nodes become leader in one term.
use mathlib.Core.List.{Memᴰ}
use mathlib.Core.List.Memᴰ
use tors_hw.Base.{
  ℕ, ◌<◌, ◌≡◌, ◌≢◌, refl, sym, ap, ◌∙◌, subst, Bool, true, false, Option, none, some, List, [], ◌∷◌,
  ◌==◌, ==→eq, if◌then◌else◌, ◌⊎◌, All-Memᴰ, eq→==, Bool-cases, inl, inr, Result, ok, err,
}
use tors_hw.Raft.Node.{Node, LeaderState}
use tors_hw.Raft.Vote.{VoteRequest, VoteResponse}
use tors_hw.Raft.Election.Majority.{leader_has_majority}
use tors_hw.Raft.Ballot.{
  Ballot, Event, asked, told, stood, heard, advanced, submitted, next, answered, own_ballot,
  candidacy, given, Room, OneATerm,
}
use tors_hw.Raft.Ballot.Sound.{Sound}
use tors_hw.Raft.Ballot.Once.{next-Sound}
use tors_hw.Raft.Cluster.{
  Member, Cluster, win, led_after, member_after, happen, Voters, Backed, Reach, start, after,
}
use tors_hw.Raft.Cluster.Quorum.{quorums_meet}
use tors_hw.Raft.Cluster.Support.{Support, Support-grows, Support-elected}

-- The ballot by which the node `k` leads in a term.
abbrev for_term : ℕ → ℕ → Ballot
for_term k term = record { term = term; candidate = k }

-- Votes are sound at each node, and each term in which it led was won by a majority.
record IsSafe (n : ℕ) (s : Cluster) : Type 0 where
  sound : (k : ℕ) → k < n → Sound (s k).ballots (s k).node
  won : (k : ℕ) → k < n → (term : ℕ) → Memᴰ term (s k).led → Support n (for_term k term) s

answered-keeps :
    (b : Ballot) (request : VoteRequest) (r : Result VoteResponse) (ballots : List Ballot)
    → Memᴰ b ballots
    → Memᴰ b (answered request r ballots)
answered-keeps b request (err fault) ballots m = m
answered-keeps b request (ok response) ballots m = elim (Bool-cases response.vote_granted) [
  | inl given ↦ rw given (Memᴰ.tail m)
  | inr kept ↦ rw kept m
]

candidacy-keeps :
    (b own : Ballot) (o : Option LeaderState) (ballots : List Ballot)
    → Memᴰ b ballots
    → Memᴰ b (candidacy o own ballots)
candidacy-keeps b own none ballots m = Memᴰ.tail m
candidacy-keeps b own (some leader) ballots m = m

given-keeps :
    (b : Ballot) (k : ℕ) (e : Event) (t : Node) (ballots : List Ballot)
    → Memᴰ b ballots
    → Memᴰ b (given k e t ballots)
given-keeps b k (asked request) t ballots m = answered-keeps b request _ ballots m
given-keeps b k (told request) t ballots m = m
given-keeps b k (stood taken arrivals) t ballots m =
    candidacy-keeps b _ t.env.leader_state ballots m
given-keeps b k (heard follower outcome) t ballots m = m
given-keeps b k advanced t ballots m = m
given-keeps b k (submitted op key value prev channel) t ballots m = m

happen-keeps :
    (n k : ℕ) (e : Event) (s : Cluster) (b : Ballot) (v : ℕ)
    → Memᴰ b (s v).ballots
    → Memᴰ b (happen n k e s v).ballots
unfolding happen member_after
happen-keeps n k e s b v m = elim (Bool-cases (v == k)) [
  | inl same ↦ rw same (given-keeps b k e (s v).node (s v).ballots m)
  | inr other ↦ rw other m
]

happen_at : (n k : ℕ) (e : Event) (s : Cluster) → happen n k e s k ≡ member_after k n e (s k)
unfolding happen
happen_at n k e s = ap (λ b. if b then member_after k n e (s k) else s k) (eq→== k k refl)

grown :
    (n k : ℕ) (e : Event) (s : Cluster) (b : Ballot) → Support n b s → Support n b (happen n k e s)
grown n k e s b q = Support-grows n b s (happen n k e s) (happen-keeps n k e s b) q

-- A term is led for the first time only by an election that is held and won.
win-cases :
    (o : Option LeaderState) (leads : Bool) (new : ℕ) (led : List ℕ) (term : ℕ)
    → Memᴰ term (win o leads new led)
    → Memᴰ term led ⊎ ((o ≡ none) × (leads ≡ true) × (term ≡ new))
win-cases none true new led term m = elim (Memᴰ.cases_cons m) [
  | inl now ↦ inr (refl, refl, now)
  | inr before ↦ inl before
]
win-cases none false new led term m = inl m
win-cases (some leader) leads new led term m = inl m

elected_by :
    (n k taken : ℕ) (arrivals : List VoteResponse) (s : Cluster)
    → k < n
    → Voters n k s arrivals
    → (s k).node.env.leader_state ≡ none
    → (next k n (stood taken arrivals) (s k).node).is_leader ≡ true
    → Support n (own_ballot k (s k).node) (happen n k (stood taken arrivals) s)
unfolding next member_after
elected_by n k taken arrivals s h v free leads =
    let e = stood taken arrivals in
    let b = own_ballot k (s k).node in
    let own : Memᴰ b (candidacy (s k).node.env.leader_state b (s k).ballots) =
      rw free (Memᴰ.head refl) in
    Support-elected n k taken b s (happen n k e s) arrivals v.voters v.others v.in_cluster v.honest
      h (leader_has_majority k n taken arrivals (s k).node h free leads).0 (happen-keeps n k e s b)
      (subst (λ (m : Member). Memᴰ b m.ballots) (sym (happen_at n k e s)) own)

won_after :
    (n k : ℕ) (e : Event) (s : Cluster) (term : ℕ)
    → k < n
    → Backed n k e s
    → IsSafe n s
    → Memᴰ term (led_after k n e (s k))
    → Support n (for_term k term) (happen n k e s)
won_after n k (asked request) s term h b v m = grown n k _ s _ (v.won k h term m)
won_after n k (told request) s term h b v m = grown n k _ s _ (v.won k h term m)
won_after n k (stood taken arrivals) s term h b v m =
    elim (win-cases (s k).node.env.leader_state _ _ (s k).led term m) [
      | inl before ↦ grown n k _ s _ (v.won k h term before)
      | inr (free, leads, now) ↦
          subst (λ t. Support n (for_term k t) (happen n k (stood taken arrivals) s)) (sym now)
            (elected_by n k taken arrivals s h b free leads)
    ]
won_after n k (heard follower outcome) s term h b v m = grown n k _ s _ (v.won k h term m)
won_after n k advanced s term h b v m = grown n k _ s _ (v.won k h term m)
won_after n k (submitted op key value prev channel) s term h b v m =
    grown n k _ s _ (v.won k h term m)

happen-IsSafe :
    (n k : ℕ) (e : Event) (s : Cluster)
    → k < n
    → Room e (s k).node
    → Backed n k e s
    → IsSafe n s
    → IsSafe n (happen n k e s)
unfolding happen member_after
happen-IsSafe n k e s h room backed v = record {
  sound = λ j below. elim (Bool-cases (j == k)) [
    | inl same ↦
        subst (λ i. Sound (happen n k e s i).ballots (happen n k e s i).node) (sym (==→eq j k same))
          (rw (happen_at n k e s) (next-Sound k n e (s k).node (s k).ballots room (v.sound k h)))
    | inr other ↦ rw other (v.sound j below)
  ];
  won = λ j below term m. elim (Bool-cases (j == k)) [
    | inl same ↦
        let e' = ==→eq j k same in
        subst (λ i. Support n (for_term i term) (happen n k e s)) (sym e')
          (won_after n k e s term h backed v (
            subst (λ (x : Member). Memᴰ term x.led) (happen_at n k e s)
              (subst (λ i. Memᴰ term (happen n k e s i).led) e' m)))
    | inr other ↦ grown n k e s _ (v.won j below term (rw other at m))
  ];
}

Reach-IsSafe : (n : ℕ) (first : ℕ → Node) (s : Cluster) → Reach n first s → IsSafe n s
Reach-IsSafe n first s start = record {
  sound = λ k h. (tt, tt);
  won = λ k h term m. absurd (Memᴰ.not-nil m);
}
Reach-IsSafe n first s (after {s = before} r k e h room backed) =
    happen-IsSafe n k e before h room backed (Reach-IsSafe n first before r)

-- Two ballots of one node for one term are the same.
OneATerm-eq :
    (b c : Ballot) (ballots : List Ballot)
    → OneATerm ballots
    → Memᴰ b ballots
    → Memᴰ c ballots
    → b.term ≡ c.term
    → b ≡ c
OneATerm-eq b c [] one mb mc e = absurd (Memᴰ.not-nil mb)
OneATerm-eq b c (x ∷ ballots) (apart, one) mb mc e = elim (Memᴰ.cases_cons mb) [
  | inl b_here ↦ elim (Memᴰ.cases_cons mc) [
    | inl c_here ↦ b_here ∙ sym c_here
    | inr c_there ↦ absurd (
        All-Memᴰ (λ (y : Ballot). x.term ≢ y.term) c ballots apart c_there
          (ap (λ (y : Ballot). y.term) (sym b_here) ∙ e))
  ]
  | inr b_there ↦ elim (Memᴰ.cases_cons mc) [
    | inl c_here ↦ absurd (
        All-Memᴰ (λ (y : Ballot). x.term ≢ y.term) b ballots apart b_there
          (ap (λ (y : Ballot). y.term) (sym c_here) ∙ sym e))
    | inr c_there ↦ OneATerm-eq b c ballots one b_there c_there e
  ]
]

-- Whatever happens at the `n` nodes, and however their files and the network behave, no two of them
-- become leader in the same term, as long as the terms stay below 2^64 and no node restarts. An
-- answer that grants a vote has been given by the node that it comes from, and each other node
-- answers a candidate once at most.
pub one_leader_a_term :
    (n : ℕ) (first : ℕ → Node) (s : Cluster) (i j term : ℕ)
    → Reach n first s
    → i < n
    → j < n
    → Memᴰ term (s i).led
    → Memᴰ term (s j).led
    → i ≡ j
one_leader_a_term n first s i j term r hi hj led_i led_j =
    let v = Reach-IsSafe n first s r in
    let p = v.won i hi term led_i in
    let q = v.won j hj term led_j in
    let (k, in_p, in_q) =
      quorums_meet n p.voters q.voters p.distinct q.distinct p.in_cluster q.in_cluster p.most
        q.most in
    let below = All-Memᴰ (λ x. x < n) k p.voters p.in_cluster in_p in
    let for_i = All-Memᴰ (λ x. Memᴰ (for_term i term) (s x).ballots) k p.voters p.gave in_p in
    let for_j = All-Memᴰ (λ x. Memᴰ (for_term j term) (s x).ballots) k q.voters q.gave in_q in
    ap (λ (b : Ballot). b.candidate)
      (OneATerm-eq (for_term i term) (for_term j term) (s k).ballots (v.sound k below).0 for_i for_j
        refl)
