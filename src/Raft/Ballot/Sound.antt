-- ===== src/Raft/Ballot/Sound.antt =====
-- The votes that a node has given, against its term and its vote; a request to vote keeps them sound.
use tors_hw.Base.{
  ℕ, ◌<◌, ◌≡◌, ◌≢◌, ◌⊎◌, inl, inr, sym, subst, ap, ◌∙◌, true, none, some, List, [], ◌∷◌, Result, ok,
  err, Bool-cases, arith, All,
}
use tors_hw.Raft.Node.{Node, Persisted}
use tors_hw.Raft.Vote.{VoteRequest, VoteResponse, request_vote, decide_vote}
use tors_hw.Raft.Vote.Grant.{adopted, adopted_facts, request_vote-cases}
use tors_hw.Raft.Election.{}
use tors_hw.Raft.Ballot.{Ballot, answered, given, OneATerm}
use tors_hw.Raft.Ballot.Later.{HasVoted, Later, request_vote-Later}

-- A vote given before: in an earlier term, or in this one, in which the node then has a vote.
abbrev pub Closed : Persisted → Ballot → Type 0
Closed p b = (b.term < p.current_term) ⊎ ((b.term ≡ p.current_term) × HasVoted p)

pub Closed-Later : (p q : Persisted) (b : Ballot) → Later p q → Closed p b → Closed q b
Closed-Later p q b (inl later) (inl before) = inl (omega arith)
Closed-Later p q b (inl later) (inr (now, _)) = inl (omega arith)
Closed-Later p q b (inr (same, _)) (inl before) = inl (omega arith)
Closed-Later p q b (inr (same, keeps)) (inr (now, voted)) = inr (now ∙ same, keeps voted)

pub All-Later :
    (p q : Persisted) (ballots : List Ballot)
    → Later p q
    → All (Closed p) ballots
    → All (Closed q) ballots
All-Later p q [] l h = tt
All-Later p q (b ∷ ballots) l (c, h) = (Closed-Later p q b l c, All-Later p q ballots l h)

-- A term in which the node has no vote yet.
unfoldable pub Open : Persisted → ℕ → Type 0
Open p term = (p.current_term < term) ⊎ ((p.current_term ≡ term) × (p.voted_for ≡ none))

Open-Closed : (p : Persisted) (term : ℕ) (b : Ballot) → Open p term → Closed p b → term ≢ b.term
unfolding Open
Open-Closed p term b (inl above) (inl before) e = omega arith
Open-Closed p term b (inl above) (inr (now, _)) e = omega arith
Open-Closed p term b (inr (same, free)) (inl before) e = omega arith
Open-Closed p term b (inr (same, free)) (inr (now, (c, voted))) e = cc

Open-All :
    (p : Persisted) (term : ℕ) (ballots : List Ballot)
    → Open p term
    → All (Closed p) ballots
    → All (λ (b : Ballot). term ≢ b.term) ballots
Open-All p term [] o h = tt
Open-All p term (b ∷ ballots) o (c, h) = (Open-Closed p term b o c, Open-All p term ballots o h)

-- What a run keeps.
abbrev pub Sound : List Ballot → Node → Type 0
Sound ballots t = OneATerm ballots × All (Closed t.env.p) ballots

pub cast :
    (ballots : List Ballot) (t u : Node) (b : Ballot)
    → Sound ballots t
    → Open t.env.p b.term
    → Later t.env.p u.env.p
    → Closed u.env.p b
    → Sound (b ∷ ballots) u
cast ballots t u b (one, closed) o l c = (
  (Open-All t.env.p b.term ballots o closed, one),
  (c, All-Later t.env.p u.env.p ballots l closed),
)

-- A granted vote was free to be given, and is the node's from then on.
decide_vote-granted :
    (request : VoteRequest) (s s' : Node) (response : VoteResponse)
    → decide_vote request s ≡ (ok response, s')
    → response.vote_granted ≡ true
    → (s.env.p.voted_for ≡ none)
      × (s'.env.p
          ≡ record { current_term = s.env.p.current_term; voted_for = some request.candidate_id })
unfolding decide_vote
decide_vote-granted request s s' response h g = ground arith

request_vote-granted :
    (request : VoteRequest) (s s' : Node) (response : VoteResponse)
    → request_vote request s ≡ (ok response, s')
    → response.vote_granted ≡ true
    → Open s.env.p request.term
      × (s'.env.p ≡ record { current_term = request.term; voted_for = some request.candidate_id })
unfolding Open
request_vote-granted request s s' response h g = elim (request_vote-cases request s s' response h) [
  | inl (_, _, stale) ↦ cc (ap (λ (r : VoteResponse). r.vote_granted) stale)
  | inr (inl (newer, decided)) ↦
      let (_, p) = decide_vote-granted request (adopted request s) s' response decided g in
      (
        inl newer,
        p
            ∙ ap
                (λ (q : Persisted). record {
                  current_term = q.current_term;
                  voted_for = some request.candidate_id;
                })
                (adopted_facts request s).0,
      )
  | inr (inr (same, decided)) ↦
      let (free, p) = decide_vote-granted request s s' response decided g in
      (
        inr (same, free),
        p ∙ ap (λ n. record { current_term = n; voted_for = some request.candidate_id }) same,
      )
]

pub asked-Sound :
    (ballots : List Ballot) (t : Node) (request : VoteRequest)
    → Sound ballots t
    → (r : Result VoteResponse × Node) → request_vote request t ≡ r
    → Sound (answered request r.0 ballots) r.1
asked-Sound ballots t request (one, closed) (err fault, u) e = (
  one,
  All-Later _ _ ballots
      (subst (λ (n : Node). Later t.env.p n.env.p) (ap (λ x. x.1) e) (request_vote-Later request t))
      closed,
)
asked-Sound ballots t request (one, closed) (ok response, u) e =
    let l =
      subst (λ (n : Node). Later t.env.p n.env.p) (ap (λ x. x.1) e)
        (request_vote-Later request t) in
    elim (Bool-cases response.vote_granted) [
      | inl given ↦
          let (o, p) = request_vote-granted request t u response e given in
          rw given (
            cast ballots t u (record { term = request.term; candidate = request.candidate_id })
              (one, closed) o l
              (inr (
                sym (ap (λ (q : Persisted). q.current_term) p),
                (request.candidate_id, ap (λ (q : Persisted). q.voted_for) p),
              )))
      | inr kept ↦ rw kept (one, All-Later _ _ ballots l closed)
    ]
