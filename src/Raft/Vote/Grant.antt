-- ===== src/Raft/Vote/Grant.antt =====
-- When a vote is granted, and what a request for it changes.
use tors_hw.Base.{
  inl, inr, ap, ◌∙◌, subst, sym, ◌<◌, ◌≤◌, ◌≡◌, ◌⊎◌, true, false, none, some, ok, arith, length,
}
use tors_hw.Raft.Log.{LogEntry}
use tors_hw.Raft.Node.{Node, Persisted}
use tors_hw.Raft.Wal.{back_of, last_u64}
use tors_hw.Raft.Vote.{VoteRequest, VoteResponse, request_vote, refusal, adopt_term, decide_vote}

-- A granted vote: the term is not behind, the node is in it with no other vote, the candidate's log
-- is at least as far, and the vote is in memory and on the disk.
pub record Granted (request : VoteRequest) (last : LogEntry) (s s' : Node) : Type 0 where
  pub in_term : s'.env.p.current_term ≡ request.term
  pub not_behind : s.env.p.current_term ≤ request.term
  pub was_free : (s.env.p.current_term < request.term) ⊎ (s.env.p.voted_for ≡ none)
  pub up_to_date :
      (last.term < request.last_log_term)
      ⊎ ((last.term ≡ request.last_log_term) × (last_u64 (length s.env.l) ≤ request.last_log_index))
  pub voted : s'.env.p.voted_for ≡ some request.candidate_id
  pub durable : s'.disk.pstate ≡ some s'.env.p
  pub same_log : s'.env.l ≡ s.env.l

-- What a granted vote leaves, in the term that the node is in by then.
record Voted (request : VoteRequest) (last : LogEntry) (s s' : Node) : Type 0 where
  was_free : s.env.p.voted_for ≡ none
  state :
      s'.env.p
      ≡ record { current_term = s.env.p.current_term; voted_for = some request.candidate_id }
  durable : s'.disk.pstate ≡ some s'.env.p
  same_log : s'.env.l ≡ s.env.l
  up_to_date :
      (last.term < request.last_log_term)
      ⊎ ((last.term ≡ request.last_log_term) × (last_u64 (length s.env.l) ≤ request.last_log_index))

decide_vote-Voted :
    (request : VoteRequest) (s s' : Node) (response : VoteResponse) (last : LogEntry)
    → decide_vote request s ≡ (ok response, s')
    → response.vote_granted ≡ true
    → back_of s.env.l ≡ some last
    → Voted request last s s'
unfolding decide_vote
decide_vote-Voted request s s' response last h g b = ground arith

-- The node after it has adopted the request's term.
unfoldable pub adopted : VoteRequest → Node → Node
unfolding adopt_term
adopted request s = (adopt_term request.term s).1

pub adopt_term-ok :
    (request : VoteRequest) (s : Node) → adopt_term request.term s ≡ (ok tt, adopted request s)
unfolding adopt_term adopted
adopt_term-ok request s = ground arith

pub adopted_facts :
    (request : VoteRequest) (s : Node)
    → ((adopted request s).env.p ≡ record { current_term = request.term; voted_for = none })
      × ((adopted request s).env.l ≡ s.env.l)
unfolding adopted adopt_term
adopted_facts request s = ground arith

pub request_vote-cases :
    (request : VoteRequest) (s s' : Node) (response : VoteResponse)
    → request_vote request s ≡ (ok response, s')
    → ((request.term < s.env.p.current_term) × (s' ≡ s) × (response ≡ refusal s.env.p.current_term))
      ⊎ (((s.env.p.current_term < request.term)
            × (decide_vote request (adopted request s) ≡ (ok response, s')))
          ⊎ ((s.env.p.current_term ≡ request.term) × (decide_vote request s ≡ (ok response, s'))))
unfolding request_vote
request_vote-cases request s s' response h = ground (arith, adopt_term-ok request s)

-- A vote is granted only to a candidate whose term is not behind and whose log is at least as far
-- as the node's, with last entry `last`; the node had no vote in that term, and it now has this
-- one, in memory and on the disk.
pub request_vote-Granted :
    (request : VoteRequest) (s s' : Node) (response : VoteResponse) (last : LogEntry)
    → request_vote request s ≡ (ok response, s')
    → response.vote_granted ≡ true
    → back_of s.env.l ≡ some last
    → Granted request last s s'
request_vote-Granted request s s' response last h g b =
    let (same_p, same_l) = adopted_facts request s in
    elim (request_vote-cases request s s' response h) [
      | inl (behind, same, refused) ↦ cc (ap (λ (r : VoteResponse). r.vote_granted) refused)
      | inr (inl (newer, decided)) ↦
          let v =
            decide_vote-Voted request (adopted request s) s' response last decided g
              (ap back_of same_l ∙ b) in
          record {
            in_term = ground (arith, v.state);
            not_behind = omega arith;
            was_free = inl newer;
            up_to_date =
                subst
                  (λ l.
                    (last.term < request.last_log_term)
                    ⊎ ((last.term ≡ request.last_log_term)
                        × (last_u64 (length l) ≤ request.last_log_index)))
                  same_l v.up_to_date;
            voted = ap (λ (p : Persisted). p.voted_for) v.state;
            durable = v.durable;
            same_log = v.same_log ∙ same_l;
          }
      | inr (inr (equal, decided)) ↦
          let v = decide_vote-Voted request s s' response last decided g b in
          record {
            in_term = ap (λ (p : Persisted). p.current_term) v.state ∙ equal;
            not_behind = omega arith;
            was_free = inr v.was_free;
            up_to_date = v.up_to_date;
            voted = ap (λ (p : Persisted). p.voted_for) v.state;
            durable = v.durable;
            same_log = v.same_log;
          }
    ]

-- A stale request is refused with the node's term, and changes nothing.
pub request_vote_stale :
    (request : VoteRequest) (s : Node)
    → request.term < s.env.p.current_term
    → request_vote request s
      ≡ (ok (record { term = s.env.p.current_term; vote_granted = false }), s)
unfolding request_vote
request_vote_stale request s h = ground arith

pub decide_vote-term :
    (request : VoteRequest) (s : Node)
    → ((decide_vote request s).1.env.p.current_term ≡ s.env.p.current_term)
      × ((decide_vote request s).1.env.l ≡ s.env.l)
unfolding decide_vote
decide_vote-term request s = ground arith

decide_vote-response :
    (request : VoteRequest) (s s' : Node) (response : VoteResponse)
    → decide_vote request s ≡ (ok response, s')
    → response.term ≡ s.env.p.current_term
unfolding decide_vote
decide_vote-response request s s' response h = ground arith

-- After a request that is not stale the response carries the request's term, and so does the node.
pub request_vote_term :
    (request : VoteRequest) (s s' : Node) (response : VoteResponse)
    → request_vote request s ≡ (ok response, s')
    → s.env.p.current_term ≤ request.term
    → (response.term ≡ request.term) × (s'.env.p.current_term ≡ request.term)
request_vote_term request s s' response h le = elim (request_vote-cases request s s' response h) [
  | inl (behind, same, refused) ↦ absurd (omega arith)
  | inr (inl (newer, decided)) ↦
      decided_term (adopted request s) s' response decided
        (ap (λ (p : Persisted). p.current_term) (adopted_facts request s).0)
  | inr (inr (equal, decided)) ↦ decided_term s s' response decided equal
]
  where
    decided_term :
        (a s' : Node) (response : VoteResponse)
        → decide_vote request a ≡ (ok response, s')
        → a.env.p.current_term ≡ request.term
        → (response.term ≡ request.term) × (s'.env.p.current_term ≡ request.term)
    decided_term a s' response d e = (
      decide_vote-response request a s' response d ∙ e,
      ap (λ t. t.1.env.p.current_term) (sym d) ∙ (decide_vote-term request a).0 ∙ e,
    )
