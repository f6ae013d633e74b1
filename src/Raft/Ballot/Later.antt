-- ===== src/Raft/Ballot/Later.antt =====
-- How the term and the vote move: the term never falls, and within a term a vote is not forgotten.
use tors_hw.Base.{
  ℤ, String, ℕ, ◌<◌, ◌≤◌, ◌≡◌, ◌⊎◌, inl, inr, refl, sym, subst, ap, ◌∙◌, Bool, true, false, none,
  some, List, [], ◌∷◌, continue-keeps, ◌>>=◌, ltb, ltb→lt, ltb→le, Bool-cases, arith,
}
use tors_hw.Raft.Log.{LogEntry}
use tors_hw.Raft.Node.{Node, TEnv, Persisted}
use tors_hw.Raft.Wal.{append_entries, append, check_and_correct}
use tors_hw.Raft.Wal.Checks.{check_and_correct-p}
use tors_hw.Raft.Commit.{commit_changes}
use tors_hw.Raft.Commit.Keeps.{commit_changes-Keeps}
use tors_hw.Raft.Vote.{VoteRequest, request_vote, decide_vote}
use tors_hw.Raft.External.{apply_request_sync}
use tors_hw.Raft.Vote.Grant.{adopted, adopted_facts, adopt_term-ok}
use tors_hw.Raft.Append.{AppendRequest, append_request, after_check, take_entries, respond}
use tors_hw.Raft.Append.Matching.{followed, followed_facts, follow-ok}

abbrev pub HasVoted : Persisted → Type 0
HasVoted p = (c : ℕ) × (p.voted_for ≡ some c)

abbrev pub Later : Persisted → Persisted → Type 0
Later p q =
    (p.current_term < q.current_term)
    ⊎ ((p.current_term ≡ q.current_term) × (HasVoted p → HasVoted q))

pub Later-refl : (p : Persisted) → Later p p
Later-refl p = inr (refl, λ h. h)

pub Later-eq : (p q : Persisted) → q ≡ p → Later p q
Later-eq p q e = subst (Later p) (sym e) (Later-refl p)

pub Later-trans : (p q r : Persisted) → Later p q → Later q r → Later p r
Later-trans p q r (inl a) (inl b) = inl (omega arith)
Later-trans p q r (inl a) (inr (e, _)) = inl (omega arith)
Later-trans p q r (inr (e, _)) (inl b) = inl (omega arith)
Later-trans p q r (inr (e, f)) (inr (e', g)) = inr (e ∙ e', λ h. g (f h))

decide_vote-p :
    (request : VoteRequest) (s : Node)
    → ((decide_vote request s).1.env.p ≡ s.env.p)
      ⊎ ((s.env.p.voted_for ≡ none)
          × ((decide_vote request s).1.env.p.current_term ≡ s.env.p.current_term))
unfolding decide_vote
decide_vote-p request s = ground arith

decide_vote-Later :
    (request : VoteRequest) (s : Node) → Later s.env.p (decide_vote request s).1.env.p
decide_vote-Later request s = elim (decide_vote-p request s) [
  | inl same ↦ Later-eq _ _ same
  | inr (free, term) ↦ inr (sym term, λ (c, v). cc)
]

pub request_vote-Later :
    (request : VoteRequest) (s : Node) → Later s.env.p (request_vote request s).1.env.p
unfolding request_vote
request_vote-Later request s = elim (Bool-cases (ltb request.term s.env.p.current_term)) [
  | inl stale ↦ rw stale (Later-refl s.env.p)
  | inr fresh ↦ elim (Bool-cases (ltb s.env.p.current_term request.term)) [
    | inl newer ↦
        rw (fresh, newer, adopt_term-ok request s)
          (Later-trans s.env.p (adopted request s).env.p _
            (inl (rw (adopted_facts request s).0 (ltb→lt _ _ newer)))
            (decide_vote-Later request (adopted request s)))
    | inr equal ↦ rw (fresh, equal) (decide_vote-Later request s)
  ]
]

-- The steps behind the adoption of the sender's term keep the term and the vote.
append_entries-p : (es : List LogEntry) (s : Node) → (append_entries es s).1.env.p ≡ s.env.p
unfolding append_entries
append_entries-p [] s = refl
append_entries-p (e ∷ es) s =
    continue-keeps (λ (n : Node). n.env.p ≡ s.env.p) (λ _. append_entries es) (append e s)
      (append-p e s) (λ _ n h. append_entries-p es n ∙ h)
  where
    append-p : (e : LogEntry) (s : Node) → (append e s).1.env.p ≡ s.env.p
    append-p e s = unfold append in ground arith

after_check-p :
    (request : AppendRequest) (matches : Bool) (s : Node)
    → (after_check request matches s).1.env.p ≡ s.env.p
unfolding after_check take_entries respond
after_check-p request false s = refl
after_check-p request true s =
    continue-keeps (λ (n : Node). n.env.p ≡ s.env.p) (λ _. respond true) (take_entries request s)
      (continue-keeps (λ (n : Node). n.env.p ≡ s.env.p) (λ _. commit_changes request.leader_commit)
        (append_entries request.entries s) (append_entries-p request.entries s)
        (λ _ n h. (commit_changes-Keeps request.leader_commit n).p ∙ h))
      (λ _ n h. h)

checked-p :
    (request : AppendRequest) (s : Node)
    → ((check_and_correct request.prev_log_index request.prev_log_term >>= after_check request)
        s).1.env.p
      ≡ s.env.p
checked-p request s =
    continue-keeps (λ (n : Node). n.env.p ≡ s.env.p) (after_check request)
      (check_and_correct request.prev_log_index request.prev_log_term s)
      (check_and_correct-p request.prev_log_index request.prev_log_term s)
      (λ b n h. after_check-p request b n ∙ h)

voted_at_least :
    (p q : Persisted) (c : ℕ) → p.current_term ≤ q.current_term → q.voted_for ≡ some c → Later p q
voted_at_least p q c h v = elim (Bool-cases (ltb p.current_term q.current_term)) [
  | inl below ↦ inl (ltb→lt _ _ below)
  | inr above ↦ inr (omega (arith, ltb→le _ _ above), λ _. (c, v))
]

pub append_request-Later :
    (request : AppendRequest) (s : Node) → Later s.env.p (append_request request s).1.env.p
unfolding append_request respond
append_request-Later request s = elim (Bool-cases (ltb request.term s.env.p.current_term)) [
  | inl stale ↦ rw stale (Later-refl s.env.p)
  | inr fresh ↦
      let p = ap (λ (v : TEnv). v.p) (followed_facts request s).0 in
      rw (fresh, follow-ok request s, checked-p request (followed request s), p)
        (voted_at_least s.env.p _ request.leader_id (ltb→le _ _ fresh) refl)
]

pub apply_request_sync-p :
    (op : ℤ) (key value prev : String) (channel : ℕ) (s : Node)
    → (apply_request_sync op key value prev channel s).1.env.p ≡ s.env.p
unfolding apply_request_sync append
apply_request_sync-p op key value prev channel s = ground arith
