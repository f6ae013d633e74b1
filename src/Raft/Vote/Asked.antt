-- ===== src/Raft/Vote/Asked.antt =====
-- A candidate's request, at a node whose log is the candidate's.
use tors_hw.Base.{
  ℕ, ◌<◌, ◌≡◌, refl, sym, ap, ◌∙◌, true, none, some, [], ok, continue, length, arith,
}
use tors_hw.Raft.Log.{LogEntry}
use tors_hw.Raft.Node.{Node, Persisted, dump_p_state}
use tors_hw.Raft.Wal.{back_of, last_u64}
use tors_hw.Raft.Wal.Effects.{back-ok}
use tors_hw.Raft.Vote.{VoteRequest, vote_request, request_vote, adopt_term, decide_vote}
use tors_hw.Raft.Vote.Grant.{adopted, adopt_term-ok, adopted_facts}

decide_vote_grants :
    (request : VoteRequest) (s : Node) (last : LogEntry)
    → back_of s.env.l ≡ some last
    → s.env.p.voted_for ≡ none
    → s.disk.outcomes ≡ []
    → request.last_log_term ≡ last.term
    → request.last_log_index ≡ last_u64 (length s.env.l)
    → (decide_vote request s).0 ≡ ok (record { term = s.env.p.current_term; vote_granted = true })
unfolding decide_vote dump_p_state
decide_vote_grants request s last ends free fine same_term same_index = ground arith

adopted-outcomes :
    (request : VoteRequest) (s : Node)
    → s.disk.outcomes ≡ []
    → (adopted request s).disk.outcomes ≡ []
unfolding adopted adopt_term dump_p_state
adopted-outcomes request s fine = ground arith

-- A newer request, once its term is adopted.
request_vote_newer :
    (request : VoteRequest) (s : Node)
    → s.env.p.current_term < request.term
    → request_vote request s ≡ decide_vote request (adopted request s)
unfolding request_vote
request_vote_newer request s h = ground (arith, adopt_term-ok request s)

-- A candidate asks for votes in its term, and a node in an earlier term whose log is the candidate's
-- grants the vote, where its file operations succeed. The log has its first entry, `last` its last.
pub vote_request_granted :
    (node_id : ℕ) (candidate voter : Node) (last : LogEntry)
    → back_of candidate.env.l ≡ some last
    → voter.env.l ≡ candidate.env.l
    → voter.env.p.current_term < candidate.env.p.current_term
    → voter.disk.outcomes ≡ []
    → (request : VoteRequest) × (vote_request node_id candidate ≡ (ok request, candidate))
      × ((request_vote request voter).0
          ≡ ok (record { term = candidate.env.p.current_term; vote_granted = true }))
unfolding vote_request
vote_request_granted node_id candidate voter last ends same before fine =
    let request : VoteRequest = record {
      term = candidate.env.p.current_term;
      candidate_id = node_id;
      last_log_index = last_u64 (length candidate.env.l);
      last_log_term = last.term;
    } in
    let (state, log) = adopted_facts request voter in
    (
      request,
      ap
          (continue λ (e : LogEntry) (s : Node). (
            ok (record {
              term = s.env.p.current_term;
              candidate_id = node_id;
              last_log_index = last_u64 (length s.env.l);
              last_log_term = e.term;
            }),
            s,
          ))
          (back-ok candidate last ends),
      ap (λ t. t.0) (request_vote_newer request voter before)
          ∙ decide_vote_grants request (adopted request voter) last (ap back_of (log ∙ same) ∙ ends)
              (ap (λ (p : Persisted). p.voted_for) state) (adopted-outcomes request voter fine) refl
              (ap (λ l. last_u64 (length l)) (sym (log ∙ same)))
          ∙ ap (λ (p : Persisted). ok (record { term = p.current_term; vote_granted = true }))
              state,
    )
