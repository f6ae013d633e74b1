-- ===== src/Raft/Vote.antt =====
-- `HandleRequestVote` of 2/server/raft.go.
pub mod Grant
pub mod Asked
use tors_hw.Base.{
  ◌/◌, ℕ, Bool, true, false, not, Option, none, some, List, Exec, Result, ok, err, pure, raise,
  get_state, put_state, ◌>>=◌, ◌>>◌, Body, unreadable, malformed, decoded, if◌then◌else◌, ltb, leb,
  ◌==◌, length,
}
use tors_hw.Raft.Log.{LogEntry}
use tors_hw.Raft.Node.{Node, TEnv, Persisted, dump_p_state, set_vote}
use tors_hw.Raft.Wal.{back, last_u64}

pub record VoteRequest : Type 0 where
  pub term : ℕ
  pub candidate_id : ℕ
  pub last_log_index : ℕ
  pub last_log_term : ℕ

pub record VoteResponse : Type 0 where
  pub term : ℕ
  pub vote_granted : Bool

abbrev pub refusal : ℕ → VoteResponse
refusal term = record { term = term; vote_granted = false }

-- A newer term: the node steps down, forgets its vote, and dumps; the dump's error is dropped.
unfoldable pub adopt_term : ℕ → Exec Node (Unit {0})
unfolding dump_p_state
adopt_term term = do
  s ← get_state
  put_state (record s {
    is_leader = false;
    env = record (s.env) {
      p = record { current_term = term; voted_for = none };
      leader_state = none;
    };
  })
  fine ← dump_p_state
  pure tt

grant : VoteRequest → ℕ → Exec Node VoteResponse
unfolding set_vote
grant request term = do
  set_vote request.candidate_id
  pure (record { term = term; vote_granted = true })

-- The comparison of the logs.
compare_logs : VoteRequest → ℕ → Exec Node VoteResponse
unfolding grant back
compare_logs request term = do
  last ← back
  s ← get_state
  if ltb last.term request.last_log_term
      then grant request term
      else if request.last_log_term == last.term
      then (if leb (last_u64 (length s.env.l)) request.last_log_index
          then grant request term
          else pure (refusal term))
      else pure (refusal term)

-- What follows the adoption of the term.
unfoldable pub decide_vote : VoteRequest → Exec Node VoteResponse
unfolding compare_logs
decide_vote request = do
  s ← get_state
  elim s.env.p.voted_for [
    | some _ ↦ pure (refusal s.env.p.current_term)
    | none ↦ compare_logs request s.env.p.current_term
  ]

-- The function that runs under the lock.
unfoldable pub request_vote : VoteRequest → Exec Node VoteResponse
request_vote request = do
  s ← get_state
  if ltb request.term s.env.p.current_term
      then pure (refusal s.env.p.current_term)
      else if ltb s.env.p.current_term request.term
      then (do adopt_term request.term; decide_vote request)
      else decide_vote request

-- The HTTP answer: nothing is written where the body cannot be read.
pub data VoteReply : Type 0 where
  no_reply : VoteReply
  bad_body : VoteReply
  vote : VoteResponse → VoteReply

unfoldable pub handle_request_vote : Body VoteRequest → Exec Node VoteReply
unfolding request_vote adopt_term decide_vote
handle_request_vote unreadable = pure no_reply
handle_request_vote malformed = pure bad_body
handle_request_vote (decoded request) = do response ← request_vote request; pure (vote response)

-- The request of `requestVoteFrom`; an empty log panics.
unfoldable pub vote_request : ℕ → Exec Node VoteRequest
vote_request node_id = do
  last ← back
  s ← get_state
  pure (record {
    term = s.env.p.current_term;
    candidate_id = node_id;
    last_log_index = last_u64 (length s.env.l);
    last_log_term = last.term;
  })

-- How the call to another node ends: no response, one whose body cannot be read, or one with a
-- status and a body.
pub data VoteAnswer : Type 0 where
  no_response : VoteAnswer
  broken_body : VoteAnswer
  response : ℕ → Option VoteResponse → VoteAnswer

-- What `requestVoteFrom` sends on the channel.
unfoldable pub arrival : VoteAnswer → Option VoteResponse
arrival no_response = none
arrival broken_body = none
arrival (response status body) = if status / 100 == 2 then body else none
