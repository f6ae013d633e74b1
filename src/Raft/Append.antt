-- ===== src/Raft/Append.antt =====
-- `HandleAppendEntries` of 2/server/raft.go.
pub mod Matching
pub mod Stages
use tors_hw.Base.{
  ℕ, Bool, true, false, Option, none, some, List, Exec, Result, ok, err, pure, raise, get_state,
  put_state, ◌>>=◌, ◌>>◌, Body, unreadable, malformed, decoded, if◌then◌else◌, ltb,
}
use tors_hw.Raft.Log.{LogEntry}
use tors_hw.Raft.Node.{Node, TEnv, Persisted, dump_p_state}
use tors_hw.Raft.Wal.{check_and_correct, append_entries}
use tors_hw.Raft.Commit.{commit_changes}

pub record AppendRequest : Type 0 where
  pub term : ℕ
  pub leader_id : ℕ
  pub prev_log_index : ℕ
  pub prev_log_term : ℕ
  pub entries : List LogEntry
  pub leader_commit : ℕ

pub record AppendResponse : Type 0 where
  pub term : ℕ
  pub success : Bool

-- The node follows the sender: it takes its term, with a vote for it, and dumps; the dump's error is
-- dropped.
unfoldable pub follow : AppendRequest → Exec Node (Unit {0})
unfolding dump_p_state
follow request = do
  s ← get_state
  put_state (record s {
    got_hb = true;
    is_leader = false;
    env = record (s.env) {
      leader_state = none;
      leader_id = some request.leader_id;
      p = record { current_term = request.term; voted_for = some request.leader_id };
    };
  })
  fine ← dump_p_state
  pure tt

-- The entries of a request that matches the log.
unfoldable pub take_entries : AppendRequest → Exec Node (Unit {0})
take_entries request = do append_entries request.entries; commit_changes request.leader_commit

unfoldable pub respond : Bool → Exec Node AppendResponse
respond success = do s ← get_state; pure (record { term = s.env.p.current_term; success = success })

-- What follows the check of the log.
unfoldable pub after_check : AppendRequest → Bool → Exec Node AppendResponse
after_check request true = do take_entries request; respond true
after_check request false = respond false

-- The function that runs under the lock.
unfoldable pub append_request : AppendRequest → Exec Node AppendResponse
append_request request = do
  s ← get_state
  if ltb request.term s.env.p.current_term then respond false else (do
    follow request
    matches ← check_and_correct request.prev_log_index request.prev_log_term
    after_check request matches)

-- The HTTP answer: 500 where the body cannot be read.
pub data AppendReply : Type 0 where
  internal_error : AppendReply
  bad_body : AppendReply
  appended : AppendResponse → AppendReply

unfoldable pub handle_append_entries : Body AppendRequest → Exec Node AppendReply
unfolding append_request follow after_check take_entries respond
handle_append_entries unreadable = pure internal_error
handle_append_entries malformed = pure bad_body
handle_append_entries (decoded request) = do
  response ← append_request request
  pure (appended response)
