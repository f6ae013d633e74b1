-- ===== src/Raft/Heartbeat.antt =====
-- `leaderHB` and the body of `leaderHBBroadcast` of 2/server/raft.go: the leader's request to a
-- follower, what its answer changes, and the new commit index. The goroutines of a broadcast touch
-- the leader state at their own follower's index only, and each of their steps is one function here.
pub mod Replication
pub mod Keeps
pub mod Bounds
pub mod Commits
pub mod Refusals
use tors_hw.Base.{
  ℕ, suc, ◌+◌, ◌-◌, ◌^◌, Bool, true, false, Option, none, some, List, [], ◌∷◌, Exec, Result, ok,
  err, panic, pure, raise, get_state, put_state, ◌>>=◌, ◌>>◌, if◌then◌else◌, ltb, leb, add_u64,
  sub_u64, length, get_elem?, set, replicate, drop,
}
use tors_hw.Raft.Log.{LogEntry}
use tors_hw.Raft.Node.{Node, TEnv, Persisted, LeaderState}
use tors_hw.Raft.Wal.{last_u64}
use tors_hw.Raft.CommitIndex.{calc_commit_index}
use tors_hw.Raft.Commit.{commit_changes}
use tors_hw.Raft.Append.{AppendRequest, AppendResponse}

-- An index out of range and a nil pointer panic.
unfoldable pub or_panic : {A : Type 0} → Option A → Exec Node A
or_panic none = raise panic
or_panic (some a) = pure a

unfoldable pub leader_state : Exec Node LeaderState
unfolding or_panic
leader_state = do s ← get_state; or_panic s.env.leader_state

-- `prevIdx`: the index before the next one, or the last one where that is past the log.
unfoldable pub prev_idx : ℕ → ℕ → ℕ
prev_idx next len = let prev = sub_u64 next 1 in if leb len prev then last_u64 len else prev

unfoldable pub request_from : ℕ → ℕ → LogEntry → TEnv → AppendRequest
request_from node_id prev entry env = record {
  term = env.p.current_term;
  leader_id = node_id;
  prev_log_index = prev;
  prev_log_term = entry.term;
  entries = drop (prev + 1) env.l;
  leader_commit = env.commit_index;
}

-- The request whose follower has the next index `next`.
unfoldable pub request_at : ℕ → ℕ → Exec Node AppendRequest
request_at node_id next = do
  s ← get_state
  entry ← or_panic (get_elem? s.env.l (prev_idx next (length s.env.l)))
  pure (request_from node_id (prev_idx next (length s.env.l)) entry s.env)

-- The request of the leader `node_id` to the follower `i`.
unfoldable pub hb_request : ℕ → ℕ → Exec Node AppendRequest
unfolding leader_state
hb_request node_id i = do
  leader ← leader_state
  next ← or_panic (get_elem? leader.next_index i)
  request_at node_id next

abbrev pub put_leader : LeaderState → Node → Node
put_leader leader s = record s { env = record (s.env) { leader_state = some leader } }

-- The follower has the whole log.
unfoldable pub caught_up : ℕ → Exec Node (Unit {0})
unfolding leader_state or_panic
caught_up i = do
  leader ← leader_state
  _ ← or_panic (get_elem? leader.next_index i)
  _ ← or_panic (get_elem? leader.match_index i)
  s ← get_state
  put_state (
      put_leader
        (record {
          next_index = set leader.next_index i (length s.env.l);
          match_index = set leader.match_index i (last_u64 (length s.env.l));
        })
        s)

-- The follower's log differs: one entry further back at the next heartbeat.
unfoldable pub back_off : ℕ → Exec Node (Unit {0})
unfolding leader_state or_panic
back_off i = do
  leader ← leader_state
  next ← or_panic (get_elem? leader.next_index i)
  s ← get_state
  put_state (put_leader (record leader { next_index = set leader.next_index i (sub_u64 next 1) }) s)

-- What the answer of the follower `i` changes. A newer term only clears `isLeader`.
unfoldable pub hb_response : ℕ → AppendResponse → Exec Node (Unit {0})
hb_response i response = do
  s ← get_state
  if ltb s.env.p.current_term response.term
      then put_state (record s { is_leader = false })
      else if response.success
      then caught_up i
      else back_off i

-- A request that fails on the way, or an answer that cannot be read, changes nothing.
unfoldable pub hb_outcome : ℕ → Option AppendResponse → Exec Node (Unit {0})
hb_outcome i none = pure tt
hb_outcome i (some response) = hb_response i response

put_commit_index : ℕ → Exec Node (Unit {0})
put_commit_index index s = (ok tt, record s { env = record (s.env) { commit_index = index } })

-- A commit index is taken when it is larger.
unfoldable pub advance_to : ℕ → Exec Node (Unit {0})
unfolding put_commit_index
advance_to index = do
  s ← get_state
  if ltb s.env.commit_index index
      then (do put_commit_index index; commit_changes index)
      else pure tt

unfoldable pub advance : Result ℕ → Exec Node (Unit {0})
advance (err fault) = raise fault
advance (ok index) = advance_to index

-- The commit of a broadcast, by the match indexes.
unfoldable pub hb_commit : Exec Node (Unit {0})
unfolding leader_state or_panic
hb_commit = do leader ← leader_state; advance (calc_commit_index leader.match_index)
