-- ===== src/Raft/Node.antt =====
-- The state of a node: `RaftState` of 2/server/raft.go, `TEnv` and `LeaderState` of
-- 2/server/env.go, and `PState` of 2/server/state.go, with the two files that the node writes.
use tors_hw.Base.{
  ℕ, ◌≡◌, Bool, true, false, Option, none, some, List, [], ◌∷◌, Exec, ok, fatal, pure, raise,
  get_state, put_state, ◌>>=◌, ◌>>◌, if◌then◌else◌,
}
use tors_hw.Raft.Log.{LogEntry}

-- What `pstate.json` holds: the field `State` of `PState`.
pub record Persisted : Type 0 where
  pub current_term : ℕ  -- uint64
  pub voted_for : Option ℕ

-- The file of the persisted state and that of the log, the second by the entries written to it, and
-- how the coming file operations end: `false` is an error; past the list's end, none.
pub record Disk : Type 0 where
  pub pstate : Option Persisted
  pub log : List LogEntry
  pub outcomes : List Bool

pub record LeaderState : Type 0 where
  pub next_index : List ℕ
  pub match_index : List ℕ

-- `commit_queue` is all that was ever sent on the channel; `alert` says that the channel of
-- `newEntriesAlert`, of capacity 1, holds its token.
pub record TEnv : Type 0 where
  pub p : Persisted
  pub l : List LogEntry
  pub commit_index : ℕ
  pub last_applied : ℕ
  pub leader_state : Option LeaderState
  pub leader_id : Option ℕ
  pub commit_queue : List LogEntry
  pub alert : Bool

pub record Node : Type 0 where
  pub env : TEnv
  pub is_leader : Bool
  pub got_hb : Bool
  pub disk : Disk

-- The two atomic flags are as they were.
pub record SameFlags (s s' : Node) : Type 0 where
  pub is_leader : s'.is_leader ≡ s.is_leader
  pub got_hb : s'.got_hb ≡ s.got_hb

-- Whether the next file operation succeeds, and the disk after it.
abbrev pub next_outcome : List Bool → Bool × List Bool
next_outcome [] = (true, [])
next_outcome (outcome ∷ later) = (outcome, later)

-- `DumpPState`: the new content is renamed over the old, or an error is returned (`false`).
unfoldable pub dump_p_state : Exec Node Bool
dump_p_state s =
    let (fine, later) = next_outcome s.disk.outcomes in
    if fine
    then (ok true, record s { disk = record (s.disk) { pstate = some s.env.p; outcomes = later } })
    else (ok false, record s { disk = record (s.disk) { outcomes = later } })

or_fatal : Bool → Exec Node (Unit {0})
or_fatal true = pure tt
or_fatal false = raise fatal

abbrev pub put_p : Persisted → Node → Node
put_p p s = record s { env = record (s.env) { p = p } }

-- `SetVote`: log.Fatal if the dump fails.
unfoldable pub set_vote : ℕ → Exec Node (Unit {0})
unfolding dump_p_state or_fatal
set_vote vote = do
  s ← get_state
  put_state (put_p (record (s.env.p) { voted_for = some vote }) s)
  fine ← dump_p_state
  or_fatal fine

-- `SetCurrentTerm`
unfoldable pub set_current_term : ℕ → Exec Node (Unit {0})
unfolding dump_p_state or_fatal
set_current_term curr = do
  s ← get_state
  put_state (put_p (record (s.env.p) { current_term = curr }) s)
  fine ← dump_p_state
  or_fatal fine

-- `ResetVote`
unfoldable pub reset_vote : Exec Node (Unit {0})
unfolding dump_p_state or_fatal
reset_vote = do
  s ← get_state
  put_state (put_p (record (s.env.p) { voted_for = none }) s)
  fine ← dump_p_state
  or_fatal fine
