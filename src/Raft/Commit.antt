-- ===== src/Raft/Commit.antt =====
-- `CommitChanges` of 2/server/env.go: committed entries are sent to the store's queue.
pub mod Exact
pub mod Keeps
pub mod Prefix
use tors_hw.Base.{
  ℕ, ◌+◌, Option, none, some, List, [], ◌∷◌, ◌++◌, Exec, ok, err, panic, if◌then◌else◌, ltb,
  add_u64, length,
}
use tors_hw.Raft.Log.{LogEntry}
use tors_hw.Raft.Node.{Node, TEnv}
use tors_hw.Raft.Wal.{slice, last_u64}

-- `maxIdx`: an index past the log is brought back to its last entry.
unfoldable pub max_idx : ℕ → List LogEntry → ℕ
max_idx index entries = if ltb (length entries) index then last_u64 (length entries) else index

-- The slice of entries is sent, `lastApplied` and `commitIndex` are set; a slice out of bounds
-- panics before.
send_committed : Option (List LogEntry) → ℕ → ℕ → Exec Node (Unit {0})
send_committed none applied commit s = (err panic, s)
send_committed (some entries) applied commit s = (
  ok tt,
  record s {
    env = record (s.env) {
      last_applied = applied;
      commit_index = commit;
      commit_queue = s.env.commit_queue ++ entries;
    };
  },
)

-- What both branches do with the index that they aim at.
commit_to : ℕ → Exec Node (Unit {0})
unfolding send_committed max_idx slice
commit_to index s =
    let m = max_idx index s.env.l in
    send_committed (slice (add_u64 s.env.last_applied 1) (add_u64 m 1) s.env.l) m index s

unfoldable pub commit_changes : ℕ → Exec Node (Unit {0})
unfolding commit_to
commit_changes leader_commit s =
    if ltb s.env.commit_index leader_commit
    then commit_to leader_commit s
    else commit_to s.env.commit_index s
