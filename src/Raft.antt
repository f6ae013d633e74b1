-- ===== src/Raft.antt =====
-- 2/server: a key-value store that is replicated by a Raft log.
pub mod Log
pub mod Db
pub mod CommitIndex
pub mod Node
pub mod Wal
pub mod Commit
pub mod Vote
pub mod Append
pub mod Election
pub mod Heartbeat
pub mod Ballot
pub mod External
pub mod Cluster
pub mod Restart
pub mod Broadcast
pub mod Replica
pub mod Config
pub mod Launch
pub mod Internal
pub mod Timers
mod Tests
mod Scenarios
mod Startup
mod Reading
mod Leading
mod Beats
mod Copying
mod Refusing
mod Sessions
