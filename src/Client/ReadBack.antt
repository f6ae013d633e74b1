-- ===== src/Client/ReadBack.antt =====
-- A read of what a command of the client has left, at a follower: `handleGet` of
-- 2/server/external.go behind the commit of the leader and its next heartbeat.
use tors_hw.Base.{ℕ}
use tors_hw.Raft.Node.{Node}
use tors_hw.Raft.Db.{Db}
use tors_hw.Raft.Replica.{store_of}
use tors_hw.Raft.External.Reads.{ExternalState}

-- The handlers of a node whose store has worked off what was sent to it.
abbrev pub caught_up : Node → ℕ → ExternalState
caught_up node round_robin = record { node = node; db = store_of node; round_robin = round_robin }
