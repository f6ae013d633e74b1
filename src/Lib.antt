-- ===== src/Lib.antt =====
-- Verification of the Go programs of the repository: the key-value store that is replicated by a
-- Raft log (2/server) with its command-line client (2/client), and the replicated map whose
-- replicas keep the write with the largest timestamp (3/server).
--
-- The parts, and the files that model them:
-- - 3/server/clock.go: Lww/Clock.antt (`Compare`, `NewClock`, and the function literal `newTs` of
--   the handlers), with its order in Lww/Clock/Order.antt.
-- - 3/server/db.go: Lww/Db.antt (`Put`, `Delete`, `Get`); Lww/Db/Join.antt describes a write as
--   the join of the stored value and the new one.
-- - 3/server/server.go: Lww/Server.antt (`getKey`, `broadcastToNode`, `broadcastToAll` and the
--   handlers). The goroutines that a handler starts are the list of what they send. A sequence of
--   calls of `HandleBroadcast` is Lww/Receive.antt. The replicas together are Lww/Cluster.antt:
--   the step relation has a write at some replica, whose broadcasts are then under way to every
--   configured address, and the delivery of one broadcast under way, in any order, each once.
--   Lww/Cluster/History.antt has the broadcasts that a replica has handled with their order
--   forgotten, as a quotient, and Lww/Cluster/Reads.antt what a replica answers to a reader;
--   Lww/Cluster/Settling.antt lets all that is under way be handled.
-- - 3/server/config.go and 3/server/main.go, with `NewServer` of 3/server/server.go and its
--   routes: Lww/Config.antt and Lww/Launch.antt.
-- - 2/server/log.go: Raft/Log.antt (the entries) and Raft/Wal.antt (`Append`, `AppendEntries`,
--   `Back`, `DumpLog`, `CheckAndCorrect`), in memory and on the disk; Raft/Wal/Codec.antt is the
--   file's bytes (`SerializeEntry`, `DeserializeEntry`, `NewLog`).
-- - 2/server/db.go: Raft/Db.antt (the operations, `CommitEntry`, `periodicUpdate`).
-- - 2/server/env.go and 2/server/state.go: Raft/Node.antt (the state of a node, `DumpPState` and
--   the setters) and Raft/Commit.antt (`CommitChanges`); `NewLeaderState` is in
--   Raft/Election.antt. `NewPState`, `NewEnv` and what `main` of 2/server/main.go does with the
--   files are Raft/Restart.antt.
-- - 2/server/config.go: Raft/Config.antt; 2/server/main.go, with `NewRaftServer` and
--   `NewExtServer`: Raft/Launch.antt (the flags, the configurations, the files, the addresses of
--   the servers).
-- - 2/server/raft.go: Raft/Vote.antt (`HandleRequestVote`, and of `requestVoteFrom` the request
--   and what is made of the answer), Raft/Append.antt (`HandleAppendEntries`), Raft/Election.antt
--   (`AlreadyLeader`, `TryBecomeLeader`), Raft/CommitIndex.antt (`calcCommitIndex`),
--   Raft/Heartbeat.antt (`leaderHB` and the commit of `leaderHBBroadcast`), Raft/Broadcast.antt
--   (`leaderHBBroadcast`, the alert of `periodicLeaderHB` and the timer of `periodicCheckHb`),
--   Raft/Timers.antt (the two loops, over what their `select` finds), Raft/Internal.antt (what the
--   nodes send each other, and the routes). What the store of a node holds is Raft/Replica.antt: a
--   follower's after a heartbeat, a leader's after a commit. The calls of the handlers on one
--   node, one after the other, with the votes that it gives, are the relation `Run` of
--   Raft/Ballot.antt. The nodes together are the relation `Reach` of Raft/Cluster.antt: at any
--   node any of these calls, with arbitrary requests and answers, but that an answer that grants a
--   vote has been given by the node that it comes from.
-- - 2/server/external.go and `ApplyRequestSync` of 2/server/env.go: Raft/External.antt (`getKey`,
--   `getLeaderOrRandom`, `handleCreate`, `handleUpdateOrCas`, `handleDelete`). A handler that
--   waits for the status of its entry is the function from that status to its answer. The reads,
--   the choice of the next follower, `handleEntry` and the routes are Raft/External/Reads.antt.
-- - 2/client/main.go: Client.antt (`getNodeId`, the five functions of the commands with their
--   loops, `Process`). Client/Serving.antt puts the client's requests in front of the server's
--   routes, and Client/Cycle.antt follows a command to its commit and its answer,
--   Client/ReadBack.antt to a read at a follower. `main` with its configuration and its loop over
--   the lines is Client/Main.antt.
-- Base.antt and its children hold what the two share: the monad of code that changes a state and
-- may stop on a fault, lists, integers, strings, maps, and the bodies and answers of net/http.
-- Lww/Tests.antt, Raft/Tests.antt, Raft/Scenarios.antt, Raft/Startup.antt, Raft/Reading.antt,
-- Raft/Leading.antt, Raft/Beats.antt, Raft/Copying.antt, Raft/Refusing.antt, Raft/Sessions.antt,
-- Lww/Starting.antt, Client/Runs.antt, Client/Readings.antt and Client/Sessions.antt run the
-- models on concrete input.
--
-- How the code is read. A function that runs under a mutex is one function on the state. A fault
-- is a panic of the run-time system or a call of log.Fatal; the state that it leaves is kept. A
-- uint64 is a natural number, and each operation on it wraps at 2^64; an int is an integer. A Go
-- map is the function from its keys. A body that a handler reads is unreadable, malformed or a
-- decoded value; encoding/json itself is not modelled: where bytes or bodies matter it is a
-- parameter, of which a statement says what it relies on. The file of the log is the list of the
-- entries written to it, and its bytes in Raft/Wal/Codec.antt; a read takes as many bytes as there
-- are, up to the number asked for. Each file operation succeeds or fails as a list of outcomes
-- says, each write of a dump included; of an entry whose write fails nothing is in the file. The
-- cleaning of paths by net/http, which redirects a path that is not clean, is a parameter of the
-- routes. A slice whose end is past the length faults, where Go would read on up to the capacity;
-- the statements on the commit exclude that case. Loops are by recursion on the list that they run
-- over: the loop that waits for votes runs over the messages that it takes before its timeout, and
-- the retries of a broadcast and of a client's request over the outcomes of the attempts. Two
-- loops run on fuel: `NewLog` has one round more than the file has bytes, since each round but the
-- last reads some, and the choice of the next follower has three rounds, since of two counters in
-- a row one is another node's, but where the counter wraps. The two critical sections of
-- `TryBecomeLeader` are taken one right after the other. The goroutines of a broadcast share the
-- leader state without a lock of their own: each end of a heartbeat, and the commit, is one step.
--
-- Not modelled: the passing of time, so a timer runs out where its loop is told; ListenAndServe
-- and the transport of messages; flag.Parse, the parsing of a URL, of a number and of a line into
-- fields, whose results are parameters; log output; and the C++ programs in 1/.
pub mod Base
pub mod Lww
pub mod Raft
pub mod Client
