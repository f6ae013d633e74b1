-- ===== src/Client/Readings.antt =====
-- A command of the client and a read at a follower on concrete input.
use tors_hw.Base.{some, [], ◌∷◌, map}
use tors_hw.Raft.Log.{sentinel}
use tors_hw.Raft.Node.{Node}
use tors_hw.Raft.Append.{AppendRequest, append_request}
use tors_hw.Raft.Heartbeat.{leader_state}
use tors_hw.Raft.Heartbeat.Replication.{on_wire}
use tors_hw.Raft.Wal.{on_disk}
use tors_hw.Client.Serving.{entry_of}
use tors_hw.Client.Runs.{a_entry, cas_a, new_node, leader_with_a, answered_state}

abbrev asked_cas : Node
asked_cas = record (leader_with_a.node) {
  env = record (leader_with_a.node.env) {
    l = sentinel ∷ a_entry ∷ entry_of cas_a 5 ∷ [];
    leader_state = some answered_state;
  };
}

abbrev committed_cas : Node
committed_cas = record asked_cas {
  env = record (asked_cas.env) {
    commit_index = 2;
    last_applied = 2;
    commit_queue = a_entry ∷ entry_of cas_a 5 ∷ [];
  };
}

-- The other node has the entries, and has committed the first.

abbrev follower_start : Node
follower_start = record new_node {
  env = record (new_node.env) {
    l = sentinel ∷ a_entry ∷ entry_of cas_a 5 ∷ [];
    commit_index = 1;
    last_applied = 1;
    commit_queue = a_entry ∷ [];
  };
  disk = record (new_node.disk) { log = map on_disk (a_entry ∷ entry_of cas_a 5 ∷ []) };
}

abbrev commits_cas : AppendRequest
commits_cas = record {
  term = 0;
  leader_id = 0;
  prev_log_index = 2;
  prev_log_term = 0;
  entries = [];
  leader_commit = 2;
}

abbrev reader : Node
reader = (append_request (on_wire commits_cas) follower_start).1
