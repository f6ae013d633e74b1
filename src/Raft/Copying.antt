-- ===== src/Raft/Copying.antt =====
-- Stores of 2/server that follow a leader, on concrete input.
use tors_hw.Base.{◌≡◌, refl, true, some, [], ◌∷◌, ok, arith}
use tors_hw.Raft.Node.{Node, LeaderState}
use tors_hw.Raft.Wal.{check_and_correct, append, append_entries}
use tors_hw.Raft.Commit.{commit_changes, max_idx}
use tors_hw.Raft.Commit.Prefix.{Applied}
use tors_hw.Raft.Append.{AppendRequest, append_request, follow, after_check, take_entries, respond}
use tors_hw.Raft.Heartbeat.{hb_request, request_at, request_from, leader_state, or_panic, prev_idx}
use tors_hw.Raft.Heartbeat.Replication.{on_wire}
use tors_hw.Raft.Replica.Follower.{Copies, heartbeat_same_store}
use tors_hw.Raft.Tests.{first_entry, second_entry, two_entries, one_entry}

-- The leader has committed and sent the first of its two entries.

abbrev one_behind : LeaderState
one_behind = record { next_index = 3 ∷ 2 ∷ []; match_index = 0 ∷ 0 ∷ [] }

abbrev pub first_sent : Node
first_sent = record two_entries {
  env = record (two_entries.env) {
    commit_index = 1;
    last_applied = 1;
    commit_queue = first_entry ∷ [];
    leader_state = some one_behind;
  };
}

first_sent-Applied : Applied first_sent
first_sent-Applied = record { in_log = omega arith; sent = refl; word = omega arith }

one_entry-Applied : Applied one_entry
one_entry-Applied = record { in_log = omega arith; sent = refl; word = omega arith }

abbrev pub commits_first : AppendRequest
commits_first = record {
  term = 2;
  leader_id = 0;
  prev_log_index = 1;
  prev_log_term = 1;
  entries = second_entry ∷ [];
  leader_commit = 1;
}

pub commits_first_built : hb_request 0 1 first_sent ≡ (ok commits_first, first_sent)
unfolding hb_request request_at leader_state or_panic prev_idx request_from
commits_first_built = refl

abbrev pub copied : Node
copied = (append_request (on_wire commits_first) one_entry).1

pub commits_first_taken :
    append_request (on_wire commits_first) one_entry
    ≡ (ok (record { term = 2; success = true }), copied)
unfolding append_request follow check_and_correct after_check take_entries append_entries append
    commit_changes max_idx respond
commits_first_taken = refl

heartbeat_same_store_example : Copies first_sent copied
heartbeat_same_store_example =
    heartbeat_same_store 0 1 first_sent first_sent one_entry copied commits_first
      (record { term = 2; success = true }) commits_first_built (omega arith) refl
      first_sent-Applied refl one_entry-Applied (omega arith) (omega arith) commits_first_taken refl
