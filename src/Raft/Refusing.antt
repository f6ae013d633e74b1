-- ===== src/Raft/Refusing.antt =====
-- Heartbeats of 2/server that a follower refuses, on concrete input.
use tors_hw.Base.{◌≡◌, ◌<◌, refl, false, some, [], ◌∷◌, ok, arith}
use tors_hw.Raft.Node.{Node, LeaderState}
use tors_hw.Raft.Log.{sentinel}
use tors_hw.Raft.Wal.{check_and_correct}
use tors_hw.Raft.Append.{
  AppendRequest, AppendResponse, append_request, follow, after_check, take_entries, respond,
}
use tors_hw.Raft.Heartbeat.{
  hb_request, request_at, request_from, hb_response, back_off, leader_state, or_panic, prev_idx,
}
use tors_hw.Raft.Heartbeat.Replication.{on_wire}
use tors_hw.Raft.Heartbeat.Refusals.{no_more, one_more, SameFirst, backing_off_ends}
use tors_hw.Raft.Tests.{two_entries, one_entry}

-- The leader takes the follower to have both entries; it has the first.

abbrev new_leader : LeaderState
new_leader = record { next_index = 3 ∷ 3 ∷ []; match_index = 0 ∷ 0 ∷ [] }

abbrev leads_both : Node
leads_both = record two_entries {
  env = record (two_entries.env) { leader_state = some new_leader };
}

abbrev nothing_new : AppendRequest
nothing_new = record {
  term = 2;
  leader_id = 0;
  prev_log_index = 2;
  prev_log_term = 2;
  entries = [];
  leader_commit = 0;
}

nothing_new_built : hb_request 0 1 leads_both ≡ (ok nothing_new, leads_both)
unfolding hb_request request_at leader_state or_panic prev_idx request_from
nothing_new_built = refl

abbrev too_short : AppendResponse
too_short = record { term = 2; success = false }

abbrev refuses_it : Node
refuses_it = (append_request (on_wire nothing_new) one_entry).1

nothing_new_refused : append_request (on_wire nothing_new) one_entry ≡ (ok too_short, refuses_it)
unfolding append_request follow check_and_correct after_check take_entries respond
nothing_new_refused = refl

abbrev one_back : Node
one_back = (hb_response 1 too_short leads_both).1

too_short_taken : hb_response 1 too_short leads_both ≡ (ok tt, one_back)
unfolding hb_response back_off leader_state or_panic
too_short_taken = refl

sentinels : SameFirst leads_both one_entry
sentinels = record { entry = sentinel; ours = refl; other = sentinel; theirs = refl; term = refl }

backing_off_ends_example : 1 < 3
backing_off_ends_example =
    backing_off_ends 0 1 1 3 new_leader leads_both one_entry refl refl (omega arith) (omega arith)
      (omega arith) sentinels
      (one_more 0 leads_both one_back one_entry refuses_it nothing_new too_short nothing_new_built
        (omega arith) nothing_new_refused refl too_short_taken (no_more one_back refuses_it))
