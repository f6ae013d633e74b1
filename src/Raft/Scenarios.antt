-- ===== src/Raft/Scenarios.antt =====
-- Exchanges between the nodes of 2/server on concrete input.
use tors_hw.Base.{◌<◌, ◌≡◌, ◌/◌, refl, true, false, some, List, [], ◌∷◌, ok, take, arith}
use tors_hw.Raft.Node.{Node, LeaderState}
use tors_hw.Raft.Wal.{write_entries, check_and_correct, append_entries, append, back_of}
use tors_hw.Raft.Wal.Effects.{Durable}
use tors_hw.Raft.Wal.Checks.{Passed, check_and_correct-Passed}
use tors_hw.Raft.Commit.{commit_changes, max_idx}
use tors_hw.Raft.Vote.{VoteRequest, VoteResponse, request_vote, adopt_term, decide_vote}
use tors_hw.Raft.Vote.Grant.{Granted, request_vote-Granted, request_vote_stale}
use tors_hw.Raft.Append.{AppendRequest, append_request, follow, take_entries, respond, after_check}
use tors_hw.Raft.Election.{
  try_become_leader, own_vote, stand, start_term, conclude, count_votes, lead, already_leader,
}
use tors_hw.Raft.Election.Counting.{granted}
use tors_hw.Raft.Election.Majority.{Leads, leader_has_majority, majority-Leads}
use tors_hw.Raft.Ballot.{Ballot, Run, start, after, asked, stood, next, OneATerm}
use tors_hw.Raft.Ballot.Once.{one_vote_a_term}
use tors_hw.Raft.Heartbeat.{hb_request, request_at, request_from, prev_idx, leader_state, or_panic}
use tors_hw.Raft.Heartbeat.Replication.{on_wire, Replicated, heartbeat_replicates}
use tors_hw.Raft.Tests.{entry_of, second_entry, two_entries, one_entry}

-- The log at an index.

abbrev after_check_1 : Node
after_check_1 = (check_and_correct 1 1 two_entries).1

check_1 : check_and_correct 1 1 two_entries ≡ (ok true, after_check_1)
unfolding check_and_correct write_entries
check_1 = refl

check_and_correct-Passed_example : Passed 1 1 two_entries after_check_1 × Durable after_check_1
check_and_correct-Passed_example =
    check_and_correct-Passed 1 1 two_entries after_check_1 (omega arith) tt refl check_1

-- A vote.

abbrev asks : VoteRequest
asks = record { term = 3; candidate_id = 1; last_log_index = 2; last_log_term = 2 }

abbrev asks_late : VoteRequest
asks_late = record asks { term = 1 }

abbrev has_voted : Node
has_voted = (request_vote asks two_entries).1

vote_granted_once :
    request_vote asks two_entries ≡ (ok (record { term = 3; vote_granted = true }), has_voted)
unfolding request_vote adopt_term decide_vote
vote_granted_once = refl

last_is_second : back_of two_entries.env.l ≡ some second_entry
unfolding back_of
last_is_second = refl

request_vote-Granted_example : Granted asks second_entry two_entries has_voted
request_vote-Granted_example =
    request_vote-Granted asks two_entries has_voted (record { term = 3; vote_granted = true })
      second_entry vote_granted_once refl last_is_second

request_vote_stale_example :
    request_vote asks_late two_entries
    ≡ (ok (record { term = 2; vote_granted = false }), two_entries)
request_vote_stale_example = request_vote_stale asks_late two_entries (omega arith)

-- The node votes for another, and then stands for election itself.

abbrev two_ballots : List Ballot
two_ballots = record { term = 4; candidate = 0 } ∷ record { term = 3; candidate = 1 } ∷ []

abbrev has_stood : Node
has_stood = (try_become_leader 0 3 3 [] has_voted).1

votes_twice : Run 0 3 two_entries two_ballots has_stood
unfolding next request_vote adopt_term decide_vote
votes_twice = after (after start (asked asks) tt) (stood 3 []) (omega arith)

one_vote_a_term_example : OneATerm two_ballots
one_vote_a_term_example = one_vote_a_term 0 3 two_entries has_stood two_ballots votes_twice

-- New entries.

abbrev brings : AppendRequest
brings = record {
  term = 3;
  leader_id = 1;
  prev_log_index = 1;
  prev_log_term = 1;
  entries = entry_of 3 "c" ∷ [];
  leader_commit = 1;
}

abbrev brought : Node
brought = (append_request brings two_entries).1

brings_succeeds :
    append_request brings two_entries ≡ (ok (record { term = 3; success = true }), brought)
unfolding append_request follow check_and_correct after_check take_entries append_entries append
    commit_changes max_idx respond write_entries
brings_succeeds = refl

-- An election among three nodes.

abbrev refusal_2 : VoteResponse
refusal_2 = record { term = 2; vote_granted = false }

abbrev grant_3 : VoteResponse
grant_3 = record { term = 3; vote_granted = true }

abbrev answers : List VoteResponse
answers = refusal_2 ∷ grant_3 ∷ []

abbrev leader : Node
leader = (try_become_leader 0 3 3 answers two_entries).1

leader_leads : leader.is_leader ≡ true
unfolding try_become_leader already_leader stand start_term count_votes conclude lead
leader_leads = refl

leader_has_majority_example :
    (3 / 2 < granted (take 3 (own_vote ∷ answers))) × Leads 0 3 two_entries leader
leader_has_majority_example =
    leader_has_majority 0 3 3 answers two_entries (omega arith) refl leader_leads

majority-Leads_example : Leads 0 3 two_entries leader
majority-Leads_example =
    majority-Leads 0 3 3 answers two_entries (omega arith) refl (omega arith)
      (omega arith, (omega arith, (omega arith, tt))) (omega arith)

-- A heartbeat to a follower that lacks an entry.

abbrev leader_state_2 : LeaderState
leader_state_2 = record { next_index = 3 ∷ 2 ∷ []; match_index = 0 ∷ 0 ∷ [] }

abbrev ahead : Node
ahead = record two_entries { env = record (two_entries.env) { leader_state = some leader_state_2 } }

abbrev hb : AppendRequest
hb = record {
  term = 2;
  leader_id = 0;
  prev_log_index = 1;
  prev_log_term = 1;
  entries = second_entry ∷ [];
  leader_commit = 0;
}

hb_built : hb_request 0 1 ahead ≡ (ok hb, ahead)
unfolding hb_request request_at leader_state or_panic prev_idx request_from
hb_built = refl

abbrev filled : Node
filled = (append_request (on_wire hb) one_entry).1

hb_taken :
    append_request (on_wire hb) one_entry ≡ (ok (record { term = 2; success = true }), filled)
unfolding append_request follow check_and_correct after_check take_entries append_entries append
    commit_changes max_idx respond
hb_taken = refl

heartbeat_replicates_example :
    Replicated 1 leader_state_2 (record { term = 2; success = true }) ahead filled
heartbeat_replicates_example =
    heartbeat_replicates 0 1 ahead ahead one_entry filled leader_state_2 hb
      (record { term = 2; success = true }) refl (omega arith) (omega arith) hb_built (omega arith)
      tt refl refl hb_taken refl
