-- ===== src/Raft/Leading.antt =====
-- Candidates and leaders of 2/server on concrete input.
use mathlib.Core.List.{Memᴰ}
use tors_hw.Base.{ℕ, ◌<◌, ◌≡◌, ◌⊎◌, refl, true, some, [], ◌∷◌, ok, arith}
use tors_hw.Raft.Node.{Node, LeaderState}
use tors_hw.Raft.Vote.{
  VoteRequest, VoteResponse, request_vote, vote_request, adopt_term, decide_vote,
}
use tors_hw.Raft.Vote.Asked.{vote_request_granted}
use tors_hw.Raft.Wal.{back_of}
use tors_hw.Raft.Append.{AppendRequest}
use tors_hw.Raft.Commit.Prefix.{Applied}
use tors_hw.Raft.Heartbeat.{hb_request, hb_commit}
use tors_hw.Raft.Heartbeat.Bounds.{Continues, hb_request_in_log}
use tors_hw.Raft.Heartbeat.Commits.{Majority, hb_commit-Majority}
use tors_hw.Raft.Election.{try_become_leader, start_term, conclude, count_votes, already_leader}
use tors_hw.Raft.Ballot.{asked, stood, Room, next}
use tors_hw.Raft.Cluster.{Cluster, Reach, start, after, Voters, happen, member_after}
use tors_hw.Raft.Cluster.OneLeader.{one_leader_a_term}
use tors_hw.Raft.Tests.{second_entry, two_entries}

-- Node 1 has no room left in its counter, and node 2 has answered.
abbrev peers : LeaderState
peers = record { next_index = 3 ∷ 0 ∷ 3 ∷ []; match_index = 18446744073709551615 ∷ 0 ∷ 2 ∷ [] }

abbrev leading : Node
leading = record two_entries { env = record (two_entries.env) { leader_state = some peers } }

hb_request_in_log_example :
    (request : AppendRequest) × (hb_request 0 1 leading ≡ (ok request, leading))
    × Continues 0 0 leading request
hb_request_in_log_example =
    hb_request_in_log 0 1 0 leading peers refl refl (omega arith) (omega arith) (omega arith)

leading-Applied : Applied leading
leading-Applied = record { in_log = omega arith; sent = refl; word = omega arith }

hb_commit-Majority_example :
    (s' : Node) × (hb_commit leading ≡ (ok tt, s'))
    × Applied s'
    × ((s' ≡ leading)
        ⊎ ((0 < s'.env.commit_index)
            × Majority s'.env.commit_index peers.match_index
            × (s'.env.last_applied ≡ s'.env.commit_index)))
hb_commit-Majority_example =
    hb_commit-Majority leading peers refl (omega arith) (omega arith) leading-Applied (omega arith)

abbrev candidate : Node
candidate = record two_entries {
  env = record (two_entries.env) { p = record { current_term = 3; voted_for = some 0 } };
}

vote_request_granted_example :
    (request : VoteRequest) × (vote_request 0 candidate ≡ (ok request, candidate))
    × ((request_vote request two_entries).0 ≡ ok (record { term = 3; vote_granted = true }))
vote_request_granted_example =
    vote_request_granted 0 candidate two_entries second_entry (unfold back_of in refl) refl
      (omega arith) refl

-- Three nodes: node 1 votes for node 0 in term 3, which then wins.

abbrev three : ℕ → Node
three k = two_entries

abbrev asks_for_0 : VoteRequest
asks_for_0 = record { term = 3; candidate_id = 0; last_log_index = 2; last_log_term = 2 }

abbrev grant_in_3 : VoteResponse
grant_in_3 = record { term = 3; vote_granted = true }

abbrev at_start : Cluster
at_start k = record { node = three k; ballots = []; led = [] }

abbrev voted : Cluster
voted = happen 3 1 (asked asks_for_0) at_start

abbrev elected : Cluster
elected = happen 3 0 (stood 2 (grant_in_3 ∷ [])) voted

voted-Reach : Reach 3 three voted
voted-Reach = after start 1 (asked asks_for_0) (omega arith) tt tt

backed_by_1 : Voters 3 0 voted (grant_in_3 ∷ [])
unfolding happen member_after request_vote adopt_term decide_vote
backed_by_1 = record {
  voters = 1 ∷ [];
  others = ((λ e. omega arith, tt), (tt, tt));
  in_cluster = (omega arith, tt);
  honest = (λ e. Memᴰ.head refl, tt);
}

room : Room (stood 2 (grant_in_3 ∷ [])) (voted 0).node
unfolding happen
room = omega arith

elected-Reach : Reach 3 three elected
elected-Reach = after voted-Reach 0 (stood 2 (grant_in_3 ∷ [])) (omega arith) room backed_by_1

led_3 : Memᴰ 3 (elected 0).led
unfolding happen member_after try_become_leader already_leader next start_term conclude count_votes
led_3 = Memᴰ.head refl

one_leader_a_term_example : ◌≡◌ {A = ℕ} 0 0
one_leader_a_term_example =
    one_leader_a_term 3 three elected 0 0 3 elected-Reach (omega arith) (omega arith) led_3 led_3
