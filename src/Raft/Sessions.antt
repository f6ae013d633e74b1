-- ===== src/Raft/Sessions.antt =====
-- Messages, timers and the start of a node of 2/server on concrete input.
use tors_hw.Base.{
  ℕ, ◌≡◌, refl, ℤ, pos, negsuc, String, Bool, true, false, Option, none, some, List, [], ◌∷◌, ok,
  arith, trim_prefix, trim_prefix-append,
}
use tors_hw.Raft.Log.{LogEntry}
use tors_hw.Raft.Wal.Codec.{missing as missing_log}
use tors_hw.Raft.Restart.{Files, missing}
use tors_hw.Raft.Config.{NodeConfig, AppConfig, internal_uri}
use tors_hw.Raft.Vote.{VoteRequest, VoteResponse}
use tors_hw.Raft.Append.{AppendRequest, AppendResponse}
use tors_hw.Raft.Heartbeat.Replication.{on_wire}
use tors_hw.Raft.Election.{try_become_leader}
use tors_hw.Raft.Broadcast.Idle.{cleared}
use tors_hw.Raft.Internal.{Json}
use tors_hw.Raft.Internal.Travel.{Laws, BeatTravels, beat_travels}
use tors_hw.Raft.Timers.{periodic_check_hb}
use tors_hw.Raft.Timers.Silence.{turn, silence_elects}
use tors_hw.Raft.Launch.{Flags}
use tors_hw.Raft.Tests.{one_entry}
use tors_hw.Raft.Copying.{
  first_sent, commits_first, commits_first_built, copied, commits_first_taken,
}

-- Bodies that keep what was put in.
data Wire : Type 0 where
  blank : Wire
  vote_asked : VoteRequest → Wire
  vote_given : VoteResponse → Wire
  append_asked : AppendRequest → Wire
  append_given : AppendResponse → Wire

abbrev as_vote_request : Wire → Option VoteRequest
as_vote_request (vote_asked r) = some r
as_vote_request other = none

abbrev as_vote_response : Wire → Option VoteResponse
as_vote_response (vote_given r) = some r
as_vote_response other = none

abbrev as_append_request : Wire → Option AppendRequest
as_append_request (append_asked r) = some r
as_append_request other = none

abbrev as_append_response : Wire → Option AppendResponse
as_append_response (append_given r) = some r
as_append_response other = none

abbrev wire_json : Json Wire
wire_json = record {
  empty = blank;
  of_vote_request = vote_asked;
  to_vote_request = as_vote_request;
  of_vote_response = vote_given;
  to_vote_response = as_vote_response;
  of_append_request = λ r. append_asked (on_wire r);
  to_append_request = as_append_request;
  of_append_response = append_given;
  to_append_response = as_append_response;
}

abbrev always_80 : ℤ → String
always_80 i = "80"

abbrev any_url : String → Bool
any_url url = true

abbrev node_a : NodeConfig
node_a = record { host = "a"; internal_port = pos 80; external_port = pos 81 }

abbrev path_at_a : String → String
path_at_a url = trim_prefix url (internal_uri always_80 node_a)

laws_for_node_a : Laws wire_json path_at_a always_80 any_url node_a
laws_for_node_a = record {
  vote_requests = λ r. refl;
  vote_responses = λ r. refl;
  append_requests = λ r. refl;
  append_responses = λ r. refl;
  vote_path = trim_prefix-append (internal_uri always_80 node_a) "/request_vote";
  append_path = trim_prefix-append (internal_uri always_80 node_a) "/append_entries";
  vote_url = refl;
  append_url = refl;
}

beat_travels_example :
    BeatTravels wire_json path_at_a always_80 any_url node_a laws_for_node_a 0 1 first_sent
      one_entry
      (record { term = 2; success = true })
      copied
beat_travels_example =
    beat_travels wire_json path_at_a always_80 any_url node_a laws_for_node_a 0 1 first_sent
      one_entry copied commits_first (record { term = 2; success = true }) commits_first_built
      commits_first_taken

abbrev some_times : AppConfig
some_times = record {
  hb_timeout = pos 300;
  random_shift = pos 100;
  vote_request_timeout_ms = pos 100;
  append_entries_timeout_ms = pos 100;
  hb_interval_ms = pos 50;
}

silence_elects_example :
    (periodic_check_hb some_times 1 2 (turn some_times 1 2 7 0 [] ∷ []) copied
      ≡ (ok tt, cleared copied))
    × (periodic_check_hb some_times 1 2
          (turn some_times 1 2 7 0 [] ∷ turn some_times 1 2 9 1 [] ∷ [])
          copied
        ≡ try_become_leader 1 2 1 [] (cleared copied))
silence_elects_example =
    silence_elects some_times 1 2 (on_wire commits_first) one_entry 7 0 9 1 [] [] (omega arith) refl

abbrev any_file : String → Option (List ℕ)
any_file name = some []

abbrev nodes_of : List ℕ → Option (List NodeConfig)
nodes_of bytes = some (node_a ∷ [])

abbrev times_of : List ℕ → Option AppConfig
times_of bytes = some some_times

abbrev no_entry : List ℕ → Option LogEntry
no_entry bytes = none

-- The index lies past the nodes.
abbrev minus_two : Flags
minus_two = record { node_id = negsuc 1; workdir = "w"; nodes_config = "n"; app_config = "a" }

-- No file is there, and none can be created for the log.
abbrev no_files : Files
no_files = record {
  state = missing;
  state_dumps = true;
  log = missing_log false true;
  outcomes = [];
}
