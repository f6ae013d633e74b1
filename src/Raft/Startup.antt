-- ===== src/Raft/Startup.antt =====
-- The start of a node of 2/server from concrete files.
use tors_hw.Base.{
  ◌⊎◌, Bool, false, ℕ, ◌≡◌, refl, sym, subst, All, drop, ◌++◌, Option, none, some, List, [], ◌∷◌,
  map, length, take, arith, if◌then◌else◌, ◌==◌,
}
use tors_hw.Raft.Log.{LogEntry, sentinel}
use tors_hw.Raft.Node.{Node}
use tors_hw.Raft.Wal.{write_entries, on_disk, check_and_correct, append, append_entries}
use tors_hw.Raft.Wal.Codec.{
  LogFile, loaded, failed, panicked, missing, eof, holds, new_log, file_of, serialize_entry,
}
use tors_hw.Raft.Wal.Codec.RoundTrip.{Encodes, new_log_reads}
use tors_hw.Raft.Wal.Codec.Ends.{Returns, new_log-Returns}
use tors_hw.Raft.Wal.Codec.Torn.{new_log_torn}
use tors_hw.Raft.Vote.{VoteRequest, request_vote, adopt_term, decide_vote}
use tors_hw.Raft.Append.{AppendRequest, append_request, follow, after_check, take_entries, respond}
use tors_hw.Raft.Commit.{commit_changes}
use tors_hw.Raft.Ballot.{asked, told, next}
use tors_hw.Raft.Restart.Anytime.{after_events, restart_anytime}
use tors_hw.Raft.Wal.Stored.{Stored}
use tors_hw.Raft.Restart.{boot, booted}
use tors_hw.Raft.Restart.Survives.{boot-Durable}
use tors_hw.Raft.Tests.{first_entry, second_entry, two_entries}

-- An encoding of the two entries, by their terms.
abbrev code_term : LogEntry → List ℕ
code_term e = 123 ∷ e.term ∷ 125 ∷ []

abbrev entry_of_term : ℕ → Option LogEntry
entry_of_term term =
    if term == 1 then some first_entry else if term == 2 then some second_entry else none

abbrev from_code : List ℕ → Option LogEntry
from_code (brace ∷ term ∷ rest) = entry_of_term term
from_code other = none

first-Encodes : Encodes code_term from_code first_entry
first-Encodes = record { some_bytes = omega arith; fits = omega arith; decodes = refl }

second-Encodes : Encodes code_term from_code second_entry
second-Encodes = record { some_bytes = omega arith; fits = omega arith; decodes = refl }

new_log_reads_example :
    new_log from_code (holds (file_of code_term (first_entry ∷ second_entry ∷ [])))
    ≡ loaded (sentinel ∷ first_entry ∷ second_entry ∷ []) none
new_log_reads_example =
    new_log_reads code_term from_code (first_entry ∷ second_entry ∷ [])
      (first-Encodes, (second-Encodes, tt))

abbrev torn_body : LogFile
torn_body = holds (3 ∷ 0 ∷ 0 ∷ 0 ∷ 123 ∷ 1 ∷ [])

new_log-Returns_example :
    Returns (new_log from_code torn_body)
    ⊎ ((renamed : Bool) × (torn_body ≡ missing false renamed)
        × (new_log from_code torn_body ≡ panicked))
new_log-Returns_example = new_log-Returns from_code torn_body

-- The header of the second entry, and nothing of its body.
new_log_torn_example :
    new_log from_code (
      holds
        (file_of code_term (first_entry ∷ []) ++ take 4 (serialize_entry code_term second_entry)))
    ≡ (if 4 == 4
        then failed eof
        else loaded
            (sentinel ∷ first_entry ∷ [])
            (some (length (file_of code_term (first_entry ∷ [])))))
unfolding serialize_entry
new_log_torn_example =
    new_log_torn code_term from_code (first_entry ∷ []) second_entry 4 (first-Encodes, tt)
      second-Encodes (omega arith) (omega arith)

abbrev stored : Node
stored = record two_entries { disk = record (two_entries.disk) { pstate = some two_entries.env.p } }

boot-Durable_example :
    boot code_term from_code stored.disk
    ≡ some (booted stored.disk stored.env.p (map on_disk stored.env.l))
boot-Durable_example =
    boot-Durable code_term from_code stored (first_entry ∷ second_entry ∷ []) refl refl refl
      (first-Encodes, (second-Encodes, tt))

abbrev asks_3 : VoteRequest
asks_3 = record { term = 3; candidate_id = 1; last_log_index = 2; last_log_term = 2 }

-- A vote, and a heartbeat that cuts the log and writes the second entry again.

abbrev beat : AppendRequest
beat = record {
  term = 3;
  leader_id = 1;
  prev_log_index = 1;
  prev_log_term = 1;
  entries = second_entry ∷ [];
  leader_commit = 0;
}

abbrev after_beat : Node
after_beat = after_events 0 3 (asked asks_3 ∷ told beat ∷ []) stored

stored-Stored : Stored stored
stored-Stored = record { begins = refl; durable = refl; state = refl; fine = refl }

log_after_beat : map on_disk (drop 1 after_beat.env.l) ≡ first_entry ∷ second_entry ∷ []
unfolding next request_vote adopt_term decide_vote append_request follow check_and_correct
    after_check take_entries append_entries append commit_changes respond write_entries
log_after_beat = refl

restart_anytime_example :
    boot code_term from_code after_beat.disk
    ≡ some (booted after_beat.disk after_beat.env.p (map on_disk after_beat.env.l))
restart_anytime_example =
    restart_anytime code_term from_code 0 3 (asked asks_3 ∷ told beat ∷ []) stored stored-Stored
      (tt, ((omega arith, λ e. omega (arith, e)), tt))
      (subst (All (Encodes code_term from_code)) (sym log_after_beat)
        (first-Encodes, (second-Encodes, tt)))
