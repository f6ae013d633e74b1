-- ===== src/Raft/Tests.antt =====
-- Runs of the nodes of 2/server on concrete input.
use tors_hw.Base.{
  ℕ, ◌<◌, ◌≤◌, ◌≡◌, ◌/◌, inl, refl, String, false, some, none, List, [], ◌∷◌, ok, err, panic, arith,
  if◌then◌else◌, leb, str_eq,
}
use tors_hw.Raft.Log
use tors_hw.Raft.Log.{LogEntry, sentinel}
use tors_hw.Raft.Node.{Node}
use tors_hw.Raft.Db.{new_db, commit_entry}
use tors_hw.Raft.Db.Laws.{applies, leaves, commit_entry_contract}
use tors_hw.Raft.CommitIndex.{calc_commit_index}
use tors_hw.Raft.CommitIndex.Sorting.{count_ge}
use tors_hw.Raft.CommitIndex.Majority.{calc_commit_index_majority}
use tors_hw.Raft.Commit.{commit_changes, max_idx}
use tors_hw.Raft.Commit.Exact.{commit_changes_exact, target, reached, committed}
use tors_hw.Raft.Commit.Prefix.{Applied, commit_changes-Applied}

abbrev pub entry_of : ℕ → String → LogEntry
entry_of term key = record {
  term = term;
  op = Log.create;
  key = key;
  prev_value = "";
  value = "1";
  status_chan = none;
}

abbrev pub first_entry : LogEntry
first_entry = entry_of 1 "a"

abbrev pub second_entry : LogEntry
second_entry = entry_of 2 "b"

-- A node with these entries behind the sentinel, in term 2, the first `applied` of them sent.
abbrev pub node_with : List LogEntry → Node
node_with entries = record {
  env = record {
    p = record { current_term = 2; voted_for = none };
    l = sentinel ∷ entries;
    commit_index = 0;
    last_applied = 0;
    leader_state = none;
    leader_id = none;
    commit_queue = [];
    alert = false;
  };
  is_leader = false;
  got_hb = false;
  disk = record { pstate = none; log = entries; outcomes = [] };
}

abbrev pub two_entries : Node
two_entries = node_with (first_entry ∷ second_entry ∷ [])

abbrev pub one_entry : Node
one_entry = node_with (first_entry ∷ [])

-- The store.

abbrev create_a : LogEntry
create_a = record first_entry { status_chan = some 7 }

commit_entry_contract_example :
    ((commit_entry create_a new_db).0 ≡ ok (applies create_a (new_db.contents "a")))
    × ((commit_entry create_a new_db).1.contents "a" ≡ (
        if str_eq "a" "a"
        then (if applies create_a (new_db.contents "a")
            then leaves create_a
            else new_db.contents "a")
        else new_db.contents "a"))
commit_entry_contract_example = commit_entry_contract create_a new_db "a" (inl refl)

-- The commit index.

calc_commit_index_majority_example :
    (m : ℕ) × (calc_commit_index (4 ∷ 9 ∷ 6 ∷ []) ≡ ok m)
    × (3 / 2 < count_ge m (4 ∷ 9 ∷ 6 ∷ []))
    × ((k : ℕ) → 3 / 2 < count_ge k (4 ∷ 9 ∷ 6 ∷ []) → k ≤ m)
calc_commit_index_majority_example = calc_commit_index_majority (4 ∷ 9 ∷ 6 ∷ []) (omega arith)

two_entries-Applied : Applied two_entries
two_entries-Applied = record { in_log = omega arith; sent = refl; word = omega arith }

commit_changes-two : commit_changes 2 two_entries ≡ (ok tt, committed 2 two_entries)
unfolding commit_changes max_idx
commit_changes-two = refl

commit_changes-Applied_example :
    Applied (committed 2 two_entries)
    × (0 ≤ (committed 2 two_entries).env.last_applied)
    × ((committed 2 two_entries).env.l ≡ two_entries.env.l)
    × ((committed 2 two_entries).env.commit_index ≡ target 2 two_entries)
commit_changes-Applied_example =
    commit_changes-Applied 2 two_entries (committed 2 two_entries) two_entries-Applied (omega arith)
      commit_changes-two

commit_changes_exact_example : commit_changes 8 two_entries ≡ (
    if leb 0 (reached 8 two_entries)
    then (ok tt, committed 8 two_entries)
    else (err panic, two_entries))
commit_changes_exact_example =
    commit_changes_exact 8 two_entries (omega arith) (omega arith) (omega arith) (omega arith)
