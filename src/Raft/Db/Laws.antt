-- ===== src/Raft/Db/Laws.antt =====
-- What `CommitEntry` of 2/server/db.go does to the store, against a description by cases.
use tors_hw.Base.{
  ◌≡◌, ◌⊎◌, String, Bool, true, false, Option, none, some, ok, arith, eq_iff, str_eq, eqb_ℤ,
  if◌then◌else◌,
}
use tors_hw.Raft.Log
use tors_hw.Raft.Log.{LogEntry}
use tors_hw.Raft.Db.{Db, commit_entry}

-- One of the four operations.
abbrev pub Known : LogEntry → Type 0
Known e = (e.op ≡ Log.create) ⊎ ((e.op ≡ Log.update) ⊎ ((e.op ≡ Log.delete) ⊎ (e.op ≡ Log.cas)))

-- Whether an entry takes effect on a key that has this value.
abbrev pub applies : LogEntry → Option String → Bool
applies e none = eqb_ℤ e.op Log.create
applies e (some val) =
    if eqb_ℤ e.op Log.create
    then false
    else if eqb_ℤ e.op Log.cas
    then str_eq val e.prev_value
    else true

-- What it then leaves at the key.
abbrev pub leaves : LogEntry → Option String
leaves e = if eqb_ℤ e.op Log.delete then none else some e.value

-- A known operation succeeds exactly when it applies to the value at its key; it then leaves its
-- own value there, or none for a deletion, and every other key as it was. Else nothing changes.
pub commit_entry_contract :
    (e : LogEntry) (db : Db) (j : String)
    → Known e
    → let (result, db') = commit_entry e db in
      (result ≡ ok (applies e (db.contents e.key)))
      × (db'.contents j ≡ (
          if str_eq e.key j
          then (if applies e (db.contents e.key) then leaves e else db.contents j)
          else db.contents j))
unfolding commit_entry
commit_entry_contract e db j known = ground (arith, eq_iff e.key j)
