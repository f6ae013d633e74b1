-- ===== src/Raft/Wal.antt =====
-- 2/server/log.go: the operations on a node's log, in memory and on the disk.
pub mod Codec
pub mod Slices
pub mod Effects
pub mod Flags
pub mod Stored
pub mod Checks
use tors_hw.Base.{
  ℕ, zero, suc, ◌+◌, ◌-◌, ℤ, pos, negsuc, ltb_ℤ, Bool, true, false, not, ◌&&◌, ◌==◌, Option, none,
  some, List, [], ◌∷◌, ◌++◌, map, Exec, Result, ok, err, Fault, fatal, panic, pure, raise,
  get_state, put_state, ◌>>=◌, ◌>>◌, if◌then◌else◌, ltb, leb, add_u64, u64_mod, length, take, drop,
  get_elem?,
}
use tors_hw.Raft.Log.{LogEntry, sentinel}
use tors_hw.Raft.Node.{Node, TEnv, Disk, next_outcome}

-- `s[lo:hi]` of Go, with a fault when a bound is out of order or `hi` is past the length. (Go lets
-- `hi` go up to the capacity, and would read what stands there.)
unfoldable pub slice {ℓ} : {A : Type ℓ} → ℕ → ℕ → List A → Option (List A)
slice lo hi xs =
    if leb lo hi && leb hi (length xs) then some (take (hi - lo) (drop lo xs)) else none

-- `int(x)` of a uint64: past the largest int64 it is negative.
abbrev pub to_int : ℕ → ℤ
to_int x = if ltb x 9223372036854775808 then pos x else negsuc (u64_mod - 1 - x)

-- `len(xs) - 1` as an int, and as a uint64.
abbrev pub last_int : ℕ → ℤ
last_int zero = negsuc 0
last_int (suc n) = pos n

abbrev pub last_u64 : ℕ → ℕ
last_u64 zero = u64_mod - 1
last_u64 (suc n) = n

-- An entry as it is written: the channel has no place in the file.
abbrev pub on_disk : LogEntry → LogEntry
on_disk e = record e { status_chan = none }

abbrev pub put_entries : List LogEntry → Node → Node
put_entries l s = record s { env = record (s.env) { l = l } }

or_panic {ℓ} : {S A : Type ℓ} → Option A → Exec S A
or_panic (some a) = pure a
or_panic none = raise panic

-- `Append`: log.Fatal if the file cannot be opened or written.
unfoldable pub append : LogEntry → Exec Node (Unit {0})
append entry s =
    let (fine, later) = next_outcome s.disk.outcomes in
    if fine
    then (
      ok tt,
      record s {
        env = record (s.env) { l = s.env.l ++ entry ∷ [] };
        disk = record (s.disk) { log = s.disk.log ++ on_disk entry ∷ []; outcomes = later };
      },
    )
    else (err fatal, record s { disk = record (s.disk) { outcomes = later } })

-- `AppendEntries`
unfoldable pub append_entries : List LogEntry → Exec Node (Unit {0})
append_entries [] = pure tt
append_entries (entry ∷ later) = do append entry; append_entries later

unfoldable pub back_of : List LogEntry → Option LogEntry
back_of [] = none
back_of (e ∷ []) = some e
back_of (e ∷ more ∷ later) = back_of (more ∷ later)

-- `Back`: the last entry; an empty log panics.
unfoldable pub back : Exec Node LogEntry
unfolding back_of or_panic
back s = or_panic (back_of s.env.l) s

-- The writes of `DumpLog`, whose errors the code drops. Of an entry whose write fails nothing is in
-- the file here.
unfoldable pub write_entries : List LogEntry → List Bool → List LogEntry × List Bool
write_entries [] outcomes = ([], outcomes)
write_entries (entry ∷ more) outcomes =
    let (fine, later) = next_outcome outcomes in
    let (written, rest) = write_entries more later in
    (if fine then on_disk entry ∷ written else written, rest)

-- `os.Rename`: `false` is its error, which leaves the old file.
rename : List LogEntry → Exec Node Bool
rename written s =
    let (fine, later) = next_outcome s.disk.outcomes in
    (
      ok fine,
      record s {
        disk = record (s.disk) { log = if fine then written else s.disk.log; outcomes = later };
      },
    )

-- Everything but the first entry is written to a new file, which replaces the old; an empty log
-- panics on the slice.
dump_tail : List LogEntry → Exec Node Bool
unfolding rename
dump_tail [] s = (err panic, s)
dump_tail (e ∷ rest) s =
    let (written, later) = write_entries rest s.disk.outcomes in
    rename written (record s { disk = record (s.disk) { outcomes = later } })

-- `DumpLog`. Where `os.CreateTemp` fails it gives no file, and `file.Name()` panics before the error is
-- looked at.
unfoldable pub dump_log : Exec Node Bool
unfolding dump_tail
dump_log s =
    let (fine, later) = next_outcome s.disk.outcomes in
    let created = record s { disk = record (s.disk) { outcomes = later } } in
    if fine then dump_tail s.env.l created else (err panic, created)

-- The body of `CheckAndCorrect`: its result, the entries and the flag `changed` when it ends.
pub record Checked : Type 0 where
  pub result : Result Bool
  pub entries : List LogEntry
  pub changed : Bool

-- The test of the term at `index`, which cuts the log there.
unfoldable pub check_term : Option LogEntry → ℕ → ℕ → List LogEntry → Bool → Checked
check_term none index term entries changed = record {
  result = err panic;
  entries = entries;
  changed = changed;
}
check_term (some e) index term entries changed =
    if not (e.term == term)
    then record { result = ok false; entries = take index entries; changed = true }
    else record { result = ok true; entries = entries; changed = changed }

-- The cut after `index`.
unfoldable pub check_cut : Option (List LogEntry) → ℕ → ℕ → List LogEntry → Checked
unfolding check_term
check_cut none index term entries = record { result = err panic; entries = entries; changed = true }
check_cut (some shorter) index term entries =
    check_term (get_elem? shorter index) index term shorter true

unfoldable pub check_body : ℕ → ℕ → List LogEntry → Checked
unfolding check_cut slice
check_body index term entries =
    if not (ltb_ℤ (to_int index) (pos (length entries)))
    then record { result = ok false; entries = entries; changed = false }
    else if ltb_ℤ (to_int index) (last_int (length entries))
    then check_cut (slice 0 (add_u64 index 1) entries) index term entries
    else check_term (get_elem? entries index) index term entries false

-- The deferred dump: it runs whether the body returned or panicked, and log.Fatal ends the process
-- if it fails; a panic of the dump goes on.
unfoldable pub after_dump : Result Bool → Bool → Exec Node Bool
after_dump result true s = (result, s)
after_dump result false s = (err fatal, s)

unfoldable pub finish_check : Checked → Exec Node Bool
unfolding dump_log after_dump
finish_check checked s =
    let s' = put_entries checked.entries s in
    if checked.changed then (dump_log >>= after_dump checked.result) s' else (checked.result, s')

-- `CheckAndCorrect`
unfoldable pub check_and_correct : ℕ → ℕ → Exec Node Bool
unfolding check_body finish_check
check_and_correct prev_log_index prev_log_term s =
    finish_check (check_body prev_log_index prev_log_term s.env.l) s
