-- ===== src/Raft/Restart.antt =====
-- The start of a node from its files: `NewPState` of 2/server/state.go, `NewEnv` of
-- 2/server/env.go, and the part of `main` in 2/server/main.go that calls them and `NewLog`. The
-- parameters are encoding/json on log entries, as in Raft/Wal/Codec.
pub mod Steps
pub mod Survives
pub mod Anytime
use tors_hw.Base.{
  panic, drop, ℕ, Bool, true, false, Option, none, some, List, [], if◌then◌else◌, Exec, Result, ok,
  err, fatal, pure, raise, ◌>>=◌, get_state, put_state,
}
use tors_hw.Raft.Log.{LogEntry}
use tors_hw.Raft.Node.{Node, TEnv, Disk, Persisted, next_outcome}
use tors_hw.Raft.Wal.Codec.{
  Loaded, loaded, failed, panicked, out_of_fuel, LogFile, holds, new_log, file_of,
}

-- The zero value of the state.
abbrev pub zero_state : Persisted
zero_state = record { current_term = 0; voted_for = none }

-- How the file of the state is found: missing, not to be read, or with content that decodes or not.
pub data StateFile : Type 0 where
  missing : StateFile
  unreadable : StateFile
  holds_state : Option Persisted → StateFile

-- `NewPState`: a missing file is written with the zero value. `none` is an error; the flag says
-- whether the dump succeeds.
unfoldable pub new_p_state : Bool → StateFile → Option Persisted
new_p_state dumps missing = if dumps then some zero_state else none
new_p_state dumps unreadable = none
new_p_state dumps (holds_state o) = o

abbrev pub state_file : Option Persisted → StateFile
state_file none = missing
state_file (some p) = holds_state (some p)

-- The disk after `NewPState`.
abbrev pub state_disk : Option Persisted → Disk → Disk
state_disk (some p) disk = disk
state_disk none disk =
    let (fine, later) = next_outcome disk.outcomes in
    record disk { pstate = if fine then some zero_state else none; outcomes = later }

-- `NewEnv`
abbrev pub new_env : Persisted → List LogEntry → TEnv
new_env p l = record {
  p = p;
  l = l;
  commit_index = 0;
  last_applied = 0;
  leader_state = none;
  leader_id = none;
  commit_queue = [];
  alert = false;
}

abbrev pub booted : Disk → Persisted → List LogEntry → Node
booted disk p l = record { env = new_env p l; is_leader = false; got_hb = false; disk = disk }

module _ (marshal : LogEntry → List ℕ) (unmarshal : List ℕ → Option LogEntry) where
  -- Errors end the process.
  unfoldable pub boot_log : Disk → Persisted → Loaded → Option Node
  boot_log disk p (loaded entries cut) = some (booted disk p entries)
  boot_log disk p (failed e) = none
  boot_log disk p panicked = none
  boot_log disk p out_of_fuel = none

  unfoldable pub boot_with : Disk → Option Persisted → Option Node
  boot_with disk none = none
  boot_with disk (some p) = boot_log disk p (new_log unmarshal (holds (file_of marshal disk.log)))

  -- The node that starts again from the files that it left, if it does: the file of the log is there,
  -- and holds its entries whole, and the file of the state, where it is there, decodes. A start from
  -- files of any content is `open_files`.
  unfoldable pub boot : Disk → Option Node
  boot disk =
      boot_with (state_disk disk.pstate disk)
        (new_p_state (next_outcome disk.outcomes).0 (state_file disk.pstate))

-- How the two files of a node are found at its start: each there or missing, readable or not, of any
-- content. The flag says whether the dump of a missing state succeeds; `outcomes` is what later file
-- operations give.
pub record Files : Type 0 where
  pub state : StateFile
  pub state_dumps : Bool
  pub log : LogFile
  pub outcomes : List Bool

-- The disk of a node that has opened its files: the state, and the entries that were read whole. Bytes
-- of a torn entry, which stay in the file since `Truncate` fails on it, are not in it.
abbrev pub opened_disk : Files → Persisted → List LogEntry → Disk
opened_disk files p entries = record {
  pstate = some p;
  log = drop 1 entries;
  outcomes = files.outcomes;
}

unfoldable pub open_log : Files → Persisted → Loaded → Result Node
open_log files p (loaded entries cut) = ok (booted (opened_disk files p entries) p entries)
open_log files p (failed e) = err fatal
open_log files p panicked = err panic
open_log files p out_of_fuel = err fatal

module _ (unmarshal : List ℕ → Option LogEntry) where
  unfoldable pub open_state : Files → Option Persisted → Result Node
  open_state files none = err fatal
  open_state files (some p) = open_log files p (new_log unmarshal files.log)

  -- The part of `main` that opens the files: an error ends the process by log.Fatal, a panic ends it
  -- by itself.
  unfoldable pub open_files : Files → Result Node
  unfolding open_state
  open_files files = open_state files (new_p_state files.state_dumps files.state)
