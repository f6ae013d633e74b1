-- ===== src/Raft/Db.antt =====
-- 2/server/db.go: the key-value store, and the loop that applies committed entries to it.
pub mod Laws
pub mod Replay
use tors_hw.Base.{
  ℕ, String, Bool, true, false, Option, none, some, List, [], ◌∷◌, ◌++◌, GoMap, empty_map, store,
  remove, Exec, Result, ok, err, fatal, continue, pure, ◌>>=◌, if◌then◌else◌, str_eq, eqb_ℤ,
}
use tors_hw.Raft.Log
use tors_hw.Raft.Log.{LogEntry}

pub record Db : Type 0 where
  pub contents : GoMap String

unfoldable pub new_db : Db
new_db = record { contents = empty_map }

-- The value, or "" and false.
unfoldable pub get : String → Db → String × Bool
get key db = elim (db.contents key) [ some val ↦ (val, true) | none ↦ ("", false) ]

unfoldable pub create : String → String → Exec Db Bool
create key value db = elim (db.contents key) [
  | some _ ↦ (ok false, db)
  | none ↦ (ok true, record { contents = store db.contents key value })
]

unfoldable pub update : String → String → Exec Db Bool
update key value db = elim (db.contents key) [
  | some _ ↦ (ok true, record { contents = store db.contents key value })
  | none ↦ (ok false, db)
]

unfoldable pub delete : String → Exec Db Bool
delete key db = elim (db.contents key) [
  | some _ ↦ (ok true, record { contents = remove db.contents key })
  | none ↦ (ok false, db)
]

unfoldable pub cas : String → String → String → Exec Db Bool
cas key prev_val new_val db = elim (db.contents key) [
  | some val ↦
      if str_eq val prev_val
      then (ok true, record { contents = store db.contents key new_val })
      else (ok false, db)
  | none ↦ (ok false, db)
]

-- The `switch` on the operation; its default is log.Fatalln.
unfoldable pub commit_entry : LogEntry → Exec Db Bool
unfolding create update delete cas
commit_entry entry db =
    if eqb_ℤ entry.op Log.create
    then create entry.key entry.value db
    else if eqb_ℤ entry.op Log.update
    then update entry.key entry.value db
    else if eqb_ℤ entry.op Log.delete
    then delete entry.key db
    else if eqb_ℤ entry.op Log.cas
    then cas entry.key entry.prev_value entry.value db
    else (err fatal, db)

-- What is sent on status channels: the channel and the status.
abbrev pub Sent : Type 0
Sent = List (ℕ × Bool)

unfoldable pub send_status : Option ℕ → Bool → Sent → Sent
send_status none status sent = sent
send_status (some channel) status sent = (channel, status) ∷ sent

-- `periodicUpdate` over the entries that it takes from the queue, in order.
unfoldable pub periodic_update : List LogEntry → Exec Db Sent
unfolding send_status
periodic_update [] = pure []
periodic_update (entry ∷ queue) = do
  status ← commit_entry entry
  sent ← periodic_update queue
  pure (send_status entry.status_chan status sent)
