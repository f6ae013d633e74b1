-- ===== src/Lww/Db.antt =====
-- 3/server/db.go: the storage of one replica.
pub mod Join
use tors_hw.Base.{
  ℤ, pos, String, Bool, true, false, not, Option, none, some, GoMap, empty_map, store, Exec, Result,
  ok, err, fatal, if◌then◌else◌, ltb_ℤ, eqb_ℤ,
}
use tors_hw.Lww.Clock.{TTimestamp, compare}

pub record TVal : Type 0 where
  pub val : String
  pub ts : TTimestamp
  pub deleted : Bool

pub record TDb : Type 0 where
  pub storage : GoMap TVal

unfoldable pub new_db : TDb
new_db = record { storage = empty_map }

-- The two branches of `Put` and of `Delete`, for a key that is absent and one that is stored;
-- log.Fatal on equal timestamps.
unfoldable pub write_over : Option TVal → String → TVal → Exec TDb (Unit {0})
write_over none key new db = (ok tt, record { storage = store db.storage key new })
write_over (some old) key new db =
    let cmp = compare old.ts new.ts in
    if eqb_ℤ cmp (pos 0)
    then (err fatal, db)
    else if ltb_ℤ cmp (pos 0)
    then (ok tt, record { storage = store db.storage key new })
    else (ok tt, db)

unfoldable pub put : String → String → TTimestamp → Exec TDb (Unit {0})
unfolding write_over
put key value ts db =
    write_over (db.storage key) key (record { val = value; ts = ts; deleted = false }) db

unfoldable pub delete : String → TTimestamp → Exec TDb (Unit {0})
unfolding write_over
delete key ts db = write_over (db.storage key) key (record { val = ""; ts = ts; deleted = true }) db

unfoldable pub answer : Option TVal → String × Bool
answer none = ("", false)
answer (some entry) = (entry.val, not entry.deleted)

-- The value, and whether the key is there.
unfoldable pub get : String → TDb → String × Bool
unfolding answer
get key db = answer (db.storage key)
