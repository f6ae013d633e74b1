-- ===== src/Lww/Receive.antt =====
-- The broadcasts that a replica handles, one after the other: `HandleBroadcast` of
-- 3/server/server.go holds the storage's mutex for the whole write, so calls do not overlap.
pub mod Joins
pub mod Convergence
pub mod Latest
pub mod Redelivery
use tors_hw.Base.{
  ◌≡◌, ◌≢◌, String, Bool, true, false, Option, some, none, List, [], ◌∷◌, GoMap, Exec, ok, continue,
  All, if◌then◌else◌,
}
use tors_hw.Lww.Db.{TVal, TDb}
use tors_hw.Lww.Db.Join.{join_at, Fresh}
use tors_hw.Lww.Server.{BroadcastRequest, apply_request}

unfoldable pub receive : List BroadcastRequest → Exec TDb (Unit {0})
receive [] db = (ok tt, db)
receive (request ∷ later) db = continue (λ _. receive later) (apply_request request db)

-- What a request leaves in the storage, if it is the newest for its key.
unfoldable pub stored : BroadcastRequest → TVal
stored r =
    if r.val.deleted
    then record { val = ""; ts = r.val.ts; deleted = true }
    else record { val = r.val.val; ts = r.val.ts; deleted = false }

unfoldable pub join_all : List BroadcastRequest → GoMap TVal → GoMap TVal
join_all [] m = m
join_all (r ∷ rs) m = join_all rs (join_at m r.key (stored r))

-- Two requests for one key carry different timestamps.
abbrev pub NoClash : BroadcastRequest → BroadcastRequest → Type 0
NoClash a b = a.key ≡ b.key → a.val.ts ≢ b.val.ts

abbrev pub Distinct : List BroadcastRequest → Type 0
Distinct [] = Unit
Distinct (r ∷ rs) = All (NoClash r) rs × Distinct rs

-- No request repeats a timestamp that is stored at its key.
abbrev pub FreshIn : GoMap TVal → BroadcastRequest → Type 0
FreshIn m r = Fresh (m r.key) r.val.ts
