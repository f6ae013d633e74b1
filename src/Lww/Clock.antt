-- ===== src/Lww/Clock.antt =====
-- 3/server/clock.go: timestamps, their order, and the clock of a node.
pub mod Order
use tors_hw.Base.{ℕ, ℤ, pos, negsuc, Bool, not, if◌then◌else◌, ltb, ◌==◌, ltb_ℤ, eqb_ℤ, add_u64}

pub record TTimestamp : Type 0 where
  pub time : ℕ  -- uint64
  pub id : ℤ  -- int

pub record TClock : Type 0 where
  pub ts : TTimestamp

unfoldable pub new_clock : ℤ → TClock
new_clock id = record { ts = record { time = 0; id = id } }

-- `Compare`: negative, zero or positive.
unfoldable pub compare : TTimestamp → TTimestamp → ℤ
compare a b =
    if not (a.time == b.time)
    then (if ltb a.time b.time then negsuc 0 else pos 1)
    else if ltb_ℤ a.id b.id
    then negsuc 0
    else if eqb_ℤ a.id b.id
    then pos 0
    else pos 1

-- The function literal `newTs` of the handlers: the clock moves on by one, and is read.
unfoldable pub new_ts : TClock → TClock × TTimestamp
new_ts clock =
    let ts = record (clock.ts) { time = add_u64 clock.ts.time 1 } in (record { ts = ts }, ts)
