-- ===== src/Raft/Log.antt =====
-- 2/server/log.go: the entries of the log, in memory.
use tors_hw.Base.{ℕ, ℤ, pos, String, Option, none}

-- The operations, `iota` from 0.
abbrev pub create : ℤ
create = pos 0

abbrev pub update : ℤ
update = pos 1

abbrev pub delete : ℤ
delete = pos 2

abbrev pub cas : ℤ
cas = pos 3

-- `status_chan` is the channel on which the waiting request is told the outcome, by a number.
pub record LogEntry : Type 0 where
  pub term : ℕ  -- uint64
  pub op : ℤ  -- int
  pub key : String
  pub prev_value : String
  pub value : String
  pub status_chan : Option ℕ

-- `LogEntry{Op: DELETE,}`, which stands at index 0.
abbrev pub sentinel : LogEntry
sentinel = record {
  term = 0;
  op = delete;
  key = "";
  prev_value = "";
  value = "";
  status_chan = none;
}
