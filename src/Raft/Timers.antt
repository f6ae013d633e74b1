-- ===== src/Raft/Timers.antt =====
-- The loops of 2/server/raft.go that `NewRaftServer` starts: `periodicCheckHb` with `calcDeadline`,
-- and `periodicLeaderHB`. A loop is run over what its `select` finds, one after the other; past the
-- list's end it waits.
pub mod Flags
pub mod Silence
use tors_hw.Base.{
  ℕ, zero, suc, ◌+◌, ◌*◌, ◌-◌, ◌%◌, ℤ, pos, negsuc, Bool, true, false, Option, none, some, List, [],
  ◌∷◌, Exec, Result, ok, err, panic, pure, raise, ◌>>=◌, ◌>>◌, if◌then◌else◌, ltb_ℤ, u64_mod,
}
use tors_hw.Raft.Node.{Node}
use tors_hw.Raft.Vote.{VoteResponse}
use tors_hw.Raft.Config.{AppConfig}
use tors_hw.Raft.Launch.{to_uint64}
use tors_hw.Raft.Broadcast.{Answer, leader_hb_broadcast, alerted, check_hb}

-- The bits of `calcDeadline`, in nanoseconds, for a draw of `rand.Intn`, which panics unless the shift
-- is positive.
unfoldable pub calc_deadline : ℤ → ℤ → ℕ → Result ℕ
calc_deadline duration_ms random_shift_ms draw =
    if ltb_ℤ (pos 0) random_shift_ms
    then ok ((to_uint64 duration_ms + draw) * 1000000 % u64_mod)
    else err panic

-- How a turn of `periodicCheckHb` ends: the timer runs out, with the votes that then come, or the
-- context is done.
pub data Wake : Type 0 where
  expired : ℕ → List VoteResponse → Wake
  cancelled : Wake

-- A turn: the draw of its deadline, and its end.
pub record Turn : Type 0 where
  pub draw : ℕ
  pub wake : Wake

set_timer : AppConfig → ℕ → Exec Node ℕ
set_timer app draw s = (calc_deadline app.hb_timeout app.random_shift draw, s)

unfoldable pub periodic_check_hb : AppConfig → ℕ → ℕ → List Turn → Exec Node (Unit {0})
unfolding set_timer
periodic_check_hb app node_id num_nodes [] = pure tt
periodic_check_hb app node_id num_nodes (turn ∷ later) = do
  _ ← set_timer app turn.draw
  elim turn.wake [
    | expired taken arrivals ↦ do
      check_hb node_id num_nodes taken arrivals
      periodic_check_hb app node_id num_nodes later
    | cancelled ↦ pure tt
  ]

-- What wakes `periodicLeaderHB`, with the answers to the heartbeats that it then sends, before and
-- after the commit.
pub data Beat : Type 0 where
  tick : List Answer → List Answer → Beat
  new_entries : List Answer → List Answer → Beat
  finished : Beat

leader_turns : List Beat → Exec Node (Unit {0})
leader_turns [] = pure tt
leader_turns (tick before after ∷ later) = do
  leads ← leader_hb_broadcast before after
  leader_turns later
leader_turns (new_entries before after ∷ later) = do alerted before after; leader_turns later
leader_turns (finished ∷ later) = pure tt

-- `periodicLeaderHB`; `time.NewTicker` panics unless its period is positive.
unfoldable pub periodic_leader_hb : AppConfig → List Beat → Exec Node (Unit {0})
unfolding leader_turns
periodic_leader_hb app beats =
    if ltb_ℤ (pos 0) app.hb_interval_ms then leader_turns beats else raise panic
