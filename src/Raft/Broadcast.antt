-- ===== src/Raft/Broadcast.antt =====
-- `leaderHBBroadcast` of 2/server/raft.go, and what `periodicLeaderHB` and `periodicCheckHb` do when
-- their timers or the alert wake them. The goroutines of a broadcast end in an order that the network
-- chooses; the commit stands somewhere in it.
pub mod Effects
pub mod Targets
pub mod Order
pub mod Idle
use tors_hw.Base.{
  ℕ, zero, suc, Bool, true, false, Option, List, [], ◌∷◌, ◌++◌, Exec, Result, ok, err, pure,
  get_state, put_state, ◌>>=◌, ◌>>◌, if◌then◌else◌, ◌==◌,
}
use tors_hw.Raft.Node.{Node, TEnv}
use tors_hw.Raft.Vote.{VoteResponse}
use tors_hw.Raft.Append.{AppendResponse}
use tors_hw.Raft.Election.{try_become_leader}
use tors_hw.Raft.Heartbeat.{hb_outcome, hb_commit}

-- How the heartbeat to a follower ends.
pub record Answer : Type 0 where
  pub follower : ℕ
  pub outcome : Option AppendResponse

-- The ends of heartbeats, one after the other.
unfoldable pub hear : List Answer → Exec Node (Unit {0})
hear [] = pure tt
hear (answer ∷ later) = do hb_outcome answer.follower answer.outcome; hear later

-- The indexes of the other nodes, from `i` on: a heartbeat goes to each.
targets_from : ℕ → ℕ → ℕ → List ℕ
targets_from node_id i zero = []
targets_from node_id i (suc n) =
    let later = targets_from node_id (suc i) n in if i == node_id then later else i ∷ later

unfoldable pub targets : ℕ → ℕ → List ℕ
unfolding targets_from
targets node_id num_nodes = targets_from node_id 0 num_nodes

-- `leaderHBBroadcast`, with the ends before the commit and those after it.
unfoldable pub leader_hb_broadcast : List Answer → List Answer → Exec Node Bool
leader_hb_broadcast before later = do
  s ← get_state
  if s.is_leader then (do hear before; hb_commit; hear later; pure true) else pure false

-- The alert of `periodicLeaderHB`: the token is taken, and a leader sends heartbeats.
unfoldable pub alerted : List Answer → List Answer → Exec Node (Unit {0})
alerted before later = do
  s ← get_state
  put_state (record s { env = record (s.env) { alert = false } })
  if s.is_leader then (do leads ← leader_hb_broadcast before later; pure tt) else pure tt

-- The timer of `periodicCheckHb`: `Swap` reads the flag and clears it; a leader does not come to it.
unfoldable pub check_hb : ℕ → ℕ → ℕ → List VoteResponse → Exec Node (Unit {0})
check_hb node_id num_nodes taken arrivals = do
  s ← get_state
  if s.is_leader then pure tt else (do
    put_state (record s { got_hb = false })
    if s.got_hb then pure tt else try_become_leader node_id num_nodes taken arrivals)
