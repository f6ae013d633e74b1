-- ===== src/Raft/Election.antt =====
-- `AlreadyLeader` and `TryBecomeLeader` of 2/server/raft.go, and `NewLeaderState` of
-- 2/server/env.go. The answers come in an order that the network chooses, and the wait may time out
-- at any point: the model takes the answers in the order of their arrival, and how many messages
-- the loop takes from the channel before the timeout, the node's own vote being the first.
pub mod Counting
pub mod Majority
use tors_hw.Base.{
  ℕ, suc, ◌+◌, ◌-◌, ◌/◌, Bool, true, false, Option, none, some, List, [], ◌∷◌, Exec, Result, ok,
  err, pure, raise, panic, get_state, put_state, ◌>>=◌, ◌>>◌, if◌then◌else◌, ltb, add_u64, u64_mod,
  length, set, replicate, take,
}
use tors_hw.Raft.Node.{Node, TEnv, Persisted, LeaderState, dump_p_state}
use tors_hw.Raft.Wal.{last_u64}
use tors_hw.Raft.Vote.{VoteResponse}

-- The node's own entry stands at the largest uint64; `node_id` past the nodes panics.
unfoldable pub new_leader_state : ℕ → ℕ → ℕ → Option LeaderState
new_leader_state node_id num_nodes last_log_index =
    if ltb node_id num_nodes
    then some (record {
      next_index = replicate num_nodes (add_u64 last_log_index 1);
      match_index = set (replicate num_nodes 0) node_id (u64_mod - 1);
    })
    else none

-- `AlreadyLeader`
unfoldable pub already_leader : Exec Node Bool
already_leader s = (ok (elim s.env.leader_state [ none ↦ false | some _ ↦ true ]), s)

-- How the wait for votes ends.
pub data Verdict : Type 0 where
  elected : Verdict
  refused : Verdict
  timed_out : Verdict
  newer_term : ℕ → Verdict

-- The counters of the loop.
pub record Tally : Type 0 where
  pub true_count : ℕ
  pub false_count : ℕ

abbrev pub counted : Bool → Tally → Tally
counted true t = record t { true_count = t.true_count + 1 }
counted false t = record t { false_count = t.false_count + 1 }

-- The tests that follow a vote: `none` is one more turn of the loop.
unfoldable pub turn : ℕ → ℕ → VoteResponse → Tally → Option Verdict
turn num_nodes current_term resp t =
    if ltb current_term resp.term
    then some (newer_term resp.term)
    else if ltb (num_nodes / 2) t.true_count
    then some elected
    else if ltb (num_nodes / 2) t.false_count
    then some refused
    else none

unfoldable pub or_else : Option Verdict → Verdict → Verdict
or_else (some v) later = v
or_else none later = later

-- The loop over the messages that it takes before the timeout.
unfoldable pub count_votes : ℕ → ℕ → Tally → List VoteResponse → Verdict
unfolding turn or_else
count_votes num_nodes current_term t [] = timed_out
count_votes num_nodes current_term t (resp ∷ later) =
    or_else (turn num_nodes current_term resp (counted resp.vote_granted t))
      (count_votes num_nodes current_term (counted resp.vote_granted t) later)

-- The vote for the node itself carries no term.
abbrev pub own_vote : VoteResponse
own_vote = record { term = 0; vote_granted = true }

-- The new term, with the node's own vote, dumped; the dump's error is dropped.
unfoldable pub start_term : ℕ → Exec Node (Unit {0})
unfolding dump_p_state
start_term node_id = do
  s ← get_state
  put_state (record s {
    env = record (s.env) {
      p = record { current_term = add_u64 s.env.p.current_term 1; voted_for = some node_id };
    };
  })
  fine ← dump_p_state
  pure tt

unfoldable pub adopt_newer : ℕ → Exec Node (Unit {0})
unfolding dump_p_state
adopt_newer term = do
  s ← get_state
  put_state
      (record s { env = record (s.env) { p = record { current_term = term; voted_for = none } } })
  fine ← dump_p_state
  pure tt

unfoldable pub lead : ℕ → ℕ → Exec Node (Unit {0})
unfolding new_leader_state
lead node_id num_nodes s = elim (new_leader_state node_id num_nodes (last_u64 (length s.env.l))) [
  | none ↦ (err panic, record s { env = record (s.env) { leader_id = some node_id } })
  | some state ↦ (
    ok tt,
    record s {
      is_leader = true;
      env = record (s.env) { leader_id = some node_id; leader_state = some state };
    },
  )
]

unfoldable pub give_up : Exec Node (Unit {0})
give_up s = (ok tt, record s { is_leader = false })

-- What the verdict changes.
unfoldable pub conclude : ℕ → ℕ → Verdict → Exec Node (Unit {0})
unfolding lead give_up adopt_newer
conclude node_id num_nodes elected = lead node_id num_nodes
conclude node_id num_nodes refused = give_up
conclude node_id num_nodes timed_out = give_up
conclude node_id num_nodes (newer_term term) = do adopt_newer term; give_up

-- The function that runs under the lock.
unfoldable pub stand : ℕ → ℕ → ℕ → List VoteResponse → Exec Node (Unit {0})
stand node_id num_nodes taken arrivals = do
  start_term node_id
  s ← get_state
  conclude node_id num_nodes (
      count_votes num_nodes s.env.p.current_term (record { true_count = 0; false_count = 0 })
        (take taken (own_vote ∷ arrivals)))

-- `TryBecomeLeader`
unfoldable pub try_become_leader : ℕ → ℕ → ℕ → List VoteResponse → Exec Node (Unit {0})
unfolding already_leader stand
try_become_leader node_id num_nodes taken arrivals = do
  already ← already_leader
  if already then pure tt else stand node_id num_nodes taken arrivals
