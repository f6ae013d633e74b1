-- ===== src/Raft/Beats.antt =====
-- Broadcasts and timers of 2/server on concrete input.
use tors_hw.Base.{◌≡◌, refl, true, false, some, [], ◌∷◌, arith, Permᴰ}
use tors_hw.Raft.Node.{Node, LeaderState}
use tors_hw.Raft.Append.{AppendResponse}
use tors_hw.Raft.Heartbeat.{hb_response}
use tors_hw.Raft.Broadcast.{Answer, targets, leader_hb_broadcast}
use tors_hw.Raft.Broadcast.Targets.{Complete}
use tors_hw.Raft.Broadcast.Order.{leader_hb_broadcast-perm}
use tors_hw.Raft.Broadcast.Idle.{Tick, after_ticks, stepped_down_waits}
use tors_hw.Raft.Tests.{two_entries}

abbrev three_at_3 : LeaderState
three_at_3 = record { next_index = 3 ∷ 3 ∷ 3 ∷ []; match_index = 18446744073709551615 ∷ 0 ∷ 0 ∷ [] }

abbrev leading : Node
leading = record two_entries {
  is_leader = true;
  env = record (two_entries.env) { leader_state = some three_at_3 };
}

-- One follower takes the entries, and the other's log differs.

abbrev took : Answer
took = record { follower = 1; outcome = some (record { term = 2; success = true }) }

abbrev differs : Answer
differs = record { follower = 2; outcome = some (record { term = 2; success = false }) }

to_both : Complete 0 3 (took ∷ differs ∷ []) []
unfolding targets
to_both = Permᴰ.cons refl (Permᴰ.cons refl Permᴰ.nil)

leader_hb_broadcast-perm_example :
    leader_hb_broadcast (took ∷ differs ∷ []) [] leading
    ≡ leader_hb_broadcast (differs ∷ took ∷ []) [] leading
leader_hb_broadcast-perm_example =
    leader_hb_broadcast-perm 0 3 (took ∷ differs ∷ []) (differs ∷ took ∷ []) [] [] leading
      three_at_3 (Permᴰ.swap refl refl) Permᴰ.nil to_both refl refl refl

abbrev newer : AppendResponse
newer = record { term = 3; success = false }

abbrev alone : Tick
alone = record { taken = 0; arrivals = [] }

stepped_down_waits_example :
    let s' = after_ticks 0 3 (alone ∷ alone ∷ []) (hb_response 1 newer leading).1 in
    (s'.env ≡ leading.env) × (s'.is_leader ≡ false)
stepped_down_waits_example =
    stepped_down_waits 0 3 1 newer (alone ∷ alone ∷ []) leading three_at_3 refl (omega arith)
