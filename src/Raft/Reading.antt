-- ===== src/Raft/Reading.antt =====
-- Reads of clients of 2/server on concrete input.
use Prim.Native.String.{◌++◌ as ◌+str◌}
use tors_hw.Base.{
  ℕ, ◌≡◌, ◌≢◌, refl, String, some, [], ◌∷◌, ok, arith, store, empty_map, get_elem?, location,
}
use tors_hw.Raft.Node.{LeaderState}
use tors_hw.Raft.External.{Context}
use tors_hw.Raft.External.Reads.{ExternalState, answered, handle_get}
use tors_hw.Raft.External.Reads.Answers.{handle_get_redirects}
use tors_hw.Raft.Tests.{two_entries}

abbrev reading_a : Context
reading_a = record {
  node_id = 0;
  nodes = "http://n0" ∷ "http://n1" ∷ [];
  draws = [];
  path = "/entry/a";
  channel = 5;
}

abbrev follower : ExternalState
follower = record {
  node = two_entries;
  db = record { contents = store empty_map "a" "1" };
  round_robin = 0;
}

abbrev both_at_3 : LeaderState
both_at_3 = record { next_index = 3 ∷ 3 ∷ []; match_index = 0 ∷ 0 ∷ [] }

abbrev leader : ExternalState
leader = record follower {
  node = record two_entries { env = record (two_entries.env) { leader_state = some both_at_3 } };
}

handle_get_redirects_example :
    (index : ℕ) × (node : String) × (index ≢ 0)
    × (get_elem? reading_a.nodes index ≡ some node)
    × ((handle_get reading_a leader).0
        ≡ ok (answered (record { status = 303; payload = location (◌+str◌ node "/entry/a") })))
handle_get_redirects_example =
    handle_get_redirects reading_a leader both_at_3 refl (omega arith) (omega arith)
