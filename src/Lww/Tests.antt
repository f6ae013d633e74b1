-- ===== src/Lww/Tests.antt =====
-- Runs of the replicas of 3/server on concrete input.
use mathlib.Core.List.{Memᴰ}
use tors_hw.Base.{
  ◌≢◌, ◌⊎◌, inr, ℕ, zero, suc, ◌<◌, ◌≡◌, refl, pos, String, true, false, some, List, [], ◌∷◌, ok,
  err, fatal, decoded, untouched, length, arith, store, empty_map,
}
use tors_hw.Lww.Clock.{compare, new_clock, new_ts}
use tors_hw.Lww.Db.{TVal, TDb, new_db}
use tors_hw.Lww.Server.{
  TState, Send, handle_delete, delete_sends, BroadcastRequest, status, transport_error,
  broadcast_to_node, delivered, crashed, handle_broadcast, apply_request, handle_change,
  broadcast_to_all,
}
use tors_hw.Lww.Server.Retry.{broadcast_to_node_ends}
use tors_hw.Lww.Receive.{receive}
use tors_hw.Lww.Receive.Redelivery.{handle_broadcast_again, change_behind_is_dropped}
use tors_hw.Lww.Cluster.{
  Change, patch, deletion, handle, Cluster, written, handled, Reach, here, next, init, write_at,
  deliver_at, address, to_node,
}
use tors_hw.Lww.Cluster.Routing.{occurrences}
use tors_hw.Lww.Cluster.Agreement.{quiet_replicas_agree}

abbrev pub two_nodes : List String
two_nodes = "http://a" ∷ "http://b" ∷ []

pub each_once : (j : ℕ) → j < length two_nodes → occurrences (address two_nodes j) two_nodes ≡ 1
each_once zero h = refl
each_once (suc zero) h = refl
each_once (suc (suc j)) h = absurd (omega arith)

abbrev hello : Change
hello = patch (record { key = "k"; val = "hello" } ∷ [])

abbrev pub hello_at : ℕ → BroadcastRequest
hello_at time = record {
  key = "k";
  val = record { val = "hello"; ts = record { time = time; id = pos 0 }; deleted = false };
}

abbrev removal : BroadcastRequest
removal = record {
  key = "k";
  val = record { val = ""; ts = record { time = 1; id = pos 1 }; deleted = true };
}

-- The first node writes, and both nodes handle the broadcast.
abbrev pub written_once : Cluster
written_once = write_at two_nodes 0 hello (init two_nodes)

abbrev handled_first : Cluster
handled_first = deliver_at 0 (hello_at 1) [] written_once

abbrev pub handled_both : Cluster
handled_both = deliver_at 1 (hello_at 1) [] handled_first

pub written_once-Reach : Reach two_nodes (init two_nodes) written_once
unfolding init new_clock
written_once-Reach = next here (written 0 hello (omega arith) (tt, tt) (omega arith) refl)

pub handled_both-Reach : Reach two_nodes (init two_nodes) handled_both
unfolding write_at init new_clock handle handle_change to_node new_ts broadcast_to_all deliver_at
handled_both-Reach =
    next (next written_once-Reach (handled 0 [] [] (hello_at 1) (omega arith) refl refl))
      (handled 1 [] [] (hello_at 1) (omega arith) refl refl)

nothing_waits : (handled_both.replica 0).pending ≡ []
unfolding deliver_at
nothing_waits = refl

pub nothing_waits' : (handled_both.replica 1).pending ≡ []
unfolding deliver_at
nothing_waits' = refl

quiet_replicas_agree_example : (handled_both.replica 0).state.db ≡ (handled_both.replica 1).state.db
quiet_replicas_agree_example =
    quiet_replicas_agree two_nodes each_once handled_both 0 1 handled_both-Reach (omega arith)
      (omega arith) nothing_waits nothing_waits'

abbrev both_received : TDb
both_received = (receive (hello_at 1 ∷ removal ∷ []) new_db).1

both_received-ok : receive (hello_at 1 ∷ removal ∷ []) new_db ≡ (ok tt, both_received)
unfolding receive apply_request compare new_db
both_received-ok = refl

-- The removal, whose node is larger, has the last word.
removal_wins : both_received.storage "k" ≡ some removal.val
unfolding receive apply_request compare new_db
removal_wins = refl

handle_broadcast_again_example :
    (v : TVal) × (both_received.storage "k" ≡ some v)
    × (((v.ts ≡ (hello_at 1).val.ts)
          × (handle_broadcast (decoded (hello_at 1)) both_received ≡ (err fatal, both_received)))
        ⊎ ((v.ts ≢ (hello_at 1).val.ts)
            × (handle_broadcast (decoded (hello_at 1)) both_received
                ≡ (ok untouched, both_received))))
handle_broadcast_again_example =
    handle_broadcast_again (hello_at 1 ∷ removal ∷ []) (hello_at 1) new_db both_received
      both_received-ok (Memᴰ.head refl)

-- The stored write came from a node that is ahead by one, and whose id is larger.
abbrev behind : TState
behind = record {
  config = two_nodes;
  db = record {
    storage =
        store empty_map "k"
          (record { val = "hello"; ts = record { time = 4; id = pos 1 }; deleted = false });
  };
  clock = record { ts = record { time = 3; id = pos 0 } };
}

abbrev late : Change
late = deletion (record { key = "k" } ∷ [])

abbrev late_send : Send
late_send = record {
  node = "http://a";
  request = record {
    key = "k";
    val = record { val = ""; ts = (new_ts behind.clock).1; deleted = true };
  };
}

late_sent : Memᴰ late_send (handle late behind).2
unfolding handle handle_change handle_delete delete_sends broadcast_to_all
late_sent = Memᴰ.head refl

change_behind_is_dropped_example :
    ((handle late behind).1 ≡ untouched)
    × (handle_broadcast (decoded late_send.request) (handle late behind).0.db
        ≡ (ok untouched, behind.db))
change_behind_is_dropped_example =
    change_behind_is_dropped behind late late_send
      (record { val = "hello"; ts = record { time = 4; id = pos 1 }; deleted = false }) late_sent
      refl (inr (omega arith, refl))

broadcast_to_node_ends_example :
    (broadcast_to_node 0 (status 500 ∷ status 301 ∷ status 204 ∷ []) ≡ delivered 3)
    × (broadcast_to_node 0 (status 500 ∷ status 301 ∷ transport_error ∷ []) ≡ crashed 3)
broadcast_to_node_ends_example =
    broadcast_to_node_ends (500 ∷ 301 ∷ []) 0 204 [] ((λ e. cc e), ((λ e. cc e), tt)) refl
