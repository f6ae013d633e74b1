-- ===== src/Lww/Starting.antt =====
-- Replicas of 3/server that start, and their histories, on concrete input.
use Prim.Native.String.{◌++◌ as ◌+str◌}
use tors_hw.Base.{
  ℕ, ◌<◌, ◌≡◌, ◌⊎◌, inl, refl, sym, ap, subst, ℤ, pos, String, Option, some, List, [], ◌∷◌, ◌++◌,
  ok, arith, unreadable,
}
use tors_hw.Lww.Cluster.{Cluster, Reach, init}
use tors_hw.Lww.Cluster.History.{outcome, history, replica_history}
use tors_hw.Lww.Launch.{Incoming, serve, main, scanned}
use tors_hw.Lww.Launch.Exact.{Ready, Fails, start_exact}
use mathlib.Core.List.{Memᴰ}
use tors_hw.Lww.Clock.{new_clock, new_ts}
use tors_hw.Lww.Server.{BroadcastRequest}
use tors_hw.Lww.Receive.Latest.{◌≼◌}
use tors_hw.Lww.Cluster.{deliver_at, write_at}
use tors_hw.Lww.Cluster.Settling.{replicas_settle}
use tors_hw.Lww.Cluster.Reads.{Newest, told, quiet_replica_reads}
use tors_hw.Lww.Tests.{
  handled_both, handled_both-Reach, nothing_waits', hello_at, two_nodes, each_once, written_once,
  written_once-Reach,
}

replica_history_example :
    (outcome (history (written_once.replica 1).handled)
      ≡ (ok tt, (written_once.replica 1).state.db))
    × (history ((written_once.replica 1).handled ++ (written_once.replica 1).pending)
        ≡ history written_once.issued)
replica_history_example =
    replica_history two_nodes each_once written_once 1 written_once-Reach (omega arith)

issued_once : handled_both.issued ≡ hello_at 1 ∷ []
unfolding deliver_at write_at init new_clock new_ts
issued_once = refl

only_hello : (r : BroadcastRequest) → Memᴰ r (hello_at 1 ∷ []) → r.val.ts ≼ (hello_at 1).val.ts
only_hello r (Memᴰ.head e) = inl (ap (λ (q : BroadcastRequest). q.val.ts) e)
only_hello r (Memᴰ.tail m) = elim m [ ]

hello-Newest : Newest handled_both.issued "k" (some (hello_at 1))
hello-Newest =
    subst (λ rs. Newest rs "k" (some (hello_at 1))) (sym issued_once)
      (Memᴰ.head refl, refl, λ r m e. only_hello r m)

abbrev asks_for_k : Incoming
asks_for_k = record {
  path = "/get/k";
  method = "GET";
  patch = unreadable;
  deletion = unreadable;
  broadcast = unreadable;
}

get_k : ◌≡◌ {A = String} "/get/k" (◌+str◌ "/get/" "k")
get_k = refl

-- The paths here are clean.
abbrev same_path : String → String
same_path path = path

quiet_replica_reads_example :
    serve same_path asks_for_k (handled_both.replica 1).state
    ≡ some (record {
      response = ok (told "k" (some (hello_at 1)));
      state = (handled_both.replica 1).state;
      sends = [];
    })
quiet_replica_reads_example =
    quiet_replica_reads two_nodes each_once same_path handled_both 1 asks_for_k "k"
      (some (hello_at 1)) handled_both-Reach (omega arith) nothing_waits' get_k refl (λ e. cc e)
      hello-Newest

abbrev two_lines : String → Option String
two_lines name = some "http://localhost:80\nhttp://localhost:81"

abbrev number_1 : String → Option ℤ
number_1 field = some (pos 1)

abbrev port_81 : String → Option ℤ
port_81 address = some (pos 81)

abbrev always_81 : ℤ → String
always_81 i = "81"

abbrev command_line : List String
command_line = "server" ∷ "config.txt" ∷ "1" ∷ []

start_exact_example :
    ((r : Ready two_lines number_1 port_81 always_81 command_line) × (main two_lines number_1
          port_81 always_81 command_line
        ≡ ok (record {
          state = ((init r.config).replica r.id).state;
          addr = ◌+str◌ ":" (always_81 (scanned (port_81 r.own)));
        })))
    ⊎ Fails two_lines number_1 port_81 always_81 command_line
start_exact_example = start_exact two_lines number_1 port_81 always_81 command_line

-- The first node has written, and nothing is handled yet.
written_issued : written_once.issued ≡ hello_at 1 ∷ []
unfolding write_at init new_clock new_ts
written_issued = refl

written-Newest : Newest written_once.issued "k" (some (hello_at 1))
written-Newest =
    subst (λ rs. Newest rs "k" (some (hello_at 1))) (sym written_issued)
      (Memᴰ.head refl, refl, λ r m e. only_hello r m)

replicas_settle_example :
    (t : Cluster) × Reach two_nodes written_once t
    × (t.issued ≡ written_once.issued)
    × ((i : ℕ)
        → i < 2
        → serve same_path asks_for_k (t.replica i).state
          ≡ some (record {
            response = ok (told "k" (some (hello_at 1)));
            state = (t.replica i).state;
            sends = [];
          }))
replicas_settle_example =
    replicas_settle two_nodes each_once same_path written_once asks_for_k "k" (some (hello_at 1))
      written_once-Reach get_k refl (λ e. cc e) written-Newest
