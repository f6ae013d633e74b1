-- ===== src/Lww/Cluster/History.antt =====
-- The abstract view of a replica of 3/server: the broadcasts that it has handled, their order
-- forgotten, and its storage as a function of them.
use mathlib.Core.List.Perm
use mathlib.Core.Quot
use mathlib.Core.Quot.{Quot}
use tors_hw.Base.{ℕ, ◌<◌, ◌≡◌, String, List, ◌++◌, ok, Result, Perm, length}
use tors_hw.Lww.Db.{TDb, new_db}
use tors_hw.Lww.Server.{BroadcastRequest}
use tors_hw.Lww.Receive.{receive, Distinct}
use tors_hw.Lww.Receive.Joins.{Distinct-Perm}
use tors_hw.Lww.Receive.Convergence.{TDb-set, receive_converges}
use tors_hw.Lww.Cluster.{Cluster, init, address, Reach}
use tors_hw.Lww.Cluster.Agreement.{Reach-IsConsistent}
use tors_hw.Lww.Cluster.Routing.{occurrences}

-- Broadcasts with different timestamps for each key, in another order.
abbrev pub Reordered : List BroadcastRequest → List BroadcastRequest → Type 0
Reordered rs rs' = Distinct rs × Perm rs rs'

abbrev pub History : Type 0
History = Quot Reordered

abbrev pub history : List BroadcastRequest → History
history = Quot.mk

-- What a new replica makes of a history.
unfoldable pub outcome : History → Result (Unit {0}) × TDb
outcome =
    Quot.lift TDb-set (λ rs. receive rs new_db) (λ rs rs' h. (receive_converges rs rs' h.1 h.0).0)

module _ (config : List String)
    (once : (j : ℕ) → j < length config → occurrences (address config j) config ≡ 1) where
  -- In a cluster whose configuration lists each address once, after any writes that name no key
  -- twice, with clocks below 2^64 - 1, and any deliveries: the storage of a replica is the outcome of
  -- the history of what it has handled, without a fault, and with what is under way to it that history
  -- is the one of all that was ever written.
  pub replica_history :
      (s : Cluster) (i : ℕ)
      → Reach config (init config) s
      → i < length config
      → (outcome (history (s.replica i).handled) ≡ (ok tt, (s.replica i).state.db))
        × (history ((s.replica i).handled ++ (s.replica i).pending) ≡ history s.issued)
  unfolding outcome
  replica_history s i reach h =
      let v = Reach-IsConsistent config once reach in
      (
        v.replayed i h,
        Quot.sound (Distinct-Perm (Perm.symm (v.complete i h)) v.distinct, v.complete i h),
      )
