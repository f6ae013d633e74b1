-- ===== src/Lww/Cluster.antt =====
-- The replicas of 3/server together: clients write at any replica, the broadcasts of a write are
-- under way until they are handled, in any order, each once.
pub mod Routing
pub mod Fresh
pub mod Invariant
pub mod Writes
pub mod Deliveries
pub mod Agreement
pub mod History
pub mod Reads
pub mod Settling
use tors_hw.Base.{
  NoRepeat, ℕ, ◌+◌, ◌<◌, ◌≡◌, ◌≢◌, String, Bool, true, false, Option, some, none, List, [], ◌∷◌,
  ◌++◌, map, All, Body, unreadable, decoded, Response, if◌then◌else◌, str_eq, ◌==◌, get_elem?,
  length, pos, u64_mod,
}
use tors_hw.Lww.Clock.{TTimestamp, TClock, new_clock, new_ts}
use tors_hw.Lww.Db.{TVal, TDb, new_db}
use tors_hw.Lww.Server.{
  TState, PatchEntry, DeleteEntry, BroadcastRequest, Send, handle_change, handle_broadcast,
}

-- A client's request that writes.
pub data Change : Type 0 where
  patch : List PatchEntry → Change
  deletion : List DeleteEntry → Change

unfoldable pub handle : Change → TState → TState × Response × List Send
unfolding handle_change
handle (patch entries) state = handle_change "PATCH" (decoded entries) unreadable state
handle (deletion entries) state = handle_change "DELETE" unreadable (decoded entries) state

abbrev pub keys : Change → List String
keys (patch entries) = map (λ (e : PatchEntry). e.key) entries
keys (deletion entries) = map (λ (e : DeleteEntry). e.key) entries

-- The broadcasts of a change with the timestamp `ts`.
abbrev pub patch_request : TTimestamp → PatchEntry → BroadcastRequest
patch_request ts e = record { key = e.key; val = record { val = e.val; ts = ts; deleted = false } }

abbrev pub delete_request : TTimestamp → DeleteEntry → BroadcastRequest
delete_request ts e = record { key = e.key; val = record { val = ""; ts = ts; deleted = true } }

abbrev pub requests : TTimestamp → Change → List BroadcastRequest
requests ts (patch entries) = map (patch_request ts) entries
requests ts (deletion entries) = map (delete_request ts) entries

-- A replica, the broadcasts that it has handled, in order, and those under way to it.
pub record Replica : Type 0 where
  pub state : TState
  pub handled : List BroadcastRequest
  pub pending : List BroadcastRequest

-- `issued` is what has been written anywhere.
pub record Cluster : Type 0 where
  pub replica : ℕ → Replica
  pub issued : List BroadcastRequest

unfoldable pub to_node : String → List Send → List BroadcastRequest
to_node address [] = []
to_node address (s ∷ rest) =
    let later = to_node address rest in if str_eq s.node address then s.request ∷ later else later

abbrev pub or_empty : Option String → String
or_empty none = ""
or_empty (some a) = a

module _ (config : List String) where
  abbrev pub address : ℕ → String
  address i = or_empty (get_elem? config i)

  unfoldable pub init : Cluster
  unfolding new_db new_clock
  init = record {
    replica = λ i. record {
      state = record { config = config; db = new_db; clock = new_clock (pos i) };
      handled = [];
      pending = [];
    };
    issued = [];
  }

  unfoldable pub write_at : ℕ → Change → Cluster → Cluster
  write_at i change s =
      let (state, response, sends) = handle change (s.replica i).state in
      record {
        replica = λ j. record {
          state = if j == i then state else (s.replica j).state;
          handled = (s.replica j).handled;
          pending = (s.replica j).pending ++ to_node (address j) sends;
        };
        issued = s.issued ++ requests (new_ts (s.replica i).state.clock).1 change;
      }

-- The replica's storage after `HandleBroadcast`, whether that faulted or not.
unfoldable pub deliver : BroadcastRequest → List BroadcastRequest → Replica → Replica
deliver r rest a = record {
  state = record (a.state) { db = (handle_broadcast (decoded r) a.state.db).1 };
  handled = a.handled ++ r ∷ [];
  pending = rest;
}

unfoldable pub deliver_at : ℕ → BroadcastRequest → List BroadcastRequest → Cluster → Cluster
unfolding deliver
deliver_at i r rest s = record s {
  replica = λ j. if j == i then deliver r rest (s.replica j) else s.replica j;
}

-- What may happen next: a replica whose clock is not at its last value takes a change that names
-- no key twice, or handles one of the broadcasts under way to it.
pub data Step (config : List String) (s t : Cluster) : Type 0 where
  written :
      (i : ℕ) (change : Change)
      → i < length config
      → NoRepeat (keys change)
      → (s.replica i).state.clock.ts.time + 1 < u64_mod
      → t ≡ write_at config i change s
      → Step config s t
  handled :
      (i : ℕ) (before after : List BroadcastRequest) (r : BroadcastRequest)
      → i < length config
      → (s.replica i).pending ≡ before ++ r ∷ after
      → t ≡ deliver_at i r (before ++ after) s
      → Step config s t

pub data Reach (config : List String) (s : Cluster) : Cluster → Type 0 where
  here : Reach config s s
  next : {t u : Cluster} → Reach config s t → Step config t u → Reach config s u
