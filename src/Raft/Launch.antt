-- ===== src/Raft/Launch.antt =====
-- The start of a node: the flags and `main` of 2/server/main.go, `NewRaftServer` of
-- 2/server/raft.go and `NewExtServer` of 2/server/external.go. What is not the repository's is a
-- parameter, as in Raft/Config and Raft/Restart, and what `flag.Parse` leaves in the flags, `none`
-- where it ends the process itself.
pub mod Exact
use Prim.Native.String.{◌++◌ as ◌+str◌}
use tors_hw.Base.{
  ℕ, suc, ◌-◌, ℤ, pos, negsuc, String, Bool, false, ◌||◌, Option, none, some, List, Exec, Result,
  ok, err, Fault, panic, fatal, pure, raise, ◌>>=◌, if◌then◌else◌, str_eq, eqb_ℤ, get_elem?,
  u64_mod,
}
use tors_hw.Raft.Log.{LogEntry}
use tors_hw.Raft.Node.{Node, Disk}
use tors_hw.Raft.Db.{Db, new_db}
use tors_hw.Raft.External.Reads.{ExternalState}
use tors_hw.Raft.Restart.{Files, open_files}
use tors_hw.Raft.Config.{NodeConfig, AppConfig, new_nodes_config, new_app_config}

pub record Flags : Type 0 where
  pub node_id : ℤ  -- int64
  pub workdir : String
  pub nodes_config : String
  pub app_config : String

-- The values that `init` gives them.
abbrev pub unset : Flags
unset = record { node_id = negsuc 0; workdir = ""; nodes_config = ""; app_config = "" }

-- The test of `ParseFlags`.
unfoldable pub flags_missing : Flags → Bool
flags_missing flags =
    eqb_ℤ flags.node_id (negsuc 0)
    || str_eq flags.workdir ""
    || str_eq flags.nodes_config ""
    || str_eq flags.app_config ""

-- `ParseFlags`: `none` ends the process.
unfoldable pub parse_flags : Option Flags → Option Flags
unfolding flags_missing
parse_flags none = none
parse_flags (some flags) = if flags_missing flags then none else some flags

-- `uint64(Flags.NodeId)`
unfoldable pub to_uint64 : ℤ → ℕ
to_uint64 (pos n) = n
to_uint64 (negsuc n) = u64_mod - suc n

-- `raftState` and the server that `NewRaftServer` makes of it; the loops that it starts are in
-- Raft/Timers, its routes in Raft/Internal.
pub record RaftServer : Type 0 where
  pub node : Node
  pub nodes : List NodeConfig
  pub node_id : ℕ
  pub app : AppConfig
  pub addr : String

-- `ExternalState` and the server that `NewExtServer` makes of it; its routes are in
-- Raft/External/Reads.
pub record ExtServer : Type 0 where
  pub state : ExternalState
  pub nodes : List NodeConfig
  pub node_id : ℕ
  pub addr : String

-- The flags of a new `raftState`.
abbrev pub not_leading : Node → Node
not_leading node = record node { is_leader = false; got_hb = false }

module _ (print : ℤ → String) where
  raft_server : Node → List NodeConfig → ℕ → AppConfig → Option NodeConfig → Result RaftServer
  raft_server node nodes node_id app none = err panic
  raft_server node nodes node_id app (some own) = ok (record {
    node = not_leading node;
    nodes = nodes;
    node_id = node_id;
    app = app;
    addr = ◌+str◌ ":" (print own.internal_port);
  })

  -- `NewRaftServer`: an index past the nodes panics.
  unfoldable pub new_raft_server : Node → List NodeConfig → ℕ → AppConfig → Result RaftServer
  unfolding raft_server
  new_raft_server node nodes node_id app =
      raft_server node nodes node_id app (get_elem? nodes node_id)

  ext_server : Node → Db → List NodeConfig → ℕ → Option NodeConfig → Result ExtServer
  ext_server node db nodes node_id none = err panic
  ext_server node db nodes node_id (some own) = ok (record {
    state = record { node = node; db = db; round_robin = 0 };
    nodes = nodes;
    node_id = node_id;
    addr = ◌+str◌ ":" (print own.external_port);
  })

  -- `NewExtServer`
  unfoldable pub new_ext_server : Node → Db → List NodeConfig → ℕ → Result ExtServer
  unfolding ext_server
  new_ext_server node db nodes node_id = ext_server node db nodes node_id (get_elem? nodes node_id)

-- The servers that run when `main` waits; the node is one, which they share.
pub record Launched : Type 0 where
  pub raft : RaftServer
  pub ext : ExtServer

or_fatal : {A : Type 0} → Option A → Result A
or_fatal none = err fatal
or_fatal (some a) = ok a

-- What follows a call, where it did not end the process.
and_then : {A B : Type 0} → Result A → (A → Result B) → Result B
and_then (ok a) f = f a
and_then (err e) f = err e

module _ (print : ℤ → String) (read : String → Option (List ℕ))
    (decode_nodes : List ℕ → Option (List NodeConfig)) (decode_app : List ℕ → Option AppConfig)
    (unmarshal : List ℕ → Option LogEntry) where
  launch : Flags → List NodeConfig → AppConfig → Node → Result Launched
  unfolding and_then
  launch flags nodes app node =
      and_then (new_raft_server print node nodes (to_uint64 flags.node_id) app) (λ raft.
        and_then (new_ext_server print raft.node new_db nodes (to_uint64 flags.node_id))
          (λ ext. ok (record { raft = raft; ext = ext })))

  -- `main` up to the two `ListenAndServe`, by the flags and the files of the node.
  unfoldable pub main : Option Flags → Files → Result Launched
  unfolding launch or_fatal and_then
  main given files = and_then (or_fatal (parse_flags given)) (λ flags.
      and_then (or_fatal (new_nodes_config read decode_nodes flags.nodes_config)) (λ nodes.
        and_then (or_fatal (new_app_config read decode_app flags.app_config))
          (λ app. and_then (open_files unmarshal files) (λ node. launch flags nodes app node))))
