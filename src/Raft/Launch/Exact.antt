-- ===== src/Raft/Launch/Exact.antt =====
-- How the start of a node ends, by its flags and files.
use Prim.Native.String.{◌++◌ as ◌+str◌}
use tors_hw.Base.{
  ℕ, ◌≡◌, ◌≢◌, ℤ, negsuc, String, Bool, false, Option, none, some, List, Result, ok, err, panic,
  fatal, get_elem?,
}
use tors_hw.Raft.Log.{LogEntry}
use tors_hw.Raft.Node.{Node, Persisted}
use tors_hw.Raft.Db.{new_db}
use tors_hw.Raft.Wal.Codec.{missing}
use tors_hw.Raft.Restart.{Files, new_p_state, open_files}
use tors_hw.Raft.Config.{NodeConfig, AppConfig, new_nodes_config, new_app_config}
use tors_hw.Raft.Launch.{Flags, to_uint64, not_leading, Launched}

-- No flag has the value that `init` gives it.
pub record Present (flags : Flags) : Type 0 where
  pub node_id : flags.node_id ≢ negsuc 0
  pub workdir : flags.workdir ≢ ""
  pub nodes_config : flags.nodes_config ≢ ""
  pub app_config : flags.app_config ≢ ""

-- How the opening of the files ends.
module _ (unmarshal : List ℕ → Option LogEntry) (files : Files) where
  -- The state is read, and the log is missing and no file can be created for it.
  pub record NoLog : Type 0 where
    pub p : Persisted
    pub state_read : new_p_state files.state_dumps files.state ≡ some p
    pub renamed : Bool
    pub log : files.log ≡ missing false renamed

module _ (print : ℤ → String) (read : String → Option (List ℕ))
    (decode_nodes : List ℕ → Option (List NodeConfig)) (decode_app : List ℕ → Option AppConfig)
    (unmarshal : List ℕ → Option LogEntry) where
  -- Flags and configurations with which a node can start.
  pub record Configured (given : Option Flags) : Type 0 where
    pub flags : Flags
    pub given_flags : given ≡ some flags
    pub present : Present flags
    pub nodes : List NodeConfig
    pub nodes_read : new_nodes_config read decode_nodes flags.nodes_config ≡ some nodes
    pub app : AppConfig
    pub app_read : new_app_config read decode_app flags.app_config ≡ some app

  -- The servers of a start that has them, and has opened its files.
  abbrev pub servers : {given : Option Flags} → Configured given → Node → NodeConfig → Launched
  servers r node own = record {
    raft = record {
      node = not_leading node;
      nodes = r.nodes;
      node_id = to_uint64 r.flags.node_id;
      app = r.app;
      addr = ◌+str◌ ":" (print own.internal_port);
    };
    ext = record {
      state = record { node = not_leading node; db = new_db; round_robin = 0 };
      nodes = r.nodes;
      node_id = to_uint64 r.flags.node_id;
      addr = ◌+str◌ ":" (print own.external_port);
    };
  }

  -- Its end, by the node's own entry in the configuration.
  unfoldable pub start_at :
      {given : Option Flags} → Configured given → Node → Option NodeConfig → Result Launched
  start_at r node none = err panic
  start_at r node (some own) = ok (servers r node own)

  abbrev pub started : {given : Option Flags} → Configured given → Node → Result Launched
  started r node = start_at r node (get_elem? r.nodes (to_uint64 r.flags.node_id))

  -- How a start ends.
  pub data Ends (given : Option Flags) (files : Files) (end : Result Launched) : Type 0 where
    starts :
        (r : Configured given) (node : Node)
        → open_files unmarshal files ≡ ok node
        → end ≡ started r node
        → Ends given files end
    no_log : Configured given → NoLog unmarshal files → end ≡ err panic → Ends given files end
    misconfigured : (Configured given → ⊥) → end ≡ err fatal → Ends given files end
    unopened :
        Configured given
        → open_files unmarshal files ≡ err fatal
        → end ≡ err fatal
        → Ends given files end
