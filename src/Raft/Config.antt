-- ===== src/Raft/Config.antt =====
-- 2/server/config.go: the nodes of a cluster and the times that they keep. The parameters are
-- `fmt.Sprintf` of a number, what `os.ReadFile` finds under a name, and what `json.Unmarshal` makes
-- of the bytes.
use Prim.Native.String.{◌++◌ as ◌+str◌}
use tors_hw.Base.{ℕ, ℤ, String, Option, none, some, List}

pub record NodeConfig : Type 0 where
  pub host : String
  pub internal_port : ℤ
  pub external_port : ℤ

pub record AppConfig : Type 0 where
  pub hb_timeout : ℤ
  pub random_shift : ℤ
  pub vote_request_timeout_ms : ℤ
  pub append_entries_timeout_ms : ℤ
  pub hb_interval_ms : ℤ

module _ (print : ℤ → String) where
  node_uri : String → ℤ → String
  node_uri host port = ◌+str◌ "http://" (◌+str◌ host (◌+str◌ ":" (print port)))

  -- `InternalUri`
  unfoldable pub internal_uri : NodeConfig → String
  unfolding node_uri
  internal_uri node = node_uri node.host node.internal_port

  -- `ExternalUri`
  unfoldable pub external_uri : NodeConfig → String
  unfolding node_uri
  external_uri node = node_uri node.host node.external_port

-- What both constructors do: `none` is an error, of the file or of its content.
unfoldable pub load :
    {A : Type 0} → (String → Option (List ℕ)) → (List ℕ → Option A) → String → Option A
load read decode file_name = elim (read file_name) [ none ↦ none | some bytes ↦ decode bytes ]

-- `NewNodesConfig`
unfoldable pub new_nodes_config :
    (String → Option (List ℕ))
    → (List ℕ → Option (List NodeConfig))
    → String
    → Option (List NodeConfig)
unfolding load
new_nodes_config read decode file_name = load read decode file_name

-- `NewAppConfig`
unfoldable pub new_app_config :
    (String → Option (List ℕ)) → (List ℕ → Option AppConfig) → String → Option AppConfig
unfolding load
new_app_config read decode file_name = load read decode file_name
