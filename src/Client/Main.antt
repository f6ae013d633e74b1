-- ===== src/Client/Main.antt =====
-- `main` of 2/client/main.go: the configuration of the nodes, and the loop over the lines of the
-- standard input. A line comes as in Client, with how its calls end. The parameters are those of
-- Client, `fmt.Sprintf` of a number, what `os.ReadFile` finds, and what `json.Unmarshal` makes of it.
pub mod Session
use Prim.Native.String.{◌++◌ as ◌+str◌}
use tors_hw.Base.{
  ℕ, ℤ, String, Bool, Option, none, some, List, [], ◌∷◌, ◌++◌, map, Exec, Result, ok, err, panic,
  fatal, get_elem?,
}
use tors_hw.Client.{Attempt, World, process}

pub record NodeConfig : Type 0 where
  pub host : String
  pub internal_port : ℤ
  pub external_port : ℤ

unfoldable pub external_uri : (ℤ → String) → NodeConfig → String
external_uri print node =
    ◌+str◌ "http://" (◌+str◌ node.host (◌+str◌ ":" (print node.external_port)))

-- `NewNodesConfig`: `none` is an error, of the file or of its content.
unfoldable pub new_nodes_config :
    (String → Option (List ℕ))
    → (List ℕ → Option (List NodeConfig))
    → String
    → Option (List NodeConfig)
new_nodes_config read decode file_name = elim (read file_name) [
  | none ↦ none
  | some bytes ↦ decode bytes
]

-- A line: its fields, and how the calls end that it makes.
pub record Line : Type 0 where
  pub fields : List String
  pub attempts : List Attempt

-- What `Process` shares, and the lines that were printed.
pub record Console : Type 0 where
  pub world : World
  pub printed : List String

-- What follows `Process`; a call that has not returned holds the loop.
after_line :
    Exec Console (Unit {0})
    → List String
    → Result (Option String) × World
    → Result (Unit {0}) × Console
after_line later printed (ok (some text), w) =
    later (record { world = w; printed = printed ++ text ∷ [] })
after_line later printed (ok none, w) = (ok tt, record { world = w; printed = printed })
after_line later printed (err f, w) = (err f, record { world = w; printed = printed })

module _ (parses : String → Bool) (scan : String → ℤ) where
  -- The loop of `main`; the end of the input, also within a line, ends the process.
  unfoldable pub read_lines : List String → List Line → Exec Console (Unit {0})
  unfolding after_line
  read_lines nodes [] s = (err fatal, s)
  read_lines nodes (line ∷ later) s =
      after_line (read_lines nodes later) s.printed
        (process parses scan nodes line.fields line.attempts s.world)

  module _ (print : ℤ → String) (read : String → Option (List ℕ))
      (decode : List ℕ → Option (List NodeConfig)) where
    with_nodes : Option (List NodeConfig) → List Line → Exec Console (Unit {0})
    with_nodes none lines s = (err fatal, s)
    with_nodes (some nodes) lines s = read_lines (map (external_uri print) nodes) lines s

    with_file : Option String → List Line → Exec Console (Unit {0})
    unfolding with_nodes
    with_file none lines s = (err panic, s)
    with_file (some file_name) lines s = with_nodes (new_nodes_config read decode file_name) lines s

    -- By `os.Args` and the lines of the input.
    unfoldable pub main : List String → List Line → Exec Console (Unit {0})
    unfolding with_file
    main args lines = with_file (get_elem? args 1) lines
