-- ===== src/Lww/Config.antt =====
-- 3/server/config.go: the addresses of the replicas, one on each line of a file. The parameter is
-- what `os.ReadFile` finds under a name.
pub mod Lines
use Prim.Native.Char.{Char, code}
use Prim.Native.String.{String}
use tors_hw.Base.{Option, none, some, List, [], ◌∷◌, if◌then◌else◌, ◌==◌}

-- A character in front of the first line.
unfoldable pub extend_first : Char → List String → List String
extend_first c [] = String.◌∷◌ c String.[] ∷ []
extend_first c (line ∷ lines) = String.◌∷◌ c line ∷ lines

-- `LoadConfigFromString`: `strings.Split` at each newline.
unfoldable pub load_config_from_string : String → List String
unfolding extend_first
load_config_from_string String.[] = String.[] ∷ []
load_config_from_string (String.◌∷◌ c rest) =
    let lines = load_config_from_string rest in
    if code c == 10 then String.[] ∷ lines else extend_first c lines

-- `LoadConfigFromFile`: `none` is an error.
unfoldable pub load_config_from_file : (String → Option String) → String → Option (List String)
load_config_from_file read file_name = elim (read file_name) [
  | none ↦ none
  | some content ↦ some (load_config_from_string content)
]
