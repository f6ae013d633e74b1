-- ===== src/Base/Maps.antt =====
-- Go's `map[string]V`. The program never ranges over a map, so a map is what its keys lead to.
use Prim.Native.String.{String}
use mathlib.Core.Option.{Option, none, some}
use text.Mathlib.Text.{◌==◌ as str_eq}
use tors_hw.Base.Tests.{if◌then◌else◌}

abbrev pub GoMap {ℓ} : Type ℓ → Type ℓ
GoMap V = String → Option V

module _ {ℓ} {V : Type ℓ} where
  abbrev pub empty_map : GoMap V
  empty_map k = none

  -- m[k] = v
  abbrev pub store : GoMap V → String → V → GoMap V
  store m k v j = if str_eq k j then some v else m j

  -- delete(m, k)
  abbrev pub remove : GoMap V → String → GoMap V
  remove m k j = if str_eq k j then none else m j
