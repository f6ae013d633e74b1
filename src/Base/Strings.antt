-- ===== src/Base/Strings.antt =====
-- `strings.HasPrefix` and `strings.TrimPrefix`, and the paths `<base><key>` that the servers take
-- apart with them.
use Prim.Native.Char.{Char, code}
use Prim.Native.String.{String, ◌++◌}
use Prim.Native.String.append
use mathlib.Core.Path.{◌≡◌, refl}
use mathlib.Core.Bool.{Bool, true, false, ◌&&◌}
use native.Mathlib.Omega.{arith}
use text.Mathlib.TextEquality.{Char-path}
use tors_hw.Base.Tests.{◌==◌, if◌then◌else◌}

unfoldable pub has_prefix : String → String → Bool
has_prefix s String.[] = true
has_prefix String.[] (String.◌∷◌ p ps) = false
has_prefix (String.◌∷◌ c s) (String.◌∷◌ p ps) = code c == code p && has_prefix s ps

drop_prefix : String → String → String
drop_prefix s String.[] = s
drop_prefix String.[] (String.◌∷◌ p ps) = String.[]
drop_prefix (String.◌∷◌ c s) (String.◌∷◌ p ps) = drop_prefix s ps

pub trim_prefix : String → String → String
trim_prefix s p = if has_prefix s p then drop_prefix s p else s

pub has_prefix-append : (p s : String) → has_prefix (p ++ s) p ≡ true
unfolding has_prefix
has_prefix-append String.[] s = refl
has_prefix-append (String.◌∷◌ c p) s = rw append.cons (ground (arith, has_prefix-append p s))

-- A string does not start with a longer one.
pub has_prefix-longer :
    (s : String) (c : Char) (p : String) → has_prefix s (s ++ String.◌∷◌ c p) ≡ false
unfolding has_prefix
has_prefix-longer String.[] c p = rw append.nil refl
has_prefix-longer (String.◌∷◌ d s) c p = rw append.cons (ground (arith, has_prefix-longer s c p))

drop_prefix-append : (p s : String) → drop_prefix (p ++ s) p ≡ s
unfolding drop_prefix
drop_prefix-append String.[] s = append.nil s
drop_prefix-append (String.◌∷◌ c p) s = rw append.cons (drop_prefix-append p s)

append-drop_prefix : (s p : String) → has_prefix s p ≡ true → p ++ drop_prefix s p ≡ s
unfolding has_prefix drop_prefix
append-drop_prefix s String.[] h = append.nil s
append-drop_prefix String.[] (String.◌∷◌ p ps) h = cc
append-drop_prefix (String.◌∷◌ c s) (String.◌∷◌ p ps) h =
    rw append.cons (ground (arith, append-drop_prefix s ps, Char-path c p))

pub trim_prefix-append : (p s : String) → trim_prefix (p ++ s) p ≡ s
unfolding trim_prefix
trim_prefix-append p s = rw (has_prefix-append p s) (drop_prefix-append p s)

pub append-trim_prefix : (s p : String) → has_prefix s p ≡ true → p ++ trim_prefix s p ≡ s
unfolding trim_prefix
append-trim_prefix s p h = rw h (append-drop_prefix s p h)
