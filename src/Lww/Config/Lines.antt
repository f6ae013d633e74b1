-- ===== src/Lww/Config/Lines.antt =====
-- The configuration that a file of lines gives.
use Prim.Native.Char.{Char, code}
use Prim.Native.String.{String, ◌++◌ as ◌+str◌}
use Prim.Native.String.append
use tors_hw.Base.{
  ◌≡◌, refl, sym, ap, ◌∙◌, false, Bool-cases, inl, inr, All-append, List, [], ◌∷◌, ◌++◌, All, ◌==◌,
}
use tors_hw.Lww.Config.{extend_first, load_config_from_string}

-- A line has no newline in it.
abbrev pub IsLine : String → Type 0
IsLine String.[] = Unit
IsLine (String.◌∷◌ c s) = ((code c == 10) ≡ false) × IsLine s

-- Lines joined by newlines; the last one has none after it.
abbrev pub join_lines : String → List String → String
join_lines line [] = line
join_lines line (next ∷ later) = ◌+str◌ line (String.◌∷◌ "\n" (join_lines next later))

-- A line in front of the first one.
abbrev prefix_first : String → List String → List String
prefix_first s [] = s ∷ []
prefix_first s (line ∷ lines) = ◌+str◌ s line ∷ lines

extend-prefix :
    (c : Char) (s : String) (lines : List String)
    → extend_first c (prefix_first s lines) ≡ prefix_first (String.◌∷◌ c s) lines
unfolding extend_first
extend-prefix c s [] = refl
extend-prefix c s (line ∷ lines) = ap (λ l. l ∷ lines) (sym (append.cons c s line))

some_line :
    (t : String)
    → (line : String) × (lines : List String) × (load_config_from_string t ≡ line ∷ lines)
unfolding load_config_from_string extend_first
some_line String.[] = ("", [], refl)
some_line (String.◌∷◌ c t) =
    let (line, lines, h) = some_line t in
    elim (Bool-cases (code c == 10)) [
      | inl newline ↦ ("", load_config_from_string t, rw newline refl)
      | inr other ↦ (String.◌∷◌ c line, lines, rw (other, h) refl)
    ]

split-append :
    (s t : String)
    → IsLine s
    → load_config_from_string (◌+str◌ s t) ≡ prefix_first s (load_config_from_string t)
unfolding load_config_from_string
split-append String.[] t h =
    let (line, lines, same) = some_line t in rw (append.nil, same, append.nil) refl
split-append (String.◌∷◌ c s) t (here, later) =
    rw (append.cons, here, split-append s t later) (extend-prefix c s (load_config_from_string t))

split_line : (s : String) → IsLine s → load_config_from_string s ≡ s ∷ []
unfolding load_config_from_string extend_first
split_line String.[] h = refl
split_line (String.◌∷◌ c s) (here, later) = rw (here, split_line s later) refl

append_empty : (s : String) → ◌+str◌ s "" ≡ s
append_empty String.[] = append.nil ""
append_empty (String.◌∷◌ c s) = rw append.cons (ap (String.◌∷◌ c) (append_empty s))

-- Lines joined by newlines are loaded as these addresses.
pub load-join_lines :
    (line : String) (later : List String)
    → IsLine line
    → All IsLine later
    → load_config_from_string (join_lines line later) ≡ line ∷ later
unfolding load_config_from_string
load-join_lines line [] h all = split_line line h
load-join_lines line (next ∷ later) h (first, rest) =
    split-append line (String.◌∷◌ "\n" (join_lines next later)) h
    ∙ ap (λ l. prefix_first line ("" ∷ l)) (load-join_lines next later first rest)
    ∙ ap (λ l. l ∷ next ∷ later) (append_empty line)

-- A newline after the last line is one more address, which is empty.
pub load-join_lines_newline :
    (line : String) (later : List String)
    → IsLine line
    → All IsLine later
    → load_config_from_string (join_lines line (later ++ "" ∷ [])) ≡ (line ∷ later) ++ "" ∷ []
load-join_lines_newline line later h all =
    load-join_lines line (later ++ "" ∷ []) h (All-append IsLine later ("" ∷ []) all (tt, tt))
