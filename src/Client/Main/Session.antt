-- ===== src/Client/Main/Session.antt =====
-- A session of the client: a line for each command, and the answers in the order of the lines.
use tors_hw.Base.{
  ℕ, ◌<◌, ◌≡◌, refl, sym, ap, ◌∙◌, ℤ, String, Bool, true, Option, some, List, [], ◌∷◌, ◌++◌, map,
  ok, err, fatal, All, length, get_elem?, append_assoc, append-nil,
}
use tors_hw.Client.{Attempt, process, named_node}
use tors_hw.Client.Retry.{InList, first_reply}
use tors_hw.Client.Commands.{Command, form_of, words, process-Ran}
use tors_hw.Client.Main.{
  NodeConfig, external_uri, new_nodes_config, Line, Console, after_line, read_lines, with_nodes,
  with_file, main,
}

-- A command with the further fields of its line, how its calls end, and the first answer of them.
pub record Asked : Type 0 where
  pub command : Command
  pub more : List String
  pub attempts : List Attempt
  pub text : String

abbrev pub line_of : Asked → Line
line_of a = record { fields = words a.command ++ a.more; attempts = a.attempts }

module _ (parses : String → Bool) (scan : String → ℤ) where
  -- A call is answered, a further field names a node, and the URLs of the nodes are accepted.
  pub record Answerable (nodes : List String) (a : Asked) : Type 0 where
    pub answered : first_reply a.attempts ≡ some a.text
    pub here : InList nodes (named_node scan (get_elem? a.more 0))
    pub accepts : All (λ address. parses ((form_of a.command).url address) ≡ true) nodes

  read_lines_answers :
      (nodes : List String) (asked : List Asked) (s : Console)
      → All (Answerable nodes) asked
      → All (λ d. d < length nodes) s.world.draws
      → ((read_lines parses scan nodes (map line_of asked) s).0 ≡ err fatal)
        × ((read_lines parses scan nodes (map line_of asked) s).1.printed
            ≡ s.printed ++ map (λ (a : Asked). a.text) asked)
  unfolding read_lines after_line
  read_lines_answers nodes [] s all drawn = (refl, sym (append-nil s.printed))
  read_lines_answers nodes (a ∷ later) s (here, all) drawn =
      let ran =
        process-Ran parses scan nodes a.command a.more a.attempts s.world here.accepts drawn
          here.here in
      let run = process parses scan nodes (words a.command ++ a.more) a.attempts s.world in
      let whole : run ≡ (ok (some a.text), run.1) =
        ap (λ r. (r, run.1)) (ran.result ∙ ap ok here.answered) in
      let (ends, printed) =
        read_lines_answers nodes later
          (record { world = run.1; printed = s.printed ++ a.text ∷ [] }) all ran.drawn in
      rw whole
        (ends, printed ∙ append_assoc s.printed (a.text ∷ []) (map (λ (b : Asked). b.text) later))

  module _ (print : ℤ → String) (read : String → Option (List ℕ))
      (decode : List ℕ → Option (List NodeConfig)) where
    -- A session whose configuration is read, and each of whose lines is a command, of which a call is at
    -- last answered: the client prints the first answer to each command, in the order of the lines, and
    -- ends by log.Fatal at the end of its input. The URLs of the nodes parse, a line names a node of the
    -- list or none, and the draws lie below the number of nodes.
    pub main_answers :
        (args : List String) (file_name : String) (config : List NodeConfig) (asked : List Asked)
        (s : Console)
        → get_elem? args 1 ≡ some file_name
        → new_nodes_config read decode file_name ≡ some config
        → All (Answerable (map (external_uri print) config)) asked
        → All (λ d. d < length (map (external_uri print) config)) s.world.draws
        → ((main parses scan print read decode args (map line_of asked) s).0 ≡ err fatal)
          × ((main parses scan print read decode args (map line_of asked) s).1.printed
              ≡ s.printed ++ map (λ (a : Asked). a.text) asked)
    unfolding main with_file with_nodes
    main_answers args file_name config asked s first loaded all drawn =
        rw (first, loaded) (read_lines_answers (map (external_uri print) config) asked s all drawn)
