-- ===== src/Client/Commands.antt =====
-- The commands of a line, and what each of them runs.
use tors_hw.Base.{
  ℤ, ◌<◌, ◌≡◌, refl, sym, subst, ◌∙◌, All, length, String, Bool, true, Option, List, [], ◌∷◌, ◌++◌,
  Exec, get_elem?,
}
use tors_hw.Client.Retry.{InList, Ran, first_reply, calls, submit-Ran}
use tors_hw.Client.{
  Form, create_form, read_form, update_form, delete_form, cas_form, submit, World, Attempt, process,
  process_command, process_create, process_read, process_update, process_delete, process_cas,
  field_at, or_panic, named_node,
}

-- The commands that change the store.
pub data Write : Type 0 where
  create : String → String → Write
  update : String → String → Write
  delete : String → Write
  cas : String → String → String → Write

pub data Command : Type 0 where
  read : String → Command
  write : Write → Command

-- The request of the command's function.
abbrev pub write_form : Write → Form
write_form (create key value) = create_form key value
write_form (update key value) = update_form key value
write_form (delete key) = delete_form key
write_form (cas key prev_val new_val) = cas_form key prev_val new_val

abbrev pub form_of : Command → Form
form_of (read key) = read_form key
form_of (write command) = write_form command

-- The fields of a line that gives the command, without the node.
abbrev pub words : Command → List String
words (write (create key value)) = "c" ∷ key ∷ value ∷ []
words (read key) = "r" ∷ key ∷ []
words (write (update key value)) = "u" ∷ key ∷ value ∷ []
words (write (delete key)) = "d" ∷ key ∷ []
words (write (cas key prev_val new_val)) = "cas" ∷ key ∷ prev_val ∷ new_val ∷ []

-- The function of the command.
abbrev pub run :
    (String → Bool) → List String → Command → List Attempt → ℤ → Exec World (Option String)
run parses nodes (write (create key value)) = process_create parses nodes key value
run parses nodes (read key) = process_read parses nodes key
run parses nodes (write (update key value)) = process_update parses nodes key value
run parses nodes (write (delete key)) = process_delete parses nodes key
run parses nodes (write (cas key prev_val new_val)) = process_cas parses nodes key prev_val new_val

-- The fields come to their places, and the node is the one that the first further field names.
process-words :
    (parses : String → Bool) (scan : String → ℤ) (nodes : List String) (command : Command)
    (more : List String) (attempts : List Attempt) (w : World)
    → process parses scan nodes (words command ++ more) attempts w
      ≡ run parses nodes command attempts (named_node scan (get_elem? more 0)) w
unfolding process process_command field_at or_panic
process-words parses scan nodes (write (create key value)) more attempts w = refl
process-words parses scan nodes (read key) more attempts w = refl
process-words parses scan nodes (write (update key value)) more attempts w = refl
process-words parses scan nodes (write (delete key)) more attempts w = refl
process-words parses scan nodes (write (cas key prev_val new_val)) more attempts w = refl

run-submit :
    (parses : String → Bool) (nodes : List String) (command : Command) (attempts : List Attempt)
    (node_id : ℤ) (w : World)
    → run parses nodes command attempts node_id w
      ≡ submit parses nodes (form_of command) attempts node_id w
unfolding process_create process_read process_update process_delete process_cas
run-submit parses nodes (read key) attempts node_id w = refl
run-submit parses nodes (write (create key value)) attempts node_id w = refl
run-submit parses nodes (write (update key value)) attempts node_id w = refl
run-submit parses nodes (write (delete key)) attempts node_id w = refl
run-submit parses nodes (write (cas key prev_val new_val)) attempts node_id w = refl

-- The line of a command, with more fields or none after it, sends the command's request until a call
-- is answered: the result is the first answer, and none as long as there is no answer; each call asks
-- the same of some node of the list, and none is made after the answer. The first further field, if
-- there is one, names a node of the list or a negative number; the list is not empty, its addresses
-- make URLs that parse, and the draws lie below the number of nodes.
pub process-Ran :
    (parses : String → Bool) (scan : String → ℤ) (nodes : List String) (command : Command)
    (more : List String) (attempts : List Attempt) (w : World)
    → All (λ address. parses ((form_of command).url address) ≡ true) nodes
    → All (λ d. d < length nodes) w.draws
    → InList nodes (named_node scan (get_elem? more 0))
    → Ran
        (form_of command)
        nodes
        (first_reply attempts)
        (calls attempts)
        w
        (process parses scan nodes (words command ++ more) attempts w)
process-Ran parses scan nodes command more attempts w accepts drawn here =
    let node_id = named_node scan (get_elem? more 0) in
    subst (λ r. Ran (form_of command) nodes (first_reply attempts) (calls attempts) w r)
      (sym (
        process-words parses scan nodes command more attempts w
        ∙ run-submit parses nodes command attempts node_id w))
      (submit-Ran parses nodes (form_of command) attempts node_id w accepts drawn here)
