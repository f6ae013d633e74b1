-- ===== src/Client.antt =====
-- 2/client/main.go: the command-line client of the key-value store. Parameters of the model are
-- what `http.NewRequestWithContext` accepts as a URL and what `fmt.Sscanf` reads; a command comes as
-- the fields that `strings.Fields` finds in the line in lower case.
pub mod Retry
pub mod Commands
pub mod Serving
pub mod Cycle
pub mod ReadBack
pub mod Main
mod Runs
mod Readings
mod Sessions
use Prim.Native.String.{◌++◌ as ◌+str◌}
use tors_hw.Base.{
  ℕ, zero, ℤ, pos, negsuc, String, Bool, true, false, Option, none, some, List, [], ◌∷◌, ◌++◌, Exec,
  Result, ok, err, panic, fatal, pure, raise, ◌>>=◌, ◌>>◌, if◌then◌else◌, ◌==◌, str_eq, get_elem?,
  length,
}

-- What is asked for, but for the node: the URL is that of a node's address. The body is the object
-- that is marshalled.
pub record Form : Type 0 where
  pub method : String
  pub url : String → String
  pub body : Option (List (String × String))

pub record Request : Type 0 where
  pub method : String
  pub url : String
  pub body : Option (List (String × String))

-- How one call of `client.Do`, with the reading of its body, ends.
pub data Attempt : Type 0 where
  not_sent : Attempt
  cut_off : Attempt
  replied : String → Attempt

-- The coming draws of `rand.Intn`, zeros past the list's end, and the requests sent so far.
pub record World : Type 0 where
  pub draws : List ℕ
  pub sent : List Request

abbrev pub next_draw : List ℕ → ℕ × List ℕ
next_draw [] = (0, [])
next_draw (draw ∷ later) = (draw, later)

or_panic : {A : Type 0} → Option A → Exec World A
or_panic none = raise panic
or_panic (some a) = pure a

-- `rand.Intn` panics for no nodes.
unfoldable pub get_node_id : List String → ℤ → Exec World ℕ
get_node_id nodes (pos n) w = (ok n, w)
get_node_id nodes (negsuc n) w =
    if length nodes == 0
    then (err panic, w)
    else (ok (next_draw w.draws).0, record w { draws = (next_draw w.draws).1 })

abbrev pub request_to : Form → String → Request
request_to form address = record { method = form.method; url = form.url address; body = form.body }

-- `POST <node>/entry`
unfoldable pub create_form : String → String → Form
create_form key value = record {
  method = "POST";
  url = λ address. ◌+str◌ address "/entry";
  body = some (("key", key) ∷ ("value", value) ∷ []);
}

-- A request to `<node>/entry/<key>`.
abbrev pub entry_form : String → String → Option (List (String × String)) → Form
entry_form method key body = record {
  method = method;
  url = λ address. ◌+str◌ (◌+str◌ address "/entry/") key;
  body = body;
}

unfoldable pub read_form : String → Form
read_form key = entry_form "GET" key none

unfoldable pub update_form : String → String → Form
update_form key value = entry_form "PUT" key (some (("value", value) ∷ []))

unfoldable pub delete_form : String → Form
delete_form key = entry_form "DELETE" key none

unfoldable pub cas_form : String → String → String → Form
cas_form key prev_val new_val =
    entry_form "PUT" key (some (("prev_value", prev_val) ∷ ("value", new_val) ∷ []))

module _ (parses : String → Bool) (nodes : List String) where
  -- The request is built and sent; a URL that does not parse ends the process.
  unfoldable pub send : Form → String → Exec World (Unit {0})
  send form address w =
      if parses (form.url address)
      then (ok tt, record w { sent = w.sent ++ request_to form address ∷ [] })
      else (err fatal, w)

  -- One round of a loop, up to the outcome of the call.
  unfoldable pub begin : Form → ℤ → Exec World (Unit {0})
  unfolding send or_panic
  begin form node_id = do
    chosen ← get_node_id nodes node_id
    address ← or_panic (get_elem? nodes chosen)
    send form address

  -- The loop that each of the five functions runs, by the outcomes of its calls: after a failure the
  -- next node is drawn. `none` where the outcomes end and the last call has not returned.
  unfoldable pub submit : Form → List Attempt → ℤ → Exec World (Option String)
  submit form [] node_id = do begin form node_id; pure none
  submit form (not_sent ∷ later) node_id = do begin form node_id; submit form later (negsuc 0)
  submit form (cut_off ∷ later) node_id = do begin form node_id; submit form later (negsuc 0)
  submit form (replied text ∷ later) node_id = do begin form node_id; pure (some text)

  unfoldable pub process_create : String → String → List Attempt → ℤ → Exec World (Option String)
  process_create key value = submit (create_form key value)

  unfoldable pub process_read : String → List Attempt → ℤ → Exec World (Option String)
  process_read key = submit (read_form key)

  unfoldable pub process_update : String → String → List Attempt → ℤ → Exec World (Option String)
  process_update key value = submit (update_form key value)

  unfoldable pub process_delete : String → List Attempt → ℤ → Exec World (Option String)
  process_delete key = submit (delete_form key)

  unfoldable pub process_cas :
      String → String → String → List Attempt → ℤ → Exec World (Option String)
  process_cas key prev_val new_val = submit (cas_form key prev_val new_val)

-- The node that a field names, where the line has that field; else -1.
unfoldable pub named_node : (String → ℤ) → Option String → ℤ
named_node scan none = negsuc 0
named_node scan (some field) = scan field

field_at : List String → ℕ → Exec World String
unfolding or_panic
field_at lines i = or_panic (get_elem? lines i)

module _ (parses : String → Bool) (scan : String → ℤ) (nodes : List String) where
  -- The cases of `Process`.
  unfoldable pub process_command : String → List String → List Attempt → Exec World (Option String)
  unfolding field_at
  process_command command lines attempts =
      if str_eq command "c"
      then (do
        key ← field_at lines 1
        value ← field_at lines 2
        process_create parses nodes key value attempts (named_node scan (get_elem? lines 3)))
      else if str_eq command "r"
      then (do
        key ← field_at lines 1
        process_read parses nodes key attempts (named_node scan (get_elem? lines 2)))
      else if str_eq command "u"
      then (do
        key ← field_at lines 1
        value ← field_at lines 2
        process_update parses nodes key value attempts (named_node scan (get_elem? lines 3)))
      else if str_eq command "d"
      then (do
        key ← field_at lines 1
        process_delete parses nodes key attempts (named_node scan (get_elem? lines 2)))
      else if str_eq command "cas"
      then (do
        key ← field_at lines 1
        prev_val ← field_at lines 2
        new_val ← field_at lines 3
        process_cas parses nodes key prev_val new_val attempts
            (named_node scan (get_elem? lines 4)))
      else raise fatal

  -- `Process`: a line of no fields panics, an unknown command ends the process.
  unfoldable pub process : List String → List Attempt → Exec World (Option String)
  unfolding field_at
  process lines attempts = do command ← field_at lines 0; process_command command lines attempts
