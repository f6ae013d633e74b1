-- ===== src/Client/Serving.antt =====
-- A command of the client at the leader: the request that 2/client/main.go builds, as the routes and
-- handlers of 2/server/external.go take it. What is not the repository's is a parameter: the path
-- that net/http finds in a URL, and encoding/json on the two kinds of bodies.
use Prim.Native.String.{◌++◌ as ◌+str◌}
use tors_hw.Base.{
  ℕ, ◌≡◌, ◌≢◌, ap, ◌∙◌, String, Bool, subst, true, Option, none, some, List, [], ◌∷◌, Result, ok,
  if◌then◌else◌, Body, decoded, Response,
}
use tors_hw.Raft.Log
use tors_hw.Raft.Log.{LogEntry}
use tors_hw.Raft.Db.{Db}
use tors_hw.Raft.Node.{Node, LeaderState, next_outcome}
use tors_hw.Raft.External.{
  Context, KeyVal, UpdateRequest, Handled, waits, handle_create, handle_update_or_cas,
  handle_delete,
}
use tors_hw.Raft.External.Paths.{entry_key_exact}
use tors_hw.Raft.External.Contract.{Serves, entry_for, found_code}
use tors_hw.Raft.External.Contract.Creates.{created_code, created, handle_create-Serves}
use tors_hw.Raft.External.Contract.Updates.{matches, handle_update_or_cas-Serves}
use tors_hw.Raft.External.Contract.Deletes.{bound, handle_delete-Serves}
use tors_hw.Raft.External.Reads.{ExternalState, route, Entered, handled}
use tors_hw.Raft.External.Reads.Routes.{
  after, after-ok, route_create, route_entry, entry_put, entry_delete,
}
use tors_hw.Client.{create_form, update_form, delete_form, cas_form}
use tors_hw.Client.Commands.{Write, write_form, create, update, delete, cas}

abbrev pub key_of : Write → String
key_of (create key value) = key
key_of (update key value) = key
key_of (delete key) = key
key_of (cas key prev_val new_val) = key

-- The entry of the command in the log.
abbrev pub entry_of : Write → ℕ → LogEntry
entry_of (create key value) channel = entry_for Log.create key value "" channel
entry_of (update key value) channel = entry_for Log.update key value "" channel
entry_of (delete key) channel = entry_for Log.delete key "" "" channel
entry_of (cas key prev_val new_val) channel = entry_for Log.cas key new_val prev_val channel

-- The status that the client is told, by what stands at the key when the entry is committed.
abbrev pub code_of : Write → Option String → ℕ
code_of (create key value) o = created_code o
code_of (update key value) o = found_code (matches none o)
code_of (delete key) o = found_code (bound o)
code_of (cas key prev_val new_val) o = found_code (matches (some prev_val) o)

-- What stands at the key then.
abbrev pub left_of : Write → Option String → Option String
left_of (create key value) o = created value o
left_of (update key value) o = if matches none o then some value else o
left_of (delete key) o = none
left_of (cas key prev_val new_val) o = if matches (some prev_val) o then some new_val else o

-- What the code relies on: `json.Unmarshal` takes apart what `json.Marshal` makes of an object, and a
-- URL of an address and a path has that path, for the path of the collection and for that of `key`.
pub record Network (decode_create : Option (List (String × String)) → Body KeyVal)
    (decode_update : Option (List (String × String)) → Body UpdateRequest)
    (path_of : String → String) (address key : String) : Type 0 where
  pub creates :
      (k v : String)
      → decode_create (some (("key", k) ∷ ("value", v) ∷ []))
        ≡ decoded (record { key = k; value = v })
  pub updates :
      (v : String)
      → decode_update (some (("value", v) ∷ [])) ≡ decoded (record { prev_value = none; value = v })
  pub compares :
      (p v : String)
      → decode_update (some (("prev_value", p) ∷ ("value", v) ∷ []))
        ≡ decoded (record { prev_value = some p; value = v })
  pub collection : path_of (◌+str◌ address "/entry") ≡ "/entry"
  pub entry_path : path_of (◌+str◌ (◌+str◌ address "/entry/") key) ≡ ◌+str◌ "/entry/" key

-- The handler that was chosen waits with the entry in the log, and serves it.
pub record Accepted (command : Write) (c : Context) (s : ExternalState)
    (run : Result (Option Entered) × ExternalState) : Type 0 where
  pub reply : Bool → Response
  pub node : Node
  pub chosen : run ≡ (ok (some (handled (waits reply))), record s { node = node })
  pub serves :
      (db : Db)
      → Serves
          (entry_of command c.channel)
          s.node
          (ok (waits reply), node)
          db
          (code_of command (db.contents (key_of command)))
          (left_of command (db.contents (key_of command)))

-- A route that ends in one handler, whose result is `h`.
accepts :
    {command : Write} {c : Context} {s : ExternalState}
    {run : Result (Option Entered) × ExternalState} (h : Result Handled × Node)
    (f : Result Handled × Node → Result (Option Entered) × ExternalState)
    → ((done : Handled) (node : Node)
        → f (ok done, node) ≡ (ok (some (handled done)), record s { node = node }))
    → run ≡ f h
    → ((db : Db)
        → Serves
            (entry_of command c.channel)
            s.node
            h
            db
            (code_of command (db.contents (key_of command)))
            (left_of command (db.contents (key_of command))))
    → Accepted command c s run
accepts {command} {c} {s} h f law same served =
    let reply = (served s.db).reply in
    let whole : h ≡ (ok (waits reply), h.1) = ap (λ r. (r, h.1)) (served s.db).waiting in
    record {
      reply = reply;
      node = h.1;
      chosen = same ∙ ap f whole ∙ law (waits reply) h.1;
      serves = λ db.
          subst
            (λ r.
              Serves (entry_of command c.channel) s.node r db
                (code_of command (db.contents (key_of command)))
                (left_of command (db.contents (key_of command))))
            whole (served db);
    }

-- A command at the leader: the request that the client builds is routed to the handler that puts the
-- command's entry in the log and in its file, and whatever store that entry is committed to, the client
-- is told the status that stands for the command's success or failure by that store's value at the
-- key, and the store then holds the value that the command says. The node has leader state, its next file operation
-- succeeds, the key is not empty, and the path is the one in the URL, which net/http does not redirect.
pub command_served :
    (decode_create : Option (List (String × String)) → Body KeyVal)
    (decode_update : Option (List (String × String)) → Body UpdateRequest)
    (path_of clean : String → String) (address : String) (command : Write) (c : Context)
    (s : ExternalState) (ls : LeaderState)
    → Network decode_create decode_update path_of address (key_of command)
    → s.node.env.leader_state ≡ some ls
    → (next_outcome s.node.disk.outcomes).0 ≡ true
    → key_of command ≢ ""
    → c.path ≡ path_of ((write_form command).url address)
    → clean c.path ≡ c.path
    → Accepted command c s (
        route clean c
          (write_form command).method
          (decode_create (write_form command).body)
          (decode_update (write_form command).body)
          s)
unfolding create_form update_form delete_form cas_form
command_served decode_create decode_update path_of clean address (create key value) c s ls net leads
      fine named path cleaned =
    let request : KeyVal = record { key = key; value = value } in
    accepts (handle_create (decoded request) c s.node) (after s) (after-ok s)
      (route_create clean c "POST" _ _ s cleaned (path ∙ net.collection)
        ∙ ap (λ r. after s (handle_create r c s.node)) (net.creates key value))
      (λ db. handle_create-Serves request c s.node ls db leads fine)
command_served decode_create decode_update path_of clean address (update key value) c s ls net leads
      fine named path cleaned =
    let under = path ∙ net.entry_path in
    let key_found = (entry_key_exact c.path key).1 (under, named) in
    accepts (handle_update_or_cas (decoded (record { prev_value = none; value = value })) c s.node)
      (after s) (after-ok s)
      (route_entry clean c "PUT" key _ _ s cleaned under
        ∙ entry_put c _ s
        ∙ ap (λ r. after s (handle_update_or_cas r c s.node)) (net.updates value))
      (λ db. handle_update_or_cas-Serves none value key c s.node ls db leads fine key_found)
command_served decode_create decode_update path_of clean address (delete key) c s ls net leads fine
      named path cleaned =
    let under = path ∙ net.entry_path in
    let key_found = (entry_key_exact c.path key).1 (under, named) in
    accepts (handle_delete c s.node) (after s) (after-ok s)
      (route_entry clean c "DELETE" key _ _ s cleaned under ∙ entry_delete c _ s)
      (λ db. handle_delete-Serves key c s.node ls db leads fine key_found)
command_served decode_create decode_update path_of clean address (cas key prev_val new_val) c s ls
      net leads fine named path cleaned =
    let under = path ∙ net.entry_path in
    let key_found = (entry_key_exact c.path key).1 (under, named) in
    accepts
      (handle_update_or_cas (decoded (record { prev_value = some prev_val; value = new_val })) c
        s.node)
      (after s) (after-ok s)
      (route_entry clean c "PUT" key _ _ s cleaned under
        ∙ entry_put c _ s
        ∙ ap (λ r. after s (handle_update_or_cas r c s.node)) (net.compares prev_val new_val))
      (λ db.
        handle_update_or_cas-Serves (some prev_val) new_val key c s.node ls db leads fine key_found)
