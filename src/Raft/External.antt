-- ===== src/Raft/External.antt =====
-- The handlers of 2/server/external.go that change the store, with `ApplyRequestSync` of
-- 2/server/env.go. Such a handler answers at once, or hands an entry to the log and waits for the
-- status that the store sends when the entry is committed.
pub mod Paths
pub mod Contract
pub mod Reads
use tors_hw.Base.{
  ℕ, ℤ, ◌==◌, String, Bool, true, false, Option, none, some, List, [], ◌∷◌, Exec, Result, ok, err,
  panic, pure, raise, get_state, put_state, ◌>>=◌, ◌>>◌, Body, unreadable, malformed, decoded,
  Response, untouched, bad_request, field, location, if◌then◌else◌, str_eq, has_prefix, trim_prefix,
  get_elem?,
}
use Prim.Native.String.{◌++◌ as ◌+str◌}
use tors_hw.Raft.Log
use tors_hw.Raft.Log.{LogEntry}
use tors_hw.Raft.Node.{Node, TEnv}
use tors_hw.Raft.Wal.{append}

unfoldable pub get_key : String → String × Bool
get_key path =
    if has_prefix path "/entry/"
    then (let key = trim_prefix path "/entry/" in
        if str_eq key "" then ("", false) else (key, true))
    else ("", false)

-- `isLeader`
unfoldable pub is_leader : Exec Node Bool
is_leader s = (ok (elim s.env.leader_state [ none ↦ false | some _ ↦ true ]), s)

-- What a handler does: it answers, or waits for a status and then answers.
pub data Handled : Type 0 where
  now : Response → Handled
  waits : (Bool → Response) → Handled

-- `Signal` of the alert: the channel holds one token.
unfoldable pub signal : Exec Node (Unit {0})
signal s = (ok tt, record s { env = record (s.env) { alert = true } })

-- `ApplyRequestSync` up to the wait; the entry has no term, and `channel` is new.
unfoldable pub apply_request_sync : ℤ → String → String → String → ℕ → Exec Node (Unit {0})
unfolding signal
apply_request_sync op key value prev_value channel = do
  append (record {
    term = 0;
    op = op;
    key = key;
    prev_value = prev_value;
    value = value;
    status_chan = some channel;
  })
  signal

-- The draws of rand.Intn up to one that is not the node itself; none where they end before.
unfoldable pub random_other : ℕ → List ℕ → Option ℕ
random_other node_id [] = none
random_other node_id (draw ∷ later) =
    let rest = random_other node_id later in if draw == node_id then rest else some draw

-- `getLeaderOrRandom`, by the addresses of the nodes.
unfoldable pub leader_or_random : ℕ → List String → List ℕ → Option ℕ → Option String
leader_or_random node_id nodes draws (some leader) = get_elem? nodes leader
leader_or_random node_id nodes draws none = elim (random_other node_id draws) [
  | none ↦ none
  | some other ↦ get_elem? nodes other
]

pub record KeyVal : Type 0 where
  pub key : String
  pub value : String

pub record UpdateRequest : Type 0 where
  pub prev_value : Option String
  pub value : String

-- What a handler knows of its node and of its request: the node's index, the nodes' addresses, the
-- draws for a redirect, the path, and the channel of the entry.
pub record Context : Type 0 where
  pub node_id : ℕ
  pub nodes : List String
  pub draws : List ℕ
  pub path : String
  pub channel : ℕ

redirect : Option String → String → Exec Node Handled
redirect none path = raise panic
redirect (some node) path =
    pure (now (record { status = 307; payload = location (◌+str◌ node path) }))

unfoldable pub redirect_to_leader : Context → Exec Node Handled
unfolding redirect
redirect_to_leader c = do
  s ← get_state
  redirect (leader_or_random c.node_id c.nodes c.draws s.env.leader_id) c.path

unfoldable pub create_reply : Bool → Response
create_reply true = record { status = 201; payload = field "message" "Entry created successfully" }
create_reply false = record { status = 409; payload = field "error" "Entry already exists" }

unfoldable pub update_reply : Bool → Response
update_reply true = record { status = 200; payload = field "message" "Entry updated successfully" }
update_reply false = record { status = 404; payload = field "error" "Entry not found" }

unfoldable pub delete_reply : Bool → Response
delete_reply true = record { status = 200; payload = field "message" "Entry deleted successfully" }
delete_reply false = record { status = 404; payload = field "error" "Entry not found" }

unfoldable pub create_body : Body KeyVal → ℕ → Exec Node Handled
create_body unreadable channel = pure (now untouched)
create_body malformed channel = pure (now bad_request)
create_body (decoded request) channel = do
  apply_request_sync Log.create request.key request.value "" channel
  pure (waits create_reply)

unfoldable pub handle_create : Body KeyVal → Context → Exec Node Handled
unfolding create_body
handle_create body c = do
  leader ← is_leader
  if leader then create_body body c.channel else redirect_to_leader c

-- The entry of an update: a comparison where a previous value is named.
unfoldable pub apply_update : UpdateRequest → String → ℕ → Exec Node (Unit {0})
apply_update request key channel = elim request.prev_value [
  | some prev ↦ apply_request_sync Log.cas key request.value prev channel
  | none ↦ apply_request_sync Log.update key request.value "" channel
]

unfoldable pub update_key : UpdateRequest → String × Bool → ℕ → Exec Node Handled
update_key request (key, false) channel = pure (now (update_reply false))
update_key request (key, true) channel = do
  apply_update request key channel
  pure (waits update_reply)

unfoldable pub update_body : Body UpdateRequest → Context → Exec Node Handled
unfolding update_key
update_body unreadable c = pure (now untouched)
update_body malformed c = pure (now bad_request)
update_body (decoded request) c = update_key request (get_key c.path) c.channel

unfoldable pub handle_update_or_cas : Body UpdateRequest → Context → Exec Node Handled
unfolding update_body
handle_update_or_cas body c = do
  leader ← is_leader
  if leader then update_body body c else redirect_to_leader c

unfoldable pub delete_key : String × Bool → ℕ → Exec Node Handled
delete_key (key, false) channel = pure (now (delete_reply false))
delete_key (key, true) channel = do
  apply_request_sync Log.delete key "" "" channel
  pure (waits delete_reply)

unfoldable pub handle_delete : Context → Exec Node Handled
unfolding delete_key
handle_delete c = do
  leader ← is_leader
  if leader then delete_key (get_key c.path) c.channel else redirect_to_leader c
