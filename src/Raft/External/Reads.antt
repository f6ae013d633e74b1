-- ===== src/Raft/External/Reads.antt =====
-- The reads of 2/server/external.go, the choice of the next follower, and the dispatch of
-- `handleEntry`.
pub mod Follower
pub mod Answers
pub mod Routes
use Prim.Native.String.{◌++◌ as ◌+str◌}
use tors_hw.Base.{
  ℕ, zero, suc, ◌%◌, String, Bool, true, false, Option, none, some, List, Exec, Result, ok, err,
  panic, pure, raise, get_state, continue, ◌>>=◌, Body, Response, plain, entry, has_prefix, field,
  location, nothing, if◌then◌else◌, not, str_eq, ◌==◌, get_elem?, add_u64, length,
}
use tors_hw.Raft.Node.{Node}
use tors_hw.Raft.Db
use tors_hw.Raft.Db.{Db}
use tors_hw.Raft.External.{
  get_key, is_leader, Handled, now, waits, UpdateRequest, Context, handle_create,
  handle_update_or_cas, handle_delete, KeyVal,
}

-- `ExternalState`: what its handlers share, and the counter `roundRobin`.
pub record ExternalState : Type 0 where
  pub node : Node
  pub db : Db
  pub round_robin : ℕ

-- The loop of `chooseNextFollower`, in at most so many rounds: the index and the counter after it.
unfoldable pub next_index : ℕ → ℕ → ℕ → ℕ → Option (ℕ × ℕ)
next_index zero n node_id round_robin = none
next_index (suc rounds) n node_id round_robin =
    let later = next_index rounds n node_id (add_u64 round_robin 1) in
    if round_robin % n == node_id then later else some (round_robin % n, add_u64 round_robin 1)

-- The rounds that are enough: one more than two, since the counter may wrap.
abbrev pub enough_rounds : ℕ
enough_rounds = 3

unfoldable pub on_node : {A : Type 0} → Exec Node A → Exec ExternalState A
on_node m s = let (r, node) = m s.node in (r, record s { node = node })

-- A response, where the loop has chosen a node that is there. An index past the nodes panics; the
-- loop's not ending is `hangs`.
pub data Read : Type 0 where
  answered : Response → Read
  hangs : Read

redirect_to : Option String → String → Exec ExternalState Read
redirect_to none path = raise panic
redirect_to (some node) path =
    pure (answered (record { status = 303; payload = location (◌+str◌ node path) }))

redirect_chosen : Option (ℕ × ℕ) → Context → Exec ExternalState Read
unfolding redirect_to
redirect_chosen none c s = (ok hangs, s)
redirect_chosen (some (index, round_robin)) c s =
    redirect_to (get_elem? c.nodes index) c.path (record s { round_robin = round_robin })

-- `redirectToFollower`
unfoldable pub redirect_to_follower : Context → Exec ExternalState Read
unfolding redirect_chosen
redirect_to_follower c s =
    redirect_chosen (next_index enough_rounds (length c.nodes) c.node_id s.round_robin) c s

get_reply : String → String × Bool → Response
get_reply key (val, true) = record { status = 200; payload = entry key val }
get_reply key (val, false) = record { status = 404; payload = field "error" "Key not found" }

unfoldable pub get_response : String × Bool → Db → Response
unfolding get_reply Db.get
get_response (key, true) db = get_reply key (Db.get key db)
get_response (key, false) db = record { status = 404; payload = plain "Not found" }

-- `handleGet`
unfoldable pub handle_get : Context → Exec ExternalState Read
unfolding on_node get_response
handle_get c = do
  leader ← on_node is_leader
  s ← get_state
  if leader then redirect_to_follower c else pure (answered (get_response (get_key c.path) s.db))

-- What `handleEntry` does: an answer, a wait for a status, or no return.
pub data Entered : Type 0 where
  replied : Read → Entered
  handled : Handled → Entered

unfoldable pub handle_entry : String → Body UpdateRequest → Context → Exec ExternalState Entered
unfolding on_node
handle_entry method body c =
    if str_eq method "GET"
    then (do read ← handle_get c; pure (replied read))
    else if str_eq method "PUT"
    then (do done ← on_node (handle_update_or_cas body c); pure (handled done))
    else if str_eq method "DELETE"
    then (do done ← on_node (handle_delete c); pure (handled done))
    else pure (replied (answered (record { status = 405; payload = nothing })))

-- The routes of `NewExtServer`: one path, and the paths under it. `clean` is the cleaning of paths of
-- net/http, a parameter: its ServeMux redirects a path that cleaning changes, as it does with repeated
-- slashes and dot segments. What it answers itself, redirects and other paths, is `none`.
unfoldable pub route :
    (String → String)
    → Context
    → String
    → Body KeyVal
    → Body UpdateRequest
    → Exec ExternalState (Option Entered)
unfolding on_node
route clean c method create body =
    if not (str_eq (clean c.path) c.path)
    then pure none
    else if str_eq c.path "/entry"
    then (do done ← on_node (handle_create create c); pure (some (handled done)))
    else if has_prefix c.path "/entry/"
    then (do entered ← handle_entry method body c; pure (some entered))
    else pure none
