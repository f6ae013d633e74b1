-- ===== src/Lww/Server.antt =====
-- 3/server/server.go: the HTTP handlers of a replica and the broadcast to the other replicas.
pub mod Paths
pub mod Retry
use mathlib.Core.List.{flat_map}
use tors_hw.Base.{
  ℕ, ◌+◌, ◌/◌, String, Bool, true, false, ◌&&◌, List, [], ◌∷◌, ◌++◌, map, Exec, Result, ok, err,
  Fault, panic, Body, unreadable, malformed, decoded, Response, untouched, bad_request, plain,
  key_value, nothing, if◌then◌else◌, str_eq, ◌==◌, has_prefix, trim_prefix, continue,
}
use tors_hw.Lww.Clock.{TTimestamp, TClock, new_ts}
use tors_hw.Lww.Db
use tors_hw.Lww.Db.{TVal, TDb}

pub record TState : Type 0 where
  pub config : List String
  pub db : TDb
  pub clock : TClock

unfoldable pub get_key : String → String × Bool
get_key path =
    if has_prefix path "/get/"
    then (let key = trim_prefix path "/get/" in if str_eq key "" then ("", false) else (key, true))
    else ("", false)

pub record PatchEntry : Type 0 where
  pub key : String
  pub val : String

pub record DeleteEntry : Type 0 where
  pub key : String

pub record BroadcastRequest : Type 0 where
  pub key : String
  pub val : TVal

-- A goroutine that is started: which node it sends to, and what.
pub record Send : Type 0 where
  pub node : String
  pub request : BroadcastRequest

unfoldable pub broadcast_to_all : List String → String → TVal → List Send
broadcast_to_all config key entry =
    map (λ node. record { node = node; request = record { key = key; val = entry } }) config

-- The loops over the decoded entries.
unfoldable pub patch_sends : List String → TTimestamp → List PatchEntry → List Send
unfolding broadcast_to_all
patch_sends config ts [] = []
patch_sends config ts (entry ∷ rest) =
    broadcast_to_all config entry.key (record { val = entry.val; ts = ts; deleted = false })
    ++ patch_sends config ts rest

unfoldable pub delete_sends : List String → TTimestamp → List DeleteEntry → List Send
unfolding broadcast_to_all
delete_sends config ts [] = []
delete_sends config ts (entry ∷ rest) =
    broadcast_to_all config entry.key (record { val = ""; ts = ts; deleted = true })
    ++ delete_sends config ts rest

unfoldable pub handle_patch : Body (List PatchEntry) → TState → TState × Response × List Send
unfolding patch_sends new_ts
handle_patch unreadable state = (state, untouched, [])
handle_patch malformed state = (state, bad_request, [])
handle_patch (decoded entries) state =
    let (clock, ts) = new_ts state.clock in
    (record state { clock = clock }, untouched, patch_sends state.config ts entries)

unfoldable pub handle_delete : Body (List DeleteEntry) → TState → TState × Response × List Send
unfolding delete_sends new_ts
handle_delete unreadable state = (state, untouched, [])
handle_delete malformed state = (state, bad_request, [])
handle_delete (decoded entries) state =
    let (clock, ts) = new_ts state.clock in
    (record state { clock = clock }, untouched, delete_sends state.config ts entries)

abbrev pub not_allowed : Response
not_allowed = record { status = 405; payload = nothing }

abbrev pub not_found : Response
not_found = record { status = 404; payload = plain "Not found" }

-- The body is decoded by the handler of the method, so it comes in both readings.
unfoldable pub handle_change :
    String
    → Body (List PatchEntry)
    → Body (List DeleteEntry)
    → TState
    → TState × Response × List Send
unfolding handle_patch handle_delete
handle_change method patch deletion state =
    if str_eq method "PATCH"
    then handle_patch patch state
    else if str_eq method "DELETE"
    then handle_delete deletion state
    else (state, not_allowed, [])

get_reply : String → String × Bool → Response
get_reply key (val, true) = record { status = 200; payload = key_value key val }
get_reply key (val, false) = not_found

get_response : String × Bool → TState → Response
unfolding get_reply Db.get
get_response (key, true) state = get_reply key (Db.get key state.db)
get_response (key, false) state = not_found

unfoldable pub handle_get : String → TState → Response
unfolding get_response get_key
handle_get path state = get_response (get_key path) state

-- The write that a broadcast asks for.
unfoldable pub apply_request : BroadcastRequest → Exec TDb (Unit {0})
unfolding Db.put Db.delete
apply_request request db =
    if request.val.deleted
    then Db.delete request.key request.val.ts db
    else Db.put request.key request.val.val request.val.ts db

unfoldable pub handle_broadcast : Body BroadcastRequest → Exec TDb Response
unfolding apply_request
handle_broadcast unreadable db = (ok untouched, db)
handle_broadcast malformed db = (ok bad_request, db)
handle_broadcast (decoded request) db =
    continue (λ _ db'. (ok untouched, db')) (apply_request request db)

-- How one attempt of `broadcastToNode` ends: `Do` returns an error, or a response with a status.
pub data Attempt : Type 0 where
  transport_error : Attempt
  status : ℕ → Attempt

-- On an error `resp` is nil, and `resp.Body.Close()` is a nil dereference.
unfoldable pub try_func : Attempt → Result Bool
try_func transport_error = err panic
try_func (status code) = ok (code / 100 == 2)

-- The loop over the attempts' outcomes, with the number of attempts made; `none_left` when the
-- given outcomes end before the loop does.
pub data Broadcast : Type 0 where
  delivered : ℕ → Broadcast
  crashed : ℕ → Broadcast
  none_left : ℕ → Broadcast

after_try : ℕ → Result Bool → Broadcast → Broadcast
after_try tries (err f) next = crashed tries
after_try tries (ok true) next = delivered tries
after_try tries (ok false) next = next

unfoldable pub broadcast_to_node : ℕ → List Attempt → Broadcast
unfolding after_try try_func
broadcast_to_node num_tries [] = none_left num_tries
broadcast_to_node num_tries (attempt ∷ later) =
    after_try (num_tries + 1) (try_func attempt) (broadcast_to_node (num_tries + 1) later)
