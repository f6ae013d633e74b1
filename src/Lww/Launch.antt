-- ===== src/Lww/Launch.antt =====
-- The start of a replica: `main` of 3/server/main.go, and `NewServer` of 3/server/server.go with its
-- routes. The parameters are what `os.ReadFile` finds under a name, what `fmt.Sscanf` reads of the two
-- formats, `none` where the input does not match, and `fmt.Sprintf` of a number.
pub mod Exact
pub mod Routes
use Prim.Native.String.{◌++◌ as ◌+str◌}
use tors_hw.Base.{
  ℕ, ℤ, pos, negsuc, String, Bool, not, Option, none, some, List, [], Result, ok, err, Fault, panic,
  fatal, Body, Response, if◌then◌else◌, str_eq, has_prefix, get_elem?,
}
use tors_hw.Lww.Clock.{new_clock}
use tors_hw.Lww.Db.{TDb, new_db}
use tors_hw.Lww.Config.{load_config_from_file}
use tors_hw.Lww.Server.{
  TState, PatchEntry, DeleteEntry, BroadcastRequest, Send, handle_change, handle_get,
  handle_broadcast,
}

-- A request as its handler may read it: each of the three decodes the body on its own.
pub record Incoming : Type 0 where
  pub path : String
  pub method : String
  pub patch : Body (List PatchEntry)
  pub deletion : Body (List DeleteEntry)
  pub broadcast : Body BroadcastRequest

-- What a request does: the answer or a fault, the state, and the goroutines that it starts.
pub record Served : Type 0 where
  pub response : Result Response
  pub state : TState
  pub sends : List Send

pub changed : TState × Response × List Send → Served
changed (state, response, sends) = record { response = ok response; state = state; sends = sends }

pub broadcast_done : TState → Result Response × TDb → Served
broadcast_done state (response, db) = record {
  response = response;
  state = record state { db = db };
  sends = [];
}

-- The routes of `NewServer`. `clean` is the cleaning of paths of net/http, a parameter: its ServeMux
-- redirects a path that cleaning changes, as it does with repeated slashes and dot segments. What it
-- answers itself, redirects and paths of no route, is `none`.
unfoldable pub serve : (String → String) → Incoming → TState → Option Served
unfolding changed broadcast_done
serve clean request state =
    if not (str_eq (clean request.path) request.path)
    then none
    else if str_eq request.path "/entries"
    then some (changed (handle_change request.method request.patch request.deletion state))
    else if has_prefix request.path "/get/"
    then some (record { response = ok (handle_get request.path state); state = state; sends = [] })
    else if str_eq request.path "/broadcast"
    then some (broadcast_done state (handle_broadcast request.broadcast state.db))
    else none

-- A replica that listens.
pub record Launched : Type 0 where
  pub state : TState
  pub addr : String

-- What `Sscanf` leaves in a variable that was zero.
unfoldable pub scanned : Option ℤ → ℤ
scanned none = pos 0
scanned (some i) = i

-- `config[id]` for an int: a negative index panics too.
unfoldable pub config_at : List String → ℤ → Option String
config_at config (pos n) = get_elem? config n
config_at config (negsuc n) = none

module _ (read : String → Option String) (scan_int scan_port : String → Option ℤ)
    (print : ℤ → String) where
  -- `NewServer`
  unfoldable pub new_server : List String → ℤ → ℤ → Launched
  new_server config id port = record {
    state = record { config = config; db = new_db; clock = new_clock id };
    addr = ◌+str◌ ":" (print port);
  }

  listen : List String → ℤ → Option String → Result Launched
  listen config id none = err panic
  listen config id (some own) = ok (new_server config id (scanned (scan_port own)))

  with_id : List String → Option String → Result Launched
  unfolding listen
  with_id config none = err panic
  with_id config (some field) =
      listen config (scanned (scan_int field)) (config_at config (scanned (scan_int field)))

  with_config : List String → Option (List String) → Result Launched
  unfolding with_id
  with_config args none = err fatal
  with_config args (some config) = with_id config (get_elem? args 2)

  with_file : List String → Option String → Result Launched
  unfolding with_config
  with_file args none = err panic
  with_file args (some file_name) = with_config args (load_config_from_file read file_name)

  -- `main` up to `ListenAndServe`, by `os.Args`.
  unfoldable pub main : List String → Result Launched
  unfolding with_file
  main args = with_file args (get_elem? args 1)
