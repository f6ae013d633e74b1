-- ===== src/Lww/Server/Paths.antt =====
-- The keys that `getKey` of 3/server/server.go finds in a path, and what `HandleGet` answers.
use Prim.Native.String.{◌++◌ as ◌+str◌}
use tors_hw.Base.{
  ◌≡◌, ◌≢◌, ◌↔◌, refl, ap, ◌∙◌, String, true, Option, none, some, Response, key_value,
  if◌then◌else◌, arith, eq_iff, trim_prefix, has_prefix-append, trim_prefix-append,
  append-trim_prefix,
}
use tors_hw.Lww.Db
use tors_hw.Lww.Db.{TVal, answer}
use tors_hw.Lww.Server.{TState, get_key, get_reply, get_response, not_found, handle_get}

-- `get_key` accepts exactly the paths "/get/" followed by a key that is not empty, and returns
-- that key.
pub get_key_exact :
    (path key : String) → (get_key path ≡ (key, true)) ↔ ((path ≡ ◌+str◌ "/get/" key) × (key ≢ ""))
unfolding get_key
get_key_exact path key = (
  λ h. (
    ground (arith, append-trim_prefix path "/get/"),
    ground (arith, eq_iff (trim_prefix path "/get/") ""),
  ),
  λ h. ground (arith, has_prefix-append "/get/" key, trim_prefix-append "/get/" key, eq_iff key ""),
)

-- What the handler answers for a key, by what is stored there.
abbrev pub read_of : String → Option TVal → Response
read_of key none = not_found
read_of key (some v) =
    if v.deleted then not_found else record { status = 200; payload = key_value key v.val }

reply_by : (key : String) (o : Option TVal) → get_reply key (answer o) ≡ read_of key o
unfolding get_reply answer
reply_by key none = refl
reply_by key (some v) = ground arith

pub handle_get_reads :
    (key : String) (state : TState)
    → key ≢ ""
    → handle_get (◌+str◌ "/get/" key) state ≡ read_of key (state.db.storage key)
unfolding handle_get get_response Db.get
handle_get_reads key state named =
    ap (λ found. get_response found state)
      ((get_key_exact (◌+str◌ "/get/" key) key).1 (refl, named))
    ∙ reply_by key (state.db.storage key)
