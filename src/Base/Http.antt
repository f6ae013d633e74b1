-- ===== src/Base/Http.antt =====
-- What net/http and encoding/json hand to a handler, and the answer that it gives.
use Prim.Native.Nat.{ℕ}
use Prim.Native.String.{String}

-- The request's body: `io.ReadAll` fails, `json.Unmarshal` fails, or a value is decoded.
pub data Body {ℓ} (A : Type ℓ) : Type ℓ where
  unreadable : Body A
  malformed : Body A
  decoded : A → Body A

-- What is written under the status line.
pub data Payload : Type 0 where
  nothing : Payload
  plain : String → Payload
  decode_error : Payload
  key_value : String → String → Payload
  field : String → String → Payload
  entry : String → String → Payload
  location : String → Payload

-- A handler that returns before it writes answers 200 with nothing.
pub record Response : Type 0 where
  pub status : ℕ
  pub payload : Payload

abbrev pub untouched : Response
untouched = record { status = 200; payload = nothing }

-- http.Error(w, fmt.Sprint(err), 400)
abbrev pub bad_request : Response
bad_request = record { status = 400; payload = decode_error }
