-- ===== src/Raft/Wal/Codec.antt =====
-- The bytes of the log's file: `SerializeEntry`, `DeserializeEntry` and `NewLog` of 2/server/log.go.
-- encoding/json is a parameter: `marshal` gives the bytes of an entry, `unmarshal` the entry of
-- bytes, or none where it returns an error.
pub mod RoundTrip
pub mod Torn
pub mod Ends
use tors_hw.Base.{
  ℕ, zero, suc, ◌+◌, ◌-◌, ◌*◌, ◌/◌, ◌%◌, Bool, true, false, not, Option, none, some, List, [], ◌∷◌,
  ◌++◌, ◌==◌, leb, if◌then◌else◌, length, take, drop, min,
}
use tors_hw.Raft.Log.{LogEntry, sentinel}

-- `binary.LittleEndian.PutUint32` of `uint32(x)`, and `Uint32`.
abbrev pub put_uint32 : ℕ → List ℕ
put_uint32 x = (x % 256) ∷ (x / 256 % 256) ∷ (x / 65536 % 256) ∷ (x / 16777216 % 256) ∷ []

abbrev pub uint32 : List ℕ → ℕ
uint32 (a ∷ b ∷ c ∷ d ∷ []) = a + 256 * b + 65536 * c + 16777216 * d
uint32 other = 0

-- What a call of `DeserializeEntry` or `NewLog` may return as its error.
pub data LoadError : Type 0 where
  eof corrupted bad_json unopened undumped : LoadError

-- `Read` of a file of which `rest` is left, into `k` bytes: io.EOF where nothing is left, and else
-- as much as there is, up to `k`.
pub record Chunk : Type 0 where
  pub bytes : List ℕ
  pub rest : List ℕ
  pub at_end : Bool

abbrev pub read : ℕ → List ℕ → Chunk
read zero rest = record { bytes = []; rest = rest; at_end = false }
read (suc k) [] = record { bytes = []; rest = []; at_end = true }
read (suc k) (b ∷ rest) = record {
  bytes = take (suc k) (b ∷ rest);
  rest = drop (suc k) (b ∷ rest);
  at_end = false;
}

pub data Outcome : Type 0 where
  fails : LoadError → Outcome
  gives : LogEntry → Outcome

-- The number of bytes read, what is left of the file, and the entry or an error.
pub record Deserialized : Type 0 where
  pub n : ℕ
  pub rest : List ℕ
  pub outcome : Outcome

abbrev pub failed_at : ℕ → List ℕ → LoadError → Deserialized
failed_at n rest e = record { n = n; rest = rest; outcome = fails e }

-- `json.Unmarshal` of the bytes.
unfoldable pub decode : ℕ → Option LogEntry → List ℕ → Deserialized
decode n none rest = failed_at n rest bad_json
decode n (some entry) rest = record { n = n; rest = rest; outcome = gives entry }

module _ (unmarshal : List ℕ → Option LogEntry) where
  -- What follows the read of the length.
  unfoldable pub deserialize_body : ℕ → Chunk → Deserialized
  deserialize_body entry_len c =
      if c.at_end
      then failed_at (4 + length c.bytes) c.rest eof
      else if not (length c.bytes == entry_len)
      then failed_at (4 + length c.bytes) c.rest corrupted
      else decode (4 + length c.bytes) (unmarshal c.bytes) c.rest

  unfoldable pub deserialize_header : Chunk → Deserialized
  deserialize_header c =
      if c.at_end
      then failed_at (length c.bytes) c.rest eof
      else if not (length c.bytes == 4)
      then failed_at (length c.bytes) c.rest corrupted
      else deserialize_body (uint32 c.bytes) (read (uint32 c.bytes) c.rest)

  unfoldable pub deserialize_entry : List ℕ → Deserialized
  deserialize_entry rest = deserialize_header (read 4 rest)

-- How `NewLog` ends: the entries, with the offset at which it asks for the file to be truncated if
-- it does; or an error; or a panic. `out_of_fuel` is no result of the code.
pub data Loaded : Type 0 where
  loaded : List LogEntry → Option ℕ → Loaded
  failed : LoadError → Loaded
  panicked : Loaded
  out_of_fuel : Loaded

-- How the file is found: missing, with whether `DumpLog` creates its new file and whether it renames
-- it; not to be opened; or with these bytes.
pub data LogFile : Type 0 where
  missing : Bool → Bool → LogFile
  cannot_open : LogFile
  holds : List ℕ → LogFile

-- What the loop does with the outcome of a call, and with the rest of its rounds.
unfoldable pub round_ends : List LogEntry → ℕ → ℕ → LoadError → Loaded
round_ends entries offset n eof = if n == 0 then loaded entries none else failed eof
round_ends entries offset n corrupted = loaded entries (some offset)
round_ends entries offset n e = failed e

unfoldable pub after_round : Outcome → List LogEntry → ℕ → ℕ → (LogEntry → Loaded) → Loaded
after_round (fails e) entries offset n goes_on = round_ends entries offset n e
after_round (gives entry) entries offset n goes_on = goes_on entry

module _ (unmarshal : List ℕ → Option LogEntry) where
  -- The loop, in at most so many rounds.
  unfoldable pub load : ℕ → List ℕ → List LogEntry → ℕ → Loaded
  load zero rest entries offset = out_of_fuel
  load (suc fuel) rest entries offset =
      let d = deserialize_entry unmarshal rest in
      after_round d.outcome entries offset d.n
        (λ entry. load fuel d.rest (entries ++ entry ∷ []) (offset + d.n))

  -- `NewLog`. A missing file is dumped, and as there are no entries behind the first, none is
  -- written; where no file can be created the dump panics, as in `dump_log`.
  unfoldable pub new_log : LogFile → Loaded
  new_log (missing false renamed) = panicked
  new_log (missing true false) = failed undumped
  new_log (missing true true) = loaded (sentinel ∷ []) none
  new_log cannot_open = failed unopened
  new_log (holds bytes) = load (suc (length bytes)) bytes (sentinel ∷ []) 0

module _ (marshal : LogEntry → List ℕ) where
  unfoldable pub serialize_entry : LogEntry → List ℕ
  serialize_entry entry = put_uint32 (length (marshal entry)) ++ marshal entry

  -- The file of a log, entry after entry.
  abbrev pub file_of : List LogEntry → List ℕ
  file_of [] = []
  file_of (e ∷ es) = serialize_entry e ++ file_of es
