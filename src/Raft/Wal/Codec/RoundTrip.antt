-- ===== src/Raft/Wal/Codec/RoundTrip.antt =====
-- What is written to the log's file is read back.
use mathlib.Core.List.{append-nil, append_assoc}
use tors_hw.Base.{
  ℕ, zero, suc, ◌+◌, ◌-◌, ◌<◌, ◌≤◌, ◌≡◌, refl, sym, ap, ◌∙◌, false, Option, none, some, List, [],
  ◌∷◌, ◌++◌, map, eq→==, length, length-append, take, drop, All, arith,
}
use tors_hw.Raft.Log.{LogEntry, sentinel}
use tors_hw.Raft.Wal.{on_disk}
use tors_hw.Raft.Wal.Codec.{
  put_uint32, uint32, read, gives, Deserialized, decode, deserialize_body, deserialize_header,
  deserialize_entry, loaded, round_ends, after_round, load, holds, new_log, serialize_entry,
  file_of,
}

pub uint32-put_uint32 : (x : ℕ) → x < 4294967296 → uint32 (put_uint32 x) ≡ x
uint32-put_uint32 x h = omega arith

take-length-append : (xs rest : List ℕ) → take (length xs) (xs ++ rest) ≡ xs
take-length-append [] rest = refl
take-length-append (x ∷ xs) rest = ap (λ l. x ∷ l) (take-length-append xs rest)

drop-length-append : (xs rest : List ℕ) → drop (length xs) (xs ++ rest) ≡ rest
drop-length-append [] rest = refl
drop-length-append (x ∷ xs) rest = drop-length-append xs rest

pub read-append :
    (xs rest : List ℕ)
    → 0 < length xs
    → read (length xs) (xs ++ rest) ≡ record { bytes = xs; rest = rest; at_end = false }
read-append [] rest h = absurd (omega arith)
read-append (x ∷ xs) rest h = rw (take-length-append xs rest, drop-length-append xs rest)

-- What the program relies on in encoding/json, for an entry: its bytes are there, their number
-- fits 32 bits, and they decode to what is kept of it.
pub record Encodes (marshal : LogEntry → List ℕ) (unmarshal : List ℕ → Option LogEntry)
    (e : LogEntry) : Type 0 where
  pub some_bytes : 0 < length (marshal e)
  pub fits : length (marshal e) < 4294967296
  pub decodes : unmarshal (marshal e) ≡ some (on_disk e)

module _ (marshal : LogEntry → List ℕ) (unmarshal : List ℕ → Option LogEntry) where
  pub deserialize-serialize :
      (e : LogEntry) (rest : List ℕ)
      → Encodes marshal unmarshal e
      → deserialize_entry unmarshal (serialize_entry marshal e ++ rest)
        ≡ record { n = 4 + length (marshal e); rest = rest; outcome = gives (on_disk e) }
  unfolding serialize_entry deserialize_entry deserialize_header deserialize_body decode
  deserialize-serialize e rest h = rw (
    uint32-put_uint32 (length (marshal e)) h.fits,
    read-append (marshal e) rest h.some_bytes,
    eq→== (length (marshal e)) (length (marshal e)) refl,
    h.decodes,
  )

  length-serialize_entry :
      (e : LogEntry) → length (serialize_entry marshal e) ≡ 4 + length (marshal e)
  unfolding serialize_entry
  length-serialize_entry e = omega arith

  -- A round for an entry.
  load-serialize :
      (e : LogEntry) (rest : List ℕ) (entries : List LogEntry) (offset fuel : ℕ)
      → Encodes marshal unmarshal e
      → load unmarshal (suc fuel) (serialize_entry marshal e ++ rest) entries offset
        ≡ load unmarshal fuel rest (entries ++ on_disk e ∷ []) (offset + (4 + length (marshal e)))
  unfolding load after_round
  load-serialize e rest entries offset fuel h =
      ap
        (λ (d : Deserialized).
          after_round d.outcome entries offset d.n
            (λ entry. load unmarshal fuel d.rest (entries ++ entry ∷ []) (offset + d.n)))
        (deserialize-serialize e rest h)

  -- A round for each entry.
  pub load-file_of :
      (es : List LogEntry) (rest : List ℕ) (entries : List LogEntry) (offset fuel more : ℕ)
      → All (Encodes marshal unmarshal) es
      → fuel ≡ length es + more
      → load unmarshal fuel (file_of marshal es ++ rest) entries offset
        ≡ load unmarshal more rest
            (entries ++ map on_disk es)
            (offset + length (file_of marshal es))
  load-file_of [] rest entries offset fuel more h f =
      let same : fuel ≡ more = omega arith in
      let still : offset + 0 ≡ offset = omega arith in rw (same, append-nil entries, still)
  load-file_of (e ∷ es) rest entries offset zero more h f = absurd (omega arith)
  load-file_of (e ∷ es) rest entries offset (suc fuel) more (here, h) f =
      let sizes : offset + (4 + length (marshal e)) + length (file_of marshal es)
          ≡ offset + length (serialize_entry marshal e ++ file_of marshal es) =
        omega (
          arith,
          length-append (serialize_entry marshal e) (file_of marshal es),
          length-serialize_entry e,
        ) in
      ap (λ l. load unmarshal (suc fuel) l entries offset)
        (append_assoc (serialize_entry marshal e) (file_of marshal es) rest)
      ∙ load-serialize e (file_of marshal es ++ rest) entries offset fuel here
      ∙ load-file_of es rest (entries ++ on_disk e ∷ []) (offset + (4 + length (marshal e))) fuel
          more h (omega arith)
      ∙ ap
          (λ l.
            load unmarshal more rest l
              (offset + (4 + length (marshal e)) + length (file_of marshal es)))
          (append_assoc entries (on_disk e ∷ []) (map on_disk es))
      ∙ ap (load unmarshal more rest (entries ++ on_disk e ∷ map on_disk es)) sizes

  length-le-file_of : (es : List LogEntry) → length es ≤ length (file_of marshal es)
  length-le-file_of [] = omega arith
  length-le-file_of (e ∷ es) = omega (
    arith,
    length-append (serialize_entry marshal e) (file_of marshal es),
    length-serialize_entry e,
    length-le-file_of es,
  )

  -- The loop over a file, and what is left behind its entries.
  pub new_log-file_of :
      (es : List LogEntry) (rest : List ℕ)
      → All (Encodes marshal unmarshal) es
      → (more : ℕ) × (length rest ≤ more)
        × (new_log unmarshal (holds (file_of marshal es ++ rest))
            ≡ load unmarshal
                (suc more)
                rest
                (sentinel ∷ map on_disk es)
                (length (file_of marshal es)))
  unfolding new_log
  new_log-file_of es rest h =
      let size = length-append (file_of marshal es) rest in
      let below = length-le-file_of es in
      (
        length (file_of marshal es ++ rest) - length es,
        omega arith,
        load-file_of es rest (sentinel ∷ []) 0 (suc (length (file_of marshal es ++ rest)))
              (suc (length (file_of marshal es ++ rest) - length es)) h (omega arith)
            ∙ ap
                (load unmarshal (suc (length (file_of marshal es ++ rest) - length es)) rest
                  (sentinel ∷ map on_disk es))
                (omega arith),
      )

  -- The start reads a file that was written entry by entry, and finds these entries behind the first,
  -- without their channels. Each entry has some bytes in JSON, fewer than 2^32, that decode to it.
  pub new_log_reads :
      (es : List LogEntry)
      → All (Encodes marshal unmarshal) es
      → new_log unmarshal (holds (file_of marshal es)) ≡ loaded (sentinel ∷ map on_disk es) none
  unfolding load deserialize_entry deserialize_header after_round round_ends
  new_log_reads es h =
      let (more, _, runs) = new_log-file_of es [] h in
      ap (λ l. new_log unmarshal (holds l)) (sym (append-nil (file_of marshal es))) ∙ runs
