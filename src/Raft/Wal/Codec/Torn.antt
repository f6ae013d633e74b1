-- ===== src/Raft/Wal/Codec/Torn.antt =====
-- A write of an entry that did not reach the file whole.
use tors_hw.Base.{
  ℕ, zero, suc, ◌<◌, ◌≤◌, ◌≡◌, refl, ◌∙◌, true, false, Option, some, List, [], ◌∷◌, ◌++◌, map, ◌==◌,
  if◌then◌else◌, length, length-take, take_all, take, drop, All, arith,
}
use tors_hw.Raft.Log.{LogEntry, sentinel}
use tors_hw.Raft.Wal.{on_disk}
use tors_hw.Raft.Wal.Codec.{
  put_uint32, eof, corrupted, read, fails, failed_at, deserialize_body, deserialize_header,
  deserialize_entry, loaded, failed, round_ends, after_round, load, holds, new_log, serialize_entry,
  file_of,
}
use tors_hw.Raft.Wal.Codec.RoundTrip.{Encodes, uint32-put_uint32, new_log-file_of}

drop_all : (n : ℕ) (l : List ℕ) → length l ≤ n → drop n l ≡ []
drop_all zero [] h = refl
drop_all zero (x ∷ l) h = absurd (omega arith)
drop_all (suc n) [] h = refl
drop_all (suc n) (x ∷ l) h = drop_all n l (omega arith)

-- A read of all that there is, or of more.
read-all :
    (n : ℕ) (l : List ℕ)
    → 0 < length l
    → length l ≤ n
    → read n l ≡ record { bytes = l; rest = []; at_end = false }
read-all n [] p h = absurd (omega arith)
read-all zero (x ∷ l) p h = absurd (omega arith)
read-all (suc n) (x ∷ l) p h = rw (take_all n l (omega arith), drop_all n l (omega arith))

module _ (marshal : LogEntry → List ℕ) (unmarshal : List ℕ → Option LogEntry) where
  -- Behind a whole header, some of the bytes.
  torn_body :
      (e : LogEntry) (j : ℕ)
      → Encodes marshal unmarshal e
      → 0 < j
      → j < length (marshal e)
      → (deserialize_entry unmarshal
          (put_uint32 (length (marshal e)) ++ take j (marshal e))).outcome
        ≡ fails corrupted
  unfolding deserialize_entry deserialize_header deserialize_body
  torn_body e j h p q =
      let size : length (take j (marshal e)) ≡ j = omega (arith, length-take j (marshal e)) in
      let short : (length (take j (marshal e)) == length (marshal e)) ≡ false = ground arith in
      rw (
        uint32-put_uint32 (length (marshal e)) h.fits,
        read-all (length (marshal e)) (take j (marshal e)) (omega arith) (omega arith),
        short,
      )

  -- A whole header with nothing behind it.
  torn_header :
      (e : LogEntry)
      → Encodes marshal unmarshal e
      → deserialize_entry unmarshal (put_uint32 (length (marshal e))) ≡ failed_at 4 [] eof
  unfolding deserialize_entry deserialize_header deserialize_body
  torn_header e h =
      rw
        (uint32-put_uint32 (length (marshal e)) h.fits, read-none (length (marshal e)) h.some_bytes)
    where
      read-none : (n : ℕ) → 0 < n → read n [] ≡ record { bytes = []; rest = []; at_end = true }
      read-none zero p = absurd (omega arith)
      read-none (suc n) p = refl

  -- What is found in place of an entry of which the first `k` bytes were written.
  torn :
      (e : LogEntry) (k more : ℕ) (entries : List LogEntry) (offset : ℕ)
      → Encodes marshal unmarshal e
      → 0 < k
      → k < length (serialize_entry marshal e)
      → load unmarshal (suc more) (take k (serialize_entry marshal e)) entries offset
        ≡ (if k == 4 then failed eof else loaded entries (some offset))
  unfolding load serialize_entry round_ends after_round
  torn e zero more entries offset h p q = absurd (omega arith)
  torn e (suc zero) more entries offset h p q = unfold deserialize_entry deserialize_header in refl
  torn e (suc (suc zero)) more entries offset h p q =
      unfold deserialize_entry deserialize_header in refl
  torn e (suc (suc (suc zero))) more entries offset h p q =
      unfold deserialize_entry deserialize_header in refl
  torn e (suc (suc (suc (suc zero)))) more entries offset h p q = rw (torn_header e h)
  torn e (suc (suc (suc (suc (suc j))))) more entries offset h p q =
      let not_four : (suc (suc (suc (suc (suc j)))) == 4) ≡ false = ground arith in
      rw (torn_body e (suc j) h (omega arith) (omega arith), not_four)

  -- A file whose last entry was only begun: where four bytes of it were written, which is the
  -- header alone, the start fails; else it finds the entries before, and asks for the file to be
  -- truncated behind them. Each entry has some bytes in JSON, fewer than 2^32, that decode to it.
  pub new_log_torn :
      (es : List LogEntry) (e : LogEntry) (k : ℕ)
      → All (Encodes marshal unmarshal) es
      → Encodes marshal unmarshal e
      → 0 < k
      → k < length (serialize_entry marshal e)
      → new_log unmarshal (holds (file_of marshal es ++ take k (serialize_entry marshal e))) ≡ (
          if k == 4
          then failed eof
          else loaded (sentinel ∷ map on_disk es) (some (length (file_of marshal es))))
  new_log_torn es e k hs h p q =
      let (more, _, runs) =
        new_log-file_of marshal unmarshal es (take k (serialize_entry marshal e)) hs in
      runs ∙ torn e k more (sentinel ∷ map on_disk es) (length (file_of marshal es)) h p q
