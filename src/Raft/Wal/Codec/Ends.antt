-- ===== src/Raft/Wal/Codec/Ends.antt =====
-- `NewLog` comes to an end for every file: each round of its loop reads a header of four bytes at least.
use tors_hw.Base.{
  ℕ, zero, suc, ◌+◌, ◌<◌, ◌≤◌, ◌≡◌, ◌⊎◌, inl, inr, refl, Bool, true, false, Option, List, [], ◌∷◌,
  ◌++◌, ◌==◌, length, length-take, length-drop, Bool-cases, arith,
}
use tors_hw.Raft.Log.{LogEntry, sentinel}
use tors_hw.Raft.Wal.Codec.{
  uint32, LoadError, eof, corrupted, bad_json, unopened, undumped, Chunk, read, Outcome, fails,
  gives, decode, deserialize_body, deserialize_header, deserialize_entry, Loaded, loaded, failed,
  panicked, out_of_fuel, round_ends, after_round, load, LogFile, missing, cannot_open, holds,
  new_log,
}

read-length : (k : ℕ) (l : List ℕ) → length (read k l).rest + length (read k l).bytes ≡ length l
read-length zero l = omega arith
read-length (suc k) [] = refl
read-length (suc k) (b ∷ l) =
    omega (arith, length-drop (suc k) (b ∷ l), length-take (suc k) (b ∷ l))

module _ (unmarshal : List ℕ → Option LogEntry) where
  body_leaves :
      (n : ℕ) (c : Chunk) (e : LogEntry)
      → (deserialize_body unmarshal n c).outcome ≡ gives e
      → (deserialize_body unmarshal n c).rest ≡ c.rest
  unfolding deserialize_body decode
  body_leaves n c e h = ground arith

  header_leaves :
      (c : Chunk) (e : LogEntry)
      → (deserialize_header unmarshal c).outcome ≡ gives e
      → length (deserialize_header unmarshal c).rest + 4 ≤ length c.rest + length c.bytes
  unfolding deserialize_header
  header_leaves c e h = ground (
    arith,
    body_leaves (uint32 c.bytes) (read (uint32 c.bytes) c.rest) e,
    read-length (uint32 c.bytes) c.rest,
  )

  deserialize_leaves :
      (l : List ℕ) (e : LogEntry)
      → (deserialize_entry unmarshal l).outcome ≡ gives e
      → length (deserialize_entry unmarshal l).rest + 4 ≤ length l
  unfolding deserialize_entry
  deserialize_leaves l e h = omega (arith, header_leaves (read 4 l) e h, read-length 4 l)

-- A call that returns: it does not panic, and does not run on.
abbrev pub Returns : Loaded → Type 0
Returns (loaded entries cut) = Unit
Returns (failed e) = Unit
Returns panicked = ⊥
Returns out_of_fuel = ⊥

round_ends-Returns :
    (entries : List LogEntry) (offset n : ℕ) (e : LoadError)
    → Returns (round_ends entries offset n e)
unfolding round_ends
round_ends-Returns entries offset n eof = elim (Bool-cases (n == 0)) [
  | inl none_read ↦ rw none_read tt
  | inr some_read ↦ rw some_read tt
]
round_ends-Returns entries offset n corrupted = tt
round_ends-Returns entries offset n bad_json = tt
round_ends-Returns entries offset n unopened = tt
round_ends-Returns entries offset n undumped = tt

after_round-Returns :
    (o : Outcome) (entries : List LogEntry) (offset n : ℕ) (goes_on : LogEntry → Loaded)
    → ((x : LogEntry) → o ≡ gives x → Returns (goes_on x))
    → Returns (after_round o entries offset n goes_on)
unfolding after_round
after_round-Returns (fails e) entries offset n goes_on h = round_ends-Returns entries offset n e
after_round-Returns (gives x) entries offset n goes_on h = h x refl

module _ (unmarshal : List ℕ → Option LogEntry) where
  pub load-Returns :
      (fuel : ℕ) (l : List ℕ) (entries : List LogEntry) (offset : ℕ)
      → length l < fuel
      → Returns (load unmarshal fuel l entries offset)
  unfolding load
  load-Returns zero l entries offset h = absurd (omega arith)
  load-Returns (suc fuel) l entries offset h =
      let d = deserialize_entry unmarshal l in
      after_round-Returns d.outcome entries offset d.n _ (λ x gave.
        load-Returns fuel (deserialize_entry unmarshal l).rest (entries ++ x ∷ [])
          (offset + (deserialize_entry unmarshal l).n)
          (omega (arith, deserialize_leaves unmarshal l x gave)))

  -- The call returns, with a log or with an error, in every case but one: whatever a file holds that is
  -- there, where it cannot be opened, and where it is missing and the dump gets its new file,
  -- whether or not that can be renamed. Where the file is missing and no new file can be created,
  -- the call panics.
  pub new_log-Returns :
      (file : LogFile)
      → Returns (new_log unmarshal file)
        ⊎ ((renamed : Bool) × (file ≡ missing false renamed) × (new_log unmarshal file ≡ panicked))
  unfolding new_log
  new_log-Returns (missing false renamed) = inr (renamed, refl, refl)
  new_log-Returns (missing true true) = inl tt
  new_log-Returns (missing true false) = inl tt
  new_log-Returns cannot_open = inl tt
  new_log-Returns (holds bytes) =
      inl (load-Returns (suc (length bytes)) bytes (sentinel ∷ []) 0 (omega arith))
