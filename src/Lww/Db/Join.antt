-- ===== src/Lww/Db/Join.antt =====
-- A write as a join: the storage keeps, for each key, the write with the larger timestamp.
use tors_hw.Base.{
  ◌≡◌, ◌≢◌, ap, fun_ext, inl, inr, String, Option, none, some, GoMap, store, arith, str_eq, eq_iff,
  if◌then◌else◌, ltb_ℤ, pos, ok,
}
use tors_hw.Lww.Clock.{TTimestamp, compare}
use tors_hw.Lww.Clock.Order.{compare-eq, compare-swap, ≺_trans, compare-cases}
use tors_hw.Lww.Db.{TVal, TDb, write_over}

-- The newer of what is stored and a write; a stored value stays on a tie.
abbrev pub join : Option TVal → TVal → Option TVal
join none new = some new
join (some old) new = if ltb_ℤ (compare old.ts new.ts) (pos 0) then some new else some old

-- The storage after a write to `key`.
abbrev pub join_at : GoMap TVal → String → TVal → GoMap TVal
join_at m key new j = if str_eq key j then join (m j) new else m j

-- No write with this very timestamp is stored.
abbrev pub Fresh : Option TVal → TTimestamp → Type 0
Fresh none ts = Unit
Fresh (some old) ts = old.ts ≢ ts

join_comm_some : (o a b : TVal) → a.ts ≢ b.ts → join (join (some o) a) b ≡ join (join (some o) b) a
join_comm_some o a b h = ground (
  arith,
  compare-cases o.ts a.ts,
  compare-cases o.ts b.ts,
  compare-cases a.ts b.ts,
  compare-eq a.ts b.ts,
  compare-eq o.ts a.ts,
  compare-eq o.ts b.ts,
  compare-swap a.ts b.ts,
  compare-swap b.ts a.ts,
  ≺_trans o.ts a.ts b.ts,
  ≺_trans o.ts b.ts a.ts,
)

pub join_comm : (o : Option TVal) (a b : TVal) → a.ts ≢ b.ts → join (join o a) b ≡ join (join o b) a
join_comm none a b h = ground (
  arith,
  compare-cases a.ts b.ts,
  compare-eq a.ts b.ts,
  compare-swap a.ts b.ts,
  compare-swap b.ts a.ts,
)
join_comm (some o) a b h = join_comm_some o a b h

-- Writes to different keys, or with different timestamps, commute.
pub join_at_comm :
    (m : GoMap TVal) (j k : String) (a b : TVal)
    → (j ≡ k → a.ts ≢ b.ts)
    → join_at (join_at m j a) k b ≡ join_at (join_at m k b) j a
join_at_comm m j k a b h =
    fun_ext λ i. ground (arith, eq_iff j i, eq_iff k i, eq_iff j k, join_comm (m i) a b)

-- Storing what the join asks for, at the key that was looked up.
store-join :
    (m : GoMap TVal) (key : String) (new v : TVal)
    → join (m key) new ≡ some v
    → store m key v ≡ join_at m key new
store-join m key new v h = fun_ext λ j. ground (arith, eq_iff key j)

keep-join :
    (m : GoMap TVal) (key : String) (new : TVal) → join (m key) new ≡ m key → m ≡ join_at m key new
keep-join m key new h = fun_ext λ j. ground (arith, eq_iff key j)

write_over-none :
    (db : TDb) (key : String) (new : TVal)
    → db.storage key ≡ none
    → write_over none key new db ≡ (ok tt, record { storage = join_at db.storage key new })
unfolding write_over
write_over-none db key new e =
    ap (λ m. (ok tt, record { storage = m })) (store-join db.storage key new new (rw e))

write_over-some :
    (db : TDb) (key : String) (old new : TVal)
    → db.storage key ≡ some old
    → old.ts ≢ new.ts
    → write_over (some old) key new db ≡ (ok tt, record { storage = join_at db.storage key new })
unfolding write_over
write_over-some db key old new e h = elim (compare-cases old.ts new.ts) [
  | inl below ↦ rw below (
      ap (λ m. (ok tt, record { storage = m })) (store-join db.storage key new new (rw (e, below))))
  | inr (inl same) ↦ absurd (h ((compare-eq old.ts new.ts).0 same))
  | inr (inr above) ↦
      rw above
        (ap (λ m. (ok tt, record { storage = m })) (keep-join db.storage key new (rw (e, above))))
]

-- What a write does at any storage: it joins, unless its timestamp is taken.
pub write_over-Fresh :
    (db : TDb) (key : String) (new : TVal) (o : Option TVal)
    → db.storage key ≡ o
    → Fresh o new.ts
    → write_over o key new db ≡ (ok tt, record { storage = join_at db.storage key new })
write_over-Fresh db key new none e h = write_over-none db key new e
write_over-Fresh db key new (some old) e h = write_over-some db key old new e h
