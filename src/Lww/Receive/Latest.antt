-- ===== src/Lww/Receive/Latest.antt =====
-- The last writer wins: what a replica stores, after the broadcasts that it has handled.
use mathlib.Core.List.{Memᴰ}
use tors_hw.Base.{
  ◌≡◌, ◌⊎◌, inl, inr, refl, sym, subst, ap, ◌∙◌, List, [], ◌∷◌, ok, String, Option, none, some,
  GoMap, arith, eq_iff, str_eq, continue-ok, Bool-cases,
}
use tors_hw.Lww.Clock.{TTimestamp}
use tors_hw.Lww.Clock.Order.{◌≺◌, compare-eq, compare-swap, compare-cases, ≺_trans}
use tors_hw.Lww.Db.{TVal, TDb, new_db}
use tors_hw.Lww.Server.{BroadcastRequest, apply_request}
use tors_hw.Lww.Receive.{receive, stored}
use tors_hw.Lww.Receive.Joins.{ts-stored, apply_request-ok}
use tors_hw.Lww.Db.Join.{join, join_at}

-- At least as new.
infix 50 ◌≼◌
abbrev pub ◌≼◌ : TTimestamp → TTimestamp → Type 0
a ≼ b = (a ≡ b) ⊎ (a ≺ b)

-- The storage holds, at the key, something at least as new as `ts`.
abbrev pub Covers : TDb → String → TTimestamp → Type 0
Covers db key ts = (v : TVal) × (db.storage key ≡ some v) × (ts ≼ v.ts)

-- What is stored was asked for by one of the requests.
abbrev pub FromRequest : List BroadcastRequest → String → TVal → Type 0
FromRequest rs key v = (r : BroadcastRequest) × Memᴰ r rs × (r.key ≡ key) × (stored r ≡ v)

pub ≼_trans : (a b c : TTimestamp) → a ≼ b → b ≼ c → a ≼ c
≼_trans a b c h k = ground (arith, ≺_trans a b c)

-- The join keeps the newer.
join_newer : (o : Option TVal) (new : TVal) → (v : TVal) × (join o new ≡ some v) × (new.ts ≼ v.ts)
join_newer none new = (new, refl, inl refl)
join_newer (some old) new = elim (compare-cases old.ts new.ts) [
  | inl below ↦ (new, rw below, inl refl)
  | inr (inl same) ↦ (old, rw same, inl (sym ((compare-eq old.ts new.ts).0 same)))
  | inr (inr above) ↦ (old, rw above, inr ((compare-swap new.ts old.ts).1 above))
]

join_keeps : (old new : TVal) → (v : TVal) × (join (some old) new ≡ some v) × (old.ts ≼ v.ts)
join_keeps old new = elim (compare-cases old.ts new.ts) [
  | inl below ↦ (new, rw below, inr below)
  | inr (inl same) ↦ (old, rw same, inl refl)
  | inr (inr above) ↦ (old, rw above, inl refl)
]

join_at_newer :
    (m : GoMap TVal) (key : String) (new : TVal)
    → (v : TVal) × (join_at m key new key ≡ some v) × (new.ts ≼ v.ts)
join_at_newer m key new =
    let (v, e, l) = join_newer (m key) new in (v, rw ((eq_iff key key).1 refl) e, l)

join_at_keeps :
    (m : GoMap TVal) (key k : String) (new w : TVal)
    → m k ≡ some w
    → (v : TVal) × (join_at m key new k ≡ some v) × (w.ts ≼ v.ts)
join_at_keeps m key k new w e = elim (Bool-cases (str_eq key k)) [
  | inl same ↦ let (v, e', l) = join_keeps w new in (v, rw (same, e) e', l)
  | inr other ↦ (w, rw other e, inl refl)
]

pub apply_request-Covers :
    (r : BroadcastRequest) (db db' : TDb)
    → apply_request r db ≡ (ok tt, db')
    → Covers db' r.key r.val.ts
apply_request-Covers r db db' h =
    let (v, e, l) = join_at_newer db.storage r.key (stored r) in
    rw (apply_request-ok r db db' h) (v, e, subst (λ t. t ≼ v.ts) (ts-stored r) l)

pub apply_request-keeps :
    (r : BroadcastRequest) (db db' : TDb) (key : String) (ts : TTimestamp)
    → apply_request r db ≡ (ok tt, db')
    → Covers db key ts
    → Covers db' key ts
apply_request-keeps r db db' key ts h (w, e, l) =
    let (v, e', l') = join_at_keeps db.storage r.key key (stored r) w e in
    rw (apply_request-ok r db db' h) (v, e', ≼_trans ts w.ts v.ts l l')

receive-cons :
    (r : BroadcastRequest) (rs : List BroadcastRequest) (db db' : TDb)
    → receive (r ∷ rs) db ≡ (ok tt, db')
    → (db₁ : TDb) × (apply_request r db ≡ (ok tt, db₁)) × (receive rs db₁ ≡ (ok tt, db'))
unfolding receive
receive-cons r rs db db' h =
    let (a, db₁, first, later) = continue-ok (λ _. receive rs) (apply_request r db) h in
    (db₁, first, later)

receive-nil : (db db' : TDb) → receive [] db ≡ (ok tt, db') → db ≡ db'
unfolding receive
receive-nil db db' h = ap (λ t. t.1) h

receive-keeps :
    (rs : List BroadcastRequest) (db db' : TDb) (key : String) (ts : TTimestamp)
    → receive rs db ≡ (ok tt, db')
    → Covers db key ts
    → Covers db' key ts
receive-keeps [] db db' key ts h c = subst (λ d. Covers d key ts) (receive-nil db db' h) c
receive-keeps (r ∷ rs) db db' key ts h c =
    let (db₁, first, later) = receive-cons r rs db db' h in
    receive-keeps rs db₁ db' key ts later (apply_request-keeps r db db₁ key ts first c)

pub receive-Covers :
    (rs : List BroadcastRequest) (db db' : TDb) {r : BroadcastRequest}
    → receive rs db ≡ (ok tt, db')
    → Memᴰ r rs
    → Covers db' r.key r.val.ts
receive-Covers [] db db' h m = elim m [ ]
receive-Covers (a ∷ rs) db db' h (Memᴰ.head e) =
    let (db₁, first, later) = receive-cons a rs db db' h in
    rw e (receive-keeps rs db₁ db' a.key a.val.ts later (apply_request-Covers a db db₁ first))
receive-Covers (a ∷ rs) db db' h (Memᴰ.tail m) =
    let (db₁, first, later) = receive-cons a rs db db' h in receive-Covers rs db₁ db' later m

-- A join leaves the old value or the new one.
join_origin : (o : Option TVal) (new v : TVal) → join o new ≡ some v → (o ≡ some v) ⊎ (new ≡ v)
join_origin none new v h = inr (ground arith)
join_origin (some old) new v h = ground (arith, compare-cases old.ts new.ts)

join_at_origin :
    (m : GoMap TVal) (key k : String) (new v : TVal)
    → join_at m key new k ≡ some v
    → (m k ≡ some v) ⊎ ((key ≡ k) × (new ≡ v))
join_at_origin m key k new v h = ground (arith, eq_iff key k, join_origin (m k) new v)

receive_origin :
    (rs : List BroadcastRequest) (db db' : TDb) (key : String) (v : TVal)
    → receive rs db ≡ (ok tt, db')
    → db'.storage key ≡ some v
    → (db.storage key ≡ some v) ⊎ FromRequest rs key v
receive_origin [] db db' key v h e = inl (rw (receive-nil db db' h) e)
receive_origin (r ∷ rs) db db' key v h e =
    let (db₁, first, later) = receive-cons r rs db db' h in
    elim (receive_origin rs db₁ db' key v later e) [
      | inr (a, m, k, n) ↦ inr (a, Memᴰ.tail m, k, n)
      | inl stood ↦
          elim (join_at_origin db.storage r.key key (stored r) v
            (ap (λ d. d.storage key) (sym (apply_request-ok r db db₁ first)) ∙ stood)) [
              | inl old ↦ inl old
              | inr (k, n) ↦ inr (r, Memᴰ.head refl, k, n)
            ]
    ]

-- A new replica that has handled requests without a fault stores, for the key of each of them,
-- a value at least as new, and whatever it stores was asked for by one of them, for that key.
pub receive_latest :
    (rs : List BroadcastRequest) (db : TDb)
    → receive rs new_db ≡ (ok tt, db)
    → ((r : BroadcastRequest) → Memᴰ r rs → Covers db r.key r.val.ts)
      × ((key : String) (v : TVal) → db.storage key ≡ some v → FromRequest rs key v)
receive_latest rs db h = (
  λ r m. receive-Covers rs new_db db h m,
  λ key v e. elim (receive_origin rs new_db db key v h e) [
    | inl old ↦ absurd (unfold new_db in cc old)
    | inr from ↦ from
  ],
)
