-- ===== src/Lww/Receive/Joins.antt =====
-- Without a clash, the handled broadcasts are joins, and joins do not depend on the order.
use tors_hw.Base.{
  ◌≡◌, ◌≢◌, refl, sym, subst, Bool-cases, inl, inr, ap, ◌∙◌, String, true, false, Option, some,
  none, List, [], ◌∷◌, GoMap, ok, All, All-perm, if◌then◌else◌, arith, Permᴰ, Perm, ∥∥₁_elim,
  eq_iff, str_eq, ltb_ℤ, pos,
}
use tors_hw.Lww.Clock.{TTimestamp, compare}
use tors_hw.Lww.Clock.Order.{compare-eq}
use tors_hw.Lww.Db.{TVal, TDb, put, delete, write_over}
use tors_hw.Lww.Db.Join.{join, join_at, join_at_comm, Fresh, write_over-Fresh}
use tors_hw.Lww.Server.{BroadcastRequest, apply_request}
use tors_hw.Lww.Receive.{receive, stored, join_all, NoClash, Distinct, FreshIn}

pub ts-stored : (r : BroadcastRequest) → (stored r).ts ≡ r.val.ts
unfolding stored
ts-stored r = ground arith

pub apply_request-write_over :
    (r : BroadcastRequest) (db : TDb)
    → apply_request r db ≡ write_over (db.storage r.key) r.key (stored r) db
unfolding apply_request put delete stored
apply_request-write_over r db = elim (Bool-cases r.val.deleted) [
  | inl gone ↦ rw gone
  | inr there ↦ rw there
]

pub apply_request-FreshIn :
    (r : BroadcastRequest) (db : TDb)
    → FreshIn db.storage r
    → apply_request r db ≡ (ok tt, record { storage = join_at db.storage r.key (stored r) })
apply_request-FreshIn r db h =
    apply_request-write_over r db
    ∙ write_over-Fresh db r.key (stored r) (db.storage r.key) refl (rw (ts-stored r) h)

Fresh-join :
    (o : Option TVal) (new : TVal) (ts : TTimestamp)
    → Fresh o ts
    → new.ts ≢ ts
    → Fresh (join o new) ts
Fresh-join none new ts h k = k
Fresh-join (some old) new ts h k =
    elim (ltb_ℤ (compare old.ts new.ts) (pos 0))
      as (λ b. Fresh (if b then some new else some old) ts) [ true ↦ k | false ↦ h ]

FreshIn-join_at :
    (m : GoMap TVal) (a r : BroadcastRequest)
    → NoClash a r
    → FreshIn m r
    → FreshIn (join_at m a.key (stored a)) r
FreshIn-join_at m a r h k = elim (Bool-cases (str_eq a.key r.key)) [
  | inl same ↦ rw same (
      Fresh-join (m r.key) (stored a) r.val.ts k
        (rw (ts-stored a) (h ((eq_iff a.key r.key).0 same))))
  | inr other ↦ rw other k
]

All-FreshIn-join_at :
    (m : GoMap TVal) (a : BroadcastRequest) (rs : List BroadcastRequest)
    → All (NoClash a) rs
    → All (FreshIn m) rs
    → All (FreshIn (join_at m a.key (stored a))) rs
All-FreshIn-join_at m a [] h k = tt
All-FreshIn-join_at m a (r ∷ rs) h k =
    (FreshIn-join_at m a r h.0 k.0, All-FreshIn-join_at m a rs h.1 k.1)

-- No request faults, and the storage ends as the join of all.
pub receive-join_all :
    (rs : List BroadcastRequest) (db : TDb)
    → Distinct rs
    → All (FreshIn db.storage) rs
    → receive rs db ≡ (ok tt, record { storage = join_all rs db.storage })
unfolding receive join_all
receive-join_all [] db d f = refl
receive-join_all (r ∷ rs) db d f = rw (apply_request-FreshIn r db f.0) (
    receive-join_all rs (record { storage = join_at db.storage r.key (stored r) }) d.1
      (All-FreshIn-join_at db.storage r rs d.0 f.1))

NoClash-symm : (a b : BroadcastRequest) → NoClash a b → NoClash b a
NoClash-symm a b h e t = h (sym e) (sym t)

pub Distinct-perm : {rs rs' : List BroadcastRequest} → Permᴰ rs rs' → Distinct rs → Distinct rs'
Distinct-perm Permᴰ.nil d = tt
Distinct-perm (Permᴰ.cons {a = a} e p) d =
    rw (← e) (All-perm (NoClash a) p d.0, Distinct-perm p d.1)
Distinct-perm (Permᴰ.swap {a = a} {b = b} {a' = a'} {b' = b'} {l = l} e e') d =
    let moved : b ∷ a ∷ l ≡ a' ∷ b' ∷ l = cc in
    subst Distinct moved ((NoClash-symm a b d.0.0, d.1.0), (d.0.1, d.1.1))
Distinct-perm (Permᴰ.trans p q) d = Distinct-perm q (Distinct-perm p d)

NoClash-prop : (a b : BroadcastRequest) → IsProp (NoClash a b)
NoClash-prop a b = hlevel

All-NoClash-prop : (a : BroadcastRequest) (rs : List BroadcastRequest) → IsProp (All (NoClash a) rs)
All-NoClash-prop a [] = hlevel
All-NoClash-prop a (r ∷ rs) = hlevel (NoClash-prop a r, All-NoClash-prop a rs)

Distinct-prop : (rs : List BroadcastRequest) → IsProp (Distinct rs)
Distinct-prop [] = hlevel
Distinct-prop (r ∷ rs) = hlevel (All-NoClash-prop r rs, Distinct-prop rs)

pub Distinct-Perm : {rs rs' : List BroadcastRequest} → Perm rs rs' → Distinct rs → Distinct rs'
Distinct-Perm {rs' = rs'} p d = ∥∥₁_elim p (Distinct-prop rs') (λ q. Distinct-perm q d)

pub join_all-perm :
    {rs rs' : List BroadcastRequest} (m : GoMap TVal)
    → Permᴰ rs rs'
    → Distinct rs
    → join_all rs m ≡ join_all rs' m
unfolding join_all
join_all-perm m Permᴰ.nil d = refl
join_all-perm m (Permᴰ.cons {a = a} e p) d =
    rw (← e) (join_all-perm (join_at m a.key (stored a)) p d.1)
join_all-perm m (Permᴰ.swap {a = a} {b = b} {l = l} e e') d =
    rw (← e, ← e')
      (ap (join_all l) (
        join_at_comm m a.key b.key (stored a) (stored b)
          (λ k. rw (ts-stored a, ts-stored b) (d.0.0 k))))
join_all-perm m (Permᴰ.trans p q) d = join_all-perm m p d ∙ join_all-perm m q (Distinct-perm p d)

write_over-ok :
    (db db' : TDb) (key : String) (new : TVal) (o : Option TVal)
    → write_over o key new db ≡ (ok tt, db')
    → Fresh o new.ts
unfolding write_over
write_over-ok db db' key new none h = tt
write_over-ok db db' key new (some old) h = λ same. ground (arith, compare-eq old.ts new.ts)

-- A request that does not fault carried a new timestamp, and was joined.
pub apply_request-ok :
    (r : BroadcastRequest) (db db' : TDb)
    → apply_request r db ≡ (ok tt, db')
    → db' ≡ record { storage = join_at db.storage r.key (stored r) }
apply_request-ok r db db' h =
    ap (λ t. t.1)
      (sym h
        ∙ apply_request-write_over r db
        ∙ write_over-Fresh db r.key (stored r) (db.storage r.key) refl fresh)
  where
    fresh : Fresh (db.storage r.key) (stored r).ts
    fresh =
        write_over-ok db db' r.key (stored r) (db.storage r.key)
          (sym (apply_request-write_over r db) ∙ h)
