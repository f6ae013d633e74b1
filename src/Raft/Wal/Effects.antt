-- ===== src/Raft/Wal/Effects.antt =====
-- What the log operations leave: the entries in memory, and the same entries in the file.
use tors_hw.Base.{
  ◌≡◌, inl, inr, refl, sym, ap, ◌∙◌, Bool, true, false, some, List, [], ◌∷◌, ◌++◌, All, map, ok,
  Result, continue-ok, continue-keeps, ◌>>=◌, if◌then◌else◌, drop, arith, Bool-cases, append_assoc,
  append-nil,
}
use tors_hw.Raft.Log.{LogEntry}
use tors_hw.Raft.Node.{Node, TEnv, next_outcome}
use tors_hw.Raft.Wal.{
  Checked, on_disk, put_entries, append, append_entries, write_entries, rename, dump_tail, dump_log,
  after_dump, finish_check, back_of, back, or_panic,
}

-- The file holds the entries after the first.
abbrev pub Durable : Node → Type 0
Durable s = s.disk.log ≡ map on_disk (drop 1 s.env.l)

pub map-on_disk_again : (l : List LogEntry) → map on_disk (map on_disk l) ≡ map on_disk l
map-on_disk_again [] = refl
map-on_disk_again (e ∷ es) = ap (λ k. on_disk e ∷ k) (map-on_disk_again es)

pub back-ok : (s : Node) (last : LogEntry) → back_of s.env.l ≡ some last → back s ≡ (ok last, s)
unfolding back or_panic
back-ok s last h = rw h refl

-- No file operation is going to fail.
abbrev pub AllFine : List Bool → Type 0
AllFine = All (λ fine. fine ≡ true)

abbrev pub Unfailing : Node → Type 0
Unfailing s = AllFine s.disk.outcomes

pub next_outcome-AllFine :
    (os : List Bool) → AllFine os → ((next_outcome os).0 ≡ true) × AllFine (next_outcome os).1
next_outcome-AllFine [] fine = (refl, tt)
next_outcome-AllFine (o ∷ os) fine = fine

pub write_entries-AllFine :
    (es : List LogEntry) (os : List Bool)
    → AllFine os
    → ((write_entries es os).0 ≡ map on_disk es) × AllFine (write_entries es os).1
unfolding write_entries
write_entries-AllFine [] os fine = (refl, fine)
write_entries-AllFine (e ∷ es) os fine =
    let (first, later) = next_outcome-AllFine os fine in
    let (written, rest) = write_entries-AllFine es (next_outcome os).1 later in
    (
      ap
            (λ b.
              if b
              then on_disk e ∷ (write_entries es (next_outcome os).1).0
              else (write_entries es (next_outcome os).1).0)
            first
          ∙ ap (λ l. on_disk e ∷ l) written,
      rest,
    )

dump_tail-env : (l : List LogEntry) (s : Node) → (dump_tail l s).1.env ≡ s.env
unfolding dump_tail rename
dump_tail-env [] s = refl
dump_tail-env (e ∷ rest) s = refl

dump_log-env : (s : Node) → (dump_log s).1.env ≡ s.env
unfolding dump_log
dump_log-env s = elim (Bool-cases (next_outcome s.disk.outcomes).0) [
  | inl fine ↦ rw fine (
      dump_tail-env s.env.l
        (record s { disk = record (s.disk) { outcomes = (next_outcome s.disk.outcomes).1 } }))
  | inr failed ↦ rw failed refl
]

dump_tail-log :
    (l : List LogEntry) (s s' : Node) (fine : Bool)
    → AllFine s.disk.outcomes
    → dump_tail l s ≡ (ok fine, s')
    → s'.disk.log ≡ map on_disk (drop 1 l)
unfolding dump_tail rename
dump_tail-log [] s s' fine all h = cc
dump_tail-log (e ∷ rest) s s' fine all h =
    let (written, later) = write_entries-AllFine rest s.disk.outcomes all in
    let (renamed, _) = next_outcome-AllFine (write_entries rest s.disk.outcomes).1 later in
    ap (λ r. r.1.disk.log) (sym h)
    ∙ ap (λ b. if b then (write_entries rest s.disk.outcomes).0 else s.disk.log) renamed
    ∙ written

-- A dump in which no file operation fails.
dump_log-log :
    (s s' : Node) (fine : Bool)
    → Unfailing s
    → dump_log s ≡ (ok fine, s')
    → s'.disk.log ≡ map on_disk (drop 1 s.env.l)
unfolding dump_log
dump_log-log s s' fine all h =
    let (first, later) = next_outcome-AllFine s.disk.outcomes all in
    dump_tail-log s.env.l
      (record s { disk = record (s.disk) { outcomes = (next_outcome s.disk.outcomes).1 } }) s' fine
      later (rw first at h)

pub after_dump-state : (r : Result Bool) (fine : Bool) (s : Node) → (after_dump r fine s).1 ≡ s
unfolding after_dump
after_dump-state r true s = refl
after_dump-state r false s = refl

after_dump-ok :
    (r : Result Bool) (fine b : Bool) (s s' : Node)
    → after_dump r fine s ≡ (ok b, s')
    → (r ≡ ok b) × (fine ≡ true) × (s ≡ s')
unfolding after_dump
after_dump-ok r true b s s' h = (ap (λ t. t.0) h, refl, ap (λ t. t.1) h)
after_dump-ok r false b s s' h = cc

dump-env : (r : Result Bool) (s : Node) → ((dump_log >>= after_dump r) s).1.env ≡ s.env
dump-env r s =
    continue-keeps (λ (a : Node). a.env ≡ s.env) (after_dump r) (dump_log s) (dump_log-env s)
      (λ fine a h. ap (λ (n : Node). n.env) (after_dump-state r fine a) ∙ h)

dump-ok :
    (r : Result Bool) (b : Bool) (s s' : Node)
    → (dump_log >>= after_dump r) s ≡ (ok b, s')
    → (r ≡ ok b) × (Unfailing s → s'.disk.log ≡ map on_disk (drop 1 s.env.l))
dump-ok r b s s' h =
    let (fine, a, dumped, after) = continue-ok (after_dump r) (dump_log s) h in
    let (result, good, same) = after_dump-ok r fine b a s' after in
    (result, λ all. ap (λ (n : Node). n.disk.log) (sym same) ∙ dump_log-log s a fine all dumped)

module _ (c : Checked) (s : Node) where
  -- Whatever happens to the dump, the entries are the body's.
  pub finish_check-env : (finish_check c s).1.env ≡ record (s.env) { l = c.entries }
  unfolding finish_check
  finish_check-env = elim (Bool-cases c.changed) [
    | inl changed ↦ rw changed (dump-env c.result (put_entries c.entries s))
    | inr same ↦ rw same
  ]

  pub finish_check-ok :
      (b : Bool) (s' : Node)
      → finish_check c s ≡ (ok b, s')
      → (c.result ≡ ok b)
        × (Unfailing s
            → s'.disk.log ≡ (if c.changed then map on_disk (drop 1 c.entries) else s.disk.log))
  unfolding finish_check
  finish_check-ok b s' h = elim (Bool-cases c.changed) [
    | inl changed ↦ rw changed (dump-ok c.result b (put_entries c.entries s) s' (rw changed at h))
    | inr same ↦
        let quiet : ◌≡◌ {A = Result Bool × Node} (c.result, put_entries c.entries s) (ok b, s') =
          rw same at h in
        rw same (ap (λ r. r.0) quiet, λ all. ap (λ r. r.1.disk.log) (sym quiet))
  ]

append-ok :
    (e : LogEntry) (s s' : Node)
    → append e s ≡ (ok tt, s')
    → (s'.env ≡ record (s.env) { l = s.env.l ++ e ∷ [] })
      × (s'.disk.log ≡ s.disk.log ++ on_disk e ∷ [])
unfolding append
append-ok e s s' h = ground arith

append-p : (e : LogEntry) (s : Node) → (append e s).1.env.p ≡ s.env.p
unfolding append
append-p e s = ground arith

-- The entries are added to the log in memory and in the file; nothing else of the state changes.
pub append_entries-ok :
    (es : List LogEntry) (s s' : Node)
    → append_entries es s ≡ (ok tt, s')
    → (s'.env ≡ record (s.env) { l = s.env.l ++ es }) × (s'.disk.log ≡ s.disk.log ++ map on_disk es)
unfolding append_entries
append_entries-ok [] s s' h =
    let same : s ≡ s' = ap (λ t. t.1) h in
    (
      ap (λ (n : Node). n.env) (sym same)
          ∙ ap (λ l. record (s.env) { l = l }) (sym (append-nil s.env.l)),
      ap (λ (n : Node). n.disk.log) (sym same) ∙ sym (append-nil s.disk.log),
    )
append_entries-ok (e ∷ es) s s' h =
    let (_, a, first, later) = continue-ok (λ _. append_entries es) (append e s) h in
    let (env₁, file₁) = append-ok e s a first in
    let (env₂, file₂) = append_entries-ok es a s' later in
    (
      env₂
          ∙ ap (λ (v : TEnv). record v { l = v.l ++ es }) env₁
          ∙ ap (λ l. record (s.env) { l = l }) (append_assoc s.env.l (e ∷ []) es),
      file₂
          ∙ ap (λ l. l ++ map on_disk es) file₁
          ∙ append_assoc s.disk.log (on_disk e ∷ []) (map on_disk es),
    )

pub append_entries-p : (es : List LogEntry) (s : Node) → (append_entries es s).1.env.p ≡ s.env.p
unfolding append_entries
append_entries-p [] s = refl
append_entries-p (e ∷ es) s =
    continue-keeps (λ (a : Node). a.env.p ≡ s.env.p) (λ _. append_entries es) (append e s)
      (append-p e s) (λ _ a h. append_entries-p es a ∙ h)
