-- ===== src/Raft/Wal/Stored.antt =====
-- What the files hold of a node whose file operations succeed.
use mathlib.Core.List.{map-append}
use tors_hw.Base.{
  ℕ, pos, zero, suc, ◌+◌, ◌-◌, ◌<◌, ◌≡◌, refl, sym, ap, ◌∙◌, ◌⊎◌, subst, Bool, Bool-cases, inl, inr,
  true, false, Option, none, some, List, [], ◌∷◌, ◌++◌, map, ok, Result, continue, continue-keeps,
  ◌>>=◌, if◌then◌else◌, ◌==◌, take, drop, length, get_elem?, leb, ◌&&◌, ltb_ℤ, add_u64, u64_mod,
  arith,
}
use tors_hw.Raft.Log.{LogEntry, sentinel}
use tors_hw.Raft.Node.{Node}
use tors_hw.Raft.Wal.{
  Checked, to_int, last_int, on_disk, put_entries, append, append_entries, write_entries, rename,
  dump_tail, dump_log, after_dump, finish_check, check_body, check_cut, check_term,
  check_and_correct, slice,
}
use tors_hw.Raft.Wal.Effects.{Durable}

abbrev pub Begins : List LogEntry → Type 0
Begins [] = ⊥
Begins (e ∷ es) = e ≡ sentinel

-- The log begins with its first entry, the files hold the log and the state, and no file operation is
-- going to fail.
pub record Stored (s : Node) : Type 0 where
  pub begins : Begins s.env.l
  pub durable : Durable s
  pub state : s.disk.pstate ≡ some s.env.p
  pub fine : s.disk.outcomes ≡ []

abbrev pub quiet : Node → Node
quiet s = record s { disk = record (s.disk) { outcomes = [] } }

-- What holds of the node with no outcomes listed.
pub by_fine : (P : Node → Type 0) (s : Node) → s.disk.outcomes ≡ [] → P (quiet s) → P s
by_fine P s fine h =
    subst P (ap (λ o. record s { disk = record (s.disk) { outcomes = o } }) (sym fine)) h

appended :
    (l log : List LogEntry) (e : LogEntry)
    → Begins l
    → log ≡ map on_disk (drop 1 l)
    → Begins (l ++ e ∷ []) × (log ++ on_disk e ∷ [] ≡ map on_disk (drop 1 (l ++ e ∷ [])))
appended [] log e b d = absurd b
appended (x ∷ l) log e b d =
    (b, ap (λ k. k ++ on_disk e ∷ []) d ∙ sym (map-append on_disk l (e ∷ [])))

pub append-Stored : (e : LogEntry) (s : Node) → Stored s → Stored (append e s).1
append-Stored e s v = by_fine (λ t. Stored (append e t).1) s v.fine (on_quiet v)
  where
    on_quiet : Stored s → Stored (append e (quiet s)).1
    on_quiet v =
        let (b, d) = appended s.env.l s.disk.log e v.begins v.durable in
        unfold append in record { begins = b; durable = d; state = v.state; fine = refl }

pub append_entries-Stored :
    (es : List LogEntry) (s : Node) → Stored s → Stored (append_entries es s).1
unfolding append_entries
append_entries-Stored [] s v = v
append_entries-Stored (e ∷ es) s v =
    continue-keeps Stored (λ _. append_entries es) (append e s) (append-Stored e s v)
      (λ _ n h. append_entries-Stored es n h)

write_quiet : (es : List LogEntry) → write_entries es [] ≡ (map on_disk es, [])
unfolding write_entries
write_quiet [] = refl
write_quiet (e ∷ es) =
    ap (λ (w : List LogEntry × List Bool). (on_disk e ∷ w.0, w.1)) (write_quiet es)

dump_quiet :
    (x : LogEntry) (l : List LogEntry) (s : Node)
    → dump_log (put_entries (x ∷ l) (quiet s)) ≡ (
      ok true,
      record s {
        env = record (s.env) { l = x ∷ l };
        disk = record (s.disk) { log = map on_disk l; outcomes = [] };
      },
    )
unfolding dump_log dump_tail rename
dump_quiet x l s =
    ap
      (λ (w : List LogEntry × List Bool). rename w.0 (record s {
        env = record (s.env) { l = x ∷ l };
        disk = record (s.disk) { outcomes = w.1 };
      }))
      (write_quiet l)

-- A dump of a log that begins as it must.
dumped :
    (r : Result Bool) (l : List LogEntry) (s : Node)
    → Begins l
    → s.disk.pstate ≡ some s.env.p
    → Stored ((dump_log >>= after_dump r) (put_entries l (quiet s))).1
unfolding after_dump
dumped r [] s b state = absurd b
dumped r (x ∷ l) s b state =
    subst (λ o. Stored (continue (after_dump r) o).1) (sym (dump_quiet x l s))
      (record { begins = b; durable = refl; state = state; fine = refl })

-- A check that leaves the log as it should: it begins the same, and is unchanged where no dump follows.
record Kept (l : List LogEntry) (c : Checked) : Type 0 where
  begins : Begins c.entries
  same : c.changed ≡ false → c.entries ≡ l

finish_check-Stored :
    (c : Checked) (s : Node) → Stored s → Kept s.env.l c → Stored (finish_check c s).1
finish_check-Stored c s v k =
    by_fine (λ t. Stored (finish_check c t).1) s v.fine (on_quiet (Bool-cases c.changed))
  where
    on_quiet : (c.changed ≡ true) ⊎ (c.changed ≡ false) → Stored (finish_check c (quiet s)).1
    on_quiet (inl changed) =
        unfold finish_check in rw changed (dumped c.result c.entries s k.begins v.state)
    on_quiet (inr unchanged) =
        unfold finish_check in
        rw (unchanged, k.same unchanged)
          (record { begins = v.begins; durable = v.durable; state = v.state; fine = refl })

-- What a request names: an index that does not wrap, and at the first entry its term.
abbrev pub Names : ℕ → ℕ → Type 0
Names index term = (index + 1 < u64_mod) × (index ≡ 0 → term ≡ 0)

check_term-Begins :
    (index term : ℕ) (l : List LogEntry) (changed : Bool)
    → Begins l
    → (index ≡ 0 → term ≡ 0)
    → Begins (check_term (get_elem? l index) index term l changed).entries
unfolding check_term
check_term-Begins index term [] changed b h = absurd b
check_term-Begins zero term (x ∷ l) changed b h =
    let agrees : (x.term == term) ≡ true =
      ground (arith, ap (λ (e : LogEntry). e.term) b, h refl) in
    rw agrees b
check_term-Begins (suc index) term (x ∷ l) changed b h = at_entry (get_elem? l index)
  where
    at_entry :
        (o : Option LogEntry) → Begins (check_term o (suc index) term (x ∷ l) changed).entries
    at_entry none = unfold check_term in b
    at_entry (some e) = elim (Bool-cases (e.term == term)) [
      | inl same ↦ unfold check_term in rw same b
      | inr other ↦ unfold check_term in rw other b
    ]

check_term-same :
    (o : Option LogEntry) (index term : ℕ) (l : List LogEntry) (changed : Bool)
    → (check_term o index term l changed).changed ≡ false
    → (changed ≡ false) × ((check_term o index term l changed).entries ≡ l)
unfolding check_term
check_term-same none index term l changed h = (h, refl)
check_term-same (some e) index term l changed h = ground arith

slice_front-Begins :
    (index : ℕ) (l shorter : List LogEntry)
    → Begins l
    → index + 1 < u64_mod
    → slice 0 (add_u64 index 1) l ≡ some shorter
    → Begins shorter
unfolding slice
slice_front-Begins index [] shorter b word h = absurd b
slice_front-Begins index (x ∷ l) shorter b word h =
    let no_wrap : add_u64 index 1 ≡ suc index = omega arith in
    let whole : suc index ≡ suc index - 0 = omega arith in
    subst Begins
      (cut (leb 0 (suc index) && leb (suc index) (length (x ∷ l))) (
        ap
          (λ k.
            if leb 0 (suc index) && leb (suc index) (length (x ∷ l))
            then some (take k (x ∷ l))
            else none)
          whole
        ∙ ap (λ k. if leb 0 k && leb k (length (x ∷ l)) then some (take (k - 0) (x ∷ l)) else none)
            (sym no_wrap)
        ∙ h))
      b
  where
    cut :
        (inside : Bool)
        → ◌≡◌ {A = Option (List LogEntry)}
            (if inside then some (x ∷ take index l) else none)
            (some shorter)
        → x ∷ take index l ≡ shorter
    cut true h = ground arith
    cut false h = cc

check_cut-Kept :
    (o : Option (List LogEntry)) (index term : ℕ) (l : List LogEntry)
    → Begins l
    → (index ≡ 0 → term ≡ 0)
    → ((shorter : List LogEntry) → o ≡ some shorter → Begins shorter)
    → Kept l (check_cut o index term l)
unfolding check_cut
check_cut-Kept none index term l b names h = record { begins = b; same = λ e. cc }
check_cut-Kept (some shorter) index term l b names h = record {
  begins = check_term-Begins index term shorter true (h shorter refl) names;
  same = λ e.
      let (changed, _) = check_term-same (get_elem? shorter index) index term shorter true e in cc;
}

check_body-Kept :
    (index term : ℕ) (l : List LogEntry)
    → Begins l
    → Names index term
    → Kept l (check_body index term l)
unfolding check_body
check_body-Kept index term l b (word, names) =
    elim (Bool-cases (ltb_ℤ (to_int index) (pos (length l)))) [
      | inr past ↦ rw past (record { begins = b; same = λ e. refl })
      | inl inside ↦ elim (Bool-cases (ltb_ℤ (to_int index) (last_int (length l)))) [
        | inl before ↦
            rw (inside, before)
              (check_cut-Kept (slice 0 (add_u64 index 1) l) index term l b names
                λ shorter e. slice_front-Begins index l shorter b word e)
        | inr last ↦
            rw (inside, last)
              (record {
                begins = check_term-Begins index term l false b names;
                same = λ e. (check_term-same (get_elem? l index) index term l false e).1;
              })
      ]
    ]

pub check_and_correct-Stored :
    (index term : ℕ) (s : Node)
    → Stored s
    → Names index term
    → Stored (check_and_correct index term s).1
unfolding check_and_correct
check_and_correct-Stored index term s v names =
    finish_check-Stored (check_body index term s.env.l) s v
      (check_body-Kept index term s.env.l v.begins names)
