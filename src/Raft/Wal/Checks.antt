-- ===== src/Raft/Wal/Checks.antt =====
-- `CheckAndCorrect` by its result.
use tors_hw.Base.{
  ℕ, ◌+◌, ◌<◌, ◌≤◌, ◌≡◌, ◌≢◌, ◌⊎◌, inl, inr, sym, subst, ap, ◌∙◌, Bool, true, false, some, map, ok,
  if◌then◌else◌, ltb, ltb→le, leb, leb→lt, leb→le, ◌==◌, ==→eq, length, take, drop, get_elem?,
  get_elem?-some, arith, Bool-cases, take_all,
}
use tors_hw.Raft.Log.{LogEntry}
use tors_hw.Raft.Node.{Node, TEnv}
use tors_hw.Raft.Wal.{Checked, on_disk, check_body, check_and_correct}
use tors_hw.Raft.Wal.Slices.{check_body_missing, check_body_mismatch, check_body_match}
use tors_hw.Raft.Wal.Effects.{Durable, Unfailing, finish_check-env, finish_check-ok}

check-env :
    (i t : ℕ) (s : Node)
    → (check_and_correct i t s).1.env ≡ record (s.env) { l = (check_body i t s.env.l).entries }
unfolding check_and_correct
check-env i t s = finish_check-env (check_body i t s.env.l) s

-- What a call that returned left, by what its body did.
abbrev Finished : Checked → Bool → Node → Node → Type 0
Finished c b s s' =
    (c.result ≡ ok b)
    × (s'.env ≡ record (s.env) { l = c.entries })
    × (Unfailing s
        → s'.disk.log ≡ (if c.changed then map on_disk (drop 1 c.entries) else s.disk.log))

check-ok :
    (i t : ℕ) (s s' : Node) (b : Bool) (c : Checked)
    → check_and_correct i t s ≡ (ok b, s')
    → check_body i t s.env.l ≡ c
    → Finished c b s s'
check-ok i t s s' b c h e =
    let body = check_body i t s.env.l in
    let (result, file) = finish_check-ok body s b s' (unfold check_and_correct in h) in
    subst (λ x. Finished x b s s') e (result, ap (λ r. r.1.env) (sym h) ∙ check-env i t s, file)

pub check_and_correct-p : (i t : ℕ) (s : Node) → (check_and_correct i t s).1.env.p ≡ s.env.p
check_and_correct-p i t s = ap (λ (v : TEnv). v.p) (check-env i t s)

-- A log that passes holds an entry of that term at that index; it is cut after it.
pub record Passed (i t : ℕ) (s s' : Node) : Type 0 where
  pub entry : LogEntry
  pub there : get_elem? s.env.l i ≡ some entry
  pub same_term : entry.term ≡ t
  pub state : s'.env ≡ record (s.env) { l = take (i + 1) s.env.l }

cut-Durable :
    (i : ℕ) (s s' : Node)
    → Durable s
    → s'.env ≡ record (s.env) { l = take (i + 1) s.env.l }
    → s'.disk.log ≡ (
        if ltb (i + 1) (length s.env.l)
        then map on_disk (drop 1 (take (i + 1) s.env.l))
        else s.disk.log)
    → Durable s'
cut-Durable i s s' d env file = elim (Bool-cases (ltb (i + 1) (length s.env.l))) [
  | inl shorter ↦ rw env (file ∙ (rw shorter))
  | inr whole ↦ rw (env, take_all (i + 1) s.env.l (ltb→le _ _ whole)) (file ∙ (rw whole d))
]

-- A call that returns true, and what it does to the file where no file operation fails.
pub check_and_correct-match :
    (i t : ℕ) (s s' : Node)
    → i < 9223372036854775808
    → check_and_correct i t s ≡ (ok true, s')
    → Passed i t s s' × (Unfailing s → Durable s → Durable s')
check_and_correct-match i t s s' word h = elim (Bool-cases (leb (length s.env.l) i)) [
  | inl short ↦
      let (result, _, _) =
        check-ok i t s s' true _ h (check_body_missing i t s.env.l word (leb→le _ _ short)) in
      cc result
  | inr there ↦
      let (e, at) = get_elem?-some s.env.l i (leb→lt _ _ there) in
      elim (Bool-cases (e.term == t)) [
        | inl same ↦
            let (_, env, file) =
              check-ok i t s s' true _ h
                (check_body_match i t s.env.l word e at (leb→lt _ _ there) (==→eq _ _ same)) in
            (
              record { entry = e; there = at; same_term = ==→eq _ _ same; state = env },
              λ fine d. cut-Durable i s s' d env (file fine),
            )
        | inr differs ↦
            let (result, _, _) =
              check-ok i t s s' true _ h (
                check_body_mismatch i t s.env.l word e at (leb→lt _ _ there)
                  (λ eq. ground arith)) in
            cc result
      ]
]

-- A call that returns true, for an index that fits Go's int, where no file operation fails and the
-- file agrees with the log, found an entry of the named term at the index; it has cut the log after
-- that entry, and the file agrees again.
pub check_and_correct-Passed :
    (i t : ℕ) (s s' : Node)
    → i < 9223372036854775808
    → Unfailing s
    → Durable s
    → check_and_correct i t s ≡ (ok true, s')
    → Passed i t s s' × Durable s'
check_and_correct-Passed i t s s' word fine d h =
    let (passed, file) = check_and_correct-match i t s s' word h in (passed, file fine d)

-- A call that returns false, for an index that fits Go's int, found the log too short, and left it,
-- or found another term at the index, and cut the log before that entry.
pub check_and_correct-refused :
    (i t : ℕ) (s s' : Node)
    → i < 9223372036854775808
    → check_and_correct i t s ≡ (ok false, s')
    → ((length s.env.l ≤ i) × (s'.env ≡ s.env))
      ⊎ ((e : LogEntry) × (get_elem? s.env.l i ≡ some e)
          × (e.term ≢ t)
          × (s'.env ≡ record (s.env) { l = take i s.env.l }))
check_and_correct-refused i t s s' word h = elim (Bool-cases (leb (length s.env.l) i)) [
  | inl short ↦
      let (_, env, _) =
        check-ok i t s s' false _ h (check_body_missing i t s.env.l word (leb→le _ _ short)) in
      inl (leb→le _ _ short, env)
  | inr there ↦
      let (e, at) = get_elem?-some s.env.l i (leb→lt _ _ there) in
      elim (Bool-cases (e.term == t)) [
        | inl same ↦
            let (result, _, _) =
              check-ok i t s s' false _ h
                (check_body_match i t s.env.l word e at (leb→lt _ _ there) (==→eq _ _ same)) in
            cc result
        | inr differs ↦
            let apart : e.term ≢ t = λ eq. ground arith in
            let (_, env, _) =
              check-ok i t s s' false _ h
                (check_body_mismatch i t s.env.l word e at (leb→lt _ _ there) apart) in
            inr (e, at, apart, env)
      ]
]
