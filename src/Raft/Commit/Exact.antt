-- ===== src/Raft/Commit/Exact.antt =====
-- Exactly when `CommitChanges` succeeds, and what it does then.
use tors_hw.Base.{
  ltb→lt, ltb→le, lt→ltb, none, some, ℕ, zero, suc, ◌+◌, ◌-◌, ◌<◌, ◌≤◌, ◌≡◌, ◌≢◌, refl, ap, ◌∙◌,
  List, [], ◌∷◌, ◌++◌, ok, err, panic, if◌then◌else◌, ltb, leb, ◌&&◌, add_u64, u64_mod, length,
  take, drop, arith, Bool-cases, Bool, true, false, max, min, inl, inr,
}
use tors_hw.Raft.Log.{LogEntry}
use tors_hw.Raft.Node.{Node}
use tors_hw.Raft.Wal.{slice, last_u64}
use tors_hw.Raft.Commit.{max_idx, send_committed, commit_to, commit_changes}

-- The commit index after the call.
abbrev pub target : ℕ → Node → ℕ
target leader_commit s = max s.env.commit_index leader_commit

-- The index of the last entry that the call can send: no entry lies past the end of the log.
abbrev pub reached : ℕ → Node → ℕ
reached leader_commit s = min (target leader_commit s) (length s.env.l - 1)

-- The node after a call that sends the entries up to an index.
abbrev sent_to : ℕ → ℕ → Node → Node
sent_to index leader_commit s = record s {
  env = record (s.env) {
    last_applied = index;
    commit_index = target leader_commit s;
    commit_queue =
        s.env.commit_queue
        ++ take (index - s.env.last_applied) (drop (s.env.last_applied + 1) s.env.l);
  };
}

-- The node after a call that succeeds.
abbrev pub committed : ℕ → Node → Node
committed leader_commit s = sent_to (reached leader_commit s) leader_commit s

-- The index by the code.
abbrev aimed : ℕ → Node → ℕ
aimed leader_commit s = max_idx (target leader_commit s) s.env.l

-- The two branches differ in the index that they aim at, which is the larger.
commit_changes-target :
    (leader_commit : ℕ) (s : Node)
    → commit_changes leader_commit s ≡ commit_to (target leader_commit s) s
unfolding commit_changes
commit_changes-target leader_commit s = elim (Bool-cases (ltb s.env.commit_index leader_commit)) [
  | inl below ↦
      let e : target leader_commit s ≡ leader_commit = omega (arith, ltb→lt _ _ below) in
      rw (below, e)
  | inr above ↦
      let e : target leader_commit s ≡ s.env.commit_index = omega (arith, ltb→le _ _ above) in
      rw (above, e)
]

max_idx-le : (index : ℕ) (l : List LogEntry) → 0 < length l → max_idx index l ≤ length l
unfolding max_idx
max_idx-le index [] h = absurd (omega arith)
max_idx-le index (e ∷ l) h = ground arith

slice_exact :
    (applied m : ℕ) (l : List LogEntry)
    → applied + 1 < u64_mod
    → m + 1 < u64_mod
    → slice (add_u64 applied 1) (add_u64 m 1) l ≡ (
        if leb applied m && ltb m (length l)
        then some (take (m - applied) (drop (applied + 1) l))
        else none)
unfolding slice
slice_exact applied m l h k =
    let one : add_u64 applied 1 ≡ applied + 1 = omega arith in
    let two : add_u64 m 1 ≡ m + 1 = omega arith in
    let gap : m + 1 - (applied + 1) ≡ m - applied = omega arith in
    rw (one, two, gap)
      (ap (λ b. if b then some (take (m - applied) (drop (applied + 1) l)) else none) tests_agree)
  where
    tests_agree :
        (leb (applied + 1) (m + 1) && leb (m + 1) (length l)) ≡ (leb applied m && ltb m (length l))
    tests_agree = ground arith

send_if :
    (b : Bool) (entries : List LogEntry) (applied commit : ℕ) (s : Node)
    → send_committed (if b then some entries else none) applied commit s ≡ (
        if b
        then (
          ok tt,
          record s {
            env = record (s.env) {
              last_applied = applied;
              commit_index = commit;
              commit_queue = s.env.commit_queue ++ entries;
            };
          },
        )
        else (err panic, s))
unfolding send_committed
send_if true entries applied commit s = refl
send_if false entries applied commit s = refl

-- The call by the two bounds of the slice that it sends.
commit_changes_bounds :
    (leader_commit : ℕ) (s : Node)
    → 0 < length s.env.l
    → length s.env.l + 1 < u64_mod
    → s.env.last_applied + 1 < u64_mod
    → commit_changes leader_commit s ≡ (
        if leb s.env.last_applied (aimed leader_commit s)
          && ltb (aimed leader_commit s) (length s.env.l)
        then (ok tt, sent_to (aimed leader_commit s) leader_commit s)
        else (err panic, s))
unfolding commit_to send_committed
commit_changes_bounds leader_commit s h word word' =
    let m = aimed leader_commit s in
    let small : m + 1 < u64_mod = omega (arith, max_idx-le (target leader_commit s) s.env.l h) in
    commit_changes-target leader_commit s
    ∙ ap (λ o. send_committed o m (target leader_commit s) s)
        (slice_exact s.env.last_applied m s.env.l word' small)
    ∙ send_if (leb s.env.last_applied m && ltb m (length s.env.l)) _ m (target leader_commit s) s

-- Past the log's length the index is brought back into the log; only the length itself is not.
aimed_in_log :
    (leader_commit : ℕ) (s : Node)
    → 0 < length s.env.l
    → target leader_commit s ≢ length s.env.l
    → aimed leader_commit s < length s.env.l
unfolding max_idx
aimed_in_log leader_commit s h other = in_log (target leader_commit s) s.env.l h other
  where
    in_log :
        (index : ℕ) (l : List LogEntry)
        → 0 < length l
        → index ≢ length l
        → max_idx index l < length l
    in_log index [] h other = absurd (omega arith)
    in_log index (e ∷ l) h other = ground arith

pub reached_in_log :
    (leader_commit : ℕ) (s : Node) → 0 < length s.env.l → reached leader_commit s < length s.env.l
reached_in_log leader_commit s h = omega arith

last_u64-before : (n : ℕ) → 0 < n → last_u64 n ≡ n - 1
last_u64-before zero h = absurd (omega arith)
last_u64-before (suc n) h = omega arith

aimed-reached :
    (leader_commit : ℕ) (s : Node)
    → 0 < length s.env.l
    → target leader_commit s ≢ length s.env.l
    → aimed leader_commit s ≡ reached leader_commit s
unfolding max_idx
aimed-reached leader_commit s h other = clamped (target leader_commit s) s.env.l h other
  where
    clamped :
        (index : ℕ) (l : List LogEntry)
        → 0 < length l
        → index ≢ length l
        → max_idx index l ≡ min index (length l - 1)
    clamped index l h other = unfold max_idx in ground (arith, last_u64-before (length l) h)

-- For a log that is not empty, and a commit index that is not just the log's length: the call
-- sends the entries behind the last applied one up to the commit index, the larger of the node's and
-- the given one, or up to the last entry where that is past the log. It moves the last applied index on
-- to there, and sets the commit index. If the last applied index is already past that entry, it panics and
-- changes nothing. The log's length and the last applied index are no largest uint64.
pub commit_changes_exact :
    (leader_commit : ℕ) (s : Node)
    → 0 < length s.env.l
    → length s.env.l + 1 < u64_mod
    → s.env.last_applied + 1 < u64_mod
    → target leader_commit s ≢ length s.env.l
    → commit_changes leader_commit s ≡ (
        if leb s.env.last_applied (reached leader_commit s)
        then (ok tt, committed leader_commit s)
        else (err panic, s))
commit_changes_exact leader_commit s h word word' other =
    commit_changes_bounds leader_commit s h word word'
    ∙ ap
        (λ b.
          if leb s.env.last_applied (aimed leader_commit s) && b
          then (ok tt, sent_to (aimed leader_commit s) leader_commit s)
          else (err panic, s))
        (lt→ltb _ _ (aimed_in_log leader_commit s h other))
    ∙ ap
        (λ b.
          if b then (ok tt, sent_to (aimed leader_commit s) leader_commit s) else (err panic, s))
        (and_true _)
    ∙ ap
        (λ m.
          if leb s.env.last_applied m then (ok tt, sent_to m leader_commit s) else (err panic, s))
        (aimed-reached leader_commit s h other)
  where
    and_true : (b : Bool) → (b && true) ≡ b
    and_true true = refl
    and_true false = refl
