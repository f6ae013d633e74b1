-- ===== src/Raft/Commit/Prefix.antt =====
-- What has been sent to the store is a prefix of the log: each entry once, in the log's order.
use tors_hw.Base.{
  ℕ, ◌+◌, ◌-◌, ◌<◌, ◌≤◌, ◌≡◌, ◌≢◌, refl, ap, sym, ◌∙◌, ◌++◌, ok, err, panic, if◌then◌else◌, leb,
  u64_mod, length, take, drop, arith, Bool-cases, inl, inr, take-append-take, drop-add_one, Result,
}
use tors_hw.Raft.Node.{Node}
use tors_hw.Raft.Commit.{commit_changes}
use tors_hw.Raft.Commit.Exact.{target, reached, committed, reached_in_log, commit_changes_exact}

-- The log holds its first entry; the entries up to the last applied one have been sent.
pub record Applied (s : Node) : Type 0 where
  pub in_log : s.env.last_applied < length s.env.l
  pub sent : s.env.commit_queue ≡ take s.env.last_applied (drop 1 s.env.l)
  pub word : length s.env.l + 1 < u64_mod

committed-Applied :
    (leader_commit : ℕ) (s : Node)
    → Applied s
    → s.env.last_applied ≤ reached leader_commit s
    → reached leader_commit s < length s.env.l
    → Applied (committed leader_commit s)
committed-Applied leader_commit s v le lt = record {
  in_log = lt;
  sent =
      ap
        (λ q.
          q
          ++ take (reached leader_commit s - s.env.last_applied)
              (drop (s.env.last_applied + 1) s.env.l))
        v.sent
      ∙ ap
          (λ d.
            take s.env.last_applied (drop 1 s.env.l)
            ++ take (reached leader_commit s - s.env.last_applied) d)
          (drop-add_one s.env.last_applied s.env.l)
      ∙ take-append-take s.env.last_applied (reached leader_commit s) (drop 1 s.env.l) le;
  word = v.word;
}

pub succeeded :
    (a m : ℕ) (c s s' : Node)
    → ◌≡◌ {A = Result (Unit {0}) × Node}
        (if leb a m then (ok tt, c) else (err panic, s))
        (ok tt, s')
    → (a ≤ m) × (c ≡ s')
succeeded a m c s s' h = elim (Bool-cases (leb a m)) [
  | inl good ↦ ground arith
  | inr bad ↦ ground arith
]

-- A call that succeeds keeps what was sent a prefix of the log, and only adds to it. The commit
-- index that it aims at is not just the log's length.
pub commit_changes-Applied :
    (leader_commit : ℕ) (s s' : Node)
    → Applied s
    → target leader_commit s ≢ length s.env.l
    → commit_changes leader_commit s ≡ (ok tt, s')
    → Applied s'
      × (s.env.last_applied ≤ s'.env.last_applied)
      × (s'.env.l ≡ s.env.l)
      × (s'.env.commit_index ≡ target leader_commit s)
commit_changes-Applied leader_commit s s' v other h =
    let filled : 0 < length s.env.l = omega (arith, v.in_log) in
    let exact =
      commit_changes_exact leader_commit s filled v.word (omega (arith, v.in_log, v.word)) other in
    let (le, same) =
      succeeded s.env.last_applied (reached leader_commit s) _ s s' (sym exact ∙ h) in
    rw (← same) (
      committed-Applied leader_commit s v le (reached_in_log leader_commit s filled),
      le,
      refl,
      refl,
    )
