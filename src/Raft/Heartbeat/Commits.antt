-- ===== src/Raft/Heartbeat/Commits.antt =====
-- The commit index of a leader, by the match indexes of the nodes.
use tors_hw.Base.{
  ℕ, ◌/◌, ◌<◌, ◌≤◌, ◌≡◌, ◌≢◌, ◌⊎◌, inl, inr, refl, sym, ap, ◌∙◌, true, some, List, [], ◌∷◌, ok, err,
  panic, ◌>>=◌, length, ltb, leb, ltb→lt, ltb→le, max, Bool-cases, if◌then◌else◌, arith,
}
use tors_hw.Raft.Node.{Node, LeaderState}
use tors_hw.Raft.CommitIndex.{calc_commit_index}
use tors_hw.Raft.CommitIndex.Sorting.{count_ge}
use tors_hw.Raft.CommitIndex.Majority.{calc_commit_index_majority}
use tors_hw.Raft.Commit.{commit_changes}
use tors_hw.Raft.Commit.Exact.{target, reached, committed, commit_changes_exact}
use tors_hw.Raft.Commit.Prefix.{Applied, commit_changes-Applied}
use tors_hw.Raft.Heartbeat.{hb_commit, advance, advance_to, leader_state, or_panic}

-- Fewer nodes reach a larger index.
count_ge-le_of_le :
    (m k : ℕ) (match_index : List ℕ) → m ≤ k → count_ge k match_index ≤ count_ge m match_index
count_ge-le_of_le m k [] h = omega arith
count_ge-le_of_le m k (x ∷ xs) h = ground (arith, count_ge-le_of_le m k xs h)

-- The node with the new commit index, before its entries are sent.
noted : ℕ → Node → Node
noted index s = record s { env = record (s.env) { commit_index = index } }

noted-Applied : (index : ℕ) (s : Node) → Applied s → Applied (noted index s)
unfolding noted
noted-Applied index s v = record { in_log = v.in_log; sent = v.sent; word = v.word }

max_same : (m : ℕ) → max m m ≡ m
max_same m = omega arith

reached_exact :
    (index : ℕ) (s : Node) → index < length s.env.l → reached index (noted index s) ≡ index
unfolding noted
reached_exact index s h = ground arith

commit_noted :
    (index : ℕ) (s : Node)
    → Applied s
    → s.env.last_applied ≤ index
    → index < length s.env.l
    → commit_changes index (noted index s) ≡ (ok tt, committed index (noted index s))
unfolding noted
commit_noted index s v le lt =
    let exact = reached_exact index s lt in
    let other : target index (noted index s) ≢ length s.env.l = λ e. omega arith in
    commit_changes_exact index (noted index s) (omega (arith, v.in_log)) v.word
      (omega (arith, v.in_log, v.word)) other
    ∙ ap (λ b. if b then (ok tt, committed index (noted index s)) else (err panic, noted index s))
        (test exact)
  where
    test :
        reached index (noted index s) ≡ index
        → leb s.env.last_applied (reached index (noted index s)) ≡ true
    test e = ground arith

-- More than half of the indexes reach the commit index.
abbrev pub Majority : ℕ → List ℕ → Type 0
Majority index match_index = length match_index / 2 < count_ge index match_index

-- A larger index within the log is taken, and what it covers is sent.
pub advance_to-larger :
    (m : ℕ) (s : Node)
    → Applied s
    → s.env.last_applied ≤ s.env.commit_index
    → s.env.commit_index < m
    → m < length s.env.l
    → (s' : Node) × (advance_to m s ≡ (ok tt, s'))
      × Applied s'
      × (s'.env.commit_index ≡ m)
      × (s'.env.last_applied ≡ m)
      × (s'.env.l ≡ s.env.l)
unfolding advance_to noted
advance_to-larger m s v le below lt =
    let start = noted-Applied m s v in
    let done = commit_noted m s v (omega arith) lt in
    let other : target m (noted m s) ≢ length s.env.l = λ e. omega arith in
    let (kept, _, _, index) = commit_changes-Applied m (noted m s) _ start other done in
    let larger : ltb s.env.commit_index m ≡ true = ground arith in
    (committed m (noted m s), rw larger done, kept, index ∙ max_same m, reached_exact m s lt, refl)

advance_to-lem :
    (m : ℕ) (s : Node)
    → Applied s
    → s.env.last_applied ≤ s.env.commit_index
    → m < length s.env.l
    → (s' : Node) × (advance_to m s ≡ (ok tt, s'))
      × Applied s'
      × ((s' ≡ s)
          ⊎ ((s.env.commit_index < m) × (s'.env.commit_index ≡ m) × (s'.env.last_applied ≡ m)))
unfolding advance_to
advance_to-lem m s v le lt = elim (Bool-cases (ltb s.env.commit_index m)) [
  | inl larger ↦
      let below = ltb→lt _ _ larger in
      let (s', done, kept, index, last, _) = advance_to-larger m s v le below lt in
      (s', done, kept, inr (below, index, last))
  | inr smaller ↦ (s, rw smaller refl, v, inl refl)
]

-- The commit of a broadcast by the index that the match indexes give.
pub hb_commit-advance_to :
    (s : Node) (ls : LeaderState) (m : ℕ)
    → s.env.leader_state ≡ some ls
    → calc_commit_index ls.match_index ≡ ok m
    → hb_commit s ≡ advance_to m s
unfolding hb_commit leader_state or_panic advance
hb_commit-advance_to s ls m leads result =
    ap (λ o. (or_panic o >>= λ (k : LeaderState). advance (calc_commit_index k.match_index)) s)
      leads
    ∙ ap (λ r. advance r s) result

-- An index that a majority has reached lies in a log that no majority has passed.
pub Majority-in_log :
    (m len : ℕ) (match_index : List ℕ)
    → Majority m match_index
    → count_ge len match_index ≤ length match_index / 2
    → m < len
Majority-in_log m len match_index majority below = elim (Bool-cases (ltb m len)) [
  | inl lt ↦ ltb→lt m _ lt
  | inr ge ↦ absurd (omega (arith, count_ge-le_of_le len m match_index (ltb→le m _ ge)))
]

-- The commit of a broadcast, for a leader of one node or more, where no more than half of the match
-- indexes, its own among them, lie past its log, and where what was sent to the store is a prefix of the log and does not pass the commit index: it
-- succeeds, what was sent is a prefix of the log after it, and the node is the same, or the commit
-- index has grown, more than half of the nodes have the new one, and the entries up to it have been
-- sent.
pub hb_commit-Majority :
    (s : Node) (ls : LeaderState)
    → s.env.leader_state ≡ some ls
    → 0 < length ls.match_index
    → count_ge (length s.env.l) ls.match_index ≤ length ls.match_index / 2
    → Applied s
    → s.env.last_applied ≤ s.env.commit_index
    → (s' : Node) × (hb_commit s ≡ (ok tt, s'))
      × Applied s'
      × ((s' ≡ s)
          ⊎ ((s.env.commit_index < s'.env.commit_index)
              × Majority s'.env.commit_index ls.match_index
              × (s'.env.last_applied ≡ s'.env.commit_index)))
hb_commit-Majority s ls leads nodes below v le =
    let (m, result, majority, _) = calc_commit_index_majority ls.match_index nodes in
    let in_log = Majority-in_log m (length s.env.l) ls.match_index majority below in
    let (s', done, kept, change) = advance_to-lem m s v le in_log in
    (
      s',
      hb_commit-advance_to s ls m leads result ∙ done,
      kept,
      elim change [
        | inl same ↦ inl same
        | inr (larger, index, applied) ↦
            inr (rw index larger, rw index majority, applied ∙ sym index)
      ],
    )
