-- ===== src/Raft/Replica/Leader.antt =====
-- A write at a leader, from the answers of the followers to the status that the waiting request is
-- told.
use tors_hw.Base.{
  ℕ, ◌+◌, ◌/◌, ◌<◌, ◌≤◌, ◌≡◌, refl, ap, ◌∙◌, some, List, [], ◌∷◌, ◌++◌, ok, length, take, drop,
  take_all, length-append, length-drop, arith, All,
}
use tors_hw.Raft.Log.{LogEntry}
use tors_hw.Raft.Node.{Node, LeaderState}
use tors_hw.Raft.CommitIndex.Sorting.{count_ge, count_ge-le}
use tors_hw.Raft.CommitIndex.Majority.{calc_commit_index_majority}
use tors_hw.Raft.Commit.Prefix.{Applied}
use tors_hw.Raft.Heartbeat.{hb_commit}
use tors_hw.Raft.Heartbeat.Commits.{
  Majority, Majority-in_log, advance_to-larger, hb_commit-advance_to,
}
use tors_hw.Raft.Db.{Db, Sent, new_db, commit_entry, periodic_update, send_status}
use tors_hw.Raft.Db.Laws.{Known, applies, commit_entry_contract}
use tors_hw.Raft.Db.Replay.{periodic_update_answers, periodic_update-both}

-- Every entry has been sent.
pub record Complete (s s' : Node) : Type 0 where
  pub done : hb_commit s ≡ (ok tt, s')
  pub applied : Applied s'
  pub commit_index : s'.env.commit_index + 1 ≡ length s.env.l
  pub queue : s'.env.commit_queue ≡ drop 1 s.env.l

whole : (n : ℕ) (l : List LogEntry) → n + 1 ≡ length l → take n (drop 1 l) ≡ drop 1 l
whole n l h = take_all n (drop 1 l) (omega (arith, length-drop 1 l))

-- A broadcast's commit sends the whole log once a majority has its last entry.
hb_commit-Complete :
    (s : Node) (ls : LeaderState) (last : ℕ)
    → s.env.leader_state ≡ some ls
    → length s.env.l ≡ last + 1
    → Majority last ls.match_index
    → count_ge (length s.env.l) ls.match_index ≤ length ls.match_index / 2
    → Applied s
    → s.env.last_applied ≤ s.env.commit_index
    → s.env.commit_index < last
    → (s' : Node) × Complete s s'
hb_commit-Complete s ls last leads len majority below v le lt =
    let nodes : 0 < length ls.match_index = omega (arith, count_ge-le last ls.match_index) in
    let (m, result, reached, largest) = calc_commit_index_majority ls.match_index nodes in
    let above = largest last majority in
    let in_log = Majority-in_log m (length s.env.l) ls.match_index reached below in
    let (s', done, kept, index, applied, same) = advance_to-larger m s v le (omega arith) in_log in
    let final : m ≡ last = omega arith in
    (
      s',
      record {
        done = hb_commit-advance_to s ls m leads result ∙ done;
        applied = kept;
        commit_index = omega (arith, index);
        queue =
            kept.sent
            ∙ ap (λ l. take s'.env.last_applied (drop 1 l)) same
            ∙ whole s'.env.last_applied s.env.l (omega (arith, applied));
      },
    )

-- The queue is worked off: last comes the entry, whose channel is told whether it took effect on the
-- store that the entries before it leave.
pub record Answered (before : List LogEntry) (e : LogEntry) (channel : ℕ) (s' : Node) : Type 0 where
  pub db₁ : Db
  pub sent₁ : Sent
  pub earlier : periodic_update before new_db ≡ (ok sent₁, db₁)
  pub worked_off :
      periodic_update s'.env.commit_queue new_db
      ≡ (ok (sent₁ ++ (channel, applies e (db₁.contents e.key)) ∷ []), (commit_entry e db₁).1)

one_update :
    (e : LogEntry) (channel : ℕ) (db : Db)
    → Known e
    → e.status_chan ≡ some channel
    → periodic_update (e ∷ []) db
      ≡ (ok ((channel, applies e (db.contents e.key)) ∷ []), (commit_entry e db).1)
unfolding periodic_update send_status
one_update e channel db known waits =
    let (result, _) = commit_entry_contract e db e.key known in
    let one : commit_entry e db ≡ (ok (applies e (db.contents e.key)), (commit_entry e db).1) =
      ap (λ r. (r, (commit_entry e db).1)) result in
    rw (one, waits) refl

queue_answers :
    (before : List LogEntry) (e : LogEntry) (channel : ℕ) (s' : Node)
    → s'.env.commit_queue ≡ before ++ e ∷ []
    → e.status_chan ≡ some channel
    → All Known before
    → Known e
    → Answered before e channel s'
queue_answers before e channel s' queue waits all known =
    let (sent₁, db₁, earlier, _) = periodic_update_answers before new_db all in
    record {
      db₁ = db₁;
      sent₁ = sent₁;
      earlier = earlier;
      worked_off =
          ap (λ q. periodic_update q new_db) queue
          ∙ periodic_update-both before (e ∷ []) new_db db₁ _ sent₁ _ earlier
              (one_update e channel db₁ known waits);
    }

-- A leader's log ends with the entry of a request that waits on a channel: once a majority has that
-- entry, the commit of the broadcast sends the whole log, and the queue ends with the entry's answer.
pub write_told :
    (s : Node) (ls : LeaderState) (first : LogEntry) (before : List LogEntry) (e : LogEntry)
    → (channel : ℕ) → s.env.leader_state ≡ some ls
    → s.env.l ≡ first ∷ (before ++ e ∷ [])
    → e.status_chan ≡ some channel
    → All Known before
    → Known e
    → Majority (length before + 1) ls.match_index
    → count_ge (length before + 2) ls.match_index ≤ length ls.match_index / 2
    → Applied s
    → s.env.last_applied ≤ s.env.commit_index
    → s.env.commit_index ≤ length before
    → (s' : Node) × Complete s s' × Answered before e channel s'
write_told s ls first before e channel leads log waits all known majority below v le lt =
    let len : length s.env.l ≡ length before + 2 =
      omega (arith, ap length log, length-append before (e ∷ [])) in
    let (s', complete) =
      hb_commit-Complete s ls (length before + 1) leads (omega (arith, len)) majority
        (omega (arith, below, ap (λ n. count_ge n ls.match_index) len)) v le (omega arith) in
    (
      s',
      complete,
      queue_answers before e channel s' (complete.queue ∙ ap (drop 1) log) waits all known,
    )
