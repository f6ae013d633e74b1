-- ===== src/Raft/Replica/Follower.antt =====
-- The store of a follower after a heartbeat: the commit of the leader's request makes it the
-- leader's own.
use tors_hw.Base.{
  none, ℕ, zero, suc, ◌+◌, ◌<◌, ◌≤◌, ◌≡◌, ◌≢◌, refl, sym, ap, ◌∙◌, true, ok, List, [], ◌∷◌, ◌++◌,
  map, length, take, drop, u64_mod, arith, max, drop-append, take-append, take-drop_one-take,
  length-take, length-append, length-drop, get_elem?, some,
}
use tors_hw.Raft.Log.{LogEntry}
use tors_hw.Raft.Node.{Node, TEnv}
use tors_hw.Raft.Wal.{on_disk}
use tors_hw.Raft.Commit.{commit_changes}
use tors_hw.Raft.Commit.Exact.{target, reached, commit_changes_exact}
use tors_hw.Raft.Commit.Keeps.{commit_changes-leader_state}
use tors_hw.Raft.Commit.Prefix.{Applied, succeeded, commit_changes-Applied}
use tors_hw.Raft.Append.{AppendRequest, AppendResponse, append_request}
use tors_hw.Raft.Append.Matching.{append_request-Matched}
use tors_hw.Raft.Append.Stages.{taken, append_request-Stages}
use tors_hw.Raft.Heartbeat.{hb_request, request_from}
use tors_hw.Raft.Heartbeat.Replication.{
  on_wire, SamePrefix, hb_request-Built, heartbeat_log, same_length-on_disk,
}
use tors_hw.Raft.Db.{new_db}
use tors_hw.Raft.Replica.{store_of, same_entries-same_store}

map-take : (n : ℕ) (l : List LogEntry) → map on_disk (take n l) ≡ take n (map on_disk l)
map-take zero l = refl
map-take (suc n) [] = refl
map-take (suc n) (e ∷ l) = ap (λ k. on_disk e ∷ k) (map-take n l)

map-drop_one : (l : List LogEntry) → map on_disk (drop 1 l) ≡ drop 1 (map on_disk l)
map-drop_one [] = refl
map-drop_one (e ∷ l) = refl

-- Nodes that have sent as many entries of the same log have the same store.
pub Applied-same_store :
    (a b : Node)
    → Applied a
    → Applied b
    → a.env.last_applied ≡ b.env.last_applied
    → map on_disk a.env.l ≡ map on_disk b.env.l
    → store_of a ≡ store_of b
Applied-same_store a b v w same_index same_log =
    same_entries-same_store a.env.commit_queue b.env.commit_queue new_db (
      ap (map on_disk) v.sent
      ∙ map-take a.env.last_applied (drop 1 a.env.l)
      ∙ ap (take a.env.last_applied)
          (map-drop_one a.env.l ∙ ap (drop 1) same_log ∙ sym (map-drop_one b.env.l))
      ∙ ap (λ n. take n (map on_disk (drop 1 b.env.l))) same_index
      ∙ sym (map-take b.env.last_applied (drop 1 b.env.l))
      ∙ ap (map on_disk) (sym w.sent))

reached_commit :
    (commit : ℕ) (s : Node)
    → s.env.commit_index ≤ commit
    → commit < length s.env.l
    → reached commit s ≡ commit
reached_commit commit s above inside =
    let same : max s.env.commit_index commit ≡ commit = omega arith in rw same (ground arith)

-- A commit index within the log that is not behind the node's is taken, and everything up to it sent.
commit_changes-reaches :
    (commit : ℕ) (s s' : Node)
    → Applied s
    → s.env.commit_index ≤ commit
    → commit < length s.env.l
    → commit_changes commit s ≡ (ok tt, s')
    → Applied s'
      × (s'.env.l ≡ s.env.l)
      × (s'.env.last_applied ≡ commit)
      × (s'.env.commit_index ≡ commit)
commit_changes-reaches commit s s' v above inside h =
    let same : max s.env.commit_index commit ≡ commit = omega arith in
    let other : target commit s ≢ length s.env.l = λ e. omega arith in
    let (kept, _, l, index) = commit_changes-Applied commit s s' v other h in
    let exact =
      commit_changes_exact commit s (omega (arith, v.in_log)) v.word
        (omega (arith, v.in_log, v.word)) other in
    let (_, state) = succeeded s.env.last_applied (reached commit s) _ s s' (sym exact ∙ h) in
    (
      kept,
      l,
      ap (λ (n : Node). n.env.last_applied) (sym state) ∙ reached_commit commit s above inside,
      index ∙ same,
    )

-- The first entries after the sentinel stand in every log that keeps them.
prefix_kept :
    (a k : ℕ) (l es : List LogEntry)
    → a < k
    → k ≤ length l
    → take a (drop 1 (take k l ++ es)) ≡ take a (drop 1 l)
prefix_kept a k l es lt le =
    let cut = length-take k l in
    let rest = length-drop 1 (take k l) in
    ap (take a) (drop-append 1 (take k l) es (omega (arith, cut)))
    ∙ take-append a (drop 1 (take k l)) es (omega (arith, cut, rest))
    ∙ take-drop_one-take a k l lt

-- The entries that a node has sent stand before the ones that a request replaces.
taken-Applied :
    (request : AppendRequest) (s b : Node)
    → Applied s
    → s.env.last_applied ≤ request.prev_log_index
    → request.prev_log_index < length s.env.l
    → b.env ≡ taken request s.env
    → length b.env.l + 1 < u64_mod
    → Applied b
taken-Applied request s b v sent inside env word =
    let k = request.prev_log_index + 1 in
    let applied : b.env.last_applied ≡ s.env.last_applied = ap (λ (e : TEnv). e.last_applied) env in
    let l : b.env.l ≡ take k s.env.l ++ request.entries = ap (λ (e : TEnv). e.l) env in
    let cut = length-take k s.env.l in
    record {
      in_log = omega (
        arith,
        v.in_log,
        applied,
        cut,
        ap length l ∙ length-append (take k s.env.l) request.entries,
      );
      sent =
          ap (λ (e : TEnv). e.commit_queue) env
          ∙ v.sent
          ∙ sym
              (prefix_kept s.env.last_applied k s.env.l request.entries (omega arith) (omega arith))
          ∙ ap (λ m. take s.env.last_applied (drop 1 m)) (sym l)
          ∙ ap (λ n. take n (drop 1 b.env.l)) (sym applied);
      word = word;
    }

get_elem?-lt : (l : List LogEntry) (i : ℕ) {e : LogEntry} → get_elem? l i ≡ some e → i < length l
get_elem?-lt [] i h = cc
get_elem?-lt (x ∷ l) zero h = omega arith
get_elem?-lt (x ∷ l) (suc i) h = omega (arith, get_elem?-lt l i h)

-- The follower as the leader's copy: it does not lead, it has sent as many entries, and its store is
-- the same.
pub record Copies (leader follower : Node) : Type 0 where
  pub applied : Applied follower
  pub last_applied : follower.env.last_applied ≡ leader.env.last_applied
  pub commit_index : follower.env.commit_index ≡ leader.env.commit_index
  pub store : store_of follower ≡ store_of leader
  pub follows : follower.env.leader_state ≡ none

-- A heartbeat that is answered with success, of a leader that has sent to its store all that it has
-- committed: the follower then has no leader state, has committed and sent as many entries, and its store,
-- once its queue is worked off, is the leader's. What both have sent is a prefix of their logs; the follower's log
-- agreed with the leader's up to the entry before the new ones, its sent entries and its commit index
-- do not lie past that entry and the leader's commit index; the index fits Go's int.
pub heartbeat_same_store :
    (node_id i : ℕ) (leader leader' follower follower' : Node) (request : AppendRequest)
    → (response : AppendResponse) → hb_request node_id i leader ≡ (ok request, leader')
    → request.prev_log_index < 9223372036854775808
    → SamePrefix (request.prev_log_index + 1) follower leader
    → Applied leader
    → leader.env.last_applied ≡ leader.env.commit_index
    → Applied follower
    → follower.env.last_applied ≤ request.prev_log_index
    → follower.env.commit_index ≤ leader.env.commit_index
    → append_request (on_wire request) follower ≡ (ok response, follower')
    → response.success ≡ true
    → Copies leader follower'
unfolding request_from
heartbeat_same_store node_id i leader leader' follower follower' request response h word same v all
      w sent behind a g =
    let b = hb_request-Built node_id i leader leader' request h in
    let (matched, _) =
      append_request-Matched (on_wire request) follower follower' response word a g in
    let stages = append_request-Stages (on_wire request) follower follower' response word a g in
    let (same_log, _, _) =
      heartbeat_log node_id i leader leader' follower follower' request response h word same a g in
    let commit : request.leader_commit ≡ leader.env.commit_index =
      ap (λ (r : AppendRequest). r.leader_commit) b.built in
    let before_l : stages.before.env.l ≡ follower'.env.l =
      ap (λ (e : TEnv). e.l) stages.env ∙ sym matched.log in
    let len : length stages.before.env.l ≡ length leader.env.l =
      ap length before_l ∙ same_length-on_disk follower'.env.l leader.env.l same_log in
    let start =
      taken-Applied (on_wire request) follower stages.before w sent
        (get_elem?-lt follower.env.l request.prev_log_index matched.there) stages.env
        (omega (arith, v.word)) in
    let index = ap (λ (e : TEnv). e.commit_index) stages.env in
    let (applied, _, last, index_after) =
      commit_changes-reaches request.leader_commit stages.before follower' start (omega arith)
        (omega (arith, v.in_log)) stages.commits in
    let as_many : follower'.env.last_applied ≡ leader.env.last_applied = last ∙ commit ∙ sym all in
    record {
      applied = applied;
      last_applied = as_many;
      commit_index = index_after ∙ commit;
      follows =
          ap (λ t. t.1.env.leader_state) (sym stages.commits)
          ∙ commit_changes-leader_state request.leader_commit stages.before
          ∙ ap (λ (e : TEnv). e.leader_state) stages.env;
      store = Applied-same_store follower' leader applied v as_many same_log;
    }
