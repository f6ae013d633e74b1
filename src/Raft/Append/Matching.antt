-- ===== src/Raft/Append/Matching.antt =====
-- A successful answer to `HandleAppendEntries`: the log is the matched prefix and the new entries.
use mathlib.Core.List.{map-append}
use tors_hw.Base.{
  subst, ℕ, ◌+◌, ◌<◌, ◌≤◌, ◌≡◌, ◌⊎◌, inl, inr, sym, ap, ◌∙◌, Bool, true, false, none, some, List,
  [], ◌∷◌, ◌++◌, map, ok, continue-ok, ltb, ltb→le, ltb→lt, length, take, drop, get_elem?, arith,
  Bool-cases, drop-append, length-take, min,
}
use tors_hw.Raft.Log.{LogEntry}
use tors_hw.Raft.Node.{Node, Disk, TEnv, Persisted, next_outcome, dump_p_state}
use tors_hw.Raft.Wal.{check_and_correct, append_entries, on_disk}
use tors_hw.Raft.Wal.Effects.{Durable, AllFine, Unfailing, next_outcome-AllFine, append_entries-ok}
use tors_hw.Raft.Wal.Checks.{check_and_correct-match}
use tors_hw.Raft.Commit.{commit_changes}
use tors_hw.Raft.Commit.Keeps.{commit_changes-Keeps}
use tors_hw.Raft.Append.{
  AppendRequest, AppendResponse, follow, take_entries, respond, after_check, append_request,
}

-- The node that follows the sender of a request.
unfoldable pub followed : AppendRequest → Node → Node
followed request s = (follow request s).1

pub follow-ok :
    (request : AppendRequest) (s : Node) → follow request s ≡ (ok tt, followed request s)
unfolding follow followed dump_p_state
follow-ok request s = ground arith

pub followed_facts :
    (request : AppendRequest) (s : Node)
    → ((followed request s).env ≡ record (s.env) {
      leader_state = none;
      leader_id = some request.leader_id;
      p = record { current_term = request.term; voted_for = some request.leader_id };
    })
      × ((followed request s).disk.log ≡ s.disk.log)
      × ((followed request s).is_leader ≡ false)
      × ((followed request s).got_hb ≡ true)
unfolding follow followed dump_p_state
followed_facts request s = ground arith

followed_outcomes :
    (request : AppendRequest) (s : Node)
    → (followed request s).disk.outcomes ≡ (next_outcome s.disk.outcomes).1
unfolding follow followed dump_p_state
followed_outcomes request s = ground arith

followed-Unfailing :
    (request : AppendRequest) (s : Node) → Unfailing s → Unfailing (followed request s)
followed-Unfailing request s fine =
    subst AllFine (sym (followed_outcomes request s)) (next_outcome-AllFine s.disk.outcomes fine).1

pub append_request-cases :
    (request : AppendRequest) (s s' : Node) (response : AppendResponse)
    → append_request request s ≡ (ok response, s')
    → ((request.term < s.env.p.current_term) × (respond false s ≡ (ok response, s')))
      ⊎ ((s.env.p.current_term ≤ request.term)
          × (matches : Bool) × (a : Node) × (check_and_correct request.prev_log_index
                request.prev_log_term
                (followed request s)
              ≡ (ok matches, a))
          × (after_check request matches a ≡ (ok response, s')))
unfolding append_request
append_request-cases request s s' response h =
    elim (Bool-cases (ltb request.term s.env.p.current_term)) [
      | inl stale ↦ inl (ltb→lt _ _ stale, rw stale at h)
      | inr fresh ↦
          let rest = rw (fresh, follow-ok request s) at h in
          let (matches, a, checked, after) =
            continue-ok (after_check request)
              (check_and_correct request.prev_log_index request.prev_log_term (followed request s))
              rest in
          inr (ltb→le _ _ fresh, matches, a, checked, after)
    ]

pub after_check-true :
    (request : AppendRequest) (a s' : Node) (response : AppendResponse)
    → after_check request true a ≡ (ok response, s')
    → (b : Node) × (append_entries request.entries a ≡ (ok tt, b))
      × (commit_changes request.leader_commit b ≡ (ok tt, s'))
      × (response ≡ record { term = s'.env.p.current_term; success = true })
unfolding after_check take_entries respond
after_check-true request a s' response h =
    let (_, c, taken, answered) = continue-ok (λ _. respond true) (take_entries request a) h in
    let (_, b, appended, done) =
      continue-ok (λ _. commit_changes request.leader_commit) (append_entries request.entries a)
        taken in
    let same : c ≡ s' = ap (λ t. t.1) answered in
    (b, appended, done ∙ ap (λ n. (ok tt, n)) same, ground arith)

pub respond-ok :
    (b : Bool) (s s' : Node) (response : AppendResponse)
    → respond b s ≡ (ok response, s')
    → (response ≡ record { term = s.env.p.current_term; success = b }) × (s ≡ s')
unfolding respond
respond-ok b s s' response h = ground arith

filled : (l : List LogEntry) (i : ℕ) (e : LogEntry) → get_elem? l i ≡ some e → 1 ≤ length l
filled [] i e h = cc
filled (x ∷ l) i e h = omega arith

-- New entries behind a log that is not empty, in memory and in the file.
Durable-append :
    (a b : Node) (es : List LogEntry)
    → Durable a
    → 1 ≤ length a.env.l
    → b.env.l ≡ a.env.l ++ es
    → b.disk.log ≡ a.disk.log ++ map on_disk es
    → Durable b
Durable-append a b es d h env file =
    rw (env, file, d, drop-append 1 a.env.l es h) (sym (map-append on_disk (drop 1 a.env.l) es))

one_left : (i n : ℕ) → 1 ≤ n → 1 ≤ min (i + 1) n
one_left i n h = omega arith

Durable-same :
    (b s' : Node) → s'.env.l ≡ b.env.l → s'.disk.log ≡ b.disk.log → Durable b → Durable s'
Durable-same b s' env file d = rw (env, file) d

-- The state after a request that was answered with success.
pub record Matched (request : AppendRequest) (response : AppendResponse) (s s' : Node)
    : Type 0 where
  pub not_behind : s.env.p.current_term ≤ request.term
  pub entry : LogEntry
  pub there : get_elem? s.env.l request.prev_log_index ≡ some entry
  pub same_term : entry.term ≡ request.prev_log_term
  pub log : s'.env.l ≡ take (request.prev_log_index + 1) s.env.l ++ request.entries
  pub in_term : response.term ≡ request.term

-- A request is answered with success only if it is not stale and the log holds an entry of the
-- named term at the named index. The log is then cut after that entry and continued by the new
-- entries, whatever stood there, and the answer carries the request's term; where no file operation
-- fails and the file agreed with the log before, it agrees again. The index fits Go's int.
pub append_request-Matched :
    (request : AppendRequest) (s s' : Node) (response : AppendResponse)
    → request.prev_log_index < 9223372036854775808
    → append_request request s ≡ (ok response, s')
    → response.success ≡ true
    → Matched request response s s' × (Unfailing s → Durable s → Durable s')
append_request-Matched request s s' response word h success =
    elim (append_request-cases request s s' response h) [
      | inl (stale, refused) ↦
          cc (ap (λ (r : AppendResponse). r.success) (respond-ok false s s' response refused).0)
      | inr (fresh, false, a, checked, after) ↦ cc (
          ap (λ (r : AppendResponse). r.success)
            (respond-ok false a s' response (unfold after_check in after)).0)
      | inr (fresh, true, a, checked, after) ↦
          let (same_env, same_file, _, _) = followed_facts request s in
          let same_l = ap (λ (v : TEnv). v.l) same_env in
          let (passed, file) =
            check_and_correct-match request.prev_log_index request.prev_log_term
              (followed request s) a word checked in
          let (b, appended, done, answered) = after_check-true request a s' response after in
          let (env_b, file_b) = append_entries-ok request.entries a b appended in
          let kept = commit_changes-Keeps request.leader_commit b in
          let l_b = ap (λ (v : TEnv). v.l) env_b in
          let l_a = ap (λ (v : TEnv). v.l) passed.state in
          let l_s' : s'.env.l ≡ b.env.l = ap (λ t. t.1.env.l) (sym done) ∙ kept.l in
          let file_s' : s'.disk ≡ b.disk = ap (λ t. t.1.disk) (sym done) ∙ kept.disk in
          let there = ap (λ l. get_elem? l request.prev_log_index) (sym same_l) ∙ passed.there in
          let nonempty : 1 ≤ length a.env.l =
            rw (l_a, length-take (request.prev_log_index + 1) (followed request s).env.l)
              (one_left _ _ (filled _ _ _ passed.there)) in
          (
            record {
              not_behind = fresh;
              entry = passed.entry;
              there = there;
              same_term = passed.same_term;
              log =
                  l_s'
                  ∙ l_b
                  ∙ ap (λ l. l ++ request.entries)
                      (l_a ∙ ap (take (request.prev_log_index + 1)) same_l);
              in_term =
                  ap (λ (r : AppendResponse). r.term) answered
                  ∙ ap (λ t. t.1.env.p.current_term) (sym done)
                  ∙ ap (λ (p : Persisted). p.current_term) kept.p
                  ∙ ap (λ (v : TEnv). v.p.current_term) (env_b)
                  ∙ ap (λ (v : TEnv). v.p.current_term) passed.state
                  ∙ ap (λ (v : TEnv). v.p.current_term) same_env;
            },
            λ fine d. Durable-same b s' l_s' (ap (λ (k : Disk). k.log) file_s') (
                Durable-append a b request.entries
                  (file (followed-Unfailing request s fine)
                    (same_file ∙ d ∙ ap (λ l. map on_disk (drop 1 l)) (sym same_l)))
                  nonempty l_b file_b),
          )
    ]
