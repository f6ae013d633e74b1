-- ===== src/Raft/Restart/Anytime.antt =====
-- A restart at any time, where the file operations succeed.
use tors_hw.Base.{
  ℕ, ℤ, ◌≡◌, refl, sym, ap, inl, inr, subst, String, Bool, Bool-cases, true, false, Option, none,
  some, List, [], ◌∷◌, map, drop, Result, continue-keeps, ◌>>◌, ltb, arith, All,
}
use tors_hw.Raft.Log.{LogEntry, sentinel}
use tors_hw.Raft.Node.{Node, LeaderState, dump_p_state}
use tors_hw.Raft.Wal.{on_disk, check_and_correct, append, append_entries}
use tors_hw.Raft.Wal.Stored.{
  Begins, Stored, by_fine, append-Stored, append_entries-Stored, check_and_correct-Stored, Names,
}
use tors_hw.Raft.Wal.Codec.RoundTrip.{Encodes}
use tors_hw.Raft.Commit.Keeps.{Keeps, commit_changes-Keeps}
use tors_hw.Raft.Commit.{commit_changes}
use tors_hw.Raft.Vote.{VoteResponse}
use tors_hw.Raft.Append.{AppendRequest, append_request, follow, after_check, take_entries, respond}
use tors_hw.Raft.Append.Matching.{followed, follow-ok}
use tors_hw.Raft.Election.{
  start_term, adopt_newer, give_up, lead, conclude, Verdict, elected, refused, timed_out,
  newer_term, try_become_leader,
}
use tors_hw.Raft.Election.Majority.{started, try_become_leader-conclude}
use tors_hw.Raft.Heartbeat.Keeps.{hb_outcome-Keeps, hb_commit-Keeps}
use tors_hw.Raft.External.{apply_request_sync, signal}
use tors_hw.Raft.Ballot.{Event, asked, told, stood, heard, advanced, submitted, next}
use tors_hw.Raft.Ballot.Once.{already_leads}
use tors_hw.Raft.Restart.{boot, booted}
use tors_hw.Raft.Restart.Steps.{Keeps-Stored, request_vote-Stored}
use tors_hw.Raft.Restart.Survives.{boot-Durable}

-- New entries.

after_check-Stored :
    (request : AppendRequest) (matches : Bool) (s : Node)
    → Stored s
    → Stored (after_check request matches s).1
unfolding after_check take_entries respond
after_check-Stored request false s v = v
after_check-Stored request true s v =
    continue-keeps Stored (λ _. respond true) (take_entries request s)
      (continue-keeps Stored (λ _. commit_changes request.leader_commit)
        (append_entries request.entries s) (append_entries-Stored request.entries s v)
        (λ _ n h. Keeps-Stored n _ (commit_changes-Keeps request.leader_commit n) h))
      (λ _ n h. h)

followed-Stored : (request : AppendRequest) (s : Node) → Stored s → Stored (followed request s)
followed-Stored request s v =
    by_fine (λ t. Stored (followed request t)) s v.fine
      (unfold followed follow dump_p_state in
        record { begins = v.begins; durable = v.durable; state = refl; fine = refl })

append_request-Stored :
    (request : AppendRequest) (s : Node)
    → Names request.prev_log_index request.prev_log_term
    → Stored s
    → Stored (append_request request s).1
unfolding append_request respond
append_request-Stored request s names v =
    elim (Bool-cases (ltb request.term s.env.p.current_term)) [
      | inl stale ↦ rw stale v
      | inr fresh ↦
          rw (fresh, follow-ok request s)
            (continue-keeps Stored (after_check request)
              (check_and_correct request.prev_log_index request.prev_log_term (followed request s))
              (check_and_correct-Stored request.prev_log_index request.prev_log_term
                (followed request s) (followed-Stored request s v) names)
              (λ b n h. after_check-Stored request b n h))
    ]

-- Elections.

started-Stored : (node_id : ℕ) (s : Node) → Stored s → Stored (started node_id s)
started-Stored node_id s v =
    by_fine (λ t. Stored (started node_id t)) s v.fine
      (unfold started start_term dump_p_state in
        record { begins = v.begins; durable = v.durable; state = refl; fine = refl })

newer-Stored : (term : ℕ) (s : Node) → Stored s → Stored ((adopt_newer term >> give_up) s).1
newer-Stored term s v =
    by_fine (λ t. Stored ((adopt_newer term >> give_up) t).1) s v.fine
      (unfold adopt_newer give_up dump_p_state in
        record { begins = v.begins; durable = v.durable; state = refl; fine = refl })

lead-Stored : (node_id n : ℕ) (s : Node) → Stored s → Stored (lead node_id n s).1
lead-Stored node_id n s v = Keeps-Stored s (lead node_id n s).1 facts v
  where
    facts : Keeps s (lead node_id n s).1
    facts = unfold lead in record { p = ground arith; l = ground arith; disk = ground arith }

conclude-Stored :
    (node_id n : ℕ) (v : Verdict) (s : Node) → Stored s → Stored (conclude node_id n v s).1
unfolding conclude give_up
conclude-Stored node_id n elected s v = lead-Stored node_id n s v
conclude-Stored node_id n refused s v = record {
  begins = v.begins;
  durable = v.durable;
  state = v.state;
  fine = v.fine;
}
conclude-Stored node_id n timed_out s v = record {
  begins = v.begins;
  durable = v.durable;
  state = v.state;
  fine = v.fine;
}
conclude-Stored node_id n (newer_term term) s v = newer-Stored term s v

try_become_leader-Stored :
    (node_id n taken : ℕ) (arrivals : List VoteResponse) (o : Option LeaderState) (s : Node)
    → s.env.leader_state ≡ o
    → Stored s
    → Stored (try_become_leader node_id n taken arrivals s).1
try_become_leader-Stored node_id n taken arrivals none s h v =
    subst (λ (r : Result (Unit {0}) × Node). Stored r.1)
      (sym (try_become_leader-conclude node_id n taken arrivals s h))
      (conclude-Stored node_id n _ (started node_id s) (started-Stored node_id s v))
try_become_leader-Stored node_id n taken arrivals (some leader) s h v =
    subst Stored (sym (already_leads node_id n taken arrivals s leader h)) v

submitted-Stored :
    (op : ℤ) (key value prev : String) (channel : ℕ) (s : Node)
    → Stored s
    → Stored (apply_request_sync op key value prev channel s).1
unfolding apply_request_sync
submitted-Stored op key value prev channel s v =
    continue-keeps Stored (λ _. signal) (append _ s) (append-Stored _ s v)
      (λ _ n h. record { begins = h.begins; durable = h.durable; state = h.state; fine = h.fine })

-- What a request for new entries names; other events are arbitrary.
abbrev pub Sane : Event → Type 0
Sane (told request) = Names request.prev_log_index request.prev_log_term
Sane e = Unit

next-Stored :
    (node_id n : ℕ) (e : Event) (s : Node) → Sane e → Stored s → Stored (next node_id n e s)
unfolding next
next-Stored node_id n (asked request) s sane v = request_vote-Stored request s v
next-Stored node_id n (told request) s sane v = append_request-Stored request s sane v
next-Stored node_id n (stood taken arrivals) s sane v =
    try_become_leader-Stored node_id n taken arrivals s.env.leader_state s refl v
next-Stored node_id n (heard follower outcome) s sane v =
    Keeps-Stored s _ (hb_outcome-Keeps follower outcome s) v
next-Stored node_id n advanced s sane v = Keeps-Stored s _ (hb_commit-Keeps s) v
next-Stored node_id n (submitted op key value prev channel) s sane v =
    submitted-Stored op key value prev channel s v

-- The node after these events.
abbrev pub after_events : ℕ → ℕ → List Event → Node → Node
after_events node_id n [] s = s
after_events node_id n (e ∷ later) s = after_events node_id n later (next node_id n e s)

after_events-Stored :
    (node_id n : ℕ) (events : List Event) (s : Node)
    → All Sane events
    → Stored s
    → Stored (after_events node_id n events s)
after_events-Stored node_id n [] s sane v = v
after_events-Stored node_id n (e ∷ later) s (here, sane) v =
    after_events-Stored node_id n later (next node_id n e s) sane (next-Stored node_id n e s here v)

behind_first : (l : List LogEntry) → Begins l → l ≡ sentinel ∷ drop 1 l
behind_first [] b = absurd b
behind_first (x ∷ l) b = ap (λ e. e ∷ l) b

-- Whatever happens at a node whose file operations succeed, panics included, a restart at any moment
-- finds the same term, the same vote and the same log. The files hold the node's state and log at the
-- start of the run, and the log begins with its first entry; each request for new entries names an
-- index below 2^64 - 1, and the first entry by its term; each entry has some bytes in JSON, fewer than
-- 2^32, that decode to it.
pub restart_anytime :
    (marshal : LogEntry → List ℕ) (unmarshal : List ℕ → Option LogEntry) (node_id n : ℕ)
    (events : List Event) (s : Node)
    → Stored s
    → All Sane events
    → All (Encodes marshal unmarshal) (map on_disk (drop 1 (after_events node_id n events s).env.l))
    → let t = after_events node_id n events s in
      boot marshal unmarshal t.disk ≡ some (booted t.disk t.env.p (map on_disk t.env.l))
restart_anytime marshal unmarshal node_id n events s v sane encodes =
    let t = after_events node_id n events s in
    let w = after_events-Stored node_id n events s sane v in
    boot-Durable marshal unmarshal t (drop 1 t.env.l) (behind_first t.env.l w.begins) w.durable
      w.state encodes
