-- ===== src/Raft/Timers/Flags.antt =====
-- A request from a leader sets the flag that the timer looks at, however the request ends.
use tors_hw.Base.{
  ◌≤◌, ◌≡◌, ◌∙◌, Bool, true, false, inl, inr, continue-keeps, ltb, ltb→lt, arith, Bool-cases,
}
use tors_hw.Raft.Node.{Node, SameFlags}
use tors_hw.Raft.Wal.{append_entries, check_and_correct}
use tors_hw.Raft.Wal.Flags.{append_entries-SameFlags, check_and_correct-SameFlags}
use tors_hw.Raft.Commit.{commit_changes}
use tors_hw.Raft.Commit.Keeps.{commit_changes-SameFlags}
use tors_hw.Raft.Append.{AppendRequest, after_check, take_entries, respond, append_request}
use tors_hw.Raft.Append.Matching.{followed, followed_facts, follow-ok}

-- The node does not lead, and the flag is set.
pub record Heard (s : Node) : Type 0 where
  pub no_leader : s.is_leader ≡ false
  pub got_hb : s.got_hb ≡ true

SameFlags-Heard : (s s' : Node) → SameFlags s s' → Heard s → Heard s'
SameFlags-Heard s s' f h = record {
  no_leader = f.is_leader ∙ h.no_leader;
  got_hb = f.got_hb ∙ h.got_hb;
}

take_entries-Heard :
    (request : AppendRequest) (s : Node) → Heard s → Heard (take_entries request s).1
unfolding take_entries
take_entries-Heard request s h =
    continue-keeps Heard (λ _. commit_changes request.leader_commit)
      (append_entries request.entries s)
      (SameFlags-Heard s _ (append_entries-SameFlags request.entries s) h)
      (λ _ a k. SameFlags-Heard a _ (commit_changes-SameFlags request.leader_commit a) k)

after_check-Heard :
    (request : AppendRequest) (matches : Bool) (s : Node)
    → Heard s
    → Heard (after_check request matches s).1
unfolding after_check respond
after_check-Heard request false s h = h
after_check-Heard request true s h =
    continue-keeps Heard (λ _. respond true) (take_entries request s)
      (take_entries-Heard request s h) (λ _ a k. k)

pub append_request-Heard :
    (request : AppendRequest) (s : Node)
    → s.env.p.current_term ≤ request.term
    → Heard (append_request request s).1
unfolding append_request
append_request-Heard request s fresh = elim (Bool-cases (ltb request.term s.env.p.current_term)) [
  | inl stale ↦ absurd (omega (arith, ltb→lt _ _ stale))
  | inr h ↦
      rw (h, follow-ok request s)
        (let (_, _, no_leader, got_hb) = followed_facts request s in
          continue-keeps Heard (after_check request)
            (check_and_correct request.prev_log_index request.prev_log_term (followed request s))
            (SameFlags-Heard (followed request s) _
              (check_and_correct-SameFlags request.prev_log_index request.prev_log_term
                (followed request s))
              (record { no_leader = no_leader; got_hb = got_hb }))
            (λ matches a k. after_check-Heard request matches a k))
]
