-- ===== src/Raft/Restart/Steps.antt =====
-- What each call of a node leaves in its files.
use tors_hw.Base.{
  ◌≡◌, refl, sym, ap, ◌∙◌, inl, inr, subst, Bool-cases, some, [], map, drop, ltb, arith,
}
use tors_hw.Raft.Node.{Node, Disk, dump_p_state}
use tors_hw.Raft.Wal.Stored.{Begins, Stored, by_fine}
use tors_hw.Raft.Wal.{on_disk}
use tors_hw.Raft.Commit.Keeps.{Keeps}
use tors_hw.Raft.Vote.{VoteRequest, adopt_term, decide_vote, request_vote}
use tors_hw.Raft.Vote.Grant.{adopted, adopt_term-ok}

-- The log and its file are the same, no file operation is going to fail, and the state is in its file.
record Safe (s t : Node) : Type 0 where
  l : t.env.l ≡ s.env.l
  log : t.disk.log ≡ s.disk.log
  fine : t.disk.outcomes ≡ []
  state : t.disk.pstate ≡ some t.env.p

Safe-Stored : (s t : Node) → Stored s → Safe s t → Stored t
Safe-Stored s t v safe = record {
  begins = subst Begins (sym safe.l) v.begins;
  durable = safe.log ∙ v.durable ∙ ap (λ l. map on_disk (drop 1 l)) (sym safe.l);
  state = safe.state;
  fine = safe.fine;
}

pub Keeps-Stored : (s t : Node) → Keeps s t → Stored s → Stored t
Keeps-Stored s t k v = Safe-Stored s t v (record {
  l = k.l;
  log = ap (λ (d : Disk). d.log) k.disk;
  fine = ap (λ (d : Disk). d.outcomes) k.disk ∙ v.fine;
  state = ap (λ (d : Disk). d.pstate) k.disk ∙ v.state ∙ ap some (sym k.p);
})

decide_vote-Stored :
    (request : VoteRequest) (s : Node) → Stored s → Stored (decide_vote request s).1
unfolding decide_vote
decide_vote-Stored request s v =
    let (l, log, fine, state) = facts v.fine v.state in
    Safe-Stored s (decide_vote request s).1 v
      (record { l = l; log = log; fine = fine; state = state })
  where
    facts :
        s.disk.outcomes ≡ []
        → s.disk.pstate ≡ some s.env.p
        → ((decide_vote request s).1.env.l ≡ s.env.l)
          × ((decide_vote request s).1.disk.log ≡ s.disk.log)
          × ((decide_vote request s).1.disk.outcomes ≡ [])
          × ((decide_vote request s).1.disk.pstate ≡ some (decide_vote request s).1.env.p)
    facts fine state = ground arith

adopted-Stored : (request : VoteRequest) (s : Node) → Stored s → Stored (adopted request s)
adopted-Stored request s v =
    by_fine (λ t. Stored (adopted request t)) s v.fine
      (unfold adopted adopt_term dump_p_state in
        record { begins = v.begins; durable = v.durable; state = refl; fine = refl })

pub request_vote-Stored :
    (request : VoteRequest) (s : Node) → Stored s → Stored (request_vote request s).1
unfolding request_vote
request_vote-Stored request s v = elim (Bool-cases (ltb request.term s.env.p.current_term)) [
  | inl stale ↦ rw stale v
  | inr fresh ↦ elim (Bool-cases (ltb s.env.p.current_term request.term)) [
    | inl newer ↦
        rw (fresh, newer, adopt_term-ok request s)
          (decide_vote-Stored request (adopted request s) (adopted-Stored request s v))
    | inr equal ↦ rw (fresh, equal) (decide_vote-Stored request s v)
  ]
]
