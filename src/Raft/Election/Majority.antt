-- ===== src/Raft/Election/Majority.antt =====
-- Who becomes leader, and in which state: `TryBecomeLeader` against the number of votes.
use tors_hw.Base.{
  ℕ, ◌-◌, ◌/◌, ◌<◌, ◌≤◌, ◌≡◌, refl, sym, ap, ◌∙◌, true, false, none, some, List, ◌∷◌, Result, pure,
  continue, ok, ◌>>◌, if◌then◌else◌, add_u64, u64_mod, length, subst, set, replicate, take,
  length-take, arith,
}
use tors_hw.Raft.Node.{Node, Persisted, dump_p_state}
use tors_hw.Raft.Wal.{last_u64}
use tors_hw.Raft.Vote.{VoteResponse}
use tors_hw.Raft.Election.{
  Verdict, elected, refused, timed_out, newer_term, count_votes, own_vote, start_term, lead,
  give_up, adopt_newer, conclude, new_leader_state, stand, already_leader, try_become_leader,
}
use tors_hw.Raft.Election.Counting.{granted, NoneNewer, count_votes-elected, count_votes-majority}

-- The state of a node that has just become leader: in the next term, with its own vote, the log it
-- had, every follower's next index past the log, and no match but its own.
pub record Leads (node_id num_nodes : ℕ) (s s' : Node) : Type 0 where
  pub leads : s'.is_leader ≡ true
  pub p :
      s'.env.p ≡ record { current_term = add_u64 s.env.p.current_term 1; voted_for = some node_id }
  pub leader_id : s'.env.leader_id ≡ some node_id
  pub leader_state :
      s'.env.leader_state
      ≡ some (record {
        next_index = replicate num_nodes (add_u64 (last_u64 (length s.env.l)) 1);
        match_index = set (replicate num_nodes 0) node_id (u64_mod - 1);
      })
  pub same_log : s'.env.l ≡ s.env.l

-- The node as it starts the term, and the verdict it then reaches.
unfoldable pub started : ℕ → Node → Node
started node_id s = (start_term node_id s).1

unfoldable pub verdict : ℕ → ℕ → ℕ → List VoteResponse → Verdict
verdict num_nodes term taken arrivals =
    count_votes num_nodes term (record { true_count = 0; false_count = 0 })
      (take taken (own_vote ∷ arrivals))

pub started_facts :
    (node_id : ℕ) (s : Node)
    → ((started node_id s).env.p
        ≡ record { current_term = add_u64 s.env.p.current_term 1; voted_for = some node_id })
      × ((started node_id s).env.l ≡ s.env.l)
      × (start_term node_id s ≡ (ok tt, started node_id s))
unfolding started start_term dump_p_state
started_facts node_id s = ground arith

already_leader-none : (s : Node) → s.env.leader_state ≡ none → already_leader s ≡ (ok false, s)
unfolding already_leader
already_leader-none s h = ap (λ o. (ok (elim o [ none ↦ false | some _ ↦ true ]), s)) h

stand-conclude :
    (node_id n taken : ℕ) (arrivals : List VoteResponse) (s : Node)
    → stand node_id n taken arrivals s
      ≡ conclude node_id n
          (verdict n (add_u64 s.env.p.current_term 1) taken arrivals)
          (started node_id s)
unfolding stand verdict
stand-conclude node_id n taken arrivals s =
    let (p, _, runs) = started_facts node_id s in
    rw runs (
      ap
        (λ (q : Persisted).
          conclude node_id n (verdict n q.current_term taken arrivals) (started node_id s))
        p)

pub try_become_leader-conclude :
    (node_id n taken : ℕ) (arrivals : List VoteResponse) (s : Node)
    → s.env.leader_state ≡ none
    → try_become_leader node_id n taken arrivals s
      ≡ conclude node_id n
          (verdict n (add_u64 s.env.p.current_term 1) taken arrivals)
          (started node_id s)
unfolding try_become_leader
try_become_leader-conclude node_id n taken arrivals s none_yet =
    ap (continue (λ already. if already then pure tt else stand node_id n taken arrivals))
      (already_leader-none s none_yet)
    ∙ stand-conclude node_id n taken arrivals s

-- The node `s` as the leader of its next term.
abbrev leader_of : ℕ → ℕ → Node → Node
leader_of node_id n s = record s {
  is_leader = true;
  env = record (s.env) {
    leader_id = some node_id;
    leader_state = some (record {
      next_index = replicate n (add_u64 (last_u64 (length s.env.l)) 1);
      match_index = set (replicate n 0) node_id (u64_mod - 1);
    });
  };
}

lead-ok :
    (node_id n : ℕ) (s : Node) → node_id < n → lead node_id n s ≡ (ok tt, leader_of node_id n s)
unfolding lead new_leader_state
lead-ok node_id n s h = ground arith

leader_of-Leads :
    (node_id n : ℕ) (s : Node) → Leads node_id n s (leader_of node_id n (started node_id s))
leader_of-Leads node_id n s =
    let (p, l, _) = started_facts node_id s in
    record { leads = refl; p = p; leader_id = refl; leader_state = rw l refl; same_log = l }

lead-Leads :
    (node_id n : ℕ) (s : Node)
    → node_id < n
    → Leads node_id n s (lead node_id n (started node_id s)).1
lead-Leads node_id n s h =
    subst (Leads node_id n s) (sym (ap (λ t. t.1) (lead-ok node_id n (started node_id s) h)))
      (leader_of-Leads node_id n s)

adopt_newer-gives_up : (term : ℕ) (s : Node) → ((adopt_newer term >> give_up) s).1.is_leader ≡ false
unfolding adopt_newer give_up dump_p_state
adopt_newer-gives_up term s = ground arith

-- Only a verdict of `elected` leaves a node a leader.
conclude-leader :
    (node_id n : ℕ) (v : Verdict) (s : Node)
    → (conclude node_id n v s).1.is_leader ≡ true
    → v ≡ elected
unfolding conclude give_up
conclude-leader node_id n elected s h = refl
conclude-leader node_id n refused s h = cc
conclude-leader node_id n timed_out s h = cc
conclude-leader node_id n (newer_term term) s h = cc (adopt_newer-gives_up term s)

conclude-Leads :
    (node_id n : ℕ) (v : Verdict) (s : Node) (r : Result (Unit {0}) × Node)
    → node_id < n
    → r ≡ conclude node_id n v (started node_id s)
    → v ≡ elected
    → Leads node_id n s r.1
unfolding conclude
conclude-Leads node_id n v s r h e reached =
    subst (λ t. Leads node_id n s t.1)
      (sym (e ∙ ap (λ w. conclude node_id n w (started node_id s)) reached))
      (lead-Leads node_id n s h)

-- A node of the `n`, without leader state, that stands for election and ends as a leader has taken,
-- its own vote included, granted votes from more than half of the nodes; it is then the leader of its next term, with its own vote
-- in it, its log as before, and no follower's entry matched.
pub leader_has_majority :
    (node_id n taken : ℕ) (arrivals : List VoteResponse) (s : Node)
    → node_id < n
    → s.env.leader_state ≡ none
    → (try_become_leader node_id n taken arrivals s).1.is_leader ≡ true
    → (n / 2 < granted (take taken (own_vote ∷ arrivals)))
      × Leads node_id n s (try_become_leader node_id n taken arrivals s).1
unfolding verdict
leader_has_majority node_id n taken arrivals s h l now =
    let ends = try_become_leader-conclude node_id n taken arrivals s l in
    let reached =
      conclude-leader node_id n (verdict n (add_u64 s.env.p.current_term 1) taken arrivals)
        (started node_id s) (sym (ap (λ t. t.1.is_leader) ends) ∙ now) in
    (
      omega (arith, count_votes-elected n _ _ _ reached),
      conclude-Leads node_id n _ s _ h ends reached,
    )

-- Granted votes from more than half of the `n` nodes make one of them, which has no leader state, a
-- leader, where the messages taken
-- are no more than the nodes and none is from a later term than the one the node starts.
pub majority-Leads :
    (node_id n taken : ℕ) (arrivals : List VoteResponse) (s : Node)
    → node_id < n
    → s.env.leader_state ≡ none
    → taken ≤ n
    → NoneNewer (add_u64 s.env.p.current_term 1) (take taken (own_vote ∷ arrivals))
    → n / 2 < granted (take taken (own_vote ∷ arrivals))
    → Leads node_id n s (try_become_leader node_id n taken arrivals s).1
unfolding verdict
majority-Leads node_id n taken arrivals s h l few newer most =
    let reached : verdict n (add_u64 s.env.p.current_term 1) taken arrivals ≡ elected =
      count_votes-majority n _ _ _ newer (omega arith)
        (omega (arith, length-take taken (own_vote ∷ arrivals))) (omega arith) in
    conclude-Leads node_id n _ s _ h (try_become_leader-conclude node_id n taken arrivals s l)
      reached
