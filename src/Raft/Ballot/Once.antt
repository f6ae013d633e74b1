-- ===== src/Raft/Ballot/Once.antt =====
-- One vote a term.
use tors_hw.Base.{
  Option, false, continue, pure, if◌then◌else◌, ℕ, ◌+◌, ◌<◌, ◌≡◌, ◌⊎◌, inl, inr, refl, sym, subst,
  ap, ◌∙◌, true, none, some, List, [], ◌∷◌, Result, ok, ◌>>◌, add_u64, u64_mod, arith,
}
use tors_hw.Raft.Node.{Node, LeaderState, Persisted, dump_p_state}
use tors_hw.Raft.Vote.{VoteResponse, request_vote}
use tors_hw.Raft.Election.{
  Verdict, elected, refused, timed_out, newer_term, Tally, counted, turn, or_else, count_votes,
  conclude, lead, give_up, adopt_newer, try_become_leader, already_leader, stand,
}
use tors_hw.Raft.Election.Majority.{started, started_facts, verdict, try_become_leader-conclude}
use tors_hw.Raft.Ballot.{
  Ballot, Event, asked, told, stood, heard, advanced, submitted, next, own_ballot, candidacy, given,
  Room, Run, start, after, OneATerm,
}
use tors_hw.Raft.Heartbeat.Keeps.{hb_outcome-Keeps, hb_commit-Keeps}
use tors_hw.Raft.Ballot.Later.{
  Later, Later-eq, Later-refl, Later-trans, append_request-Later, apply_request_sync-p,
}
use tors_hw.Raft.Ballot.Sound.{Closed-Later, All-Later, Open, Sound, cast, asked-Sound}

-- The wait ends on a newer term only if it is newer.
turn-newer :
    (n term : ℕ) (v : VoteResponse) (t : Tally) (later : Verdict) (newer : ℕ)
    → or_else (turn n term v t) later ≡ newer_term newer
    → (term < newer) ⊎ (later ≡ newer_term newer)
unfolding turn or_else
turn-newer n term v t later newer h = ground arith

count_votes-newer :
    (n term : ℕ) (t : Tally) (vs : List VoteResponse) (newer : ℕ)
    → count_votes n term t vs ≡ newer_term newer
    → term < newer
unfolding count_votes
count_votes-newer n term t [] newer h = cc
count_votes-newer n term t (v ∷ vs) newer h =
    elim (turn-newer n term v (counted v.vote_granted t) _ newer h) [
      | inl now ↦ now
      | inr later ↦ count_votes-newer n term (counted v.vote_granted t) vs newer later
    ]

lead-p : (node_id n : ℕ) (s : Node) → (lead node_id n s).1.env.p ≡ s.env.p
unfolding lead
lead-p node_id n s = ground arith

adopt_newer-p :
    (term : ℕ) (s : Node)
    → ((adopt_newer term >> give_up) s).1.env.p ≡ record { current_term = term; voted_for = none }
unfolding adopt_newer give_up dump_p_state
adopt_newer-p term s = ground arith

conclude-Later :
    (node_id n : ℕ) (v : Verdict) (s : Node)
    → ((newer : ℕ) → v ≡ newer_term newer → s.env.p.current_term < newer)
    → Later s.env.p (conclude node_id n v s).1.env.p
unfolding conclude give_up
conclude-Later node_id n elected s h = Later-eq _ _ (lead-p node_id n s)
conclude-Later node_id n refused s h = Later-refl s.env.p
conclude-Later node_id n timed_out s h = Later-refl s.env.p
conclude-Later node_id n (newer_term newer) s h = rw (adopt_newer-p newer s) (inl (h newer refl))

-- A candidate's own vote is for a new term, and stays.
stood-Later :
    (node_id n taken : ℕ) (arrivals : List VoteResponse) (t : Node)
    → t.env.leader_state ≡ none
    → t.env.p.current_term + 1 < u64_mod
    → Later
        (record { current_term = t.env.p.current_term + 1; voted_for = some node_id })
        (try_become_leader node_id n taken arrivals t).1.env.p
unfolding verdict
stood-Later node_id n taken arrivals t none_yet room =
    let (p, _, _) = started_facts node_id t in
    let ends = try_become_leader-conclude node_id n taken arrivals t none_yet in
    let next : add_u64 t.env.p.current_term 1 ≡ t.env.p.current_term + 1 = omega arith in
    let same = p ∙ ap (λ k. record { current_term = k; voted_for = some node_id }) next in
    let later =
      conclude-Later node_id n (verdict n (add_u64 t.env.p.current_term 1) taken arrivals)
        (started node_id t)
        (λ newer e.
          subst (λ (q : Persisted). q.current_term < newer) (sym p)
            (count_votes-newer n _ _ _ newer e)) in
    subst (λ (q : Persisted). Later q (try_become_leader node_id n taken arrivals t).1.env.p) same
      (subst (λ (r : Result (Unit {0}) × Node). Later (started node_id t).env.p r.1.env.p)
        (sym ends) later)

stood-Sound :
    (node_id n taken : ℕ) (arrivals : List VoteResponse) (ballots : List Ballot) (t : Node)
    → t.env.leader_state ≡ none
    → t.env.p.current_term + 1 < u64_mod
    → Sound ballots t
    → Sound
        (record { term = t.env.p.current_term + 1; candidate = node_id } ∷ ballots)
        (try_become_leader node_id n taken arrivals t).1
unfolding Open
stood-Sound node_id n taken arrivals ballots t none_yet room sound =
    let l = stood-Later node_id n taken arrivals t none_yet room in
    cast ballots t (try_become_leader node_id n taken arrivals t).1
      (record { term = t.env.p.current_term + 1; candidate = node_id }) sound (inl (omega arith))
      (Later-trans t.env.p
        (record { current_term = t.env.p.current_term + 1; voted_for = some node_id }) _
        (inl (omega arith)) l)
      (Closed-Later (record { current_term = t.env.p.current_term + 1; voted_for = some node_id }) _
        (record { term = t.env.p.current_term + 1; candidate = node_id }) l
        (inr (refl, (node_id, refl))))

pub already_leads :
    (node_id n taken : ℕ) (arrivals : List VoteResponse) (t : Node) (leader : LeaderState)
    → t.env.leader_state ≡ some leader
    → (try_become_leader node_id n taken arrivals t).1 ≡ t
unfolding try_become_leader already_leader
already_leads node_id n taken arrivals t leader h =
    ap
      (λ (o : Option LeaderState).
        (continue (λ b. if b then pure tt else stand node_id n taken arrivals)
          (ok (elim o [ none ↦ false | some _ ↦ true ]), t)).1)
      h

stands :
    (node_id n taken : ℕ) (arrivals : List VoteResponse) (ballots : List Ballot) (t : Node)
    (o : Option LeaderState)
    → t.env.leader_state ≡ o
    → t.env.p.current_term + 1 < u64_mod
    → Sound ballots t
    → Sound
        (candidacy o (own_ballot node_id t) ballots)
        (try_become_leader node_id n taken arrivals t).1
stands node_id n taken arrivals ballots t none h room sound =
    stood-Sound node_id n taken arrivals ballots t h room sound
stands node_id n taken arrivals ballots t (some leader) h room sound =
    subst (λ u. Sound ballots u) (sym (already_leads node_id n taken arrivals t leader h)) sound

-- Each event keeps the votes sound.
pub next-Sound :
    (node_id n : ℕ) (e : Event) (t : Node) (ballots : List Ballot)
    → Room e t
    → Sound ballots t
    → Sound (given node_id e t ballots) (next node_id n e t)
unfolding next
next-Sound node_id n (asked request) t ballots room sound =
    asked-Sound ballots t request sound (request_vote request t) refl
next-Sound node_id n (told request) t ballots room (one, closed) =
    (one, All-Later _ _ ballots (append_request-Later request t) closed)
next-Sound node_id n (stood taken arrivals) t ballots room sound =
    stands node_id n taken arrivals ballots t t.env.leader_state refl room sound
next-Sound node_id n (heard follower outcome) t ballots room (one, closed) =
    (one, All-Later _ _ ballots (Later-eq _ _ (hb_outcome-Keeps follower outcome t).p) closed)
next-Sound node_id n advanced t ballots room (one, closed) =
    (one, All-Later _ _ ballots (Later-eq _ _ (hb_commit-Keeps t).p) closed)
next-Sound node_id n (submitted op key value prev channel) t ballots room (one, closed) = (
  one,
  All-Later _ _ ballots (Later-eq _ _ (apply_request_sync-p op key value prev channel t)) closed,
)

Run-Sound :
    (node_id n : ℕ) (s t : Node) (ballots : List Ballot)
    → Run node_id n s ballots t
    → Sound ballots t
Run-Sound node_id n s t ballots start = (tt, tt)
Run-Sound node_id n s t ballots (after {ballots = before} {t = u} run e room) =
    next-Sound node_id n e u before room (Run-Sound node_id n s u before run)

-- Whatever happens at a node, its elections included, from any state on, and whether its file
-- operations succeed or not, it gives at most one vote for a term, its votes for itself included,
-- as long as its term stays below 2^64.
pub one_vote_a_term :
    (node_id n : ℕ) (s t : Node) (ballots : List Ballot)
    → Run node_id n s ballots t
    → OneATerm ballots
one_vote_a_term node_id n s t ballots run = (Run-Sound node_id n s t ballots run).0
