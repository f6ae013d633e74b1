-- ===== src/Raft/Broadcast/Idle.antt =====
-- A leader that has stepped down because of a newer term.
use tors_hw.Base.{
  ℕ, ◌<◌, ◌≡◌, refl, sym, subst, put_state, ap, ◌∙◌, Bool, true, false, Option, none, some, List,
  [], ◌∷◌, Result, ok, pure, ◌>>◌, if◌then◌else◌, lt→ltb,
}
use tors_hw.Raft.Node.{Node, TEnv, LeaderState}
use tors_hw.Raft.Vote.{VoteResponse}
use tors_hw.Raft.Append.{AppendResponse}
use tors_hw.Raft.Election.{try_become_leader, stand, already_leader}
use tors_hw.Raft.Heartbeat.{hb_response, caught_up, back_off}
use tors_hw.Raft.Broadcast.{check_hb}

-- What a timer finds: the votes that arrive, and how many of them the wait takes.
pub record Tick : Type 0 where
  pub taken : ℕ
  pub arrivals : List VoteResponse

-- The node after the timer has run out so often, with no other event between.
abbrev pub after_ticks : ℕ → ℕ → List Tick → Node → Node
after_ticks node_id num_nodes [] s = s
after_ticks node_id num_nodes (t ∷ later) s =
    after_ticks node_id num_nodes later (check_hb node_id num_nodes t.taken t.arrivals s).1

-- A node that has leader state but does not lead.
record Idle (env : TEnv) (s : Node) : Type 0 where
  same : s.env ≡ env
  no_leader : s.is_leader ≡ false

already :
    (node_id num_nodes taken : ℕ) (arrivals : List VoteResponse) (s : Node) (ls : LeaderState)
    → s.env.leader_state ≡ some ls
    → try_become_leader node_id num_nodes taken arrivals s ≡ (ok tt, s)
unfolding try_become_leader already_leader
already node_id num_nodes taken arrivals s ls has =
    ap
      (λ (o : Option LeaderState).
        (if elim o [ none ↦ false | some _ ↦ true ]
            then pure tt
            else stand node_id num_nodes taken arrivals)
          s)
      has

abbrev pub cleared : Node → Node
cleared s = record s { got_hb = false }

pub awake :
    (node_id num_nodes taken : ℕ) (arrivals : List VoteResponse) (s : Node)
    → s.is_leader ≡ false
    → check_hb node_id num_nodes taken arrivals s
      ≡ (if s.got_hb then pure tt else try_become_leader node_id num_nodes taken arrivals)
          (cleared s)
unfolding check_hb
awake node_id num_nodes taken arrivals s h =
    ap
      (λ (b : Bool).
        (if b then pure tt else (do
          put_state (record s { got_hb = false })
          if s.got_hb then pure tt else try_become_leader node_id num_nodes taken arrivals))
          s)
      h

either_way :
    (b : Bool) (node_id num_nodes taken : ℕ) (arrivals : List VoteResponse) (s : Node)
    (ls : LeaderState)
    → s.env.leader_state ≡ some ls
    → (if b then pure tt else try_become_leader node_id num_nodes taken arrivals) s ≡ (ok tt, s)
either_way true node_id num_nodes taken arrivals s ls has = refl
either_way false node_id num_nodes taken arrivals s ls has =
    already node_id num_nodes taken arrivals s ls has

check_hb-Idle :
    (node_id num_nodes taken : ℕ) (arrivals : List VoteResponse) (env : TEnv) (s : Node)
    (ls : LeaderState)
    → env.leader_state ≡ some ls
    → Idle env s
    → Idle env (check_hb node_id num_nodes taken arrivals s).1
check_hb-Idle node_id num_nodes taken arrivals env s ls has idle =
    let state = ap (λ (e : TEnv). e.leader_state) idle.same ∙ has in
    subst (λ (r : Result (Unit {0}) × Node). Idle env r.1)
      (sym (
        awake node_id num_nodes taken arrivals s idle.no_leader
        ∙ either_way s.got_hb node_id num_nodes taken arrivals (cleared s) ls state))
      (record { same = idle.same; no_leader = idle.no_leader })

after_ticks-Idle :
    (node_id num_nodes : ℕ) (ticks : List Tick) (env : TEnv) (s : Node) (ls : LeaderState)
    → env.leader_state ≡ some ls
    → Idle env s
    → Idle env (after_ticks node_id num_nodes ticks s)
after_ticks-Idle node_id num_nodes [] env s ls has idle = idle
after_ticks-Idle node_id num_nodes (t ∷ later) env s ls has idle =
    after_ticks-Idle node_id num_nodes later env _ ls has
      (check_hb-Idle node_id num_nodes t.taken t.arrivals env s ls has idle)

newer_term :
    (i : ℕ) (response : AppendResponse) (s : Node)
    → s.env.p.current_term < response.term
    → hb_response i response s ≡ (ok tt, record s { is_leader = false })
unfolding hb_response
newer_term i response s newer =
    ap
      (λ (b : Bool).
        (if b
            then put_state (record s { is_leader = false })
            else if response.success
            then caught_up i
            else back_off i)
          s)
      (lt→ltb _ _ newer)

-- A leader that hears of a newer term in the answer to a heartbeat leads no more, and however often
-- its timer then runs out with nothing between, it stays in its term and stands for no election:
-- nothing in its environment changes.
pub stepped_down_waits :
    (node_id num_nodes i : ℕ) (response : AppendResponse) (ticks : List Tick) (s : Node)
    (ls : LeaderState)
    → s.env.leader_state ≡ some ls
    → s.env.p.current_term < response.term
    → let s' = after_ticks node_id num_nodes ticks (hb_response i response s).1 in
      (s'.env ≡ s.env) × (s'.is_leader ≡ false)
stepped_down_waits node_id num_nodes i response ticks s ls has newer =
    let down =
      subst (λ (r : Result (Unit {0}) × Node). Idle s.env r.1) (sym (newer_term i response s newer))
        (record { same = refl; no_leader = refl }) in
    let idle = after_ticks-Idle node_id num_nodes ticks s.env _ ls has down in
    (idle.same, idle.no_leader)
