-- ===== src/Raft/Timers/Silence.antt =====
-- Between two heartbeats: the timer of a follower, from a leader's request on.
use tors_hw.Base.{
  ℕ, ◌≤◌, ◌≡◌, refl, ap, ◌∙◌, pos, Bool, true, false, List, [], ◌∷◌, Result, ok, err, pure,
  continue, if◌then◌else◌, ltb_ℤ,
}
use tors_hw.Raft.Node.{Node}
use tors_hw.Raft.Vote.{VoteResponse}
use tors_hw.Raft.Append.{AppendRequest, append_request}
use tors_hw.Raft.Election.{try_become_leader}
use tors_hw.Raft.Broadcast.{check_hb}
use tors_hw.Raft.Broadcast.Idle.{awake, cleared}
use tors_hw.Raft.Config.{AppConfig}
use tors_hw.Raft.Timers.{Turn, expired, calc_deadline, periodic_check_hb}
use tors_hw.Raft.Timers.Flags.{append_request-Heard}

ended : (r : Result (Unit {0}) × Node) → continue (λ _. pure tt) r ≡ r
ended (ok tt, s) = refl
ended (err f, s) = refl

module _ (app : AppConfig) (node_id num_nodes : ℕ) where
  abbrev pub turn : ℕ → ℕ → List VoteResponse → Turn
  turn draw taken arrivals = record { draw = draw; wake = expired taken arrivals }

  one_turn :
      (draw taken : ℕ) (arrivals : List VoteResponse) (later : List Turn) (s : Node)
      → ltb_ℤ (pos 0) app.random_shift ≡ true
      → periodic_check_hb app node_id num_nodes (turn draw taken arrivals ∷ later) s
        ≡ continue
            (λ _. periodic_check_hb app node_id num_nodes later)
            (check_hb node_id num_nodes taken arrivals s)
  unfolding periodic_check_hb calc_deadline
  one_turn draw taken arrivals later s shift = rw shift refl

  check_quiet :
      (taken : ℕ) (arrivals : List VoteResponse) (s : Node)
      → s.is_leader ≡ false
      → s.got_hb ≡ true
      → check_hb node_id num_nodes taken arrivals s ≡ (ok tt, cleared s)
  check_quiet taken arrivals s follows heard =
      awake node_id num_nodes taken arrivals s follows
      ∙ ap
          (λ (b : Bool).
            (if b then pure tt else try_become_leader node_id num_nodes taken arrivals) (cleared s))
          heard

  -- After an append request that is not stale, however it was answered, the timer of the node runs out
  -- once without effect but on the flag; if it runs out again with nothing between, the node tries to
  -- become leader. The random shift is positive.
  pub silence_elects :
      (request : AppendRequest) (s : Node) (draw₁ taken₁ draw₂ taken₂ : ℕ)
      (arrivals₁ arrivals₂ : List VoteResponse)
      → s.env.p.current_term ≤ request.term
      → ltb_ℤ (pos 0) app.random_shift ≡ true
      → let s' = (append_request request s).1 in
        (periodic_check_hb app node_id num_nodes (turn draw₁ taken₁ arrivals₁ ∷ []) s'
          ≡ (ok tt, cleared s'))
        × (periodic_check_hb app node_id num_nodes
              (turn draw₁ taken₁ arrivals₁ ∷ turn draw₂ taken₂ arrivals₂ ∷ [])
              s'
            ≡ try_become_leader node_id num_nodes taken₂ arrivals₂ (cleared s'))
  unfolding periodic_check_hb
  silence_elects request s draw₁ taken₁ draw₂ taken₂ arrivals₁ arrivals₂ fresh shift =
      let s' = (append_request request s).1 in
      let heard = append_request-Heard request s fresh in
      let quiet = check_quiet taken₁ arrivals₁ s' heard.no_leader heard.got_hb in
      (
        one_turn draw₁ taken₁ arrivals₁ [] s' shift ∙ ap (continue (λ _. pure tt)) quiet,
        one_turn draw₁ taken₁ arrivals₁ (turn draw₂ taken₂ arrivals₂ ∷ []) s' shift
            ∙ ap
                (continue
                  (λ _. periodic_check_hb app node_id num_nodes (turn draw₂ taken₂ arrivals₂ ∷ [])))
                quiet
            ∙ one_turn draw₂ taken₂ arrivals₂ [] (cleared s') shift
            ∙ ap (continue (λ _. pure tt))
                (awake node_id num_nodes taken₂ arrivals₂ (cleared s') heard.no_leader)
            ∙ ended (try_become_leader node_id num_nodes taken₂ arrivals₂ (cleared s')),
      )
