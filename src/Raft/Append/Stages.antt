-- ===== src/Raft/Append/Stages.antt =====
-- The node between the new entries of a request and the commit that ends it.
use tors_hw.Base.{◌+◌, ◌<◌, ◌≡◌, ap, ◌∙◌, true, false, none, some, ok, take, ◌++◌, inl, inr}
use tors_hw.Raft.Node.{Node, TEnv}
use tors_hw.Raft.Wal.Effects.{append_entries-ok}
use tors_hw.Raft.Wal.Checks.{check_and_correct-match}
use tors_hw.Raft.Commit.{commit_changes}
use tors_hw.Raft.Append.{AppendRequest, AppendResponse, append_request, after_check}
use tors_hw.Raft.Append.Matching.{
  followed, followed_facts, append_request-cases, after_check-true, respond-ok,
}

-- The environment of a node that follows the sender and has taken its entries.
abbrev pub taken : AppendRequest → TEnv → TEnv
taken request env = record env {
  l = take (request.prev_log_index + 1) env.l ++ request.entries;
  leader_state = none;
  leader_id = some request.leader_id;
  p = record { current_term = request.term; voted_for = some request.leader_id };
}

-- The node before the commit.
pub record Stages (request : AppendRequest) (s s' : Node) : Type 0 where
  pub before : Node
  pub env : before.env ≡ taken request s.env
  pub commits : commit_changes request.leader_commit before ≡ (ok tt, s')

pub append_request-Stages :
    (request : AppendRequest) (s s' : Node) (response : AppendResponse)
    → request.prev_log_index < 9223372036854775808
    → append_request request s ≡ (ok response, s')
    → response.success ≡ true
    → Stages request s s'
append_request-Stages request s s' response word h success =
    elim (append_request-cases request s s' response h) [
      | inl (stale, refused) ↦
          cc (ap (λ (r : AppendResponse). r.success) (respond-ok false s s' response refused).0)
      | inr (fresh, false, a, checked, after) ↦ cc (
          ap (λ (r : AppendResponse). r.success)
            (respond-ok false a s' response (unfold after_check in after)).0)
      | inr (fresh, true, a, checked, after) ↦
          let (same_env, _, _, _) = followed_facts request s in
          let (passed, _) =
            check_and_correct-match request.prev_log_index request.prev_log_term
              (followed request s) a word checked in
          let (b, appended, done, _) = after_check-true request a s' response after in
          let (env_b, _) = append_entries-ok request.entries a b appended in
          record {
            before = b;
            env =
                env_b
                ∙ ap (λ (v : TEnv). record v { l = v.l ++ request.entries })
                    (passed.state
                      ∙ ap (λ (v : TEnv). record v { l = take (request.prev_log_index + 1) v.l })
                          same_env);
            commits = done;
          }
    ]
