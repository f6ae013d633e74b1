-- ===== src/Raft/Heartbeat/Refusals.antt =====
-- Heartbeats that a follower refuses, one after the other: each takes the leader one entry further
-- back, and the first entry is never refused.
use tors_hw.Base.{
  ℕ, zero, suc, ◌-◌, ◌<◌, ◌≤◌, ◌≡◌, refl, sym, ap, ◌∙◌, true, false, some, List, [], ◌∷◌, ok, inl,
  inr, length, take, set, get_elem?, sub_u64, u64_mod, arith,
}
use tors_hw.Raft.Log.{LogEntry}
use tors_hw.Raft.Node.{Node, TEnv, Persisted, LeaderState}
use tors_hw.Raft.Wal.{check_and_correct}
use tors_hw.Raft.Wal.Checks.{check_and_correct-refused}
use tors_hw.Raft.Append.{AppendRequest, AppendResponse, append_request, after_check}
use tors_hw.Raft.Append.Matching.{
  followed, followed_facts, append_request-cases, after_check-true, respond-ok,
}
use tors_hw.Raft.Heartbeat.{
  hb_request, request_at, request_from, hb_response, back_off, put_leader, or_panic, leader_state,
  prev_idx,
}
use tors_hw.Raft.Heartbeat.Replication.{on_wire, request_at-read, ltb_irrefl}

-- So many heartbeats in a row from the leader `node_id` to the follower `i`, each answered without
-- success, and the answer taken by the leader. The follower is not in a newer term.
pub data Refusals (node_id i : ℕ) : ℕ → Node → Node → Type 0 where
  no_more : (leader follower : Node) → Refusals node_id i 0 leader follower
  one_more :
      (k : ℕ) (leader leader' follower follower' : Node) (request : AppendRequest)
      (response : AppendResponse)
      → hb_request node_id i leader ≡ (ok request, leader)
      → follower.env.p.current_term ≤ request.term
      → append_request (on_wire request) follower ≡ (ok response, follower')
      → response.success ≡ false
      → hb_response i response leader ≡ (ok tt, leader')
      → Refusals node_id i k leader' follower'
      → Refusals node_id i (suc k) leader follower

-- The logs begin with entries of one term.
pub record SameFirst (leader follower : Node) : Type 0 where
  pub entry : LogEntry
  pub ours : get_elem? leader.env.l 0 ≡ some entry
  pub other : LogEntry
  pub theirs : get_elem? follower.env.l 0 ≡ some other
  pub term : entry.term ≡ other.term

-- What is read of a leader whose next index for the follower is `next`.
request_by :
    (node_id i next : ℕ) (ls : LeaderState) (s : Node)
    → s.env.leader_state ≡ some ls
    → get_elem? ls.next_index i ≡ some next
    → hb_request node_id i s ≡ request_at node_id next s
unfolding hb_request leader_state or_panic
request_by node_id i next ls s leads at = rw (leads, at) refl

first_index : (len : ℕ) → 0 < len → prev_idx 1 len ≡ 0
unfolding prev_idx
first_index len h = ground arith

get_set : (xs : List ℕ) (i v w : ℕ) → get_elem? xs i ≡ some w → get_elem? (set xs i v) i ≡ some v
get_set [] i v w h = cc
get_set (x ∷ xs) zero v w h = refl
get_set (x ∷ xs) (suc i) v w h = get_set xs i v w h

taken_first :
    (n : ℕ) (l : List LogEntry) (e : LogEntry)
    → 1 ≤ n
    → get_elem? l 0 ≡ some e
    → get_elem? (take n l) 0 ≡ some e
taken_first zero l e h at = absurd (omega arith)
taken_first (suc n) [] e h at = at
taken_first (suc n) (x ∷ l) e h at = at

get_elem?-length :
    (l : List LogEntry) (i : ℕ) (e : LogEntry) → get_elem? l i ≡ some e → i < length l
get_elem?-length [] i e h = cc
get_elem?-length (x ∷ l) zero e h = omega arith
get_elem?-length (x ∷ l) (suc i) e h = let shorter = get_elem?-length l i e h in omega arith

-- A check that finds no match leaves the first entry, where that is no mismatch itself.
cut_later :
    (i t : ℕ) (s a : Node) (first : LogEntry)
    → get_elem? s.env.l 0 ≡ some first
    → (i ≡ 0 → first.term ≡ t)
    → i < 9223372036854775808
    → check_and_correct i t s ≡ (ok false, a)
    → (1 ≤ i) × (get_elem? a.env.l 0 ≡ some first) × (a.env.p ≡ s.env.p)
cut_later zero t s a first at same word h = elim (check_and_correct-refused 0 t s a word h) [
  | inl (short, _) ↦ let long = get_elem?-length s.env.l 0 first at in absurd (omega arith)
  | inr (e, there, differs, _) ↦
      let one : e ≡ first = cc in absurd (differs (ap (λ (x : LogEntry). x.term) one ∙ same refl))
]
cut_later (suc i) t s a first at same word h =
    elim (check_and_correct-refused (suc i) t s a word h) [
      | inl (_, env) ↦
          (omega arith, ap (λ (v : TEnv). get_elem? v.l 0) env ∙ at, ap (λ (v : TEnv). v.p) env)
      | inr (_, _, _, env) ↦ (
        omega arith,
        ap (λ (v : TEnv). get_elem? v.l 0) env ∙ taken_first (suc i) s.env.l first (omega arith) at,
        ap (λ (v : TEnv). v.p) env,
      )
    ]

-- A refusal of a request that is not stale: the index is not that of the first entry, which stays.
refused_later :
    (request : AppendRequest) (response : AppendResponse) (follower follower' : Node)
    (first : LogEntry)
    → get_elem? follower.env.l 0 ≡ some first
    → (request.prev_log_index ≡ 0 → first.term ≡ request.prev_log_term)
    → request.prev_log_index < 9223372036854775808
    → follower.env.p.current_term ≤ request.term
    → append_request request follower ≡ (ok response, follower')
    → response.success ≡ false
    → (1 ≤ request.prev_log_index)
      × (get_elem? follower'.env.l 0 ≡ some first)
      × (response.term ≡ request.term)
refused_later request response s s' first at same word fresh h refused =
    elim (append_request-cases request s s' response h) [
      | inl (stale, _) ↦ absurd (omega arith)
      | inr (_, true, a, _, after) ↦
          let (_, _, _, answered) = after_check-true request a s' response after in
          cc (ap (λ (r : AppendResponse). r.success) answered)
      | inr (_, false, a, checked, after) ↦
          let (answered, ends) = respond-ok false a s' response (unfold after_check in after) in
          let (env, _, _, _) = followed_facts request s in
          let at_followed : get_elem? (followed request s).env.l 0 ≡ some first =
            ap (λ (v : TEnv). get_elem? v.l 0) env ∙ at in
          let (later, still, p) =
            cut_later request.prev_log_index request.prev_log_term (followed request s) a first
              at_followed same word checked in
          (
            later,
            ap (λ (n : Node). get_elem? n.env.l 0) (sym ends) ∙ still,
            ap (λ (r : AppendResponse). r.term) answered
                ∙ ap (λ (q : Persisted). q.current_term) p
                ∙ ap (λ (v : TEnv). v.p.current_term) env,
          )
    ]

-- A leader whose record of the follower goes one entry back.
record Backed (i next : ℕ) (leader leader' : Node) : Type 0 where
  ls : LeaderState
  leads : leader'.env.leader_state ≡ some ls
  at : get_elem? ls.next_index i ≡ some (next - 1)
  log : leader'.env.l ≡ leader.env.l

back_off-Backed :
    (i next : ℕ) (ls : LeaderState) (response : AppendResponse) (s s' : Node)
    → s.env.leader_state ≡ some ls
    → get_elem? ls.next_index i ≡ some next
    → 1 ≤ next
    → next < u64_mod
    → response.term ≡ s.env.p.current_term
    → response.success ≡ false
    → hb_response i response s ≡ (ok tt, s')
    → Backed i next s s'
unfolding hb_response back_off leader_state or_panic
back_off-Backed i next ls response s s' leads at positive word term refused h =
    let back = record ls { next_index = set ls.next_index i (sub_u64 next 1) } in
    let does : hb_response i response s ≡ (ok tt, put_leader back s) =
      rw (term, ltb_irrefl s.env.p.current_term, refused, leads, at) refl in
    let ends : s' ≡ put_leader back s = ap (λ t. t.1) (sym h ∙ does) in
    record {
      ls = back;
      leads = ap (λ (n : Node). n.env.leader_state) ends;
      at = get_set ls.next_index i (sub_u64 next 1) next at ∙ ap some (omega arith);
      log = ap (λ (n : Node). n.env.l) ends;
    }

-- The index before the next one is in the log, and is 0 where the next one is 1.
prev_first : (next len : ℕ) → 1 ≤ next → 0 < len → 1 ≤ prev_idx next len → 2 ≤ next
prev_first zero len positive some_entry h = absurd (omega arith)
prev_first (suc zero) len positive some_entry h =
    let zero_index = first_index len some_entry in absurd (omega arith)
prev_first (suc (suc n)) len positive some_entry h = omega arith

-- A request that names the first entry names its term.
begins :
    (leader follower : Node) (n : ℕ) (entry : LogEntry) (first : SameFirst leader follower)
    → get_elem? leader.env.l n ≡ some entry
    → n ≡ 0
    → first.other.term ≡ entry.term
begins leader follower n entry first there zero_index =
    let ours = first.ours in
    let there_0 : get_elem? leader.env.l 0 ≡ some entry =
      ap (λ m. get_elem? leader.env.l m) (sym zero_index) ∙ there in
    let same : entry ≡ first.entry = cc in sym first.term ∙ ap (λ (e : LogEntry). e.term) (sym same)

-- Heartbeats to a follower, in a row, each refused by the follower as the one before left it, and
-- each recorded by the leader, are fewer than the next index that the leader began with for the
-- follower. The follower is not in a newer term, both logs begin with entries of one term, and the
-- next index and the leader's log fit the machine's integers.
pub backing_off_ends :
    (node_id i k next : ℕ) (ls : LeaderState) (leader follower : Node)
    → leader.env.leader_state ≡ some ls
    → get_elem? ls.next_index i ≡ some next
    → 1 ≤ next
    → next < u64_mod
    → length leader.env.l < 9223372036854775808
    → SameFirst leader follower
    → Refusals node_id i k leader follower
    → k < next
unfolding request_from
backing_off_ends node_id i zero next ls leader follower leads at positive word short first
      (no_more _ _) =
    omega arith
backing_off_ends node_id i (suc k) next ls leader follower leads at positive word short first
      (one_more _ _ leader' _ follower' request response asked fresh answered refused told rest) =
    let n = prev_idx next (length leader.env.l) in
    let at_next = sym (request_by node_id i next ls leader leads at) ∙ asked in
    let (entry, there, made, _) = request_at-read node_id next leader leader request at_next in
    let index = ap (λ (r : AppendRequest). r.prev_log_index) made in
    let inside = get_elem?-length leader.env.l n entry there in
    let (later, still, term) =
      refused_later (on_wire request) response follower follower' first.other first.theirs
        (λ zero_index.
          begins leader follower n entry first there (sym index ∙ zero_index)
          ∙ sym (ap (λ (r : AppendRequest). r.prev_log_term) made))
        (omega arith) fresh answered refused in
    let back =
      back_off-Backed i next ls response leader leader' leads at positive word
        (term ∙ ap (λ (r : AppendRequest). r.term) made) refused told in
    let two = prev_first next (length leader.env.l) positive (omega arith) (omega arith) in
    let fewer =
      backing_off_ends node_id i k (next - 1) back.ls leader' follower' back.leads back.at
        (omega arith) (omega arith) (rw back.log short)
        (record {
          entry = first.entry;
          ours = ap (λ l. get_elem? l 0) back.log ∙ first.ours;
          other = first.other;
          theirs = still;
          term = first.term;
        })
        rest in
    omega arith
