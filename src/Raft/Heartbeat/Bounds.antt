-- ===== src/Raft/Heartbeat/Bounds.antt =====
-- A heartbeat's request stays inside the log.
use tors_hw.Base.{
  ◌≤◌, ◌⊎◌, inl, inr, true, Bool-cases, leb, leb→le, leb→lt, u64_mod, sub_u64, drop, ℕ, zero, suc,
  ◌+◌, ◌<◌, ◌≡◌, refl, ap, ◌∙◌, some, ok, ◌>>=◌, length, get_elem?, get_elem?-some, arith,
}
use tors_hw.Raft.Log.{LogEntry}
use tors_hw.Raft.Node.{Node, LeaderState}
use tors_hw.Raft.Wal.{last_u64}
use tors_hw.Raft.Append.{AppendRequest}
use tors_hw.Raft.Heartbeat.{hb_request, request_at, request_from, prev_idx, leader_state, or_panic}

last_u64-lt : (n : ℕ) → 0 < n → last_u64 n < n
last_u64-lt zero h = absurd (omega arith)
last_u64-lt (suc n) h = omega arith

prev_idx-lt : (next len : ℕ) → 0 < len → prev_idx next len < len
unfolding prev_idx
prev_idx-lt next len h = ground (arith, last_u64-lt len h)

-- The index named for the next index `next`: the one before, or the last of the log where the next
-- index is 0 or past the log.
abbrev pub Before : ℕ → ℕ → ℕ → Type 0
Before prev next len =
    ((1 ≤ next) × (next ≤ len) × (prev + 1 ≡ next))
    ⊎ (((next ≡ 0) ⊎ (len < next)) × (prev + 1 ≡ len))

last_u64-Before : (len : ℕ) → 0 < len → last_u64 len + 1 ≡ len
last_u64-Before zero h = absurd (omega arith)
last_u64-Before (suc n) h = omega arith

prev_idx-Before :
    (next len : ℕ) → 0 < len → len < u64_mod → next < u64_mod → Before (prev_idx next len) next len
unfolding prev_idx
prev_idx-Before zero len h word small =
    let past : leb len (sub_u64 0 1) ≡ true = ground arith in
    inr (inl refl, rw past (last_u64-Before len h))
prev_idx-Before (suc n) len h word small =
    let back : sub_u64 (suc n) 1 ≡ n = omega arith in
    elim (Bool-cases (leb len n)) [
      | inl past ↦
          inr (inr (omega (arith, leb→le _ _ past)), rw (back, past) (last_u64-Before len h))
      | inr inside ↦
          inl (omega arith, omega (arith, leb→lt _ _ inside), rw (back, inside) (omega arith))
    ]

-- A request that names an entry of the log, and carries all the entries behind it.
pub record Continues (node_id next : ℕ) (s : Node) (request : AppendRequest) : Type 0 where
  pub before : Before request.prev_log_index next (length s.env.l)
  pub named : LogEntry
  pub there : get_elem? s.env.l request.prev_log_index ≡ some named
  pub term : request.prev_log_term ≡ named.term
  pub entries : request.entries ≡ drop (request.prev_log_index + 1) s.env.l
  pub leads : request.term ≡ s.env.p.current_term
  pub leader_id : request.leader_id ≡ node_id
  pub leader_commit : request.leader_commit ≡ s.env.commit_index

request_at-Continues :
    (node_id next : ℕ) (s : Node)
    → 0 < length s.env.l
    → length s.env.l < u64_mod
    → next < u64_mod
    → (request : AppendRequest) × (request_at node_id next s ≡ (ok request, s))
      × Continues node_id next s request
unfolding request_at request_from or_panic
request_at-Continues node_id next s h word small =
    let prev = prev_idx next (length s.env.l) in
    let (entry, there) = get_elem?-some s.env.l prev (prev_idx-lt next (length s.env.l) h) in
    (
      request_from node_id prev entry s.env,
      rw there refl,
      record {
        before = prev_idx-Before next (length s.env.l) h word small;
        named = entry;
        there = there;
        term = refl;
        entries = refl;
        leads = refl;
        leader_id = refl;
        leader_commit = refl;
      },
    )

-- Whatever next index a leader has noted for a follower, zero and the largest uint64 included, its
-- request to that follower is built without a panic, and leaves the node as it is: the request names
-- the entry before the next index, or the last entry where the next index is 0 or past the log, with
-- that entry's term, and carries the entries behind it, all of them in their order, with the
-- leader's term, id and commit index. The log holds its first entry, and its length is a uint64.
pub hb_request_in_log :
    (node_id i next : ℕ) (s : Node) (ls : LeaderState)
    → s.env.leader_state ≡ some ls
    → get_elem? ls.next_index i ≡ some next
    → next < u64_mod
    → 0 < length s.env.l
    → length s.env.l < u64_mod
    → (request : AppendRequest) × (hb_request node_id i s ≡ (ok request, s))
      × Continues node_id next s request
unfolding hb_request leader_state or_panic
hb_request_in_log node_id i next s ls leads there small filled word =
    let (request, built, continues) = request_at-Continues node_id next s filled word small in
    (
      request,
      ap
            (λ o.
              (or_panic o >>= λ (k : LeaderState).
              or_panic (get_elem? k.next_index i) >>= request_at node_id)
                s)
            leads
          ∙ ap (λ o. (or_panic o >>= request_at node_id) s) there
          ∙ built,
      continues,
    )
