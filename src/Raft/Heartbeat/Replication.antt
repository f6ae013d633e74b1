-- ===== src/Raft/Heartbeat/Replication.antt =====
-- A heartbeat, from the leader's request to the follower's log and the leader's record of it.
use mathlib.Core.List.{map-append}
use tors_hw.Base.{
  ℕ, suc, ◌+◌, ◌<◌, ◌≡◌, refl, sym, ap, ◌∙◌, true, false, Option, none, some, List, [], ◌∷◌, ◌++◌,
  map, Exec, Result, ok, pure, get_elem?-some, ◌>>=◌, ltb, length, get_elem?, set, take, drop,
  take-append-drop, arith,
}
use tors_hw.Raft.Log.{LogEntry}
use tors_hw.Raft.Node.{Node, LeaderState}
use tors_hw.Raft.Wal.{on_disk, last_u64}
use tors_hw.Raft.Wal.Effects.{map-on_disk_again, Durable, Unfailing}
use tors_hw.Raft.Append.{AppendRequest, AppendResponse, append_request}
use tors_hw.Raft.Append.Matching.{append_request-Matched}
use tors_hw.Raft.Heartbeat.{
  hb_request, request_at, request_from, hb_response, caught_up, put_leader, or_panic, leader_state,
  prev_idx,
}

-- What is read of the leader for a request: the entry before the new ones.
pub record Built (node_id : ℕ) (s : Node) (request : AppendRequest) (s' : Node) : Type 0 where
  pub prev : ℕ
  pub entry : LogEntry
  pub there : get_elem? s.env.l prev ≡ some entry
  pub built : request ≡ request_from node_id prev entry s.env
  pub state : s' ≡ s

read-ok :
    {A B : Type 0} (f : A → Exec Node B) (o : Option A) {s s' : Node} {b : B}
    → (or_panic o >>= f) s ≡ (ok b, s')
    → (a : A) × (o ≡ some a) × (f a s ≡ (ok b, s'))
unfolding or_panic
read-ok f none h = cc
read-ok f (some a) h = (a, refl, h)

result_of :
    {r r' : AppendRequest} {s s' : Node}
    → ◌≡◌ {A = Result AppendRequest × Node} (ok r, s) (ok r', s')
    → r' ≡ r
result_of h = ground arith

pub ltb_irrefl : (n : ℕ) → ltb n n ≡ false
ltb_irrefl n = ground arith

pub request_at-read :
    (node_id next : ℕ) (s s' : Node) (request : AppendRequest)
    → request_at node_id next s ≡ (ok request, s')
    → (entry : LogEntry) × (get_elem? s.env.l (prev_idx next (length s.env.l)) ≡ some entry)
      × (request ≡ request_from node_id (prev_idx next (length s.env.l)) entry s.env)
      × (s' ≡ s)
unfolding request_at
request_at-read node_id next s s' request h =
    let prev = prev_idx next (length s.env.l) in
    let (entry, there, built) =
      read-ok (λ e. pure (request_from node_id prev e s.env)) (get_elem? s.env.l prev) h in
    (entry, there, result_of built, ap (λ t. t.1) (sym built))

request_at-Built :
    (node_id next : ℕ) (s s' : Node) (request : AppendRequest)
    → request_at node_id next s ≡ (ok request, s')
    → Built node_id s request s'
request_at-Built node_id next s s' request h =
    let (entry, there, built, state) = request_at-read node_id next s s' request h in
    record {
      prev = prev_idx next (length s.env.l);
      entry = entry;
      there = there;
      built = built;
      state = state;
    }

pub hb_request-Built :
    (node_id i : ℕ) (s s' : Node) (request : AppendRequest)
    → hb_request node_id i s ≡ (ok request, s')
    → Built node_id s request s'
unfolding hb_request leader_state
hb_request-Built node_id i s s' request h =
    let (leader, _, h') =
      read-ok (λ (k : LeaderState). or_panic (get_elem? k.next_index i) >>= request_at node_id)
        s.env.leader_state h in
    let (next, _, h'') = read-ok (request_at node_id) (get_elem? leader.next_index i) h' in
    request_at-Built node_id next s s' request h''

hb_response_recorded :
    (i : ℕ) (ls : LeaderState) (response : AppendResponse) (s : Node)
    → s.env.leader_state ≡ some ls
    → i < length ls.next_index
    → i < length ls.match_index
    → response.term ≡ s.env.p.current_term
    → response.success ≡ true
    → hb_response i response s ≡ (
      ok tt,
      put_leader
          (record {
            next_index = set ls.next_index i (length s.env.l);
            match_index = set ls.match_index i (last_u64 (length s.env.l));
          })
          s,
    )
unfolding hb_response caught_up leader_state or_panic
hb_response_recorded i ls response s l n m t g =
    let (a, next) = get_elem?-some ls.next_index i n in
    let (b, matched) = get_elem?-some ls.match_index i m in
    rw (t, ltb_irrefl s.env.p.current_term, g, l, next, matched) refl

-- The request as the follower decodes it: a channel is not encoded.
abbrev pub on_wire : AppendRequest → AppendRequest
on_wire request = record request { entries = map on_disk request.entries }

-- The follower's log before the new entries is the leader's.
abbrev pub SamePrefix : ℕ → Node → Node → Type 0
SamePrefix n follower leader =
    map on_disk (take n follower.env.l) ≡ map on_disk (take n leader.env.l)

-- The leader's record of a follower that took its request, and the follower's log.
pub record Replicated (i : ℕ) (ls : LeaderState) (response : AppendResponse)
    (leader follower' : Node) : Type 0 where
  pub same_log : map on_disk follower'.env.l ≡ map on_disk leader.env.l
  pub durable : Durable follower'
  pub recorded : hb_response i response leader ≡ (
    ok tt,
    put_leader
        (record {
          next_index = set ls.next_index i (length leader.env.l);
          match_index = set ls.match_index i (last_u64 (length follower'.env.l));
        })
        leader,
  )

length-map : (l : List LogEntry) → length (map on_disk l) ≡ length l
length-map [] = refl
length-map (e ∷ es) = ap suc (length-map es)

-- A prefix of a leader's log, then the leader's entries after it, is the leader's log.
prefix_and_rest :
    (n : ℕ) (follower leader : Node)
    → SamePrefix n follower leader
    → map on_disk (take n follower.env.l ++ map on_disk (drop n leader.env.l))
      ≡ map on_disk leader.env.l
prefix_and_rest n follower leader same =
    map-append on_disk (take n follower.env.l) (map on_disk (drop n leader.env.l))
    ∙ rw (same, map-on_disk_again (drop n leader.env.l))
        (sym (map-append on_disk (take n leader.env.l) (drop n leader.env.l)))
    ∙ ap (map on_disk) (take-append-drop n leader.env.l)

-- The follower's log after a request that it answered with success.
pub heartbeat_log :
    (node_id i : ℕ) (leader leader' follower follower' : Node) (request : AppendRequest)
    → (response : AppendResponse) → hb_request node_id i leader ≡ (ok request, leader')
    → request.prev_log_index < 9223372036854775808
    → SamePrefix (request.prev_log_index + 1) follower leader
    → append_request (on_wire request) follower ≡ (ok response, follower')
    → response.success ≡ true
    → (map on_disk follower'.env.l ≡ map on_disk leader.env.l)
      × (Unfailing follower → Durable follower → Durable follower')
      × (response.term ≡ leader.env.p.current_term)
unfolding request_from
heartbeat_log node_id i leader leader' follower follower' request response h word same a g =
    let b = hb_request-Built node_id i leader leader' request h in
    let (matched, file) =
      append_request-Matched (on_wire request) follower follower' response word a g in
    let prev : request.prev_log_index ≡ b.prev =
      ap (λ (r : AppendRequest). r.prev_log_index) b.built in
    let entries : request.entries ≡ drop (request.prev_log_index + 1) leader.env.l =
      ap (λ (r : AppendRequest). r.entries) b.built
      ∙ ap (λ k. drop (k + 1) leader.env.l) (sym prev) in
    (
      ap (map on_disk) (
            matched.log
            ∙ ap (λ es. take (request.prev_log_index + 1) follower.env.l ++ map on_disk es) entries)
          ∙ prefix_and_rest (request.prev_log_index + 1) follower leader same,
      file,
      matched.in_term ∙ ap (λ (r : AppendRequest). r.term) b.built,
    )

pub same_length-on_disk :
    (a b : List LogEntry) → map on_disk a ≡ map on_disk b → length a ≡ length b
same_length-on_disk a b h = sym (length-map a) ∙ ap length h ∙ length-map b

-- A leader's heartbeat to the follower `i` that is answered with success, where the follower's log
-- agreed with the leader's up to the entry before the new ones: the follower's log is then the
-- leader's, in the file as well, and the leader records for it the log's length as the next index
-- and the index of its last entry as the match. The leader has its leader state, with places for
-- the follower; the index fits Go's int; the follower's file agreed with its log before, and none of
-- the follower's file operations fails.
pub heartbeat_replicates :
    (node_id i : ℕ) (leader leader' follower follower' : Node) (ls : LeaderState)
    → (request : AppendRequest) (response : AppendResponse) → leader.env.leader_state ≡ some ls
    → i < length ls.next_index
    → i < length ls.match_index
    → hb_request node_id i leader ≡ (ok request, leader')
    → request.prev_log_index < 9223372036854775808
    → Unfailing follower
    → Durable follower
    → SamePrefix (request.prev_log_index + 1) follower leader
    → append_request (on_wire request) follower ≡ (ok response, follower')
    → response.success ≡ true
    → Replicated i ls response leader follower'
heartbeat_replicates node_id i leader leader' follower follower' ls request response l n m h word
      fine d same a g =
    let (same_log, file, in_term) =
      heartbeat_log node_id i leader leader' follower follower' request response h word same a g in
    record {
      same_log = same_log;
      durable = file fine d;
      recorded =
          rw (same_length-on_disk follower'.env.l leader.env.l same_log)
            (hb_response_recorded i ls response leader l n m in_term g);
    }
