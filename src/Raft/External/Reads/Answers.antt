-- ===== src/Raft/External/Reads/Answers.antt =====
-- What a reader is answered by `handleGet` of 2/server/external.go.
use Prim.Native.String.{◌++◌ as ◌+str◌}
use tors_hw.Base.{
  ℕ, ◌<◌, ◌≤◌, ◌≡◌, ◌≢◌, refl, ap, ◌∙◌, String, true, false, Option, none, some, ok, pure, Response,
  entry, field, location, if◌then◌else◌, get_elem?, get_elem?-some, length, u64_mod, arith,
}
use tors_hw.Raft.Node.{LeaderState}
use tors_hw.Raft.Db
use tors_hw.Raft.Db.{Db}
use tors_hw.Raft.External.{get_key, is_leader, Context}
use tors_hw.Raft.External.Reads.{
  ExternalState, answered, redirect_to_follower, get_response, handle_get,
}
use tors_hw.Raft.External.Reads.Follower.{next_index_ends}

-- The answer of a node that does not lead, by the value at the key.
abbrev pub found : String → Option String → Response
found key (some value) = record { status = 200; payload = entry key value }
found key none = record { status = 404; payload = field "error" "Key not found" }

-- The branch that the leader state takes.
get-branch :
    (c : Context) (s : ExternalState) (o : Option LeaderState)
    → s.node.env.leader_state ≡ o
    → handle_get c s
      ≡ (if elim o [ none ↦ false | some _ ↦ true ]
            then redirect_to_follower c
            else pure (answered (get_response (get_key c.path) s.db)))
          s
unfolding handle_get is_leader
get-branch c s o h =
    ap
      (λ (k : Option LeaderState).
        (if elim k [ none ↦ false | some _ ↦ true ]
            then redirect_to_follower c
            else pure (answered (get_response (get_key c.path) s.db)))
          s)
      h

get_response-found :
    (key : String) (db : Db) → get_response (key, true) db ≡ found key (db.contents key)
unfolding get_response Db.get
get_response-found key db = ground arith

-- A node with no leader state answers a read of the key that the path names from its own store: 200
-- with the value, or 404 where there is none; nothing changes.
pub handle_get_reads :
    (c : Context) (s : ExternalState) (key : String)
    → s.node.env.leader_state ≡ none
    → get_key c.path ≡ (key, true)
    → handle_get c s ≡ (ok (answered (found key (s.db.contents key))), s)
handle_get_reads c s key follows named =
    get-branch c s none follows
    ∙ ap (λ k. (ok (answered (get_response k s.db)), s)) named
    ∙ ap (λ r. (ok (answered r), s)) (get_response-found key s.db)

-- A node with leader state, one of two or more, sends a reader to another node of the
-- configuration, with the same path. The counter is a uint64.
pub handle_get_redirects :
    (c : Context) (s : ExternalState) (leader : LeaderState)
    → s.node.env.leader_state ≡ some leader
    → 2 ≤ length c.nodes
    → s.round_robin < u64_mod
    → (index : ℕ) × (node : String) × (index ≢ c.node_id)
      × (get_elem? c.nodes index ≡ some node)
      × ((handle_get c s).0
          ≡ ok (answered (record { status = 303; payload = location (◌+str◌ node c.path) })))
unfolding redirect_to_follower
handle_get_redirects c s leader leads many word =
    let (index, after, ends, below, other) =
      next_index_ends (length c.nodes) c.node_id s.round_robin many word in
    let (node, there) = get_elem?-some c.nodes index below in
    (
      index,
      node,
      other,
      there,
      ap (λ t. t.0) (get-branch c s (some leader) leads) ∙ rw (ends, there) refl,
    )
