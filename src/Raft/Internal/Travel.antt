-- ===== src/Raft/Internal/Travel.antt =====
-- A request from one node to another, through the network and back.
use Prim.Native.String.{◌++◌ as ◌+str◌}
use tors_hw.Base.{ℕ, ◌≡◌, refl, ℤ, String, Bool, true, some, ok}
use tors_hw.Raft.Node.{Node}
use tors_hw.Raft.Config.{NodeConfig, internal_uri}
use tors_hw.Raft.Vote.{
  VoteRequest, VoteResponse, vote, vote_request, request_vote, handle_request_vote, arrival,
}
use tors_hw.Raft.Append.{
  AppendRequest, AppendResponse, appended, append_request, handle_append_entries,
}
use tors_hw.Raft.Heartbeat.{hb_request, hb_response, hb_outcome}
use tors_hw.Raft.Heartbeat.Replication.{on_wire}
use tors_hw.Raft.Internal.{
  Json, Message, Reply, voted, followed, received, body_of, internal_route, vote_answer,
  append_answer, post, request_vote_from, leader_hb,
}

-- What the code relies on: `json.Unmarshal` takes apart what `json.Marshal` makes, but for the
-- channels of entries; the URLs of the node are accepted, and have the paths that they end in.
pub record Laws {Bytes : Type 0} (json : Json Bytes) (path_of : String → String)
    (print : ℤ → String) (parses : String → Bool) (node : NodeConfig) : Type 0 where
  pub vote_requests : (r : VoteRequest) → json.to_vote_request (json.of_vote_request r) ≡ some r
  pub vote_responses : (r : VoteResponse) → json.to_vote_response (json.of_vote_response r) ≡ some r
  pub append_requests :
      (r : AppendRequest) → json.to_append_request (json.of_append_request r) ≡ some (on_wire r)
  pub append_responses :
      (r : AppendResponse) → json.to_append_response (json.of_append_response r) ≡ some r
  pub vote_path : path_of (◌+str◌ (internal_uri print node) "/request_vote") ≡ "/request_vote"
  pub append_path : path_of (◌+str◌ (internal_uri print node) "/append_entries") ≡ "/append_entries"
  pub vote_url : parses (◌+str◌ (internal_uri print node) "/request_vote") ≡ true
  pub append_url : parses (◌+str◌ (internal_uri print node) "/append_entries") ≡ true

module _ {Bytes : Type 0} (json : Json Bytes) (path_of : String → String) (print : ℤ → String)
    (parses : String → Bool) (node : NodeConfig) (laws : Laws json path_of print parses node) where
  -- The candidate's message, what the other node does with it, and what the candidate then counts.
  pub record VoteTravels (node_id : ℕ) (s v : Node) (r : VoteResponse) (v' : Node) : Type 0 where
    pub message : Message Bytes
    pub sent : request_vote_from json print parses node_id node s ≡ (ok message, s)
    pub reply : Reply
    pub routed : internal_route json (path_of message.url) message.content v ≡ (ok (some reply), v')
    pub is_vote : reply ≡ voted (vote r)
    pub counted : arrival (vote_answer json (vote r)) ≡ some r

  -- A candidate's request reaches the handler of vote requests, and the vote is counted.
  pub vote_travels :
      (node_id : ℕ) (s v v' : Node) (request : VoteRequest) (r : VoteResponse)
      → vote_request node_id s ≡ (ok request, s)
      → request_vote request v ≡ (ok r, v')
      → VoteTravels node_id s v r v'
  unfolding request_vote_from internal_route vote_answer arrival handle_request_vote post body_of
  vote_travels node_id s v v' request r asked answered = record {
    message = record {
      url = ◌+str◌ (internal_uri print node) "/request_vote";
      content = json.of_vote_request request;
    };
    sent = rw (asked, laws.vote_url) refl;
    reply = voted (vote r);
    routed = rw (laws.vote_path, laws.vote_requests request, answered) refl;
    is_vote = refl;
    counted = laws.vote_responses r;
  }

  -- The leader's message, what the follower does with it, and what the leader does with the answer.
  pub record BeatTravels (node_id i : ℕ) (leader follower : Node) (r : AppendResponse)
      (follower' : Node) : Type 0 where
    pub message : Message Bytes
    pub sent : leader_hb json print parses node_id i node leader ≡ (ok message, leader)
    pub reply : Reply
    pub routed :
        internal_route json (path_of message.url) message.content follower
        ≡ (ok (some reply), follower')
    pub is_answer : reply ≡ followed (appended r)
    pub heard :
        (s : Node) → hb_outcome i (received (append_answer json (appended r))) s ≡ hb_response i r s

  -- A heartbeat that a leader builds reaches, by the URL and the body that it is sent with, the handler
  -- of append requests, with its entries but for their channels; what the follower answers is what the
  -- leader then takes in. encoding/json and the path of a URL keep what was put in, and the URLs parse.
  pub beat_travels :
      (node_id i : ℕ) (leader follower follower' : Node) (request : AppendRequest)
      (r : AppendResponse)
      → hb_request node_id i leader ≡ (ok request, leader)
      → append_request (on_wire request) follower ≡ (ok r, follower')
      → BeatTravels node_id i leader follower r follower'
  unfolding leader_hb internal_route append_answer received handle_append_entries hb_outcome post
      body_of
  beat_travels node_id i leader follower follower' request r asked answered = record {
    message = record {
      url = ◌+str◌ (internal_uri print node) "/append_entries";
      content = json.of_append_request request;
    };
    sent = rw (asked, laws.append_url) refl;
    reply = followed (appended r);
    routed = rw (laws.append_path, laws.append_requests request, answered) refl;
    is_answer = refl;
    heard = λ s. rw (laws.append_responses r) refl;
  }
