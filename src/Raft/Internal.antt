-- ===== src/Raft/Internal.antt =====
-- The requests between the nodes of 2/server/raft.go: what `requestVoteFrom` and `leaderHB` send, the
-- routes of `NewRaftServer`, and what is read of the responses. What is not the repository's is a
-- parameter: encoding/json on the four types, the path that net/http finds in a URL, and which URLs
-- `http.NewRequestWithContext` accepts.
pub mod Travel
use Prim.Native.String.{◌++◌ as ◌+str◌}
use tors_hw.Base.{
  ℕ, ◌/◌, ℤ, String, Bool, Option, none, some, List, [], Exec, Result, ok, err, fatal, pure, raise,
  ◌>>=◌, Body, malformed, decoded, if◌then◌else◌, str_eq, ◌==◌,
}
use tors_hw.Raft.Node.{Node}
use tors_hw.Raft.Config.{NodeConfig, internal_uri}
use tors_hw.Raft.Vote.{
  VoteRequest, VoteResponse, VoteReply, no_reply, bad_body, vote, VoteAnswer, response,
  vote_request, handle_request_vote,
}
use tors_hw.Raft.Append
use tors_hw.Raft.Append.{
  AppendRequest, AppendResponse, AppendReply, internal_error, appended, handle_append_entries,
}
use tors_hw.Raft.Heartbeat.{hb_request}

-- encoding/json on what the nodes exchange, by the type of a body's bytes; `none` is an error.
pub record Json (Bytes : Type 0) : Type 0 where
  pub empty : Bytes
  pub of_vote_request : VoteRequest → Bytes
  pub to_vote_request : Bytes → Option VoteRequest
  pub of_vote_response : VoteResponse → Bytes
  pub to_vote_response : Bytes → Option VoteResponse
  pub of_append_request : AppendRequest → Bytes
  pub to_append_request : Bytes → Option AppendRequest
  pub of_append_response : AppendResponse → Bytes
  pub to_append_response : Bytes → Option AppendResponse

-- A POST request.
pub record Message (Bytes : Type 0) : Type 0 where
  pub url : String
  pub content : Bytes

body_of : {A : Type 0} → Option A → Body A
body_of none = malformed
body_of (some a) = decoded a

-- What a handler of `NewRaftServer` answers.
pub data Reply : Type 0 where
  voted : VoteReply → Reply
  followed : AppendReply → Reply

-- How the call of a heartbeat ends, as in `VoteAnswer`.
pub data Call : Type 0 where
  no_call : Call
  cut_off : Call
  came : ℕ → Option AppendResponse → Call

-- What `leaderHB` takes from the call.
unfoldable pub received : Call → Option AppendResponse
received no_call = none
received cut_off = none
received (came status body) = if status / 100 == 2 then body else none

module _ {Bytes : Type 0} (json : Json Bytes) where
  -- What a request brings, in order of `NewRaftServer`'s routes; net/http answers other paths itself.
  unfoldable pub internal_route : String → Bytes → Exec Node (Option Reply)
  unfolding body_of
  internal_route path content =
      if str_eq path "/request_vote"
      then (do
        reply ← handle_request_vote (body_of (json.to_vote_request content))
        pure (some (voted reply)))
      else if str_eq path "/append_entries"
      then (do
        reply ← handle_append_entries (body_of (json.to_append_request content))
        pure (some (followed reply)))
      else pure none

  -- The response as the candidate reads it.
  unfoldable pub vote_answer : VoteReply → VoteAnswer
  vote_answer no_reply = response 200 (json.to_vote_response json.empty)
  vote_answer bad_body = response 400 none
  vote_answer (vote r) = response 200 (json.to_vote_response (json.of_vote_response r))

  -- The response as the leader reads it.
  unfoldable pub append_answer : AppendReply → Call
  append_answer internal_error = came 500 none
  append_answer Append.bad_body = came 400 none
  append_answer (appended r) = came 200 (json.to_append_response (json.of_append_response r))

  module _ (print : ℤ → String) (parses : String → Bool) where
    -- `http.NewRequestWithContext`: a URL that does not parse ends the process.
    post : String → Bytes → Exec Node (Message Bytes)
    post url content =
        if parses url then pure (record { url = url; content = content }) else raise fatal

    -- `requestVoteFrom` up to the call.
    unfoldable pub request_vote_from : ℕ → NodeConfig → Exec Node (Message Bytes)
    unfolding post
    request_vote_from node_id node = do
      request ← vote_request node_id
      post (◌+str◌ (internal_uri print node) "/request_vote") (json.of_vote_request request)

    -- `leaderHB` up to the call.
    unfoldable pub leader_hb : ℕ → ℕ → NodeConfig → Exec Node (Message Bytes)
    unfolding post
    leader_hb node_id i node = do
      request ← hb_request node_id i
      post (◌+str◌ (internal_uri print node) "/append_entries") (json.of_append_request request)
