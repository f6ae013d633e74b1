-- ===== src/Raft/Ballot.antt =====
-- What happens at one node of 2/server, one event after the other as the mutex of `WithLock` has
-- them, and the votes that the node gives. A restart from the files is not an event.
pub mod Later
pub mod Sound
pub mod Once
use tors_hw.Base.{
  ℕ, ◌+◌, ◌<◌, ◌≢◌, ℤ, String, Option, none, some, List, [], ◌∷◌, Result, ok, err, All,
  if◌then◌else◌, u64_mod,
}
use tors_hw.Raft.Node.{Node, LeaderState}
use tors_hw.Raft.Vote.{VoteRequest, VoteResponse, request_vote}
use tors_hw.Raft.Append.{AppendRequest, AppendResponse, append_request}
use tors_hw.Raft.Election.{try_become_leader}
use tors_hw.Raft.Heartbeat.{hb_outcome, hb_commit}
use tors_hw.Raft.External.{apply_request_sync}

-- A vote that has left the node: for itself, or by an answer.
pub record Ballot : Type 0 where
  pub term : ℕ
  pub candidate : ℕ

-- A request to vote, new entries, an election with the messages taken and all that arrive, the end
-- of a heartbeat to a follower, the commit of a broadcast, and an entry of a client.
pub data Event : Type 0 where
  asked : VoteRequest → Event
  told : AppendRequest → Event
  stood : ℕ → List VoteResponse → Event
  heard : ℕ → Option AppendResponse → Event
  advanced : Event
  submitted : ℤ → String → String → String → ℕ → Event

-- The node after an event, a fault included.
unfoldable pub next : ℕ → ℕ → Event → Node → Node
next node_id n (asked request) s = (request_vote request s).1
next node_id n (told request) s = (append_request request s).1
next node_id n (stood taken arrivals) s = (try_become_leader node_id n taken arrivals s).1
next node_id n (heard follower outcome) s = (hb_outcome follower outcome s).1
next node_id n advanced s = (hb_commit s).1
next node_id n (submitted op key value prev channel) s =
    (apply_request_sync op key value prev channel s).1

-- The votes after an answer; a fault sends none.
abbrev pub answered : VoteRequest → Result VoteResponse → List Ballot → List Ballot
answered request (err fault) ballots = ballots
answered request (ok response) ballots =
    if response.vote_granted
    then record { term = request.term; candidate = request.candidate_id } ∷ ballots
    else ballots

-- The vote of a candidate for itself, in the next term; a node with leader state is no candidate.
abbrev pub own_ballot : ℕ → Node → Ballot
own_ballot node_id s = record { term = s.env.p.current_term + 1; candidate = node_id }

abbrev pub candidacy : Option LeaderState → Ballot → List Ballot → List Ballot
candidacy none b ballots = b ∷ ballots
candidacy (some leader) b ballots = ballots

-- The votes that the node has given after an event.
abbrev pub given : ℕ → Event → Node → List Ballot → List Ballot
given node_id (asked request) s ballots = answered request (request_vote request s).0 ballots
given node_id (told request) s ballots = ballots
given node_id (stood taken arrivals) s ballots =
    candidacy s.env.leader_state (own_ballot node_id s) ballots
given node_id (heard follower outcome) s ballots = ballots
given node_id advanced s ballots = ballots
given node_id (submitted op key value prev channel) s ballots = ballots

-- A candidate's term does not wrap.
abbrev pub Room : Event → Node → Type 0
Room (stood taken arrivals) s = s.env.p.current_term + 1 < u64_mod
Room e s = Unit

-- The node `node_id` of `n`, from the state `s`: the votes that it has given, and its state.
pub data Run (node_id n : ℕ) (s : Node) : List Ballot → Node → Type 0 where
  start : Run node_id n s [] s
  after :
      {ballots : List Ballot} {t : Node}
      → Run node_id n s ballots t
      → (e : Event) → Room e t
      → Run node_id n s (given node_id e t ballots) (next node_id n e t)

-- No two votes are for one term.
abbrev pub OneATerm : List Ballot → Type 0
OneATerm [] = Unit
OneATerm (b ∷ ballots) = All (λ (c : Ballot). b.term ≢ c.term) ballots × OneATerm ballots
