-- ===== src/Client/Runs.antt =====
-- Commands of the client of 2/client on concrete input.
use tors_hw.Base.{
  ℤ, negsuc, ◌≡◌, refl, sym, String, Bool, true, Option, none, some, List, [], ◌∷◌, arith, Body,
  malformed, decoded, store, empty_map, trim_prefix, trim_prefix-append, ◌≢◌, ap, inl, length, take,
  drop,
}
use tors_hw.Raft.Node.{Node, LeaderState}
use tors_hw.Raft.External.{Context, KeyVal, UpdateRequest}
use tors_hw.Raft.External.Reads.{ExternalState, route}
use tors_hw.Raft.Log.{LogEntry, sentinel}
use tors_hw.Raft.Restart.{booted, zero_state}
use tors_hw.Client.{Attempt, not_sent, cut_off, replied, World, process, cas_form, named_node}
use tors_hw.Client.Retry.{Ran}
use tors_hw.Client.Commands.{Write, create, cas, read, form_of, write_form, process-Ran}
use tors_hw.Client.Serving.{Network, Accepted, entry_of, command_served}
use tors_hw.Client.Cycle.{Ended, command_ends}
use tors_hw.Raft.Commit.Prefix.{Applied}
use tors_hw.Raft.Db.{new_db}

abbrev any_url : String → Bool
any_url url = true

abbrev no_number : String → ℤ
no_number field = negsuc 0

abbrev two_nodes : List String
two_nodes = "http://n0" ∷ "http://n1" ∷ []

-- Two calls fail, and the third is answered.
abbrev third_answers : List Attempt
third_answers = not_sent ∷ cut_off ∷ replied "found" ∷ not_sent ∷ []

abbrev at_first : World
at_first = record { draws = 1 ∷ 0 ∷ []; sent = [] }

process-Ran_example :
    Ran
      (form_of (read "a"))
      two_nodes
      (some "found")
      3
      at_first
      (process any_url no_number two_nodes ("r" ∷ "a" ∷ []) third_answers at_first)
unfolding named_node
process-Ran_example =
    process-Ran any_url no_number two_nodes (read "a") [] third_answers at_first (refl, (refl, tt))
      (omega arith, (omega arith, tt)) (omega arith)

abbrev pub json_create : Option (List (String × String)) → Body KeyVal
json_create (some ((k, key) ∷ (v, value) ∷ [])) = decoded (record { key = key; value = value })
json_create other = malformed

abbrev pub json_update : Option (List (String × String)) → Body UpdateRequest
json_update (some ((v, value) ∷ [])) = decoded (record { prev_value = none; value = value })
json_update (some ((p, prev) ∷ (v, value) ∷ [])) =
    decoded (record { prev_value = some prev; value = value })
json_update other = malformed

abbrev pub path_at_n0 : String → String
path_at_n0 url = trim_prefix url "http://n0"

-- The paths here are clean.
abbrev pub same_path : String → String
same_path path = path

pub laws_for_a : Network json_create json_update path_at_n0 "http://n0" "a"
laws_for_a = record {
  creates = λ k v. refl;
  updates = λ v. refl;
  compares = λ p v. refl;
  collection = trim_prefix-append "http://n0" "/entry";
  entry_path = trim_prefix-append "http://n0" "/entry/a";
}

abbrev pub peer_state : LeaderState
peer_state = record { next_index = 3 ∷ 3 ∷ []; match_index = 0 ∷ 0 ∷ [] }

abbrev pub new_node : Node
new_node = booted (record { pstate = none; log = []; outcomes = [] }) zero_state (sentinel ∷ [])

abbrev pub a_entry : LogEntry
a_entry = entry_of (create "a" "1") 4

abbrev pub leader_with_a : ExternalState
leader_with_a = record {
  node = record new_node {
    env = record (new_node.env) {
      l = sentinel ∷ a_entry ∷ [];
      commit_index = 1;
      last_applied = 1;
      commit_queue = a_entry ∷ [];
      leader_state = some peer_state;
    };
  };
  db = record { contents = store empty_map "a" "1" };
  round_robin = 0;
}

abbrev pub at_entry_a : Context
at_entry_a = record { node_id = 0; nodes = two_nodes; draws = []; path = "/entry/a"; channel = 5 }

abbrev pub cas_a : Write
cas_a = cas "a" "1" "2"

pub url_names_a : "/entry/a" ≡ path_at_n0 ((write_form cas_a).url "http://n0")
unfolding cas_form
url_names_a = sym laws_for_a.entry_path

pub named_a : ◌≢◌ {A = String} "a" ""
named_a e = cc e

abbrev CasAccepted : Type 0
CasAccepted = Accepted cas_a at_entry_a leader_with_a (
    route same_path at_entry_a (write_form cas_a).method (json_create (write_form cas_a).body)
      (json_update (write_form cas_a).body) leader_with_a)

abbrev accepted_cas : CasAccepted
accepted_cas =
    command_served json_create json_update path_at_n0 same_path "http://n0" cas_a at_entry_a
      leader_with_a peer_state laws_for_a refl refl named_a url_names_a refl

command_served_example : CasAccepted
command_served_example =
    command_served json_create json_update path_at_n0 same_path "http://n0" cas_a at_entry_a
      leader_with_a peer_state laws_for_a refl refl named_a url_names_a refl

-- Both nodes have the entry.

abbrev pub answered_state : LeaderState
answered_state = record { next_index = 3 ∷ 3 ∷ []; match_index = 2 ∷ 2 ∷ [] }

abbrev answered_node : Node
answered_node = record (leader_with_a.node) {
  env = record (leader_with_a.node.env) {
    l = accepted_cas.node.env.l;
    leader_state = some answered_state;
  };
}

cas_logged : answered_node.env.l ≡ sentinel ∷ a_entry ∷ entry_of cas_a 5 ∷ []
cas_logged = (accepted_cas.serves new_db).submitted.logged

answered_node-Applied : Applied answered_node
answered_node-Applied = record {
  in_log = omega (arith, ap length cas_logged);
  sent = ap (λ l. take 1 (drop 1 l)) (sym cas_logged);
  word = omega (arith, ap length cas_logged);
}

command_ends_example :
    Ended cas_a at_entry_a leader_with_a
      (route same_path at_entry_a
        (write_form cas_a).method
        (json_create (write_form cas_a).body)
        (json_update (write_form cas_a).body)
        leader_with_a)
      (a_entry ∷ [])
      answered_node
command_ends_example =
    command_ends json_create json_update path_at_n0 same_path "http://n0" cas_a at_entry_a
      leader_with_a peer_state laws_for_a refl refl named_a url_names_a refl sentinel (a_entry ∷ [])
      answered_node answered_state refl (inl refl, tt) cas_logged refl (omega arith) (omega arith)
      answered_node-Applied (omega arith) (omega arith)
