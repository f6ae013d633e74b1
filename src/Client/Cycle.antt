-- ===== src/Client/Cycle.antt =====
-- A command of the client from the request to the answer: 2/client/main.go, the handlers of
-- 2/server/external.go, the commit of a broadcast in 2/server/raft.go, and the loop of
-- 2/server/db.go that tells the waiting handler.
use tors_hw.Base.{
  ℕ, ◌+◌, ◌/◌, ◌≤◌, ◌≡◌, refl, sym, ap, subst, ◌∙◌, Bool, Option, some, List, [], ◌∷◌, ◌++◌, Result,
  ok, err, String, Body, ◌≢◌, true, length, All, Response, inl, inr,
}
use tors_hw.Raft.Log.{LogEntry}
use tors_hw.Raft.Node.{Node, LeaderState, next_outcome}
use tors_hw.Raft.CommitIndex.Sorting.{count_ge}
use tors_hw.Raft.Commit.Prefix.{Applied}
use tors_hw.Raft.Heartbeat.{hb_commit}
use tors_hw.Raft.Heartbeat.Commits.{Majority}
use tors_hw.Raft.Db.{Db, Sent, new_db, commit_entry, periodic_update}
use tors_hw.Raft.Db.Laws.{Known, applies, commit_entry_contract}
use tors_hw.Raft.Replica.{replay}
use tors_hw.Raft.Replica.Leader.{Complete, Answered, write_told}
use tors_hw.Raft.External.{Context, KeyVal, UpdateRequest, Handled, waits}
use tors_hw.Raft.External.Contract.{Serves}
use tors_hw.Raft.External.Reads.{ExternalState, Entered, handled, route}
use tors_hw.Client.Commands.{Write, create, update, delete, cas, write_form}
use tors_hw.Client.Serving.{Network, Accepted, key_of, entry_of, code_of, left_of, command_served}

entry_of-Known : (command : Write) (channel : ℕ) → Known (entry_of command channel)
entry_of-Known (create key value) channel = inl refl
entry_of-Known (update key value) channel = inr (inl refl)
entry_of-Known (delete key) channel = inr (inr (inl refl))
entry_of-Known (cas key prev_val new_val) channel = inr (inr (inr refl))

entry_of-key : (command : Write) (channel : ℕ) → (entry_of command channel).key ≡ key_of command
entry_of-key (create key value) channel = refl
entry_of-key (update key value) channel = refl
entry_of-key (delete key) channel = refl
entry_of-key (cas key prev_val new_val) channel = refl

entry_of-status_chan :
    (command : Write) (channel : ℕ) → (entry_of command channel).status_chan ≡ some channel
entry_of-status_chan (create key value) channel = refl
entry_of-status_chan (update key value) channel = refl
entry_of-status_chan (delete key) channel = refl
entry_of-status_chan (cas key prev_val new_val) channel = refl

-- The broadcast's commit, the store's loop over all that was sent, and the handler that waits.
pub record Settled (command : Write) (channel : ℕ) (reply : Bool → Response) (db : Db) (s : Node)
    : Type 0 where
  pub node : Node
  pub commits : hb_commit s ≡ (ok tt, node)
  pub earlier : Sent
  pub outcome : Bool
  pub store : Db
  pub worked_off :
      periodic_update node.env.commit_queue new_db
      ≡ (ok (earlier ++ (channel, outcome) ∷ []), store)
  pub told : (reply outcome).status ≡ code_of command (db.contents (key_of command))
  pub stands : store.contents (key_of command) ≡ left_of command (db.contents (key_of command))

reply_of : Result Handled → (Bool → Response) → (Bool → Response)
reply_of (ok (waits reply)) other = reply
reply_of _ other = other

same_status : {a b : Bool} → ◌≡◌ {A = Result Bool} (ok a) (ok b) → a ≡ b
same_status {a} h = ap (λ r. elim r [ ok status ↦ status | err f ↦ a ]) h

settle :
    (command : Write) (channel : ℕ) (reply : Bool → Response) (before : List LogEntry)
    (s s' start node : Node)
    → Complete s s'
    → Answered before (entry_of command channel) channel s'
    → ((db : Db)
        → Serves
            (entry_of command channel)
            start
            (ok (waits reply), node)
            db
            (code_of command (db.contents (key_of command)))
            (left_of command (db.contents (key_of command))))
    → Settled command channel reply (replay before new_db) s
unfolding replay reply_of
settle command channel reply before s s' start node complete answered serves =
    let e = entry_of command channel in
    let db = answered.db₁ in
    let same_db : (periodic_update before new_db).1 ≡ db = ap (λ r. r.1) answered.earlier in
    let served = serves db in
    let outcome : applies e (db.contents e.key) ≡ served.outcome =
      same_status (
        sym (commit_entry_contract e db "" (entry_of-Known command channel)).0
        ∙ served.committed) in
    let same_reply : reply ≡ served.reply = ap (λ r. reply_of r reply) served.waiting in
    subst (λ d. Settled command channel reply d s) (sym same_db)
      (record {
        node = s';
        commits = complete.done;
        earlier = answered.sent₁;
        outcome = served.outcome;
        store = (commit_entry e db).1;
        worked_off =
            answered.worked_off
            ∙ ap (λ o. (ok (answered.sent₁ ++ (channel, o) ∷ []), (commit_entry e db).1)) outcome;
        told = ap (λ (r : Bool → Response). (r served.outcome).status) same_reply ∙ served.told;
        stands =
            ap (commit_entry e db).1.contents (sym (entry_of-key command channel)) ∙ served.stands;
      })

-- What becomes of a command whose handler waits with its entry in the log.
settles_last :
    (command : Write) (c : Context) (state : ExternalState)
    (run : Result (Option Entered) × ExternalState) (accepted : Accepted command c state run)
    (first : LogEntry) (before : List LogEntry) (s : Node) (ls : LeaderState)
    → state.node.env.l ≡ first ∷ before
    → All Known before
    → s.env.l ≡ accepted.node.env.l
    → s.env.leader_state ≡ some ls
    → Majority (length before + 1) ls.match_index
    → count_ge (length before + 2) ls.match_index ≤ length ls.match_index / 2
    → Applied s
    → s.env.last_applied ≤ s.env.commit_index
    → s.env.commit_index ≤ length before
    → Settled command c.channel accepted.reply (replay before new_db) s
settles_last command c state run accepted first before s ls log known same leads majority below v le
      lt =
    let e = entry_of command c.channel in
    let submitted = (accepted.serves new_db).submitted in
    let whole = same ∙ submitted.logged ∙ ap (λ l. l ++ e ∷ []) log in
    let (s', complete, answered) =
      write_told s ls first before e c.channel leads whole (entry_of-status_chan command c.channel)
        known (entry_of-Known command c.channel) majority below v le lt in
    settle command c.channel accepted.reply before s s' state.node accepted.node complete answered
      accepted.serves

-- A command whose request was routed to a handler: the handler waits, behind `state`, with the
-- command's entry at the end of the log, and the command is settled later, at the leader `s`.
pub record Ended (command : Write) (c : Context) (state : ExternalState)
    (run : Result (Option Entered) × ExternalState) (before : List LogEntry) (s : Node)
    : Type 0 where
  pub reply : Bool → Response
  pub node : Node
  pub chosen : run ≡ (ok (some (handled (waits reply))), record state { node = node })
  pub logged : node.env.l ≡ state.node.env.l ++ entry_of command c.channel ∷ []
  pub settled : Settled command c.channel reply (replay before new_db) s

-- A command from the client's request on. At the leader the request is routed to a handler that puts
-- the command's entry at the end of the log and waits. Later the leader's log still ends with that
-- entry, a majority of the match indexes has reached it and no majority lies past it: the commit of
-- the broadcast succeeds; the store's loop, over all that was then sent, ends with the command's entry
-- and tells its channel a status; the answer that the handler makes of it has the status code that
-- the command's success or failure has on the store that the entries before it leave; and the key
-- holds what the command says for that store. The node that takes the request has leader state, its
-- next file operation succeeds, the key is not empty, and the path is the one in the URL, which
-- net/http does not redirect. The entries before are known operations, those sent are a prefix of the
-- log that does not pass the commit index, and the commit index has not reached the entry.
pub command_ends :
    (decode_create : Option (List (String × String)) → Body KeyVal)
    (decode_update : Option (List (String × String)) → Body UpdateRequest)
    (path_of clean : String → String) (address : String) (command : Write) (c : Context)
    (state : ExternalState) (ls : LeaderState)
    → Network decode_create decode_update path_of address (key_of command)
    → state.node.env.leader_state ≡ some ls
    → (next_outcome state.node.disk.outcomes).0 ≡ true
    → key_of command ≢ ""
    → c.path ≡ path_of ((write_form command).url address)
    → clean c.path ≡ c.path
    → (first : LogEntry) (before : List LogEntry) (s : Node) (later : LeaderState)
    → state.node.env.l ≡ first ∷ before
    → All Known before
    → s.env.l ≡ state.node.env.l ++ entry_of command c.channel ∷ []
    → s.env.leader_state ≡ some later
    → Majority (length before + 1) later.match_index
    → count_ge (length before + 2) later.match_index ≤ length later.match_index / 2
    → Applied s
    → s.env.last_applied ≤ s.env.commit_index
    → s.env.commit_index ≤ length before
    → Ended command c state
        (route clean c
          (write_form command).method
          (decode_create (write_form command).body)
          (decode_update (write_form command).body)
          state)
        before
        s
command_ends decode_create decode_update path_of clean address command c state ls net leads fine
      named path cleaned first before s later log known same leads' majority below v le lt =
    let accepted =
      command_served decode_create decode_update path_of clean address command c state ls net leads
        fine named path cleaned in
    let logged = (accepted.serves new_db).submitted.logged in
    record {
      reply = accepted.reply;
      node = accepted.node;
      chosen = accepted.chosen;
      logged = logged;
      settled =
          settles_last command c state _ accepted first before s later log known (same ∙ sym logged)
            leads' majority below v le lt;
    }
