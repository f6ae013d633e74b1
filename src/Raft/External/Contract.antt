-- ===== src/Raft/External/Contract.antt =====
-- What a client of 2/server/external.go is told, and what becomes of its entry.
pub mod Creates
pub mod Updates
pub mod Deletes
use tors_hw.Base.{
  ℕ, ℤ, ◌≡◌, inl, inr, refl, subst, ap, ◌∙◌, String, Bool, true, false, Option, none, some, [], ◌∷◌,
  ◌++◌, Result, ok, pure, continue, decoded, Response, if◌then◌else◌, str_eq, eq_iff, arith,
}
use tors_hw.Raft.Log
use tors_hw.Raft.Log.{LogEntry}
use tors_hw.Raft.Node.{Node, LeaderState, next_outcome}
use tors_hw.Raft.Wal.{append, on_disk}
use tors_hw.Raft.Db.{Db, commit_entry}
use tors_hw.Raft.Db.Laws.{Known, applies, leaves, commit_entry_contract}
use tors_hw.Raft.External.{
  get_key, is_leader, create_body, redirect_to_leader, update_body, delete_key, update_key, Handled,
  waits, apply_request_sync, KeyVal, UpdateRequest, Context, create_reply, update_reply,
  delete_reply, handle_create, apply_update, handle_update_or_cas, handle_delete,
}

-- The entry of a request.
abbrev pub entry_for : ℤ → String → String → String → ℕ → LogEntry
entry_for op key value prev channel = record {
  term = 0;
  op = op;
  key = key;
  prev_value = prev;
  value = value;
  status_chan = some channel;
}

-- The entry stands at the end of the log, in the file as well, and the heartbeat is alerted.
pub record Submitted (e : LogEntry) (s s' : Node) : Type 0 where
  pub logged : s'.env.l ≡ s.env.l ++ e ∷ []
  pub on_file : s'.disk.log ≡ s.disk.log ++ on_disk e ∷ []
  pub alerted : s'.env.alert ≡ true

-- The handler waits with the entry submitted; when the entry is committed to `db`, the client is
-- told the status `code`, and `left` stands at the key.
pub record Serves (e : LogEntry) (s : Node) (h : Result Handled × Node) (db : Db) (code : ℕ)
    (left : Option String) : Type 0 where
  pub reply : Bool → Response
  pub waiting : h.0 ≡ ok (waits reply)
  pub submitted : Submitted e s h.1
  pub outcome : Bool
  pub committed : (commit_entry e db).0 ≡ ok outcome
  pub told : (reply outcome).status ≡ code
  pub stands : (commit_entry e db).1.contents e.key ≡ left

pub sync-Submitted :
    (op : ℤ) (key value prev : String) (channel : ℕ) (s : Node)
    → (next_outcome s.disk.outcomes).0 ≡ true
    → (apply_request_sync op key value prev channel s
        ≡ (ok tt, (apply_request_sync op key value prev channel s).1))
      × Submitted
          (entry_for op key value prev channel)
          s
          (apply_request_sync op key value prev channel s).1
unfolding apply_request_sync append
sync-Submitted op key value prev channel s fine =
    rw fine (refl, record { logged = refl; on_file = refl; alerted = refl })

commit_entry_at_key :
    (e : LogEntry) (db : Db)
    → Known e
    → ((commit_entry e db).0 ≡ ok (applies e (db.contents e.key)))
      × ((commit_entry e db).1.contents e.key
          ≡ (if applies e (db.contents e.key) then leaves e else db.contents e.key))
commit_entry_at_key e db known =
    let (result, contents) = commit_entry_contract e db e.key known in
    (result, contents ∙ ground (arith, eq_iff e.key e.key))

-- From a submission and a commit to the answer.
pub serves :
    (e : LogEntry) (s : Node) (db : Db) (reply : Bool → Response) (h : Result Handled × Node)
    (run : Result (Unit {0}) × Node)
    → Known e
    → h ≡ continue (λ _. pure (waits reply)) run
    → run ≡ (ok tt, run.1)
    → Submitted e s run.1
    → Serves e s h db
        (reply (applies e (db.contents e.key))).status
        (if applies e (db.contents e.key) then leaves e else db.contents e.key)
serves e s db reply h run known handled fine submitted =
    let same = handled ∙ ap (continue (λ _. pure (waits reply))) fine in
    let (result, contents) = commit_entry_at_key e db known in
    record {
      reply = reply;
      waiting = ap (λ x. x.0) same;
      submitted = rw same submitted;
      outcome = applies e (db.contents e.key);
      committed = result;
      told = refl;
      stands = contents;
    }

pub Serves-as :
    {e : LogEntry} {s : Node} {h : Result Handled × Node} {db : Db} {code code' : ℕ}
    {left left' : Option String}
    → code ≡ code'
    → left ≡ left'
    → Serves e s h db code left
    → Serves e s h db code' left'
Serves-as {e} {s} {h} {db} {code} {code'} {left} {left'} same same' served =
    subst (λ n. Serves e s h db n left') same (subst (λ o. Serves e s h db code o) same' served)

pub is_leader-true :
    (s : Node) (ls : LeaderState) → s.env.leader_state ≡ some ls → is_leader s ≡ (ok true, s)
unfolding is_leader
is_leader-true s ls h = ap (λ o. (ok (elim o [ none ↦ false | some _ ↦ true ]), s)) h

-- The reply for a key that is there and agrees, and for one that does not.
abbrev pub found_code : Bool → ℕ
found_code true = 200
found_code false = 404
