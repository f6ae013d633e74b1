-- ===== src/Raft/External/Contract/Creates.antt =====
-- A request to create, at a leader of 2/server.
use tors_hw.Base.{
  ℕ, ◌≡◌, inl, refl, ap, String, Bool, true, Option, none, some, continue, decoded, if◌then◌else◌,
}
use tors_hw.Raft.Log
use tors_hw.Raft.Log.{LogEntry}
use tors_hw.Raft.Node.{Node, LeaderState, next_outcome}
use tors_hw.Raft.Db.{Db}
use tors_hw.Raft.Db.Laws.{applies}
use tors_hw.Raft.External.{
  create_body, redirect_to_leader, KeyVal, Context, create_reply, handle_create,
}
use tors_hw.Raft.External.Contract.{
  entry_for, Serves, sync-Submitted, serves, Serves-as, is_leader-true,
}

-- The store's side of a request to create.
abbrev pub created_code : Option String → ℕ
created_code none = 201
created_code (some old) = 409

abbrev pub created : String → Option String → Option String
created value none = some value
created value (some old) = some old

-- A leader whose file can be written answers a request to create by the store at the commit: 201,
-- and the value stands at the key, if the key was free; 409, and the key keeps its value, if not.
pub handle_create-Serves :
    (request : KeyVal) (c : Context) (s : Node) (ls : LeaderState) (db : Db)
    → s.env.leader_state ≡ some ls
    → (next_outcome s.disk.outcomes).0 ≡ true
    → Serves
        (entry_for Log.create request.key request.value "" c.channel)
        s
        (handle_create (decoded request) c s)
        db
        (created_code (db.contents request.key))
        (created request.value (db.contents request.key))
unfolding handle_create create_reply
handle_create-Serves request c s ls db leads fine =
    let e = entry_for Log.create request.key request.value "" c.channel in
    let (runs, submitted) =
      sync-Submitted Log.create request.key request.value "" c.channel s fine in
    Serves-as (code (db.contents request.key)) (left (db.contents request.key)) (
      serves e s db create_reply (handle_create (decoded request) c s) _ (inl refl)
        (ap
          (continue (λ (leads : Bool).
            if leads then create_body (decoded request) c.channel else redirect_to_leader c))
          (is_leader-true s ls leads))
        runs submitted)
  where
    code :
        (o : Option String)
        → (create_reply
            (applies (entry_for Log.create request.key request.value "" c.channel) o)).status
          ≡ created_code o
    code none = refl
    code (some old) = refl

    left :
        (o : Option String)
        → (if applies (entry_for Log.create request.key request.value "" c.channel) o
            then some request.value
            else o)
          ≡ created request.value o
    left none = refl
    left (some old) = refl
