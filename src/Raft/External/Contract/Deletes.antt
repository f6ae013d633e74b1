-- ===== src/Raft/External/Contract/Deletes.antt =====
-- A request to delete, at a leader of 2/server.
use tors_hw.Base.{
  ◌≡◌, inl, inr, refl, ap, ◌∙◌, String, Bool, true, false, Option, none, some, continue,
  if◌then◌else◌,
}
use tors_hw.Raft.Log
use tors_hw.Raft.Log.{LogEntry}
use tors_hw.Raft.Node.{Node, LeaderState, next_outcome}
use tors_hw.Raft.Db.{Db}
use tors_hw.Raft.Db.Laws.{applies}
use tors_hw.Raft.External.{
  get_key, redirect_to_leader, delete_key, Context, delete_reply, handle_delete,
}
use tors_hw.Raft.External.Contract.{
  entry_for, Serves, sync-Submitted, serves, Serves-as, is_leader-true, found_code,
}

-- Whether a key has a value.
abbrev pub bound : Option String → Bool
bound none = false
bound (some old) = true

-- A leader whose file can be written answers a deletion of the key that the path names by the store
-- at the commit: 200 if the key has a value and 404 if not; none is left at the key.
pub handle_delete-Serves :
    (key : String) (c : Context) (s : Node) (ls : LeaderState) (db : Db)
    → s.env.leader_state ≡ some ls
    → (next_outcome s.disk.outcomes).0 ≡ true
    → get_key c.path ≡ (key, true)
    → Serves
        (entry_for Log.delete key "" "" c.channel)
        s
        (handle_delete c s)
        db
        (found_code (bound (db.contents key)))
        none
unfolding handle_delete delete_reply
handle_delete-Serves key c s ls db leads fine named =
    let (runs, submitted) = sync-Submitted Log.delete key "" "" c.channel s fine in
    let handled : handle_delete c s ≡ delete_key (key, true) c.channel s =
      ap
        (continue
          (λ (b : Bool). if b then delete_key (get_key c.path) c.channel else redirect_to_leader c))
        (is_leader-true s ls leads)
      ∙ ap (λ k. delete_key k c.channel s) named in
    Serves-as (code (db.contents key)) (left (db.contents key)) (
      serves (entry_for Log.delete key "" "" c.channel) s db delete_reply (handle_delete c s) _
        (inr (inr (inl refl))) handled runs submitted)
  where
    code :
        (o : Option String)
        → (delete_reply (applies (entry_for Log.delete key "" "" c.channel) o)).status
          ≡ found_code (bound o)
    code none = refl
    code (some old) = refl

    left :
        (o : Option String)
        → (if applies (entry_for Log.delete key "" "" c.channel) o then none else o) ≡ none
    left none = refl
    left (some old) = refl
