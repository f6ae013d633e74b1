-- ===== src/Raft/External/Contract/Updates.antt =====
-- A request to update or to compare and set, at a leader of 2/server.
use tors_hw.Base.{
  ℕ, ◌≡◌, inl, inr, refl, ap, ◌∙◌, String, Bool, true, false, Option, none, some, ok, continue,
  decoded, if◌then◌else◌, str_eq, arith,
}
use tors_hw.Raft.Log
use tors_hw.Raft.Log.{LogEntry}
use tors_hw.Raft.Node.{Node, LeaderState, next_outcome}
use tors_hw.Raft.Db.{Db}
use tors_hw.Raft.Db.Laws.{Known, applies, leaves}
use tors_hw.Raft.External.{
  get_key, redirect_to_leader, update_body, update_key, UpdateRequest, Context, update_reply,
  apply_update, handle_update_or_cas,
}
use tors_hw.Raft.External.Contract.{
  entry_for, Submitted, Serves, sync-Submitted, serves, Serves-as, is_leader-true, found_code,
}

-- The store's side of an update, with or without a previous value to compare with.
abbrev pub matches : Option String → Option String → Bool
matches prev none = false
matches none (some old) = true
matches (some prev) (some old) = str_eq old prev

abbrev pub update_entry : Option String → String → String → ℕ → LogEntry
update_entry (some prev) value key channel = entry_for Log.cas key value prev channel
update_entry none value key channel = entry_for Log.update key value "" channel

update-code :
    (prev : Option String) (value key : String) (channel : ℕ) (o : Option String)
    → (update_reply (applies (update_entry prev value key channel) o)).status
      ≡ found_code (matches prev o)
unfolding update_reply
update-code none value key channel none = refl
update-code none value key channel (some old) = refl
update-code (some prev) value key channel none = refl
update-code (some prev) value key channel (some old) = ground arith

update-left :
    (prev : Option String) (value key : String) (channel : ℕ) (o : Option String)
    → (if applies (update_entry prev value key channel) o
        then leaves (update_entry prev value key channel)
        else o)
      ≡ (if matches prev o then some value else o)
update-left none value key channel none = refl
update-left none value key channel (some old) = refl
update-left (some prev) value key channel none = refl
update-left (some prev) value key channel (some old) = refl

update_entry-Known :
    (prev : Option String) (value key : String) (channel : ℕ)
    → Known (update_entry prev value key channel)
update_entry-Known none value key channel = inr (inl refl)
update_entry-Known (some prev) value key channel = inr (inr (inr refl))

update_entry-key :
    (prev : Option String) (value key : String) (channel : ℕ)
    → (update_entry prev value key channel).key ≡ key
update_entry-key none value key channel = refl
update_entry-key (some prev) value key channel = refl

apply_update-Submitted :
    (prev : Option String) (value key : String) (channel : ℕ) (s : Node)
    → (next_outcome s.disk.outcomes).0 ≡ true
    → let run = apply_update (record { prev_value = prev; value = value }) key channel s in
      (run ≡ (ok tt, run.1)) × Submitted (update_entry prev value key channel) s run.1
unfolding apply_update
apply_update-Submitted none value key channel s fine =
    sync-Submitted Log.update key value "" channel s fine
apply_update-Submitted (some prev) value key channel s fine =
    sync-Submitted Log.cas key value prev channel s fine

-- A leader whose file can be written answers an update of the key that the path names by the store
-- at the commit: 200, and the new value stands at the key, if the key has a value and that is the
-- previous value where one is named; 404, and the key stays as it is, if not.
pub handle_update_or_cas-Serves :
    (prev : Option String) (value key : String) (c : Context) (s : Node) (ls : LeaderState)
    (db : Db)
    → s.env.leader_state ≡ some ls
    → (next_outcome s.disk.outcomes).0 ≡ true
    → get_key c.path ≡ (key, true)
    → Serves
        (update_entry prev value key c.channel)
        s
        (handle_update_or_cas (decoded (record { prev_value = prev; value = value })) c s)
        db
        (found_code (matches prev (db.contents key)))
        (if matches prev (db.contents key) then some value else db.contents key)
unfolding handle_update_or_cas
handle_update_or_cas-Serves prev value key c s ls db leads fine named =
    let request : UpdateRequest = record { prev_value = prev; value = value } in
    let e = update_entry prev value key c.channel in
    let (runs, submitted) = apply_update-Submitted prev value key c.channel s fine in
    let at_key = ap db.contents (update_entry-key prev value key c.channel) in
    let handled : handle_update_or_cas (decoded request) c s
        ≡ update_key request (key, true) c.channel s =
      ap
        (continue
          (λ (b : Bool). if b then update_body (decoded request) c else redirect_to_leader c))
        (is_leader-true s ls leads)
      ∙ ap (λ k. update_key request k c.channel s) named in
    Serves-as
      (ap (λ o. (update_reply (applies e o)).status) at_key
        ∙ update-code prev value key c.channel (db.contents key))
      (ap (λ o. if applies e o then leaves e else o) at_key
        ∙ update-left prev value key c.channel (db.contents key))
      (serves e s db update_reply (handle_update_or_cas (decoded request) c s) _
        (update_entry-Known prev value key c.channel) handled runs submitted)
