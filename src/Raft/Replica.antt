-- ===== src/Raft/Replica.antt =====
-- The replicated state machine: what the store of a node holds, by the entries that the node has
-- sent to it (`CommitChanges` of 2/server/env.go and `periodicUpdate` of 2/server/db.go together).
pub mod Follower
pub mod Leader
use tors_hw.Base.{
  ◌≡◌, refl, ap, sym, ◌∙◌, List, [], ◌∷◌, map, none, Result, Bool, ok, err, pure, continue, ◌>>=◌,
  state-continue-pure,
}
use tors_hw.Raft.Log.{LogEntry}
use tors_hw.Raft.Node.{Node}
use tors_hw.Raft.Wal.{on_disk}
use tors_hw.Raft.Db.{Db, new_db, commit_entry, send_status, periodic_update}

-- The store that starts empty, after the entries.
unfoldable pub replay : List LogEntry → Db → Db
replay entries db = (periodic_update entries db).1

-- The store of a node once its queue is worked off.
abbrev pub store_of : Node → Db
store_of s = replay s.env.commit_queue new_db

-- The channel of an entry does not matter to the store.
commit_entry-on_disk : (e : LogEntry) (db : Db) → commit_entry (on_disk e) db ≡ commit_entry e db
unfolding commit_entry
commit_entry-on_disk e db = refl

-- One entry more in front of two queues that leave the same store.
same_first :
    (e : LogEntry) (first second : List LogEntry) (r : Result Bool × Db)
    → ((db : Db) → (periodic_update first db).1 ≡ (periodic_update second db).1)
    → (continue
        (λ status. periodic_update first >>= λ sent. pure (send_status none status sent))
        r).1
      ≡ (continue
          (λ status.
            periodic_update second >>= λ sent. pure (send_status e.status_chan status sent))
          r).1
same_first e first second (ok status, db) same =
    state-continue-pure (send_status none status) (periodic_update first db)
    ∙ same db
    ∙ sym (state-continue-pure (send_status e.status_chan status) (periodic_update second db))
same_first e first second (err f, db) same = refl

pub replay-on_disk :
    (entries : List LogEntry) (db : Db) → replay (map on_disk entries) db ≡ replay entries db
unfolding replay periodic_update
replay-on_disk [] db = refl
replay-on_disk (e ∷ entries) db =
    ap
      (λ r.
        (continue
          (λ status.
            periodic_update (map on_disk entries) >>= λ sent. pure (send_status none status sent))
          r).1)
      (commit_entry-on_disk e db)
    ∙ same_first e (map on_disk entries) entries (commit_entry e db)
        (λ db₁. replay-on_disk entries db₁)

-- The same entries but for their channels leave the same store.
pub same_entries-same_store :
    (a b : List LogEntry) (db : Db) → map on_disk a ≡ map on_disk b → replay a db ≡ replay b db
same_entries-same_store a b db h =
    sym (replay-on_disk a db) ∙ ap (λ l. replay l db) h ∙ replay-on_disk b db
