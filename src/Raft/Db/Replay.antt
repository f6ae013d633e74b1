-- ===== src/Raft/Db/Replay.antt =====
-- `periodicUpdate` of 2/server/db.go over a whole queue.
use tors_hw.Base.{
  ℕ, ◌≡◌, refl, ap, ◌∙◌, Bool, Option, none, some, List, [], ◌∷◌, ◌++◌, map, Result, ok, err,
  continue-ok, state-continue-pure, All,
}
use tors_hw.Raft.Log.{LogEntry}
use tors_hw.Raft.Db.{Db, Sent, commit_entry, send_status, periodic_update}
use tors_hw.Raft.Db.Laws.{Known, applies, commit_entry_contract}

-- The channels of the entries that somebody waits for, in order.
abbrev waiting_at : Option ℕ → List ℕ → List ℕ
waiting_at none later = later
waiting_at (some channel) later = channel ∷ later

abbrev pub waiting : List LogEntry → List ℕ
waiting [] = []
waiting (e ∷ queue) = waiting_at e.status_chan (waiting queue)

abbrev pub channels : Sent → List ℕ
channels sent = map (λ (s : ℕ × Bool). s.0) sent

channels-send_status :
    (o : Option ℕ) (status : Bool) (sent : Sent)
    → channels (send_status o status sent) ≡ waiting_at o (channels sent)
unfolding send_status
channels-send_status none status sent = refl
channels-send_status (some c) status sent = refl

commit_entry-ok :
    (e : LogEntry) (db : Db)
    → Known e
    → (status : Bool) × (db' : Db) × (commit_entry e db ≡ (ok status, db'))
commit_entry-ok e db known =
    let (result, _) = commit_entry_contract e db "" known in
    (
      applies e (db.contents e.key),
      (commit_entry e db).1,
      ap (λ r. (r, (commit_entry e db).1)) result,
    )

-- Every queue of known operations is worked off without a fault, and each request that waits for
-- an entry of it is sent one status, in the order of the queue.
pub periodic_update_answers :
    (queue : List LogEntry) (db : Db)
    → All Known queue
    → (sent : Sent) × (db' : Db) × (periodic_update queue db ≡ (ok sent, db'))
      × (channels sent ≡ waiting queue)
unfolding periodic_update
periodic_update_answers [] db known = ([], db, refl, refl)
periodic_update_answers (e ∷ queue) db (here, later) =
    let (status, db₁, first) = commit_entry-ok e db here in
    let (sent, db₂, rest, told) = periodic_update_answers queue db₁ later in
    (
      send_status e.status_chan status sent,
      db₂,
      rw (first, rest),
      channels-send_status e.status_chan status sent ∙ ap (waiting_at e.status_chan) told,
    )

send_status-append :
    (o : Option ℕ) (status : Bool) (first second : Sent)
    → send_status o status (first ++ second) ≡ send_status o status first ++ second
unfolding send_status
send_status-append none status first second = refl
send_status-append (some c) status first second = refl

parts_of :
    {a b : Sent} {s t : Db} → ◌≡◌ {A = Result Sent × Db} (ok a, s) (ok b, t) → (a ≡ b) × (s ≡ t)
parts_of h = (ap sent_of h, ap (λ r. r.1) h)
  where
    sent_of : Result Sent × Db → Sent
    sent_of (ok sent, db) = sent
    sent_of (err f, db) = []

-- A queue taken in two parts sends what it sends taken whole.
pub periodic_update-both :
    (first second : List LogEntry) (db db₁ db₂ : Db) (sent₁ sent₂ : Sent)
    → periodic_update first db ≡ (ok sent₁, db₁)
    → periodic_update second db₁ ≡ (ok sent₂, db₂)
    → periodic_update (first ++ second) db ≡ (ok (sent₁ ++ sent₂), db₂)
unfolding periodic_update
periodic_update-both [] second db db₁ db₂ sent₁ sent₂ h k =
    let (none_sent, same) = parts_of h in
    ap (periodic_update second) same ∙ k ∙ ap (λ sent. (ok (sent ++ sent₂), db₂)) none_sent
periodic_update-both (e ∷ first) second db db₁ db₂ sent₁ sent₂ h k =
    let (status, db', one, rest) = continue-ok _ (commit_entry e db) h in
    let (sent, db'', many, same) = continue-ok _ (periodic_update first db') rest in
    let (sent_same, db_same) = parts_of same in
    let later =
      periodic_update-both first second db' db'' db₂ sent sent₂ many
        (ap (periodic_update second) db_same ∙ k) in
    rw (one, later)
      (ap (λ t. (ok t, db₂))
        (send_status-append e.status_chan status sent sent₂ ∙ ap (λ t. t ++ sent₂) sent_same))

-- A queue taken in two parts leaves the store that it leaves taken whole.
pub periodic_update-append :
    (first second : List LogEntry) (db db₁ : Db) {sent : Sent}
    → periodic_update first db ≡ (ok sent, db₁)
    → (periodic_update (first ++ second) db).1 ≡ (periodic_update second db₁).1
unfolding periodic_update
periodic_update-append [] second db db₁ h = ap (λ t. (periodic_update second t.1).1) h
periodic_update-append (e ∷ first) second db db₁ h =
    let (status, db₂, one, rest) = continue-ok _ (commit_entry e db) h in
    let (sent, db₃, many, same) = continue-ok _ (periodic_update first db₂) rest in
    rw one (
      state-continue-pure (send_status e.status_chan status) (periodic_update (first ++ second) db₂)
      ∙ periodic_update-append first second db₂ db₃ many
      ∙ ap (λ t. (periodic_update second t.1).1) same)
