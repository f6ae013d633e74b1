-- ===== src/Lww/Receive/Redelivery.antt =====
-- A broadcast that arrives a second time, as the retries of `broadcastToNode` allow where the answer
-- is not in 2xx, and a write whose timestamp is behind what the replica has already stored.
use mathlib.Core.List.{Memᴰ}
use tors_hw.Base.{
  ◌<◌, ◌≡◌, ◌≢◌, ◌⊎◌, refl, sym, subst, ap, ◌∙◌, inl, inr, String, List, [], ◌∷◌, some, true, false,
  ok, err, fatal, decoded, untouched, pos, arith, eqb_ℤ, ltb_ℤ, add_u64, if◌then◌else◌, continue,
  All, All-append, All-Memᴰ,
}
use tors_hw.Lww.Clock.{TTimestamp, TClock, compare, new_ts}
use tors_hw.Lww.Clock.Order.{◌≺◌, compare-eq, compare-swap}
use tors_hw.Lww.Db.{TVal, TDb, write_over}
use tors_hw.Lww.Server.{
  TState, PatchEntry, DeleteEntry, BroadcastRequest, Send, broadcast_to_all, patch_sends,
  delete_sends, handle_patch, handle_delete, handle_change, apply_request, handle_broadcast,
}
use tors_hw.Lww.Receive.{receive, stored}
use tors_hw.Lww.Receive.Joins.{ts-stored, apply_request-write_over}
use tors_hw.Lww.Receive.Latest.{receive-Covers, ◌≼◌}
use tors_hw.Lww.Cluster.{Change, patch, deletion, handle}

not_behind_itself : (a b : TTimestamp) → a ≡ b → a ≺ b → ⊥
unfolding compare
not_behind_itself a b same h = ground (arith, (compare-eq a b).1 same)

-- A write over a value that is at least as new: fatal on the same timestamp, else no effect.
write_over-newer :
    (db : TDb) (key : String) (old new : TVal)
    → new.ts ≼ old.ts
    → write_over (some old) key new db
      ≡ (if eqb_ℤ (compare old.ts new.ts) (pos 0) then (err fatal, db) else (ok tt, db))
unfolding write_over
write_over-newer db key old new h =
    ground (arith, compare-eq old.ts new.ts, compare-swap new.ts old.ts)

apply_request-newer :
    (r : BroadcastRequest) (db : TDb) (v : TVal)
    → db.storage r.key ≡ some v
    → r.val.ts ≼ v.ts
    → apply_request r db
      ≡ (if eqb_ℤ (compare v.ts r.val.ts) (pos 0) then (err fatal, db) else (ok tt, db))
apply_request-newer r db v e h =
    apply_request-write_over r db
    ∙ ap (λ o. write_over o r.key (stored r) db) e
    ∙ write_over-newer db r.key v (stored r) (rw (ts-stored r) h)
    ∙ ap (λ t. if eqb_ℤ (compare v.ts t) (pos 0) then (err fatal, db) else (ok tt, db))
        (ts-stored r)

apply_request-same :
    (r : BroadcastRequest) (db : TDb) (v : TVal)
    → db.storage r.key ≡ some v
    → v.ts ≡ r.val.ts
    → apply_request r db ≡ (err fatal, db)
apply_request-same r db v e same =
    apply_request-newer r db v e (inl (sym same))
    ∙ ap (λ c. if eqb_ℤ c (pos 0) then (err fatal, db) else (ok tt, db))
        ((compare-eq v.ts r.val.ts).1 same)

apply_request-behind :
    (r : BroadcastRequest) (db : TDb) (v : TVal)
    → db.storage r.key ≡ some v
    → r.val.ts ≺ v.ts
    → apply_request r db ≡ (ok tt, db)
apply_request-behind r db v e behind =
    apply_request-newer r db v e (inr behind)
    ∙ ap (λ c. if eqb_ℤ c (pos 0) then (err fatal, db) else (ok tt, db))
        ((compare-swap r.val.ts v.ts).0 behind)

-- Any broadcasts were handled, one after the other and from any storage on, none of which ended the
-- process, and one of them arrives once more: something is stored at its key; if that still has the
-- broadcast's timestamp the process ends, and otherwise nothing changes.
pub handle_broadcast_again :
    (rs : List BroadcastRequest) (r : BroadcastRequest) (db db' : TDb)
    → receive rs db ≡ (ok tt, db')
    → Memᴰ r rs
    → (v : TVal) × (db'.storage r.key ≡ some v)
      × (((v.ts ≡ r.val.ts) × (handle_broadcast (decoded r) db' ≡ (err fatal, db')))
          ⊎ ((v.ts ≢ r.val.ts) × (handle_broadcast (decoded r) db' ≡ (ok untouched, db'))))
unfolding handle_broadcast
handle_broadcast_again rs r db db' h there =
    let (v, stands, newer) = receive-Covers rs db db' h there in
    (
      v,
      stands,
      elim newer [
        | inl same ↦ inl (
          sym same,
          ap (continue (λ _ d. (ok untouched, d))) (apply_request-same r db' v stands (sym same)),
        )
        | inr behind ↦ inr (
          (λ same. not_behind_itself r.val.ts v.ts (sym same) behind),
          ap (continue (λ _ d. (ok untouched, d))) (apply_request-behind r db' v stands behind),
        )
      ],
    )

-- The writes that a change starts carry the timestamp that was issued for it.
Stamped : TTimestamp → Send → Type 0
Stamped ts send = send.request.val.ts ≡ ts

broadcast_to_all-Stamped :
    (config : List String) (key : String) (entry : TVal)
    → All (Stamped entry.ts) (broadcast_to_all config key entry)
unfolding broadcast_to_all Stamped
broadcast_to_all-Stamped [] key entry = tt
broadcast_to_all-Stamped (node ∷ rest) key entry = (refl, broadcast_to_all-Stamped rest key entry)

patch_sends-Stamped :
    (config : List String) (ts : TTimestamp) (entries : List PatchEntry)
    → All (Stamped ts) (patch_sends config ts entries)
unfolding patch_sends
patch_sends-Stamped config ts [] = tt
patch_sends-Stamped config ts (e ∷ es) =
    All-append (Stamped ts) _ _
      (broadcast_to_all-Stamped config e.key (record { val = e.val; ts = ts; deleted = false }))
      (patch_sends-Stamped config ts es)

delete_sends-Stamped :
    (config : List String) (ts : TTimestamp) (entries : List DeleteEntry)
    → All (Stamped ts) (delete_sends config ts entries)
unfolding delete_sends
delete_sends-Stamped config ts [] = tt
delete_sends-Stamped config ts (e ∷ es) =
    All-append (Stamped ts) _ _
      (broadcast_to_all-Stamped config e.key (record { val = ""; ts = ts; deleted = true }))
      (delete_sends-Stamped config ts es)

handle-Stamped :
    (change : Change) (state : TState)
    → All (Stamped (new_ts state.clock).1) (handle change state).2
unfolding handle handle_change handle_patch handle_delete
handle-Stamped (patch entries) state =
    patch_sends-Stamped state.config (new_ts state.clock).1 entries
handle-Stamped (deletion entries) state =
    delete_sends-Stamped state.config (new_ts state.clock).1 entries

handle-answered :
    (change : Change) (state : TState)
    → ((handle change state).1 ≡ untouched) × ((handle change state).0.db ≡ state.db)
unfolding handle handle_change handle_patch handle_delete
handle-answered (patch entries) state = (refl, refl)
handle-answered (deletion entries) state = (refl, refl)

-- The timestamp behind a clock is behind another: it is earlier, or as early with a smaller id.
abbrev pub TsBehind : TClock → TTimestamp → Type 0
TsBehind clock ts =
    (add_u64 clock.ts.time 1 < ts.time)
    ⊎ ((add_u64 clock.ts.time 1 ≡ ts.time) × (ltb_ℤ clock.ts.id ts.id ≡ true))

new_ts-TsBehind : (clock : TClock) (ts : TTimestamp) → TsBehind clock ts → (new_ts clock).1 ≺ ts
unfolding new_ts compare
new_ts-TsBehind clock ts (inl earlier) = ground arith
new_ts-TsBehind clock ts (inr (level, smaller)) = ground arith

-- A replica takes a client's change, a patch or a deletion, of any entries, and answers 200. The
-- timestamp that its clock issues for it is behind the one stored at the key of one of the writes that
-- it sends to the replicas: it is earlier, or as early with a smaller id. Then that write, when it comes
-- back to the replica, is dropped: it is answered 200, and the storage stays as it was.
pub change_behind_is_dropped :
    (state : TState) (change : Change) (send : Send) (old : TVal)
    → Memᴰ send (handle change state).2
    → state.db.storage send.request.key ≡ some old
    → TsBehind state.clock old.ts
    → ((handle change state).1 ≡ untouched)
      × (handle_broadcast (decoded send.request) (handle change state).0.db
          ≡ (ok untouched, state.db))
unfolding handle_broadcast Stamped
change_behind_is_dropped state change send old sent stands behind =
    let (answer, same_db) = handle-answered change state in
    let stamp =
      All-Memᴰ (Stamped (new_ts state.clock).1) send _ (handle-Stamped change state) sent in
    let below = subst (λ t. t ≺ old.ts) (sym stamp) (new_ts-TsBehind state.clock old.ts behind) in
    (
      answer,
      ap (λ d. handle_broadcast (decoded send.request) d) same_db
          ∙ ap (continue (λ _ d. (ok untouched, d)))
              (apply_request-behind send.request state.db old stands below),
    )
