-- ===== src/Lww/Cluster/Deliveries.antt =====
-- A broadcast that is handled keeps the cluster consistent, and does not fault.
use mathlib.Core.List.{perm_middle}
use mathlib.Core.List.Perm
use tors_hw.Base.{
  ℕ, String, true, false, All, ◌<◌, ◌≡◌, refl, sym, ap, subst, ◌∙◌, List, [], ◌∷◌, ◌++◌, decoded,
  untouched, ◌==◌, ==→eq, arith, Bool-cases, inl, inr, Perm, length, ok, append_assoc, continue,
  continue-ok, continue-continue,
}
use tors_hw.Lww.Db.{TDb, new_db}
use tors_hw.Lww.Server.{BroadcastRequest, handle_broadcast, apply_request}
use tors_hw.Lww.Receive.{receive, Distinct}
use tors_hw.Lww.Receive.Joins.{Distinct-Perm}
use tors_hw.Lww.Receive.Convergence.{receive-new_db}
use tors_hw.Lww.Cluster.{Cluster, deliver, deliver_at}
use tors_hw.Lww.Cluster.Invariant.{Issued, IsConsistent, Distinct-prefix}

receive-append :
    (xs ys : List BroadcastRequest) (db : TDb)
    → receive (xs ++ ys) db ≡ continue (λ _. receive ys) (receive xs db)
unfolding receive
receive-append [] ys db = refl
receive-append (r ∷ xs) ys db =
    continue-continue (λ _. receive xs) (λ _. receive ys) (λ _. receive (xs ++ ys))
      (λ _ db'. receive-append xs ys db') (apply_request r db)

-- One request, handled without a fault.
handle_one :
    (db db' : TDb) (r : BroadcastRequest)
    → receive (r ∷ []) db ≡ (ok tt, db')
    → handle_broadcast (decoded r) db ≡ (ok untouched, db')
unfolding receive handle_broadcast
handle_one db db' r h =
    let (a, db₁, first, same) = continue-ok (λ _. receive []) (apply_request r db) h in
    rw first (ap (λ d. (ok untouched, d)) (ap (λ t. t.1) same))

-- The request after those handled so far.
handle_next :
    (before : List BroadcastRequest) (db : TDb) (r : BroadcastRequest)
    → receive before new_db ≡ (ok tt, db)
    → Distinct (before ++ r ∷ [])
    → let db' = (handle_broadcast (decoded r) db).1 in
      (handle_broadcast (decoded r) db ≡ (ok untouched, db'))
      × (receive (before ++ r ∷ []) new_db ≡ (ok tt, db'))
handle_next before db r replayed d =
    let whole = receive-new_db (before ++ r ∷ []) d in
    let last =
      ap (continue (λ _. receive (r ∷ []))) (sym replayed)
      ∙ sym (receive-append before (r ∷ []) new_db)
      ∙ whole in
    let handled = handle_one db _ r last in (rw handled, rw handled whole)

module _ (config : List String) (s : Cluster) (i : ℕ) (before after : List BroadcastRequest)
    (r : BroadcastRequest) (v : IsConsistent config s) (h : i < length config)
    (waits : (s.replica i).pending ≡ before ++ r ∷ after) where
  -- What has been handled, this request, and what is left.
  reordered : Perm (((s.replica i).handled ++ r ∷ []) ++ (before ++ after)) s.issued
  reordered =
      Perm.trans
        (rw append_assoc
          (Perm.append_left (s.replica i).handled (Perm.symm (perm_middle before after))))
        (subst (λ l. Perm ((s.replica i).handled ++ l) s.issued) waits (v.complete i h))

  -- The broadcast is handled without a fault, and the handled ones still replay to the storage.
  pub deliver_ok :
      let db = (s.replica i).state.db in
      let db' = (handle_broadcast (decoded r) db).1 in
      (handle_broadcast (decoded r) db ≡ (ok untouched, db'))
      × (receive ((s.replica i).handled ++ r ∷ []) new_db ≡ (ok tt, db'))
  deliver_ok = handle_next (s.replica i).handled (s.replica i).state.db r (v.replayed i h) (
      Distinct-prefix ((s.replica i).handled ++ r ∷ []) (before ++ after)
        (Distinct-Perm (Perm.symm reordered) v.distinct))

  abbrev after_it : Cluster
  after_it = deliver_at i r (before ++ after) s

  kept :
      (j : ℕ)
      → ((after_it.replica j).state.config ≡ (s.replica j).state.config)
        × ((after_it.replica j).state.clock ≡ (s.replica j).state.clock)
  unfolding deliver_at
  kept j = ground arith

  at_i : (j : ℕ) → (j == i) ≡ true → after_it.replica j ≡ deliver r (before ++ after) (s.replica i)
  unfolding deliver_at
  at_i j same = rw same (ap (λ n. deliver r (before ++ after) (s.replica n)) (==→eq j i same))

  elsewhere : (j : ℕ) → (j == i) ≡ false → after_it.replica j ≡ s.replica j
  unfolding deliver_at
  elsewhere j other = rw other

  issued_same : after_it.issued ≡ s.issued
  unfolding deliver_at
  issued_same = refl

  still-Issued :
      (rs : List BroadcastRequest)
      → All (Issued (length config) s) rs
      → All (Issued (length config) after_it) rs
  still-Issued [] a = tt
  still-Issued (x ∷ rs) ((k, hk, id, time), a) =
      ((k, hk, id, omega (arith, ap (λ c. c.ts.time) (kept k).1)), still-Issued rs a)

  complete_now :
      (j : ℕ)
      → j < length config
      → Perm ((after_it.replica j).handled ++ (after_it.replica j).pending) s.issued
  unfolding deliver
  complete_now j hj = elim (Bool-cases (j == i)) [
    | inl same ↦ rw (at_i j same) reordered
    | inr other ↦ rw (elsewhere j other) (v.complete j hj)
  ]

  replayed_now :
      (j : ℕ)
      → j < length config
      → receive (after_it.replica j).handled new_db ≡ (ok tt, (after_it.replica j).state.db)
  unfolding deliver
  replayed_now j hj = elim (Bool-cases (j == i)) [
    | inl same ↦ rw (at_i j same) deliver_ok.1
    | inr other ↦ rw (elsewhere j other) (v.replayed j hj)
  ]

  pub deliver_at-IsConsistent : IsConsistent config (deliver_at i r (before ++ after) s)
  deliver_at-IsConsistent = record {
    configured = λ j hj. (kept j).0 ∙ v.configured j hj;
    own_id = λ j hj. ap (λ c. c.ts.id) (kept j).1 ∙ v.own_id j hj;
    complete = λ j hj. rw issued_same (complete_now j hj);
    replayed = replayed_now;
    distinct = rw issued_same v.distinct;
    stamped = rw issued_same (still-Issued s.issued v.stamped);
  }
