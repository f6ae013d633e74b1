-- ===== src/Lww/Cluster/Writes.antt =====
-- A change taken by a replica keeps the cluster consistent.
use mathlib.Core.List.Perm
use tors_hw.Base.{
  NoRepeat, ℕ, ◌+◌, ◌<◌, ◌≤◌, ◌≡◌, refl, sym, ap, subst, ◌∙◌, String, List, [], ◌∷◌, ◌++◌,
  if◌then◌else◌, ◌==◌, ==→eq, eq→==, arith, Bool-cases, inl, inr, All, All-append, length, u64_mod,
  append_assoc,
}
use tors_hw.Lww.Clock.{new_ts}
use tors_hw.Lww.Server.{BroadcastRequest}
use tors_hw.Lww.Receive.{NoClash}
use tors_hw.Lww.Cluster.{Change, keys, requests, Cluster, address, write_at}
use tors_hw.Lww.Cluster.Fresh.{new_ts_facts, requests-At, requests-Distinct, NoClash-of_At}
use tors_hw.Lww.Cluster.Routing.{occurrences, to_node-handle, handle-state}
use tors_hw.Lww.Cluster.Invariant.{Issued, IsConsistent, Distinct-append, Issued-ne}

module _ (config : List String) (s : Cluster) (i : ℕ) (change : Change) where
  state-write_at :
      (j : ℕ)
      → ((write_at config i change s).replica j).state ≡ (
          if j == i
          then record ((s.replica j).state) { clock = (new_ts (s.replica j).state.clock).0 }
          else (s.replica j).state)
  unfolding write_at
  state-write_at j = elim (Bool-cases (j == i)) [
    | inl same ↦ rw same (
        handle-state change (s.replica i).state
        ∙ ap (λ n. record ((s.replica n).state) { clock = (new_ts (s.replica n).state.clock).0 })
            (sym (==→eq j i same)))
    | inr other ↦ rw other
  ]

  kept-write_at :
      (j : ℕ)
      → let t = write_at config i change s in
        ((t.replica j).state.config ≡ (s.replica j).state.config)
        × ((t.replica j).state.db ≡ (s.replica j).state.db)
        × ((t.replica j).state.clock.ts.id ≡ (s.replica j).state.clock.ts.id)
  kept-write_at j = rw state-write_at (unfold new_ts in ground arith)

  time-write_at :
      (j : ℕ)
      → (s.replica i).state.clock.ts.time + 1 < u64_mod
      → (s.replica j).state.clock.ts.time
        ≤ ((write_at config i change s).replica j).state.clock.ts.time
  time-write_at j room = elim (Bool-cases (j == i)) [
    | inl same ↦
        let at_j : (s.replica j).state.clock.ts.time + 1 < u64_mod =
          subst (λ n. (s.replica n).state.clock.ts.time + 1 < u64_mod) (sym (==→eq j i same))
            room in
        let (now, _, whole) = new_ts_facts (s.replica j).state.clock at_j in
        rw (state-write_at j, same) (omega (arith, now, ap (λ t. t.time) whole))
    | inr other ↦ rw (state-write_at j, other) (omega arith)
  ]

  clock-write_at_self :
      ((write_at config i change s).replica i).state.clock ≡ (new_ts (s.replica i).state.clock).0
  clock-write_at_self = rw (state-write_at i, eq→== i i refl)

  handled-write_at :
      (j : ℕ) → ((write_at config i change s).replica j).handled ≡ (s.replica j).handled
  unfolding write_at
  handled-write_at j = refl

  issued-write_at :
      (write_at config i change s).issued
      ≡ s.issued ++ requests (new_ts (s.replica i).state.clock).1 change
  unfolding write_at
  issued-write_at = refl

  pending-write_at :
      (j : ℕ)
      → occurrences (address config j) (s.replica i).state.config ≡ 1
      → ((write_at config i change s).replica j).pending
        ≡ (s.replica j).pending ++ requests (new_ts (s.replica i).state.clock).1 change
  unfolding write_at
  pending-write_at j h =
      ap (λ l. (s.replica j).pending ++ l)
        (to_node-handle (address config j) change (s.replica i).state h)

module _ (config : List String)
    (once : (j : ℕ) → j < length config → occurrences (address config j) config ≡ 1) (s : Cluster)
    (i : ℕ) (change : Change) (v : IsConsistent config s) (h : i < length config)
    (room : (s.replica i).state.clock.ts.time + 1 < u64_mod) where
  Issued-still :
      (rs : List BroadcastRequest)
      → All (Issued (length config) s) rs
      → All (Issued (length config) (write_at config i change s)) rs
  Issued-still [] a = tt
  Issued-still (r ∷ rs) ((k, hk, id, time), a) =
      ((k, hk, id, omega (arith, time-write_at config s i change k room)), Issued-still rs a)

  -- The new timestamp is issued by the replica that took the change.
  Issued-now :
      (rs : List BroadcastRequest)
      → All (λ r. r.val.ts ≡ (new_ts (s.replica i).state.clock).1) rs
      → All (Issued (length config) (write_at config i change s)) rs
  Issued-now [] a = tt
  Issued-now (r ∷ rs) (e, a) =
      let (now, own, whole) = new_ts_facts (s.replica i).state.clock room in
      (
        (
          i,
          h,
          ap (λ t. t.id) e ∙ own ∙ v.own_id i h,
          rw (e, clock-write_at_self config s i change, whole) (omega arith),
        ),
        Issued-now rs a,
      )

  no_clash :
      (rs : List BroadcastRequest)
      → All (Issued (length config) s) rs
      → All (λ x. All (NoClash x) (requests (new_ts (s.replica i).state.clock).1 change)) rs
  no_clash [] a = tt
  no_clash (r ∷ rs) (issued, a) = (
    NoClash-of_At r _ _ (Issued-ne config s i r v h room issued) (requests-At _ change),
    no_clash rs a,
  )

  pub write_at-IsConsistent :
      NoRepeat (keys change) → IsConsistent config (write_at config i change s)
  write_at-IsConsistent fresh = record {
    configured = λ j hj. (kept-write_at config s i change j).0 ∙ v.configured j hj;
    own_id = λ j hj. (kept-write_at config s i change j).2 ∙ v.own_id j hj;
    complete = λ j hj.
        rw
          (
            handled-write_at config s i change j,
            pending-write_at config s i change j (rw (v.configured i h) (once j hj)),
            issued-write_at config s i change,
            ← append_assoc,
          )
          (Perm.append_right _ (v.complete j hj));
    replayed = λ j hj.
        rw (handled-write_at config s i change j, (kept-write_at config s i change j).1)
          (v.replayed j hj);
    distinct = rw (issued-write_at config s i change) (
        Distinct-append s.issued _ v.distinct (requests-Distinct _ change fresh)
          (no_clash s.issued v.stamped));
    stamped = rw (issued-write_at config s i change) (
        All-append (Issued (length config) (write_at config i change s)) s.issued _
          (Issued-still s.issued v.stamped) (Issued-now _ (requests-At _ change)));
  }
