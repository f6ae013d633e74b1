-- ===== src/Lww/Cluster/Agreement.antt =====
-- Replicas that have handled everything agree, and no broadcast stops a replica.
use mathlib.Core.List.Perm
use tors_hw.Base.{
  ℕ, ◌<◌, ◌≡◌, sym, ap, subst, ◌∙◌, String, List, [], ◌∷◌, ◌++◌, decoded, untouched, Perm, length,
  ok, append-nil,
}
use tors_hw.Lww.Server.{BroadcastRequest, handle_broadcast}
use tors_hw.Lww.Receive.Joins.{Distinct-Perm}
use tors_hw.Lww.Receive.Convergence.{receive_converges}
use tors_hw.Lww.Cluster.{Cluster, address, init, Step, written, handled, Reach, here, next}
use tors_hw.Lww.Cluster.Invariant.{IsConsistent, init-IsConsistent}
use tors_hw.Lww.Cluster.Writes.{write_at-IsConsistent}
use tors_hw.Lww.Cluster.Deliveries.{deliver_ok, deliver_at-IsConsistent}
use tors_hw.Lww.Cluster.Routing.{occurrences}

module _ (config : List String)
    (once : (j : ℕ) → j < length config → occurrences (address config j) config ≡ 1) where
  Step-IsConsistent :
      {s t : Cluster} → Step config s t → IsConsistent config s → IsConsistent config t
  Step-IsConsistent {s} (written i change h fresh room e) v =
      rw e (write_at-IsConsistent config once s i change v h room fresh)
  Step-IsConsistent {s} (handled i before after r h waits e) v =
      rw e (deliver_at-IsConsistent config s i before after r v h waits)

  pub Reach-IsConsistent : {s : Cluster} → Reach config (init config) s → IsConsistent config s
  Reach-IsConsistent here = init-IsConsistent config
  Reach-IsConsistent (next r st) = Step-IsConsistent st (Reach-IsConsistent r)

  pub handled_all :
      {s : Cluster} (i : ℕ)
      → IsConsistent config s
      → i < length config
      → (s.replica i).pending ≡ []
      → Perm (s.replica i).handled s.issued
  handled_all {s} i v h quiet =
      subst (λ l. Perm l s.issued) (ap (λ l. (s.replica i).handled ++ l) quiet ∙ append-nil _)
        (v.complete i h)

  -- In a cluster whose configuration lists each address once, after any writes that name no key
  -- twice, with clocks below 2^64 - 1, and any deliveries, two replicas to which nothing is under way store the same.
  pub quiet_replicas_agree :
      (s : Cluster) (i j : ℕ)
      → Reach config (init config) s
      → i < length config
      → j < length config
      → (s.replica i).pending ≡ []
      → (s.replica j).pending ≡ []
      → (s.replica i).state.db ≡ (s.replica j).state.db
  quiet_replicas_agree s i j reach hi hj qi qj =
      let v = Reach-IsConsistent reach in
      let all_i = handled_all i v hi qi in
      let (same, _) =
        receive_converges (s.replica i).handled (s.replica j).handled
          (Perm.trans all_i (Perm.symm (handled_all j v hj qj)))
          (Distinct-Perm (Perm.symm all_i) v.distinct) in
      ap (λ t. t.1) (sym (v.replayed i hi) ∙ same ∙ v.replayed j hj)

  -- In a cluster whose configuration lists each address once, after any writes that name no key
  -- twice, with clocks below 2^64 - 1, and any deliveries, the handler answers 200 to each broadcast
  -- that is under way, and does not end the process.
  pub delivery_never_faults :
      (s : Cluster) (i : ℕ) (before after : List BroadcastRequest) (r : BroadcastRequest)
      → Reach config (init config) s
      → i < length config
      → (s.replica i).pending ≡ before ++ r ∷ after
      → (handle_broadcast (decoded r) (s.replica i).state.db).0 ≡ ok untouched
  delivery_never_faults s i before after r reach h waits =
      ap (λ t. t.0) (deliver_ok config s i before after r (Reach-IsConsistent reach) h waits).0
