-- ===== src/Lww/Cluster/Invariant.antt =====
-- What holds of a cluster in every state that it can reach.
use mathlib.Core.List.Perm
use tors_hw.Base.{
  ℕ, ◌+◌, ◌<◌, ◌≤◌, ◌≡◌, ◌≢◌, refl, sym, ap, ◌∙◌, String, List, [], ◌∷◌, ◌++◌, arith, All,
  All-append, Perm, length, pos, u64_mod, ok,
}
use tors_hw.Lww.Clock.{new_clock, new_ts}
use tors_hw.Lww.Db.{new_db}
use tors_hw.Lww.Server.{BroadcastRequest}
use tors_hw.Lww.Receive.{receive, NoClash, Distinct}
use tors_hw.Lww.Cluster.{Cluster, init}
use tors_hw.Lww.Cluster.Fresh.{new_ts_facts}

-- A request that some replica issued, at a time that its clock has reached.
abbrev pub Issued : ℕ → Cluster → BroadcastRequest → Type 0
Issued n s r =
    (k : ℕ) × (k < n) × (r.val.ts.id ≡ pos k) × (r.val.ts.time ≤ (s.replica k).state.clock.ts.time)

module _ (config : List String) where
  pub record IsConsistent (s : Cluster) : Type 0 where
    pub configured : (i : ℕ) → i < length config → (s.replica i).state.config ≡ config
    pub own_id : (i : ℕ) → i < length config → (s.replica i).state.clock.ts.id ≡ pos i
    pub complete :
        (i : ℕ) → i < length config → Perm ((s.replica i).handled ++ (s.replica i).pending) s.issued
    pub replayed :
        (i : ℕ)
        → i < length config
        → receive (s.replica i).handled new_db ≡ (ok tt, (s.replica i).state.db)
    pub distinct : Distinct s.issued
    pub stamped : All (Issued (length config) s) s.issued

  pub init-IsConsistent : IsConsistent (init config)
  unfolding init receive new_db new_clock
  init-IsConsistent = record {
    configured = λ i h. refl;
    own_id = λ i h. refl;
    complete = λ i h. Perm.refl [];
    replayed = λ i h. refl;
    distinct = tt;
    stamped = tt;
  }

pub Distinct-append :
    (xs ys : List BroadcastRequest)
    → Distinct xs
    → Distinct ys
    → All (λ x. All (NoClash x) ys) xs
    → Distinct (xs ++ ys)
Distinct-append [] ys dx dy c = dy
Distinct-append (x ∷ xs) ys dx dy c =
    (All-append (NoClash x) xs ys dx.0 c.0, Distinct-append xs ys dx.1 dy c.1)

pub Distinct-prefix : (xs ys : List BroadcastRequest) → Distinct (xs ++ ys) → Distinct xs
Distinct-prefix [] ys d = tt
Distinct-prefix (x ∷ xs) ys d = (All-prefix x xs d.0, Distinct-prefix xs ys d.1)
  where
    All-prefix :
        (x : BroadcastRequest) (zs : List BroadcastRequest)
        → All (NoClash x) (zs ++ ys)
        → All (NoClash x) zs
    All-prefix x [] h = tt
    All-prefix x (z ∷ zs) h = (h.0, All-prefix x zs h.1)

-- An issued request has another timestamp than the one that a clock moves on to.
pub Issued-ne :
    (config : List String) (s : Cluster) (i : ℕ) (r : BroadcastRequest)
    → IsConsistent config s
    → i < length config
    → (s.replica i).state.clock.ts.time + 1 < u64_mod
    → Issued (length config) s r
    → r.val.ts ≢ (new_ts (s.replica i).state.clock).1
Issued-ne config s i r v h room (k, hk, id, time) same =
    let (now, own, _) = new_ts_facts (s.replica i).state.clock room in
    let at_i : pos k ≡ pos i = sym id ∙ ap (λ t. t.id) same ∙ own ∙ v.own_id i h in
    let k_is_i : k ≡ i = cc in
    let late : r.val.ts.time ≡ (s.replica k).state.clock.ts.time + 1 =
      ap (λ t. t.time) same ∙ now ∙ ap (λ n. (s.replica n).state.clock.ts.time + 1) (sym k_is_i) in
    omega arith
