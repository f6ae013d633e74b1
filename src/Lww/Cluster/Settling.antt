-- ===== src/Lww/Cluster/Settling.antt =====
-- The broadcasts that are under way can all be handled.
use Prim.Native.String.{◌++◌ as ◌+str◌}
use tors_hw.Base.{
  ℕ, zero, suc, ◌<◌, ◌≤◌, ◌≡◌, ◌≢◌, refl, sym, ap, subst, ◌∙◌, String, Option, some, List, [], ◌∷◌,
  ok, length, ◌==◌, arith, inl, inr, eq→==, Bool-cases, ==→eq,
}
use tors_hw.Lww.Server.{BroadcastRequest}
use tors_hw.Lww.Launch.{Incoming, serve}
use tors_hw.Lww.Cluster.Routing.{occurrences}
use tors_hw.Lww.Cluster.Reads.{Newest, told, quiet_replica_reads}
use tors_hw.Lww.Cluster.{Cluster, Replica, init, address, deliver_at, Reach, here, next, handled}

Reach-trans :
    (config : List String) {s t u : Cluster}
    → Reach config s t
    → Reach config t u
    → Reach config s u
Reach-trans config first here = first
Reach-trans config first (next later step) = next (Reach-trans config first later) step

delivered_to :
    (i : ℕ) (r : BroadcastRequest) (rs : List BroadcastRequest) (s : Cluster)
    → ((deliver_at i r rs s).replica i).pending ≡ rs
unfolding deliver_at
delivered_to i r rs s = rw (eq→== i i refl) refl

left_alone :
    (i j : ℕ) (r : BroadcastRequest) (rs : List BroadcastRequest) (s : Cluster)
    → j ≢ i
    → (deliver_at i r rs s).replica j ≡ s.replica j
unfolding deliver_at
left_alone i j r rs s other = elim (Bool-cases (j == i)) [
  | inl same ↦ absurd (other (==→eq j i same))
  | inr apart ↦ rw apart refl
]

issued_same :
    (i : ℕ) (r : BroadcastRequest) (rs : List BroadcastRequest) (s : Cluster)
    → (deliver_at i r rs s).issued ≡ s.issued
unfolding deliver_at
issued_same i r rs s = refl

module _ (config : List String) where
  -- The replica `i` has handled what was under way to it, and nothing else has happened.
  record Drained (i : ℕ) (s t : Cluster) : Type 0 where
    reach : Reach config s t
    quiet : (t.replica i).pending ≡ []
    others : (j : ℕ) → j ≢ i → t.replica j ≡ s.replica j
    issued : t.issued ≡ s.issued

  drain_one :
      (i : ℕ) (rs : List BroadcastRequest) (s : Cluster)
      → i < length config
      → (s.replica i).pending ≡ rs
      → (t : Cluster) × Drained i s t
  drain_one i [] s h waits =
      (s, record { reach = here; quiet = waits; others = λ j other. refl; issued = refl })
  drain_one i (r ∷ rs) s h waits =
      let s₁ = deliver_at i r rs s in
      let step = handled i [] rs r h waits refl in
      let (t, drained) = drain_one i rs s₁ h (delivered_to i r rs s) in
      (
        t,
        record {
          reach = Reach-trans config (next here step) drained.reach;
          quiet = drained.quiet;
          others = λ j other. drained.others j other ∙ left_alone i j r rs s other;
          issued = drained.issued ∙ issued_same i r rs s;
        },
      )

  -- The first `n` replicas have nothing under way to them, and nothing was written.
  record Settled (n : ℕ) (s t : Cluster) : Type 0 where
    reach : Reach config s t
    quiet : (j : ℕ) → j < n → (t.replica j).pending ≡ []
    issued : t.issued ≡ s.issued

  settle : (n : ℕ) (s : Cluster) → n ≤ length config → (t : Cluster) × Settled n s t
  settle zero s le =
      (s, record { reach = here; quiet = λ j h. absurd (omega arith); issued = refl })
  settle (suc n) s le =
      let (t, before) = settle n s (omega arith) in
      let (u, drained) = drain_one n (t.replica n).pending t (omega arith) refl in
      (
        u,
        record {
          reach = Reach-trans config before.reach drained.reach;
          quiet = λ j h. elim (Bool-cases (j == n)) [
            | inl last ↦ ap (λ k. (u.replica k).pending) (==→eq j n last) ∙ drained.quiet
            | inr other ↦
                let apart : j ≢ n = λ e. ground arith in
                ap (λ (a : Replica). a.pending) (drained.others j apart)
                ∙ before.quiet j (ground arith)
          ];
          issued = drained.issued ∙ before.issued;
        },
      )

  -- In a cluster whose configuration lists each address once, after any writes that name no key
  -- twice, with clocks below 2^64 - 1, and any deliveries: the broadcasts under way can be handled, with
  -- no further write, so that every replica then answers a request whose path names a key by the newest
  -- write to it anywhere, 200 and its value, or 404 where that was a deletion or where there is none.
  -- The key is not empty, and the path is one that net/http does not redirect.
  pub replicas_settle :
      (once : (j : ℕ) → j < length config → occurrences (address config j) config ≡ 1)
      (clean : String → String) (s : Cluster) (request : Incoming) (key : String)
      (newest : Option BroadcastRequest)
      → Reach config (init config) s
      → request.path ≡ ◌+str◌ "/get/" key
      → clean request.path ≡ request.path
      → key ≢ ""
      → Newest s.issued key newest
      → (t : Cluster) × Reach config s t
        × (t.issued ≡ s.issued)
        × ((i : ℕ)
            → i < length config
            → serve clean request (t.replica i).state
              ≡ some (record {
                response = ok (told key newest);
                state = (t.replica i).state;
                sends = [];
              }))
  replicas_settle once clean s request key newest reach path cleaned named latest =
      let (t, settled) = settle (length config) s (omega arith) in
      (
        t,
        settled.reach,
        settled.issued,
        λ i h.
            quiet_replica_reads config once clean t i request key newest
              (Reach-trans config reach settled.reach) h (settled.quiet i h) path cleaned named
              (subst (λ rs. Newest rs key newest) (sym settled.issued) latest),
      )
