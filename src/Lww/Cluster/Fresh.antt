-- ===== src/Lww/Cluster/Fresh.antt =====
-- The broadcasts of one change clash neither with one another nor with earlier ones.
use tors_hw.Base.{NoRepeat, ◌+◌, ◌<◌, ◌≡◌, ◌≢◌, refl, ◌∙◌, List, [], ◌∷◌, arith, All, u64_mod}
use tors_hw.Lww.Clock.{TTimestamp, TClock, new_ts}
use tors_hw.Lww.Server.{BroadcastRequest}
use tors_hw.Lww.Receive.{NoClash, Distinct}
use tors_hw.Lww.Cluster.{Change, patch, deletion, keys, requests, patch_request, delete_request}

pub new_ts_facts :
    (clock : TClock)
    → clock.ts.time + 1 < u64_mod
    → ((new_ts clock).1.time ≡ clock.ts.time + 1)
      × ((new_ts clock).1.id ≡ clock.ts.id)
      × ((new_ts clock).0.ts ≡ (new_ts clock).1)
unfolding new_ts
new_ts_facts clock h = (omega arith, refl, refl)

abbrev At : TTimestamp → BroadcastRequest → Type 0
At ts r = r.val.ts ≡ ts

pub requests-At : (ts : TTimestamp) (change : Change) → All (At ts) (requests ts change)
requests-At ts (patch []) = tt
requests-At ts (patch (e ∷ entries)) = (refl, requests-At ts (patch entries))
requests-At ts (deletion []) = tt
requests-At ts (deletion (e ∷ entries)) = (refl, requests-At ts (deletion entries))

-- Requests are told apart by their keys.
other_keys :
    (r : BroadcastRequest) (ts : TTimestamp) (change : Change)
    → All (λ j. r.key ≢ j) (keys change)
    → All (NoClash r) (requests ts change)
other_keys r ts (patch []) h = tt
other_keys r ts (patch (e ∷ entries)) h = (λ k. absurd (h.0 k), other_keys r ts (patch entries) h.1)
other_keys r ts (deletion []) h = tt
other_keys r ts (deletion (e ∷ entries)) h =
    (λ k. absurd (h.0 k), other_keys r ts (deletion entries) h.1)

pub requests-Distinct :
    (ts : TTimestamp) (change : Change) → NoRepeat (keys change) → Distinct (requests ts change)
requests-Distinct ts (patch []) h = tt
requests-Distinct ts (patch (e ∷ entries)) h = (
  other_keys (patch_request ts e) ts (patch entries) h.0,
  requests-Distinct ts (patch entries) h.1,
)
requests-Distinct ts (deletion []) h = tt
requests-Distinct ts (deletion (e ∷ entries)) h = (
  other_keys (delete_request ts e) ts (deletion entries) h.0,
  requests-Distinct ts (deletion entries) h.1,
)

pub NoClash-of_At :
    (x : BroadcastRequest) (ts : TTimestamp) (rs : List BroadcastRequest)
    → x.val.ts ≢ ts
    → All (At ts) rs
    → All (NoClash x) rs
NoClash-of_At x ts [] h a = tt
NoClash-of_At x ts (r ∷ rs) h a = (λ _ same. h (same ∙ a.0), NoClash-of_At x ts rs h a.1)
