-- ===== src/Lww/Cluster/Routing.antt =====
-- Where the sends of a handler go: each replica is sent each broadcast of a change once.
use tors_hw.Base.{
  ℕ, suc, ◌≡◌, refl, ap, ◌∙◌, String, List, [], ◌∷◌, ◌++◌, if◌then◌else◌, str_eq, arith, replicate,
  Bool-cases, inl, inr,
}
use tors_hw.Lww.Clock.{TTimestamp, new_ts}
use tors_hw.Lww.Db.{TVal}
use tors_hw.Lww.Server.{
  TState, PatchEntry, DeleteEntry, Send, broadcast_to_all, patch_sends, delete_sends,
}
use tors_hw.Lww.Cluster.{Change, patch, deletion, handle, requests, to_node}

-- How often an address stands in the configuration.
abbrev pub occurrences : String → List String → ℕ
occurrences a [] = 0
occurrences a (node ∷ rest) =
    let later = occurrences a rest in if str_eq node a then suc later else later

to_node-append :
    (a : String) (xs ys : List Send) → to_node a (xs ++ ys) ≡ to_node a xs ++ to_node a ys
unfolding to_node
to_node-append a [] ys = refl
to_node-append a (s ∷ xs) ys = ground (arith, to_node-append a xs ys)

to_node-broadcast_to_all :
    (a : String) (config : List String) (key : String) (v : TVal)
    → to_node a (broadcast_to_all config key v)
      ≡ replicate (occurrences a config) (record { key = key; val = v })
unfolding to_node broadcast_to_all
to_node-broadcast_to_all a [] key v = refl
to_node-broadcast_to_all a (node ∷ config) key v = elim (Bool-cases (str_eq node a)) [
  | inl same ↦
      rw same
        (ap (λ l. (record { key = key; val = v }) ∷ l) (to_node-broadcast_to_all a config key v))
  | inr other ↦ rw other (to_node-broadcast_to_all a config key v)
]

-- At an address that stands once in the configuration.
once :
    (a : String) (config : List String) (key : String) (v : TVal)
    → occurrences a config ≡ 1
    → to_node a (broadcast_to_all config key v) ≡ record { key = key; val = v } ∷ []
once a config key v h =
    to_node-broadcast_to_all a config key v
    ∙ ap (λ n. replicate n (record { key = key; val = v })) h

to_node-patch_sends :
    (a : String) (config : List String) (ts : TTimestamp) (entries : List PatchEntry)
    → occurrences a config ≡ 1
    → to_node a (patch_sends config ts entries) ≡ requests ts (patch entries)
unfolding patch_sends
to_node-patch_sends a config ts [] h = unfold to_node in refl
to_node-patch_sends a config ts (e ∷ entries) h =
    rw (to_node-append, once _ _ _ _ h, to_node-patch_sends a config ts entries h)

to_node-delete_sends :
    (a : String) (config : List String) (ts : TTimestamp) (entries : List DeleteEntry)
    → occurrences a config ≡ 1
    → to_node a (delete_sends config ts entries) ≡ requests ts (deletion entries)
unfolding delete_sends
to_node-delete_sends a config ts [] h = unfold to_node in refl
to_node-delete_sends a config ts (e ∷ entries) h =
    rw (to_node-append, once _ _ _ _ h, to_node-delete_sends a config ts entries h)

-- A change is broadcast whole to every address that stands once in the configuration.
pub to_node-handle :
    (a : String) (change : Change) (state : TState)
    → occurrences a state.config ≡ 1
    → to_node a (handle change state).2 ≡ requests (new_ts state.clock).1 change
unfolding handle
to_node-handle a (patch entries) state h =
    to_node-patch_sends a state.config (new_ts state.clock).1 entries h
to_node-handle a (deletion entries) state h =
    to_node-delete_sends a state.config (new_ts state.clock).1 entries h

-- A handler changes the clock and nothing else of a replica.
pub handle-state :
    (change : Change) (state : TState)
    → (handle change state).0 ≡ record state { clock = (new_ts state.clock).0 }
unfolding handle
handle-state (patch entries) state = refl
handle-state (deletion entries) state = refl
