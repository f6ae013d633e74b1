-- ===== src/Raft/External/Paths.antt =====
-- The keys that `getKey` of 2/server/external.go finds in a path.
use Prim.Native.String.{◌++◌ as ◌+str◌}
use tors_hw.Base.{
  ◌≡◌, ◌≢◌, ◌↔◌, String, true, arith, eq_iff, trim_prefix, has_prefix-append, trim_prefix-append,
  append-trim_prefix,
}
use tors_hw.Raft.External.{get_key}

pub entry_key_exact :
    (path key : String)
    → (get_key path ≡ (key, true)) ↔ ((path ≡ ◌+str◌ "/entry/" key) × (key ≢ ""))
unfolding get_key
entry_key_exact path key = (
  λ h. (
    ground (arith, append-trim_prefix path "/entry/"),
    ground (arith, eq_iff (trim_prefix path "/entry/") ""),
  ),
  λ h.
      ground
        (arith, has_prefix-append "/entry/" key, trim_prefix-append "/entry/" key, eq_iff key ""),
)
