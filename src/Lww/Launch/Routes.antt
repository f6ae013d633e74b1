-- ===== src/Lww/Launch/Routes.antt =====
-- Which handler of 3/server/server.go a request reaches.
use Prim.Native.String.{◌++◌ as ◌+str◌}
use tors_hw.Base.{
  ◌≡◌, refl, sym, ap, ◌∙◌, String, true, false, some, [], Bool-cases, inl, inr, ok, has_prefix,
  has_prefix-append, str_eq, eq_iff, arith,
}
use tors_hw.Lww.Server.{TState, handle_get, handle_change, handle_broadcast}
use tors_hw.Lww.Launch.{Incoming, serve, changed, broadcast_done}

is_clean :
    (clean : String → String) (path : String) → clean path ≡ path → str_eq (clean path) path ≡ true
is_clean clean path same = (eq_iff (clean path) path).1 same

get_path_tests :
    (key : String)
    → (str_eq (◌+str◌ "/get/" key) "/entries" ≡ false)
      × (has_prefix (◌+str◌ "/get/" key) "/get/" ≡ true)
get_path_tests key = elim (Bool-cases (str_eq (◌+str◌ "/get/" key) "/entries")) [
  | inl same ↦
      let path : ◌+str◌ "/get/" key ≡ "/entries" =
        ground (arith, eq_iff (◌+str◌ "/get/" key) "/entries") in
      let no_prefix : has_prefix "/entries" "/get/" ≡ false = unfold has_prefix in refl in
      let prefix : false ≡ true =
        sym no_prefix ∙ ap (λ p. has_prefix p "/get/") (sym path) ∙ has_prefix-append "/get/" key in
      cc
  | inr other ↦ (other, has_prefix-append "/get/" key)
]

-- A request under "/get/" is answered by `HandleGet`, and changes nothing.
pub serve_get :
    (clean : String → String) (request : Incoming) (key : String) (state : TState)
    → clean request.path ≡ request.path
    → request.path ≡ ◌+str◌ "/get/" key
    → serve clean request state
      ≡ some (record {
        response = ok (handle_get (◌+str◌ "/get/" key) state);
        state = state;
        sends = [];
      })
unfolding serve
serve_get clean request key state same path =
    let (other, under) = get_path_tests key in
    rw (is_clean clean request.path same, path, other, under) refl

-- A request for the entries is taken by `HandleChange`.
pub serve_entries :
    (clean : String → String) (request : Incoming) (state : TState)
    → clean request.path ≡ request.path
    → request.path ≡ "/entries"
    → serve clean request state
      ≡ some (changed (handle_change request.method request.patch request.deletion state))
unfolding serve
serve_entries clean request state same path = rw (is_clean clean request.path same, path) refl

-- A broadcast is taken by `HandleBroadcast`.
pub serve_broadcast :
    (clean : String → String) (request : Incoming) (state : TState)
    → clean request.path ≡ request.path
    → request.path ≡ "/broadcast"
    → serve clean request state
      ≡ some (broadcast_done state (handle_broadcast request.broadcast state.db))
unfolding serve
serve_broadcast clean request state same path =
    rw (is_clean clean request.path same, path) (unfold has_prefix in refl)
