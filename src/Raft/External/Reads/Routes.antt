-- ===== src/Raft/External/Reads/Routes.antt =====
-- Which handler of 2/server/external.go a path reaches.
use Prim.Native.String.{◌++◌ as ◌+str◌}
use tors_hw.Base.{
  ◌≡◌, refl, sym, ap, ◌∙◌, String, Bool, Bool-cases, inl, inr, true, false, Option, none, some,
  Result, ok, err, pure, continue, ◌>>=◌, if◌then◌else◌, not, str_eq, has_prefix, has_prefix-append,
  has_prefix-longer, Body, eq_iff, arith,
}
use tors_hw.Raft.Node.{Node}
use tors_hw.Raft.External.{
  Context, KeyVal, UpdateRequest, Handled, handle_create, handle_update_or_cas, handle_delete,
}
use tors_hw.Raft.External.Reads.{
  ExternalState, Read, route, Entered, handled, replied, handle_get, on_node, handle_entry,
}

entry_path_tests :
    (key : String)
    → (str_eq (◌+str◌ "/entry/" key) "/entry" ≡ false)
      × (has_prefix (◌+str◌ "/entry/" key) "/entry/" ≡ true)
entry_path_tests key = elim (Bool-cases (str_eq (◌+str◌ "/entry/" key) "/entry")) [
  | inl same ↦
      let path : ◌+str◌ "/entry/" key ≡ "/entry" =
        ground (arith, eq_iff (◌+str◌ "/entry/" key) "/entry") in
      let prefix : false ≡ true =
        sym (has_prefix-longer "/entry" "/" "")
        ∙ ap (λ p. has_prefix p "/entry/") (sym path)
        ∙ has_prefix-append "/entry/" key in
      cc
  | inr other ↦ (other, has_prefix-append "/entry/" key)
]

-- The handler's result, as the route passes it on.
pub after : (s : ExternalState) → Result Handled × Node → Result (Option Entered) × ExternalState
after s (r, node) = continue (λ done. pure (some (handled done))) (r, record s { node = node })

pub after-ok :
    (s : ExternalState) (done : Handled) (node : Node)
    → after s (ok done, node) ≡ (ok (some (handled done)), record s { node = node })
unfolding after
after-ok s done node = refl

pub route_create :
    (clean : String → String) (c : Context) (method : String) (request : Body KeyVal)
    (body : Body UpdateRequest) (s : ExternalState)
    → clean c.path ≡ c.path
    → c.path ≡ "/entry"
    → route clean c method request body s ≡ after s (handle_create request c s.node)
unfolding route after
route_create clean c method request body s same path =
    ap
      (λ b.
        (if not b
            then pure none
            else if str_eq c.path "/entry"
            then (do done ← on_node (handle_create request c); pure (some (handled done)))
            else if has_prefix c.path "/entry/"
            then (do entered ← handle_entry method body c; pure (some entered))
            else pure none)
          s)
      ((eq_iff (clean c.path) c.path).1 same)
    ∙ ap
        (λ b.
          (if b
              then (do done ← on_node (handle_create request c); pure (some (handled done)))
              else if has_prefix c.path "/entry/"
              then (do entered ← handle_entry method body c; pure (some entered))
              else pure none)
            s)
        (ap (λ p. str_eq p "/entry") path)

pub route_entry :
    (clean : String → String) (c : Context) (method key : String) (request : Body KeyVal)
    (body : Body UpdateRequest) (s : ExternalState)
    → clean c.path ≡ c.path
    → c.path ≡ ◌+str◌ "/entry/" key
    → route clean c method request body s
      ≡ continue (λ entered. pure (some entered)) (handle_entry method body c s)
unfolding route
route_entry clean c method key request body s same path =
    let (other, under) = entry_path_tests key in
    ap
      (λ b.
        (if not b
            then pure none
            else if str_eq c.path "/entry"
            then (do done ← on_node (handle_create request c); pure (some (handled done)))
            else if has_prefix c.path "/entry/"
            then (do entered ← handle_entry method body c; pure (some entered))
            else pure none)
          s)
      ((eq_iff (clean c.path) c.path).1 same)
    ∙ ap
        (λ b.
          (if b
              then (do done ← on_node (handle_create request c); pure (some (handled done)))
              else if has_prefix c.path "/entry/"
              then (do entered ← handle_entry method body c; pure (some entered))
              else pure none)
            s)
        (ap (λ p. str_eq p "/entry") path ∙ other)
    ∙ ap
        (λ (b : Bool).
          (if b then (do entered ← handle_entry method body c; pure (some entered)) else pure none)
            s)
        (ap (λ p. has_prefix p "/entry/") path ∙ under)

continue_twice :
    (s : ExternalState) (r : Result Handled × Node)
    → continue
        (λ entered. pure (some entered))
        (continue (λ done. pure (handled done)) (r.0, record s { node = r.1 }))
      ≡ after s r
unfolding after
continue_twice s (ok done, node) = refl
continue_twice s (err fault, node) = refl

pub entry_put :
    (c : Context) (body : Body UpdateRequest) (s : ExternalState)
    → continue (λ entered. pure (some entered)) (handle_entry "PUT" body c s)
      ≡ after s (handle_update_or_cas body c s.node)
unfolding handle_entry
entry_put c body s = continue_twice s (handle_update_or_cas body c s.node)

pub entry_delete :
    (c : Context) (body : Body UpdateRequest) (s : ExternalState)
    → continue (λ entered. pure (some entered)) (handle_entry "DELETE" body c s)
      ≡ after s (handle_delete c s.node)
unfolding handle_entry
entry_delete c body s = continue_twice s (handle_delete c s.node)

-- A read that is answered at once.
pub entry_get :
    (c : Context) (body : Body UpdateRequest) (s s' : ExternalState) (read : Read)
    → handle_get c s ≡ (ok read, s')
    → continue (λ entered. pure (some entered)) (handle_entry "GET" body c s)
      ≡ (ok (some (replied read)), s')
unfolding handle_entry
entry_get c body s s' read h = rw h refl
