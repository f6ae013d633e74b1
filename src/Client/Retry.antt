-- ===== src/Client/Retry.antt =====
-- The loop of a request: it ends with the first reply.
use tors_hw.Base.{
  ℕ, zero, suc, ◌<◌, ◌≡◌, refl, ap, ◌∙◌, ℤ, pos, negsuc, String, Bool, true, false, Option, none,
  some, List, [], ◌∷◌, ◌++◌, Result, ok, ◌==◌, get_elem?, get_elem?-some, length, All, append_assoc,
  arith,
}
use tors_hw.Client.{
  Form, Request, Attempt, not_sent, cut_off, replied, World, next_draw, get_node_id, request_to,
  send, begin, submit, or_panic,
}

-- The text of the first call that is answered.
abbrev pub first_reply : List Attempt → Option String
first_reply [] = none
first_reply (not_sent ∷ later) = first_reply later
first_reply (cut_off ∷ later) = first_reply later
first_reply (replied text ∷ later) = some text

-- The calls up to it; one more than the outcomes where none is an answer.
abbrev pub calls : List Attempt → ℕ
calls [] = 1
calls (not_sent ∷ later) = suc (calls later)
calls (cut_off ∷ later) = suc (calls later)
calls (replied text ∷ later) = 1

-- A node that is in the list, or none named.
abbrev pub InList : List String → ℤ → Type 0
InList nodes (pos n) = n < length nodes
InList nodes (negsuc n) = 0 < length nodes

-- The request is the form's, to a node of the list.
abbrev pub Asks : Form → List String → Request → Type 0
Asks form nodes request =
    (i : ℕ) × (address : String) × (get_elem? nodes i ≡ some address)
    × (request ≡ request_to form address)

-- What a loop leaves that started at `w`: its result, the requests that it has sent, and draws that
-- still name nodes.
pub record Ran (form : Form) (nodes : List String) (reply : Option String) (n : ℕ) (w : World)
    (run : Result (Option String) × World) : Type 0 where
  pub requests : List Request
  pub result : run.0 ≡ ok reply
  pub sent : run.1.sent ≡ w.sent ++ requests
  pub each : All (Asks form nodes) requests
  pub count : length requests ≡ n
  pub drawn : All (λ d. d < length nodes) run.1.draws

at_index :
    (P : String → Type 0) (xs : List String) (i : ℕ) (a : String)
    → All P xs
    → get_elem? xs i ≡ some a
    → P a
at_index P [] i a h e = cc
at_index P (x ∷ xs) zero a (first, rest) e = ground arith
at_index P (x ∷ xs) (suc i) a (first, rest) e = at_index P xs i a rest e

next_draw-lt :
    (bound : ℕ) (draws : List ℕ)
    → 0 < bound
    → All (λ d. d < bound) draws
    → ((next_draw draws).0 < bound) × All (λ d. d < bound) (next_draw draws).1
next_draw-lt bound [] h below = (h, tt)
next_draw-lt bound (d ∷ ds) h below = below

not_empty : (n : ℕ) → 0 < n → (n == 0) ≡ false
not_empty n h = ground arith

begins :
    (parses : String → Bool) (nodes : List String) (form : Form) (node_id : ℤ) (w : World)
    → All (λ address. parses (form.url address) ≡ true) nodes
    → All (λ d. d < length nodes) w.draws
    → InList nodes node_id
    → (request : Request) × (w' : World) × (begin parses nodes form node_id w ≡ (ok tt, w'))
      × (w'.sent ≡ w.sent ++ request ∷ [])
      × Asks form nodes request
      × All (λ d. d < length nodes) w'.draws
unfolding begin send get_node_id or_panic
begins parses nodes form (pos n) w accepts drawn here =
    let (address, there) = get_elem?-some nodes n here in
    let accepted = at_index (λ a. parses (form.url a) ≡ true) nodes n address accepts there in
    (
      request_to form address,
      record w { sent = w.sent ++ request_to form address ∷ [] },
      rw (there, accepted) refl,
      refl,
      (n, address, there, refl),
      drawn,
    )
begins parses nodes form (negsuc n) w accepts drawn here =
    let (below, later) = next_draw-lt (length nodes) w.draws here drawn in
    let (address, there) = get_elem?-some nodes (next_draw w.draws).0 below in
    let accepted =
      at_index (λ a. parses (form.url a) ≡ true) nodes (next_draw w.draws).0 address accepts
        there in
    (
      request_to form address,
      record { draws = (next_draw w.draws).1; sent = w.sent ++ request_to form address ∷ [] },
      rw (not_empty (length nodes) here, there, accepted) refl,
      refl,
      ((next_draw w.draws).0, address, there, refl),
      later,
    )

-- One more call before the others.
Ran-cons :
    {form : Form} {nodes : List String} {reply : Option String} {n : ℕ} {w w' : World}
    {request : Request} {run : Result (Option String) × World}
    → w'.sent ≡ w.sent ++ request ∷ []
    → Asks form nodes request
    → Ran form nodes reply n w' run
    → Ran form nodes reply (suc n) w run
Ran-cons {request = request} h asks ran = record {
  requests = request ∷ ran.requests;
  result = ran.result;
  sent = ran.sent ∙ ap (λ l. l ++ ran.requests) h ∙ append_assoc _ (request ∷ []) ran.requests;
  each = (asks, ran.each);
  count = ap suc ran.count;
  drawn = ran.drawn;
}

-- The last call.
Ran-one :
    {form : Form} {nodes : List String} (reply : Option String) {w w' : World} {request : Request}
    → w'.sent ≡ w.sent ++ request ∷ []
    → Asks form nodes request
    → All (λ d. d < length nodes) w'.draws
    → Ran form nodes reply 1 w (ok reply, w')
Ran-one reply {request = request} h asks drawn = record {
  requests = request ∷ [];
  result = refl;
  sent = h;
  each = (asks, tt);
  count = refl;
  drawn = drawn;
}

some_node : (nodes : List String) (node_id : ℤ) → InList nodes node_id → 0 < length nodes
some_node nodes (pos n) h = omega arith
some_node nodes (negsuc n) h = h

-- The loop of a request, from a node that is named or from none.
pub submit-Ran :
    (parses : String → Bool) (nodes : List String) (form : Form) (attempts : List Attempt)
    (node_id : ℤ) (w : World)
    → All (λ address. parses (form.url address) ≡ true) nodes
    → All (λ d. d < length nodes) w.draws
    → InList nodes node_id
    → Ran form nodes
        (first_reply attempts)
        (calls attempts)
        w
        (submit parses nodes form attempts node_id w)
unfolding submit
submit-Ran parses nodes form [] node_id w accepts drawn here =
    let (request, w', done, sent, asks, drawn') =
      begins parses nodes form node_id w accepts drawn here in
    rw done (Ran-one none sent asks drawn')
submit-Ran parses nodes form (replied text ∷ later) node_id w accepts drawn here =
    let (request, w', done, sent, asks, drawn') =
      begins parses nodes form node_id w accepts drawn here in
    rw done (Ran-one (some text) sent asks drawn')
submit-Ran parses nodes form (not_sent ∷ later) node_id w accepts drawn here =
    let (request, w', done, sent, asks, drawn') =
      begins parses nodes form node_id w accepts drawn here in
    rw done (
      Ran-cons sent asks (
        submit-Ran parses nodes form later (negsuc 0) w' accepts drawn'
          (some_node nodes node_id here)))
submit-Ran parses nodes form (cut_off ∷ later) node_id w accepts drawn here =
    let (request, w', done, sent, asks, drawn') =
      begins parses nodes form node_id w accepts drawn here in
    rw done (
      Ran-cons sent asks (
        submit-Ran parses nodes form later (negsuc 0) w' accepts drawn'
          (some_node nodes node_id here)))
