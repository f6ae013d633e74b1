-- ===== src/Raft/Broadcast/Effects.antt =====
-- What the ends of heartbeats do to the leader's record of their followers.
use mathlib.Core.Path.{ap₂}
use tors_hw.Base.{
  ℕ, zero, suc, ◌<◌, ◌≡◌, ◌≢◌, refl, sym, ap, ◌∙◌, Bool, Bool-cases, inl, inr, true, false, ◌&&◌,
  Option, none, some, List, [], ◌∷◌, ok, continue, length, get_elem?, get_elem?-some, set, ltb,
  sub_u64, All, arith,
}
use tors_hw.Raft.Node.{Node, LeaderState}
use tors_hw.Raft.Wal.{last_u64}
use tors_hw.Raft.Append.{AppendResponse}
use tors_hw.Raft.Heartbeat.{hb_outcome, hb_response, caught_up, back_off, leader_state, or_panic}
use tors_hw.Raft.Broadcast.{Answer, hear}

-- The element at the index, changed.
abbrev pub adjust : List ℕ → ℕ → (ℕ → ℕ) → List ℕ
adjust [] i f = []
adjust (x ∷ xs) zero f = f x ∷ xs
adjust (x ∷ xs) (suc i) f = x ∷ adjust xs i f

pub adjust_comm :
    (xs : List ℕ) (i j : ℕ) (f g : ℕ → ℕ)
    → i ≢ j
    → adjust (adjust xs i f) j g ≡ adjust (adjust xs j g) i f
adjust_comm [] i j f g h = refl
adjust_comm (x ∷ xs) zero zero f g h = absurd (h refl)
adjust_comm (x ∷ xs) zero (suc j) f g h = refl
adjust_comm (x ∷ xs) (suc i) zero f g h = refl
adjust_comm (x ∷ xs) (suc i) (suc j) f g h =
    ap (λ l. x ∷ l) (adjust_comm xs i j f g λ e. h (ap suc e))

adjust-id : (xs : List ℕ) (i : ℕ) → adjust xs i (λ x. x) ≡ xs
adjust-id [] i = refl
adjust-id (x ∷ xs) zero = refl
adjust-id (x ∷ xs) (suc i) = ap (λ l. x ∷ l) (adjust-id xs i)

length-adjust : (xs : List ℕ) (i : ℕ) (f : ℕ → ℕ) → length (adjust xs i f) ≡ length xs
length-adjust [] i f = refl
length-adjust (x ∷ xs) zero f = refl
length-adjust (x ∷ xs) (suc i) f = ap suc (length-adjust xs i f)

some_inj : {x y : ℕ} → some y ≡ some x → x ≡ y
some_inj h = ground arith

set-adjust :
    (xs : List ℕ) (i v : ℕ) (f : ℕ → ℕ)
    → (x : ℕ) → get_elem? xs i ≡ some x
    → v ≡ f x
    → set xs i v ≡ adjust xs i f
set-adjust [] i v f x h e = refl
set-adjust (y ∷ xs) zero v f x h e = ap (λ k. k ∷ xs) (e ∙ ap f (some_inj h))
set-adjust (y ∷ xs) (suc i) v f x h e = ap (λ l. y ∷ l) (set-adjust xs i v f x h e)

-- What the end of a heartbeat does to the entries of its follower, and whether the node still leads.
pub record Effect : Type 0 where
  pub next : ℕ → ℕ
  pub matched : ℕ → ℕ
  pub leads : Bool

response_effect : Bool → Bool → ℕ → Effect
response_effect true success len = record { next = λ x. x; matched = λ x. x; leads = false }
response_effect false true len = record {
  next = λ x. len;
  matched = λ x. last_u64 len;
  leads = true;
}
response_effect false false len = record { next = λ x. sub_u64 x 1; matched = λ x. x; leads = true }

pub effect : ℕ → ℕ → Option AppendResponse → Effect
effect term len none = record { next = λ x. x; matched = λ x. x; leads = true }
effect term len (some response) = response_effect (ltb term response.term) response.success len

-- The node that leads with `ls`, after the effect on the follower `i`.
abbrev pub put : LeaderState → Bool → Node → Node
put ls leads s = record s { is_leader = leads; env = record (s.env) { leader_state = some ls } }

abbrev pub acted : LeaderState → ℕ → Effect → LeaderState
acted ls i e = record {
  next_index = adjust ls.next_index i e.next;
  match_index = adjust ls.match_index i e.matched;
}

-- No change of the leader state.
acted-id :
    (ls : LeaderState) (i : ℕ) (leads : Bool)
    → acted ls i (record { next = λ x. x; matched = λ x. x; leads = leads }) ≡ ls
acted-id ls i leads =
    ap₂ (λ next matched. record { next_index = next; match_index = matched })
      (adjust-id ls.next_index i) (adjust-id ls.match_index i)

caught_up-effect :
    (i : ℕ) (ls : LeaderState) (leads : Bool) (s : Node)
    → i < length ls.next_index
    → i < length ls.match_index
    → caught_up i (put ls leads s)
      ≡ (ok tt, put (acted ls i (response_effect false true (length s.env.l))) leads s)
unfolding caught_up leader_state or_panic response_effect
caught_up-effect i ls leads s hn hm =
    let (a, next) = get_elem?-some ls.next_index i hn in
    let (b, matched) = get_elem?-some ls.match_index i hm in
    rw (next, matched)
      (ap₂ (λ n m. (ok tt, put (record { next_index = n; match_index = m }) leads s))
        (set-adjust ls.next_index i _ (λ x. length s.env.l) a next refl)
        (set-adjust ls.match_index i _ (λ x. last_u64 (length s.env.l)) b matched refl))

back_off-effect :
    (i : ℕ) (ls : LeaderState) (leads : Bool) (s : Node)
    → i < length ls.next_index
    → back_off i (put ls leads s)
      ≡ (ok tt, put (acted ls i (response_effect false false (length s.env.l))) leads s)
unfolding back_off leader_state or_panic response_effect
back_off-effect i ls leads s hn =
    let (a, next) = get_elem?-some ls.next_index i hn in
    rw next (
      ap₂ (λ n m. (ok tt, put (record { next_index = n; match_index = m }) leads s))
        (set-adjust ls.next_index i _ (λ x. sub_u64 x 1) a next refl)
        (sym (adjust-id ls.match_index i)))

hb_response-effect :
    (i : ℕ) (response : AppendResponse) (ls : LeaderState) (leads newer : Bool) (s : Node)
    → ltb s.env.p.current_term response.term ≡ newer
    → i < length ls.next_index
    → i < length ls.match_index
    → hb_response i response (put ls leads s) ≡ (
      ok tt,
      put
          (acted ls i (response_effect newer response.success (length s.env.l)))
          ((response_effect newer response.success (length s.env.l)).leads && leads)
          s,
    )
unfolding hb_response response_effect
hb_response-effect i response ls leads true s h hn hm =
    rw h (ap (λ k. (ok tt, put k false s)) (sym (acted-id ls i false)))
hb_response-effect i response ls leads false s h hn hm = elim (Bool-cases response.success) [
  | inl success ↦ rw (h, success) (caught_up-effect i ls leads s hn hm)
  | inr failure ↦ rw (h, failure) (back_off-effect i ls leads s hn)
]

hb_outcome-effect :
    (i : ℕ) (o : Option AppendResponse) (ls : LeaderState) (leads : Bool) (s : Node)
    → i < length ls.next_index
    → i < length ls.match_index
    → hb_outcome i o (put ls leads s) ≡ (
      ok tt,
      put
          (acted ls i (effect s.env.p.current_term (length s.env.l) o))
          ((effect s.env.p.current_term (length s.env.l) o).leads && leads)
          s,
    )
unfolding hb_outcome effect
hb_outcome-effect i none ls leads s hn hm =
    ap (λ k. (ok tt, put k leads s)) (sym (acted-id ls i true))
hb_outcome-effect i (some response) ls leads s hn hm =
    hb_response-effect i response ls leads _ s refl hn hm

-- The leader state after the ends, and whether the node still leads.
unfoldable pub all_acted : ℕ → ℕ → List Answer → LeaderState → LeaderState
all_acted term len [] ls = ls
all_acted term len (a ∷ later) ls =
    all_acted term len later (acted ls a.follower (effect term len a.outcome))

unfoldable pub all_lead : ℕ → ℕ → List Answer → Bool → Bool
all_lead term len [] leads = leads
all_lead term len (a ∷ later) leads =
    all_lead term len later ((effect term len a.outcome).leads && leads)

-- The indexes lie in the leader state's lists.
abbrev pub InRange : LeaderState → Answer → Type 0
InRange ls a = (a.follower < length ls.next_index) × (a.follower < length ls.match_index)

InRange-acted :
    (ls : LeaderState) (i : ℕ) (e : Effect) (answers : List Answer)
    → All (InRange ls) answers
    → All (InRange (acted ls i e)) answers
InRange-acted ls i e [] h = tt
InRange-acted ls i e (a ∷ later) (here, h) = (
  (
    rw (length-adjust ls.next_index i e.next) here.0,
    rw (length-adjust ls.match_index i e.matched) here.1,
  ),
  InRange-acted ls i e later h,
)

pub hear-effect :
    (answers : List Answer) (ls : LeaderState) (leads : Bool) (s : Node)
    → All (InRange ls) answers
    → hear answers (put ls leads s) ≡ (
      ok tt,
      put
          (all_acted s.env.p.current_term (length s.env.l) answers ls)
          (all_lead s.env.p.current_term (length s.env.l) answers leads)
          s,
    )
unfolding hear all_acted all_lead
hear-effect [] ls leads s h = refl
hear-effect (a ∷ later) ls leads s (here, h) =
    ap (continue λ _. hear later) (hb_outcome-effect a.follower a.outcome ls leads s here.0 here.1)
    ∙ hear-effect later
        (acted ls a.follower (effect s.env.p.current_term (length s.env.l) a.outcome)) _ s
        (InRange-acted ls a.follower (effect s.env.p.current_term (length s.env.l) a.outcome) later
          h)

pub all_acted-InRange :
    (term len : ℕ) (answers bs : List Answer) (ls : LeaderState)
    → All (InRange ls) bs
    → All (InRange (all_acted term len answers ls)) bs
unfolding all_acted
all_acted-InRange term len [] bs ls h = h
all_acted-InRange term len (a ∷ later) bs ls h =
    all_acted-InRange term len later bs (acted ls a.follower (effect term len a.outcome))
      (InRange-acted ls a.follower (effect term len a.outcome) bs h)
