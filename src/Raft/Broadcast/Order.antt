-- ===== src/Raft/Broadcast/Order.antt =====
-- The order in which the heartbeats of a broadcast end does not matter.
use mathlib.Core.Path.{ap₂}
use tors_hw.Base.{
  ℕ, ◌≡◌, ◌≢◌, refl, sym, ap, ◌∙◌, subst, Bool, true, false, ◌&&◌, Option, some, List, ◌∷◌, Exec,
  Result, ok, err, pure, continue, ◌>>◌, if◌then◌else◌, length, All, All-perm, Permᴰ,
}
use tors_hw.Raft.Node.{Node, LeaderState}
use tors_hw.Raft.Heartbeat.{hb_commit}
use tors_hw.Raft.Heartbeat.Keeps.{hb_commit-leader_state}
use tors_hw.Raft.Broadcast.{Answer, hear, leader_hb_broadcast}
use tors_hw.Raft.Broadcast.Targets.{Apart, Complete, Complete-Apart, Complete-InRange}
use tors_hw.Raft.Broadcast.Effects.{
  adjust_comm, Effect, effect, put, acted, all_acted, all_lead, InRange, all_acted-InRange,
  hear-effect,
}

Apart-perm : {xs ys : List Answer} → Permᴰ xs ys → Apart xs → Apart ys
Apart-perm Permᴰ.nil d = tt
Apart-perm (Permᴰ.cons {a = a} e p) d =
    rw (← e) (All-perm (λ (b : Answer). a.follower ≢ b.follower) p d.0, Apart-perm p d.1)
Apart-perm (Permᴰ.swap {a = a} {b = b} {a' = a'} {b' = b'} {l = l} e e') d =
    let moved : b ∷ a ∷ l ≡ a' ∷ b' ∷ l = cc in
    subst Apart moved (((λ same. d.0.0 (sym same)), d.1.0), (d.0.1, d.1.1))
Apart-perm (Permᴰ.trans p q) d = Apart-perm q (Apart-perm p d)

acted_comm :
    (ls : LeaderState) (i j : ℕ) (e f : Effect)
    → i ≢ j
    → acted (acted ls i e) j f ≡ acted (acted ls j f) i e
acted_comm ls i j e f h =
    ap₂ (λ next matched. record { next_index = next; match_index = matched })
      (adjust_comm ls.next_index i j e.next f.next h)
      (adjust_comm ls.match_index i j e.matched f.matched h)

and_comm : (a b c : Bool) → (a && (b && c)) ≡ (b && (a && c))
and_comm true true c = refl
and_comm true false c = refl
and_comm false true c = refl
and_comm false false c = refl

all_acted-perm :
    (term len : ℕ) {xs ys : List Answer} (ls : LeaderState)
    → Permᴰ xs ys
    → Apart xs
    → all_acted term len xs ls ≡ all_acted term len ys ls
unfolding all_acted
all_acted-perm term len ls Permᴰ.nil d = refl
all_acted-perm term len ls (Permᴰ.cons {a = a} e p) d =
    rw (← e) (all_acted-perm term len (acted ls a.follower (effect term len a.outcome)) p d.1)
all_acted-perm term len ls (Permᴰ.swap {a = a} {b = b} {l = l} e e') d =
    rw (← e, ← e')
      (ap (all_acted term len l) (
        acted_comm ls a.follower b.follower (effect term len a.outcome) (effect term len b.outcome)
          d.0.0))
all_acted-perm term len ls (Permᴰ.trans p q) d =
    all_acted-perm term len ls p d ∙ all_acted-perm term len ls q (Apart-perm p d)

all_lead-perm :
    (term len : ℕ) {xs ys : List Answer} (leads : Bool)
    → Permᴰ xs ys
    → all_lead term len xs leads ≡ all_lead term len ys leads
unfolding all_lead
all_lead-perm term len leads Permᴰ.nil = refl
all_lead-perm term len leads (Permᴰ.cons {a = a} e p) =
    rw (← e) (all_lead-perm term len ((effect term len a.outcome).leads && leads) p)
all_lead-perm term len leads (Permᴰ.swap {a = a} {b = b} {l = l} e e') =
    rw (← e, ← e')
      (ap (all_lead term len l)
        (and_comm (effect term len b.outcome).leads (effect term len a.outcome).leads leads))
all_lead-perm term len leads (Permᴰ.trans p q) =
    all_lead-perm term len leads p ∙ all_lead-perm term len leads q

-- What the ends leave of a node with leader state.
abbrev heard : List Answer → LeaderState → Node → Node
heard xs ls s =
    put (all_acted s.env.p.current_term (length s.env.l) xs ls)
      (all_lead s.env.p.current_term (length s.env.l) xs s.is_leader) s

hear-heard :
    (xs : List Answer) (s : Node) (ls : LeaderState)
    → s.env.leader_state ≡ some ls
    → All (InRange ls) xs
    → hear xs s ≡ (ok tt, heard xs ls s)
hear-heard xs s ls has range =
    ap
      (λ (o : Option LeaderState). hear xs (record s { env = record (s.env) { leader_state = o } }))
      has
    ∙ hear-effect xs ls s.is_leader s range

heard-perm :
    (xs ys : List Answer) (s : Node) (ls : LeaderState)
    → Permᴰ xs ys
    → Apart xs
    → heard xs ls s ≡ heard ys ls s
heard-perm xs ys s ls p d =
    ap₂ (λ k b. put k b s) (all_acted-perm s.env.p.current_term (length s.env.l) ls p d)
      (all_lead-perm s.env.p.current_term (length s.env.l) s.is_leader p)

hear-perm :
    (xs ys : List Answer) (s : Node) (ls : LeaderState)
    → Permᴰ xs ys
    → Apart xs
    → s.env.leader_state ≡ some ls
    → All (InRange ls) xs
    → hear xs s ≡ hear ys s
hear-perm xs ys s ls p d has range =
    hear-heard xs s ls has range
    ∙ ap (λ t. (ok tt, t)) (heard-perm xs ys s ls p d)
    ∙ sym (hear-heard ys s ls has (All-perm (InRange ls) p range))

-- The commit, and the ends after it.
abbrev ending : List Answer → Exec Node Bool
ending later = do hb_commit; hear later; pure true

ending-perm :
    (later later' : List Answer) (s : Node) (ls : LeaderState)
    → Permᴰ later later'
    → Apart later
    → s.env.leader_state ≡ some ls
    → All (InRange ls) later
    → ending later s ≡ ending later' s
ending-perm later later' s ls p d has range = from (hb_commit s) (hb_commit-leader_state s ∙ has)
  where
    from :
        (r : Result (Unit {0}) × Node)
        → r.1.env.leader_state ≡ some ls
        → continue (λ _. do hear later; pure true) r ≡ continue (λ _. do hear later'; pure true) r
    from (err fault, t) h = refl
    from (ok _, t) h = ap (continue λ _. pure true) (hear-perm later later' t ls p d h range)

in_branch :
    (m m' n : Exec Node Bool) (b : Bool) (s : Node)
    → m s ≡ m' s
    → (if b then m else n) s ≡ (if b then m' else n) s
in_branch m m' n true s h = h
in_branch m m' n false s h = refl

broadcast_reordered :
    (before before' later later' : List Answer) (s : Node) (ls : LeaderState)
    → Permᴰ before before'
    → Permᴰ later later'
    → Apart before
    → Apart later
    → s.env.leader_state ≡ some ls
    → All (InRange ls) before
    → All (InRange ls) later
    → leader_hb_broadcast before later s ≡ leader_hb_broadcast before' later' s
unfolding leader_hb_broadcast
broadcast_reordered before before' later later' s ls p q d d' has range range' =
    let ls' = all_acted s.env.p.current_term (length s.env.l) before' ls in
    let heard' = hear-heard before' s ls has (All-perm (InRange ls) p range) in
    let still = all_acted-InRange s.env.p.current_term (length s.env.l) before' later ls range' in
    in_branch (do hear before; ending later) (do hear before'; ending later') (pure false)
      s.is_leader s
      (ap (continue λ _. ending later) (hear-perm before before' s ls p d has range ∙ heard')
        ∙ ending-perm later later' (heard before' ls s) ls' q d' refl still
        ∙ sym (ap (continue λ _. ending later') heard'))

-- A broadcast to every other node, at a node whose leader state has a place for each node: in whatever
-- order the heartbeats end before the commit, and in whatever order those after it, the outcome is the
-- same.
pub leader_hb_broadcast-perm :
    (node_id num_nodes : ℕ) (before before' later later' : List Answer) (s : Node)
    (ls : LeaderState)
    → Permᴰ before before'
    → Permᴰ later later'
    → Complete node_id num_nodes before later
    → s.env.leader_state ≡ some ls
    → length ls.next_index ≡ num_nodes
    → length ls.match_index ≡ num_nodes
    → leader_hb_broadcast before later s ≡ leader_hb_broadcast before' later' s
leader_hb_broadcast-perm node_id num_nodes before before' later later' s ls p q c has e e' =
    let (d, d') = Complete-Apart node_id num_nodes before later c in
    let (range, range') = Complete-InRange node_id num_nodes before later ls e e' c in
    broadcast_reordered before before' later later' s ls p q d d' has range range'
