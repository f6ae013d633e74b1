-- ===== src/Raft/Heartbeat/Keeps.antt =====
-- What a heartbeat's end and the commit of a broadcast leave alone, also when they panic.
use tors_hw.Base.{
  ℕ, ◌≡◌, refl, Option, none, some, Exec, Result, ok, err, ◌>>=◌, Bool-cases, inl, inr, ltb,
  get_elem?,
}
use tors_hw.Raft.Node.{Node}
use tors_hw.Raft.Commit.Keeps.{Keeps, commit_changes-Keeps, commit_changes-leader_state}
use tors_hw.Raft.CommitIndex.{calc_commit_index}
use tors_hw.Raft.Append.{AppendResponse}
use tors_hw.Raft.Heartbeat.{
  hb_outcome, hb_response, hb_commit, caught_up, back_off, leader_state, or_panic, advance,
  advance_to,
}

pub Keeps-refl : (s : Node) → Keeps s s
Keeps-refl s = record { p = refl; l = refl; disk = refl }

-- What follows a read leaves what it leaves for each value read, or the state as it is.
read_leaves :
    {A : Type 0} (P : Node → Type 0) (o : Option A) (f : A → Exec Node (Unit {0})) (s : Node)
    → P s
    → ((a : A) → P (f a s).1)
    → P ((or_panic o >>= f) s).1
unfolding or_panic
read_leaves P none f s here h = here
read_leaves P (some a) f s here h = h a

read-Keeps :
    {A : Type 0} (o : Option A) (f : A → Exec Node (Unit {0})) (s : Node)
    → ((a : A) → Keeps s (f a s).1)
    → Keeps s ((or_panic o >>= f) s).1
read-Keeps o f s h = read_leaves (Keeps s) o f s (Keeps-refl s) h

caught_up-Keeps : (i : ℕ) (s : Node) → Keeps s (caught_up i s).1
unfolding caught_up leader_state
caught_up-Keeps i s = read-Keeps s.env.leader_state _ s λ leader.
    read-Keeps (get_elem? leader.next_index i) _ s λ _.
      read-Keeps (get_elem? leader.match_index i) _ s
        λ _. record { p = refl; l = refl; disk = refl }

back_off-Keeps : (i : ℕ) (s : Node) → Keeps s (back_off i s).1
unfolding back_off leader_state
back_off-Keeps i s = read-Keeps s.env.leader_state _ s λ leader.
    read-Keeps (get_elem? leader.next_index i) _ s λ _. record { p = refl; l = refl; disk = refl }

hb_response-Keeps :
    (i : ℕ) (response : AppendResponse) (s : Node) → Keeps s (hb_response i response s).1
unfolding hb_response
hb_response-Keeps i response s = elim (Bool-cases (ltb s.env.p.current_term response.term)) [
  | inl newer ↦ rw newer (record { p = refl; l = refl; disk = refl })
  | inr older ↦ elim (Bool-cases response.success) [
    | inl success ↦ rw (older, success) (caught_up-Keeps i s)
    | inr failure ↦ rw (older, failure) (back_off-Keeps i s)
  ]
]

pub hb_outcome-Keeps :
    (i : ℕ) (outcome : Option AppendResponse) (s : Node) → Keeps s (hb_outcome i outcome s).1
unfolding hb_outcome
hb_outcome-Keeps i none s = Keeps-refl s
hb_outcome-Keeps i (some response) s = hb_response-Keeps i response s

advance-Keeps : (r : Result ℕ) (s : Node) → Keeps s (advance r s).1
unfolding advance advance_to
advance-Keeps (err fault) s = Keeps-refl s
advance-Keeps (ok index) s = elim (Bool-cases (ltb s.env.commit_index index)) [
  | inl larger ↦
      let kept =
        commit_changes-Keeps index (record s { env = record (s.env) { commit_index = index } }) in
      rw larger (record { p = kept.p; l = kept.l; disk = kept.disk })
  | inr smaller ↦ rw smaller (Keeps-refl s)
]

pub hb_commit-Keeps : (s : Node) → Keeps s (hb_commit s).1
unfolding hb_commit leader_state
hb_commit-Keeps s =
    read-Keeps s.env.leader_state _ s
      λ leader. advance-Keeps (calc_commit_index leader.match_index) s

advance-leader_state :
    (r : Result ℕ) (s : Node) → (advance r s).1.env.leader_state ≡ s.env.leader_state
unfolding advance advance_to
advance-leader_state (err fault) s = refl
advance-leader_state (ok index) s = elim (Bool-cases (ltb s.env.commit_index index)) [
  | inl larger ↦ rw larger (
      commit_changes-leader_state index
        (record s { env = record (s.env) { commit_index = index } }))
  | inr smaller ↦ rw smaller refl
]

pub hb_commit-leader_state : (s : Node) → (hb_commit s).1.env.leader_state ≡ s.env.leader_state
unfolding hb_commit leader_state
hb_commit-leader_state s =
    read_leaves (λ t. t.env.leader_state ≡ s.env.leader_state) s.env.leader_state _ s refl
      λ leader. advance-leader_state (calc_commit_index leader.match_index) s
