-- ===== src/Raft/Commit/Keeps.antt =====
-- What `CommitChanges` leaves alone, also when it panics.
use tors_hw.Base.{ℕ, ◌≡◌, refl, Option, none, some, List, Bool-cases, inl, inr, ltb}
use tors_hw.Raft.Log.{LogEntry}
use tors_hw.Raft.Node.{Node, SameFlags}
use tors_hw.Raft.Commit.{send_committed, commit_changes}

pub record Keeps (s s' : Node) : Type 0 where
  pub p : s'.env.p ≡ s.env.p
  pub l : s'.env.l ≡ s.env.l
  pub disk : s'.disk ≡ s.disk

send_committed-Keeps :
    (o : Option (List LogEntry)) (applied commit : ℕ) (s : Node)
    → Keeps s (send_committed o applied commit s).1
unfolding send_committed
send_committed-Keeps none applied commit s = record { p = refl; l = refl; disk = refl }
send_committed-Keeps (some es) applied commit s = record { p = refl; l = refl; disk = refl }

pub commit_changes-Keeps : (commit : ℕ) (s : Node) → Keeps s (commit_changes commit s).1
unfolding commit_changes
commit_changes-Keeps commit s = elim (Bool-cases (ltb s.env.commit_index commit)) [
  | inl below ↦ rw below (send_committed-Keeps _ _ _ s)
  | inr above ↦ rw above (send_committed-Keeps _ _ _ s)
]

send_committed-leader_state :
    (o : Option (List LogEntry)) (applied commit : ℕ) (s : Node)
    → (send_committed o applied commit s).1.env.leader_state ≡ s.env.leader_state
unfolding send_committed
send_committed-leader_state none applied commit s = refl
send_committed-leader_state (some es) applied commit s = refl

pub commit_changes-leader_state :
    (commit : ℕ) (s : Node) → (commit_changes commit s).1.env.leader_state ≡ s.env.leader_state
unfolding commit_changes
commit_changes-leader_state commit s = elim (Bool-cases (ltb s.env.commit_index commit)) [
  | inl below ↦ rw below (send_committed-leader_state _ _ _ s)
  | inr above ↦ rw above (send_committed-leader_state _ _ _ s)
]

send_committed-SameFlags :
    (o : Option (List LogEntry)) (applied commit : ℕ) (s : Node)
    → SameFlags s (send_committed o applied commit s).1
unfolding send_committed
send_committed-SameFlags none applied commit s = record { is_leader = refl; got_hb = refl }
send_committed-SameFlags (some es) applied commit s = record { is_leader = refl; got_hb = refl }

pub commit_changes-SameFlags : (commit : ℕ) (s : Node) → SameFlags s (commit_changes commit s).1
unfolding commit_changes
commit_changes-SameFlags commit s = elim (Bool-cases (ltb s.env.commit_index commit)) [
  | inl below ↦ rw below (send_committed-SameFlags _ _ _ s)
  | inr above ↦ rw above (send_committed-SameFlags _ _ _ s)
]
