-- ===== src/Raft/Wal/Flags.antt =====
-- The operations of the log leave the flags of the node alone, however they end.
use tors_hw.Base.{
  ℕ, refl, sym, ◌∙◌, subst, Bool, inl, inr, List, [], ◌∷◌, Result, continue-keeps, ◌>>=◌,
  Bool-cases,
}
use tors_hw.Raft.Log.{LogEntry}
use tors_hw.Raft.Node.{Node, SameFlags, next_outcome}
use tors_hw.Raft.Wal.{
  Checked, put_entries, append, append_entries, rename, dump_tail, dump_log, after_dump,
  finish_check, check_body, check_and_correct,
}
use tors_hw.Raft.Wal.Effects.{after_dump-state}

unchanged : (s : Node) → SameFlags s s
unchanged s = record { is_leader = refl; got_hb = refl }

SameFlags-trans : {a b c : Node} → SameFlags a b → SameFlags b c → SameFlags a c
SameFlags-trans f g = record { is_leader = g.is_leader ∙ f.is_leader; got_hb = g.got_hb ∙ f.got_hb }

dump_tail-SameFlags : (l : List LogEntry) (s : Node) → SameFlags s (dump_tail l s).1
unfolding dump_tail rename
dump_tail-SameFlags [] s = unchanged s
dump_tail-SameFlags (e ∷ rest) s = record { is_leader = refl; got_hb = refl }

dump_log-SameFlags : (s : Node) → SameFlags s (dump_log s).1
unfolding dump_log
dump_log-SameFlags s = elim (Bool-cases (next_outcome s.disk.outcomes).0) [
  | inl fine ↦
      let later = record s {
        disk = record (s.disk) { outcomes = (next_outcome s.disk.outcomes).1 };
      } in
      let same = dump_tail-SameFlags s.env.l later in
      rw fine (record { is_leader = same.is_leader; got_hb = same.got_hb })
  | inr failed ↦ rw failed (record { is_leader = refl; got_hb = refl })
]

dump-SameFlags : (r : Result Bool) (s : Node) → SameFlags s ((dump_log >>= after_dump r) s).1
dump-SameFlags r s =
    continue-keeps (SameFlags s) (after_dump r) (dump_log s) (dump_log-SameFlags s)
      (λ fine a h. subst (SameFlags s) (sym (after_dump-state r fine a)) h)

finish_check-SameFlags : (c : Checked) (s : Node) → SameFlags s (finish_check c s).1
unfolding finish_check
finish_check-SameFlags c s = elim (Bool-cases c.changed) [
  | inl changed ↦ rw changed (
      let dumped = dump-SameFlags c.result (put_entries c.entries s) in
      record { is_leader = dumped.is_leader; got_hb = dumped.got_hb })
  | inr same ↦ rw same (record { is_leader = refl; got_hb = refl })
]

pub check_and_correct-SameFlags : (i t : ℕ) (s : Node) → SameFlags s (check_and_correct i t s).1
unfolding check_and_correct
check_and_correct-SameFlags i t s = finish_check-SameFlags (check_body i t s.env.l) s

append-SameFlags : (e : LogEntry) (s : Node) → SameFlags s (append e s).1
unfolding append
append-SameFlags e s = elim (Bool-cases (next_outcome s.disk.outcomes).0) [
  | inl fine ↦ rw fine (record { is_leader = refl; got_hb = refl })
  | inr failed ↦ rw failed (record { is_leader = refl; got_hb = refl })
]

pub append_entries-SameFlags : (es : List LogEntry) (s : Node) → SameFlags s (append_entries es s).1
unfolding append_entries
append_entries-SameFlags [] s = unchanged s
append_entries-SameFlags (e ∷ es) s =
    continue-keeps (SameFlags s) (λ _. append_entries es) (append e s) (append-SameFlags e s)
      (λ _ a h. SameFlags-trans h (append_entries-SameFlags es a))
