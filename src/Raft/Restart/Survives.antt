-- ===== src/Raft/Restart/Survives.antt =====
-- What a restart of a node keeps.
use tors_hw.Base.{ℕ, ◌≡◌, sym, ap, ◌∙◌, true, Option, some, List, ◌∷◌, map, drop, ok, All, arith}
use tors_hw.Raft.Log.{LogEntry, sentinel}
use tors_hw.Raft.Node.{Node, Disk, Persisted, next_outcome}
use tors_hw.Raft.Wal.{on_disk, back_of}
use tors_hw.Raft.Wal.Effects.{Durable, map-on_disk_again}
use tors_hw.Raft.Wal.Codec.{Loaded, loaded, failed, panicked, out_of_fuel, holds, new_log, file_of}
use tors_hw.Raft.Wal.Codec.RoundTrip.{Encodes, new_log_reads}
use tors_hw.Raft.Vote.{VoteRequest, VoteResponse, request_vote, refusal, decide_vote}
use tors_hw.Raft.Vote.Grant.{request_vote-Granted}
use tors_hw.Raft.Restart.{new_p_state, state_file, state_disk, booted, boot_log, boot_with, boot}

-- A node that has voted in its term refuses the candidates of it.
refuses :
    (request : VoteRequest) (t : Node) (c term : ℕ)
    → t.env.p.current_term ≡ term
    → t.env.p.voted_for ≡ some c
    → request.term ≡ term
    → request_vote request t ≡ (ok (refusal term), t)
unfolding request_vote decide_vote
refuses request t c term now voted same = ground arith

module _ (marshal : LogEntry → List ℕ) (unmarshal : List ℕ → Option LogEntry) where
  boot_log-p :
      (disk : Disk) (p : Persisted) (r : Loaded) (t : Node)
      → boot_log marshal unmarshal disk p r ≡ some t
      → t.env.p ≡ p
  unfolding boot_log
  boot_log-p disk p (loaded entries cut) t h = ground arith
  boot_log-p disk p (failed e) t h = cc
  boot_log-p disk p panicked t h = cc
  boot_log-p disk p out_of_fuel t h = cc

  boot_from :
      (disk : Disk) (p : Persisted)
      → disk.pstate ≡ some p
      → boot marshal unmarshal disk
        ≡ boot_log marshal unmarshal disk p (new_log unmarshal (holds (file_of marshal disk.log)))
  unfolding boot boot_with new_p_state
  boot_from disk p h =
      ap
        (λ o.
          boot_with marshal unmarshal (state_disk o disk)
            (new_p_state (next_outcome disk.outcomes).0 (state_file o)))
        h

  -- A node whose state and whose log are in its files starts again in the same term, with the same
  -- vote and the same log; what was only in memory is gone. The log begins with its first entry, and
  -- each of the others has some bytes in JSON, fewer than 2^32, that decode to it.
  pub boot-Durable :
      (s : Node) (tail : List LogEntry)
      → s.env.l ≡ sentinel ∷ tail
      → Durable s
      → s.disk.pstate ≡ some s.env.p
      → All (Encodes marshal unmarshal) (map on_disk tail)
      → boot marshal unmarshal s.disk ≡ some (booted s.disk s.env.p (map on_disk s.env.l))
  unfolding boot_log
  boot-Durable s tail l d stored encodes =
      let file : s.disk.log ≡ map on_disk tail = d ∙ ap (λ k. map on_disk (drop 1 k)) l in
      let entries : sentinel ∷ map on_disk (map on_disk tail) ≡ map on_disk s.env.l =
        ap (λ k. sentinel ∷ k) (map-on_disk_again tail) ∙ ap (map on_disk) (sym l) in
      boot_from s.disk s.env.p stored
      ∙ ap
          (λ k.
            boot_log marshal unmarshal s.disk s.env.p
              (new_log unmarshal (holds (file_of marshal k))))
          file
      ∙ ap (boot_log marshal unmarshal s.disk s.env.p)
          (new_log_reads marshal unmarshal (map on_disk tail) encodes)
      ∙ ap (λ k. some (booted s.disk s.env.p k)) entries

  -- A vote that was granted is not given again: a node that starts from the files as they then are
  -- refuses every candidate of that term. The log has a last entry when the vote is given.
  pub vote_survives_boot :
      (request again : VoteRequest) (s s' t : Node) (response : VoteResponse) (last : LogEntry)
      → request_vote request s ≡ (ok response, s')
      → response.vote_granted ≡ true
      → back_of s.env.l ≡ some last
      → boot marshal unmarshal s'.disk ≡ some t
      → again.term ≡ request.term
      → request_vote again t ≡ (ok (refusal request.term), t)
  vote_survives_boot request again s s' t response last h g b boots same =
      let granted = request_vote-Granted request s s' response last h g b in
      let p =
        boot_log-p s'.disk s'.env.p _ t
          (sym (boot_from s'.disk s'.env.p granted.durable) ∙ boots) in
      refuses again t request.candidate_id request.term
        (ap (λ (q : Persisted). q.current_term) p ∙ granted.in_term)
        (ap (λ (q : Persisted). q.voted_for) p ∙ granted.voted) same
