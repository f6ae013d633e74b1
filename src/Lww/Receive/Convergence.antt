-- ===== src/Lww/Receive/Convergence.antt =====
-- Replicas that handle the same broadcasts in different orders end with the same storage.
use Prim.Native.Char.{IsScalar}
use mathlib.Core.HLevel.{prop→set}
use text.Mathlib.TextEquality.{IsScalar-prop}
use tors_hw.Base.{ℕ, ◌≡◌, sym, ap, ◌∙◌, List, [], ◌∷◌, ok, Result, All, Perm, ∥∥₁_elim, empty_map}
use tors_hw.Lww.Db.{TDb, new_db}
use tors_hw.Lww.Server.{BroadcastRequest}
use tors_hw.Lww.Receive.{receive, join_all, Distinct, FreshIn}
use tors_hw.Lww.Receive.Joins.{receive-join_all, join_all-perm, Distinct-perm}

FreshIn-empty : (rs : List BroadcastRequest) → All (FreshIn empty_map) rs
FreshIn-empty [] = tt
FreshIn-empty (r ∷ rs) = (tt, FreshIn-empty rs)

-- From the empty storage: the join of all, and no fault.
pub receive-new_db :
    (rs : List BroadcastRequest)
    → Distinct rs
    → receive rs new_db ≡ (ok tt, record { storage = join_all rs empty_map })
unfolding new_db
receive-new_db rs d = receive-join_all rs new_db d (FreshIn-empty rs)

IsScalar-set : (n : ℕ) → IsSet (IsScalar n)
IsScalar-set n = prop→set (IsScalar-prop n)

pub TDb-set : IsSet (Result (Unit {0}) × TDb)
TDb-set = hlevel IsScalar-set

-- Broadcasts that carry different timestamps for each key are all handled without a fault, and
-- any order of them leaves a new replica with the same storage.
pub receive_converges :
    (rs rs' : List BroadcastRequest)
    → Perm rs rs'
    → Distinct rs
    → (receive rs new_db ≡ receive rs' new_db) × ((receive rs new_db).0 ≡ ok tt)
receive_converges rs rs' p d = (
  ∥∥₁_elim p (TDb-set _ _) (λ q.
      receive-new_db rs d
      ∙ ap (λ m. (ok tt, record { storage = m })) (join_all-perm empty_map q d)
      ∙ sym (receive-new_db rs' (Distinct-perm q d))),
  ap (λ t. t.0) (receive-new_db rs d),
)
