-- ===== src/Lww/Clock/Order.antt =====
-- `compare` is a strict total order on timestamps.
use tors_hw.Base.{◌≡◌, ◌↔◌, ◌⊎◌, pos, negsuc, arith}
use tors_hw.Lww.Clock.{TTimestamp, compare}

infix 50 ◌≺◌
abbrev pub ◌≺◌ : TTimestamp → TTimestamp → Type 0
a ≺ b = compare a b ≡ negsuc 0

-- Equal under `compare` is equal.
pub compare-eq : (a b : TTimestamp) → (compare a b ≡ pos 0) ↔ (a ≡ b)
unfolding compare
compare-eq a b = (λ h. ground arith, λ h. ground arith)

pub compare-swap : (a b : TTimestamp) → (compare a b ≡ negsuc 0) ↔ (compare b a ≡ pos 1)
unfolding compare
compare-swap a b = (λ h. ground arith, λ h. ground arith)

pub ≺_trans : (a b c : TTimestamp) → a ≺ b → b ≺ c → a ≺ c
unfolding compare
≺_trans a b c h k = ground arith

pub compare-cases :
    (a b : TTimestamp) → (compare a b ≡ negsuc 0) ⊎ ((compare a b ≡ pos 0) ⊎ (compare a b ≡ pos 1))
unfolding compare
compare-cases a b = ground arith
