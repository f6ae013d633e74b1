-- ===== src/Base/Monad.antt =====
-- Code that changes a state and may stop on a fault. The state that a faulting call leaves behind
-- is kept: net/http recovers a handler's panic, and the process goes on with that state.
use mathlib.Core.Path.{◌≡◌, refl}

-- `panic` is a Go run-time panic, `fatal` a call of log.Fatal, which ends the process.
pub data Fault : Type 0 where
  panic fatal : Fault

pub data Result {ℓ} (A : Type ℓ) : Type ℓ where
  ok : A → Result A
  err : Fault → Result A

abbrev pub Exec {ℓ} : Type ℓ → Type ℓ → Type ℓ
Exec S A = S → Result A × S

module _ {ℓ} {S : Type ℓ} where
  abbrev pub pure : {A : Type ℓ} → A → Exec S A
  pure a s = (ok a, s)

  abbrev pub raise : {A : Type ℓ} → Fault → Exec S A
  raise f s = (err f, s)

  abbrev pub get_state : Exec S S
  get_state s = (ok s, s)

  abbrev pub put_state : S → Exec S (Unit {ℓ})
  put_state s' s = (ok tt, s')

  -- What a bind does with the outcome of its first part.
  abbrev pub continue : {A B : Type ℓ} → (A → Exec S B) → Result A × S → Result B × S
  continue f (ok a, s) = f a s
  continue f (err e, s) = (err e, s)

  infixl 5 ◌>>=◌ ◌>>◌
  abbrev pub ◌>>=◌ : {A B : Type ℓ} → Exec S A → (A → Exec S B) → Exec S B
  ◌>>=◌ m f s = continue f (m s)

  abbrev pub ◌>>◌ : {B : Type ℓ} → Exec S (Unit {ℓ}) → Exec S B → Exec S B
  m >> k = m >>= λ _. k

-- A bind that did not fault has a first part that did not, and a second that ended it.
pub continue-ok {ℓ} :
    {S A B : Type ℓ} (f : A → Exec S B) (r : Result A × S) {b : B} {s' : S}
    → continue f r ≡ (ok b, s')
    → (a : A) × (s : S) × (r ≡ (ok a, s)) × (f a s ≡ (ok b, s'))
continue-ok f (ok a, s) h = (a, s, refl, h)
continue-ok f (err e, s) h = cc

pub continue-continue {ℓ} :
    {S A B C : Type ℓ} (g : A → Exec S B) (f : B → Exec S C) (h : A → Exec S C)
    → ((a : A) (s : S) → h a s ≡ continue f (g a s))
    → (r : Result A × S) → continue h r ≡ continue f (continue g r)
continue-continue g f h same (ok a, s) = same a s
continue-continue g f h same (err e, s) = refl

-- A result that is only mapped leaves the state.
pub state-continue-pure {ℓ} :
    {S A B : Type ℓ} (g : A → B) (r : Result A × S) → (continue (λ a. pure (g a)) r).1 ≡ r.1
state-continue-pure g (ok a, s) = refl
state-continue-pure g (err e, s) = refl

-- What both parts of a bind keep, faults included.
pub continue-keeps {ℓ κ} :
    {S A B : Type ℓ} (P : S → Type κ) (f : A → Exec S B) (r : Result A × S)
    → P r.1
    → ((a : A) (s : S) → P s → P (f a s).1)
    → P (continue f r).1
continue-keeps P f (ok a, s) h k = k a s h
continue-keeps P f (err e, s) h k = h
