-- ===== src/Base/Preds.antt =====
-- Predicates over lists by recursion, which compute to tuples.
use mathlib.Core.Path.{◌≡◌, sym, subst}
use mathlib.Core.Logic.{◌≢◌}
use mathlib.Core.List.Memᴰ
use mathlib.Core.List.{List, [], ◌∷◌, ◌++◌, map, Memᴰ, Permᴰ}

abbrev pub All {ℓ κ} : {A : Type ℓ} → (A → Type κ) → List A → Type κ
All P [] = Unit
All P (x ∷ xs) = P x × All P xs

-- No element stands twice in the list.
abbrev pub NoRepeat {ℓ} : {A : Type ℓ} → List A → Type ℓ
NoRepeat [] = Unit
NoRepeat (x ∷ xs) = All (λ y. x ≢ y) xs × NoRepeat xs

module _ {ℓ κ} {A : Type ℓ} (P : A → Type κ) where
  pub All-append : (xs ys : List A) → All P xs → All P ys → All P (xs ++ ys)
  All-append [] ys hx hy = hy
  All-append (x ∷ xs) ys hx hy = (hx.0, All-append xs ys hx.1 hy)

  pub All-Memᴰ : (x : A) (xs : List A) → All P xs → Memᴰ x xs → P x
  All-Memᴰ x [] h m = absurd (Memᴰ.not-nil m)
  All-Memᴰ x (y ∷ ys) (p, h) (Memᴰ.head e) = subst P (sym e) p
  All-Memᴰ x (y ∷ ys) (p, h) (Memᴰ.tail m) = All-Memᴰ x ys h m

  pub All-perm : {xs ys : List A} → Permᴰ xs ys → All P xs → All P ys
  All-perm Permᴰ.nil h = tt
  All-perm (Permᴰ.cons e p) h = (subst P e h.0, All-perm p h.1)
  All-perm (Permᴰ.swap e e') h = (subst P e' h.1.0, (subst P e h.0, h.1.1))
  All-perm (Permᴰ.trans p q) h = All-perm q (All-perm p h)

  pub All-left : (xs ys : List A) → All P (xs ++ ys) → All P xs
  All-left [] ys h = tt
  All-left (x ∷ xs) ys h = (h.0, All-left xs ys h.1)

  pub All-right : (xs ys : List A) → All P (xs ++ ys) → All P ys
  All-right [] ys h = h
  All-right (x ∷ xs) ys h = All-right xs ys h.1

pub All-map {ℓ κ} :
    {A B : Type ℓ} (P : B → Type κ) (f : A → B) (xs : List A)
    → All P (map f xs)
    → All (λ x. P (f x)) xs
All-map P f [] h = tt
All-map P f (x ∷ xs) h = (h.0, All-map P f xs h.1)

pub NoRepeat-perm {ℓ} : {A : Type ℓ} {xs ys : List A} → Permᴰ xs ys → NoRepeat xs → NoRepeat ys
NoRepeat-perm Permᴰ.nil d = tt
NoRepeat-perm (Permᴰ.cons {a = a} e p) d =
    rw (← e) (All-perm (λ y. a ≢ y) p d.0, NoRepeat-perm p d.1)
NoRepeat-perm (Permᴰ.swap {a = a} {b = b} {a' = a'} {b' = b'} {l = l} e e') d =
    let moved : b ∷ a ∷ l ≡ a' ∷ b' ∷ l = cc in
    subst NoRepeat moved (((λ same. d.0.0 (sym same)), d.1.0), (d.0.1, d.1.1))
NoRepeat-perm (Permᴰ.trans p q) d = NoRepeat-perm q (NoRepeat-perm p d)
