-- ===== src/Raft/External/Reads/Follower.antt =====
-- The loop of `chooseNextFollower` ends, and at another node.
use native.Mathlib.Nat.{mod-lt, mod-eq_of_lt, mod-eq-sub-mod, mod-add-mod}
use tors_hw.Base.{
  ℕ, ◌+◌, ◌%◌, ◌<◌, ◌≤◌, ◌≡◌, ◌≢◌, ◌⊎◌, inl, inr, true, false, sym, ap, ◌∙◌, some, ◌==◌, ==→eq,
  Bool-cases, add_u64, u64_mod, arith,
}
use tors_hw.Raft.External.Reads.{next_index, enough_rounds}

mod_self : (n : ℕ) → 0 < n → n % n ≡ 0
mod_self n h =
    mod-eq-sub-mod {n = n} {m = n} (omega arith) ∙ ap (λ k. k % n) (omega arith) ∙ mod-eq_of_lt h

-- Two numbers in a row have different remainders.
mod-step : (a n : ℕ) → 2 ≤ n → (a + 1) % n ≢ a % n
mod-step a n h same =
    let r = a % n in
    let below : r < n = mod-lt a (omega arith) in
    let rest : (r + 1) % n ≡ (a + 1) % n = mod-add-mod a n 1 in
    elim (Bool-cases (r + 1 == n)) [
      | inl last ↦
          let e : r + 1 ≡ n = ==→eq _ _ last in
          let whole : n % n ≡ 0 = mod_self n (omega arith) in
          let zero_rest : (r + 1) % n ≡ n % n = ap (λ k. k % n) e in omega arith
      | inr inner ↦
          let small : r + 1 < n = ground arith in
          let kept : (r + 1) % n ≡ r + 1 = mod-eq_of_lt small in omega arith
    ]

add_u64-cases :
    (a : ℕ) → a < u64_mod → (add_u64 a 1 ≡ a + 1) ⊎ ((add_u64 a 1 ≡ 0) × (a + 1 ≡ u64_mod))
add_u64-cases a h = omega arith

-- Only where the counter wraps does it meet the same node twice, and then not a third time.
third :
    (a n node_id : ℕ)
    → 2 ≤ n
    → a < u64_mod
    → (a % n == node_id) ≡ true
    → (add_u64 a 1 % n == node_id) ≡ true
    → (add_u64 (add_u64 a 1) 1 % n == node_id) ≡ false
third a n node_id h word own own_again =
    let same : add_u64 a 1 % n ≡ a % n = ==→eq _ _ own_again ∙ sym (==→eq _ _ own) in
    elim (add_u64-cases a word) [
      | inl steps ↦ absurd (mod-step a n h (ap (λ k. k % n) (sym steps) ∙ same))
      | inr (wraps, _) ↦
          let own_zero : node_id ≡ 0 =
            sym (==→eq _ _ own_again) ∙ ap (λ k. k % n) wraps ∙ mod-eq_of_lt (omega arith) in
          let one : add_u64 (add_u64 a 1) 1 % n ≡ 1 =
            ap (λ k. add_u64 k 1 % n) wraps ∙ mod-eq_of_lt (omega arith) in
          ground arith
    ]

-- With two nodes or more the loop ends within three rounds, at the index of another node.
pub next_index_ends :
    (n node_id round_robin : ℕ)
    → 2 ≤ n
    → round_robin < u64_mod
    → (index : ℕ) × (after : ℕ) × (next_index enough_rounds n node_id round_robin
        ≡ some (index, after))
      × (index < n)
      × (index ≢ node_id)
unfolding next_index
next_index_ends n node_id round_robin h word =
    let below = λ (k : ℕ). mod-lt k {m = n} (omega arith) in
    elim (Bool-cases (round_robin % n == node_id)) [
      | inr other ↦
          (round_robin % n, add_u64 round_robin 1, rw other, below round_robin, λ e. ground arith)
      | inl own ↦
          let k = add_u64 round_robin 1 in
          elim (Bool-cases (k % n == node_id)) [
            | inr other ↦ (k % n, add_u64 k 1, rw (own, other), below k, λ e. ground arith)
            | inl own_again ↦
                let j = add_u64 k 1 in
                let other = third round_robin n node_id h word own own_again in
                (j % n, add_u64 j 1, rw (own, own_again, other), below j, λ e. ground arith)
          ]
    ]
