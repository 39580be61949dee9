-- ===== src/Ldd/Index.antt =====
-- An index for each tree, to show that one with the promises of the unique table exists.
use mc_sog.Ldd.Tree.{IsIndex, Ldd, lddmc_false, lddmc_true, node}
use mc_sog.Prelude.{ap, arith, inl, inr, lt_cases, refl, suc, ℕ, ◌*◌, ◌+◌, ◌<◌, ◌≡◌, ◌≤◌}

pair : ℕ → ℕ → ℕ
pair a b = (a + b) * (a + b) + a

sum_lt : (a b c d : ℕ) → a + b < c + d → pair a b < pair c d
unfolding pair
sum_lt a b c d h = grind (arith, square_step (a + b) (c + d) h)
  where
    square_step : (s t : ℕ) → s < t → s * s + s + s + 1 ≤ t * t
    square_step s t lt = grind arith

pair-injective : (a b c d : ℕ) → pair a b ≡ pair c d → (a ≡ c) × (b ≡ d)
unfolding pair
pair-injective a b c d e = elim (lt_cases (a + b) (c + d)) [
  | inl lt ↦ absurd (omega (arith, sum_lt a b c d lt))
  | inr (inl same) ↦ equal_sums same e
  | inr (inr gt) ↦ absurd (omega (arith, sum_lt c d a b gt))
]
  where
    equal_sums : a + b ≡ c + d → pair a b ≡ pair c d → (a ≡ c) × (b ≡ d)
    equal_sums same e = omega (arith, ap (λ (s : ℕ). s * s) same)

unfoldable pub tree_index : Ldd → ℕ
unfolding pair
tree_index lddmc_false = 0
tree_index lddmc_true = 1
tree_index (node v d r) = suc (suc (pair v (pair (tree_index d) (tree_index r))))

tree_index-injective : (a b : Ldd) → tree_index a ≡ tree_index b → a ≡ b
unfolding tree_index
tree_index-injective lddmc_false lddmc_false e = refl
tree_index-injective lddmc_false lddmc_true e = absurd (omega arith)
tree_index-injective lddmc_false (node w c s) e = absurd (omega arith)
tree_index-injective lddmc_true lddmc_false e = absurd (omega arith)
tree_index-injective lddmc_true lddmc_true e = refl
tree_index-injective lddmc_true (node w c s) e = absurd (omega arith)
tree_index-injective (node v d r) lddmc_false e = absurd (omega arith)
tree_index-injective (node v d r) lddmc_true e = absurd (omega arith)
tree_index-injective (node v d r) (node w c s) e =
    let p =
      pair-injective v (pair (tree_index d) (tree_index r)) w (pair (tree_index c) (tree_index s))
        (omega (arith, e)) in
    let q = pair-injective (tree_index d) (tree_index r) (tree_index c) (tree_index s) p.1 in
    let down = tree_index-injective d c q.0 in let right = tree_index-injective r s q.1 in cc

pub tree_index-IsIndex : IsIndex tree_index
unfolding tree_index
tree_index-IsIndex = record { at_false = refl; at_true = refl; injective = tree_index-injective }
