-- ===== src/Sog/Canonize/Split.antt =====
-- The loop of Canonize (src/CommonSOG.cpp) that looks for a level with two nodes.
use mc_sog.Ldd.Divide.{get_mddnbr, is_single_mdd}
use mc_sog.Ldd.Divide.Correct.{IsPart, IsThin, IsThin-next, IsThin-single, ldd_divide_rec-IsPart}
use mc_sog.Ldd.Minus.Correct.{IsMinus, ldd_minus-IsMinus}
use mc_sog.Ldd.Tree.{IsIndex, IsLdd, IsNonempty, Ldd}
use mc_sog.Prelude.{
  Bool-cases, arith, false, inl, inr, ltb, ltb→lt, subst, suc, sym, zero, ℕ, ◌+◌, ◌<◌, ◌≡◌, ◌≤◌,
}
use mc_sog.Sog.Canonize.{find_level}

module _ (index : Ldd → ℕ) (ok : IsIndex index) (k : ℕ) where
  -- The two parts of `s` at the level `l`.
  pub record IsSplit (s s0 s1 : Ldd) (l : ℕ) : Type 0 where
    pub thin : IsThin l s
    pub small : l ≤ k
    pub part : IsPart k l s s0
    pub rest : IsMinus k s s0 s1

  -- A tree with more than one path has a level with two nodes.
  pub find_level-IsSplit :
      (fuel : ℕ) (s : Ldd) (level : ℕ)
      → IsLdd k s
      → IsNonempty s
      → is_single_mdd s ≡ false
      → IsThin level s
      → level ≤ k
      → k < fuel + level
      → (s0 : Ldd) × (s1 : Ldd) × (l : ℕ) × (find_level index k fuel s level ≡ (s0, s1, l))
        × IsSplit s s0 s1 l
  unfolding find_level
  find_level-IsSplit zero s level hs ne many thin le lt = absurd (omega arith)
  find_level-IsSplit (suc fuel) s level hs ne many thin le lt =
      elim (Bool-cases (ltb 1 (get_mddnbr s level))) [
        | inl two ↦
            let part = ldd_divide_rec-IsPart k level s hs ne thin (ltb→lt _ _ two) in
            (
              _,
              _,
              level,
              rw two,
              record {
                thin = thin;
                small = le;
                part = part;
                rest = ldd_minus-IsMinus index ok k s _ hs part.formed;
              },
            )
        | inr one ↦
            let thin' = IsThin-next k level s hs thin (at_most one) in
            elim (Bool-cases (ltb (level + 1) k)) [
              | inl further ↦
                  let (s0, s1, l, e, split) =
                    find_level-IsSplit fuel s (level + 1) hs ne many
                      (subst (λ n. IsThin n s) (sym (plus_one level)) thin')
                      (omega (arith, ltb→lt _ _ further)) (omega arith) in
                  (s0, s1, l, rw (one, further) e, split)
              | inr last ↦ absurd (cc (many, IsThin-single k (suc level) s hs (above last) thin'))
            ]
      ]
    where
      plus_one : (n : ℕ) → n + 1 ≡ suc n
      plus_one n = omega arith

      at_most : ltb 1 (get_mddnbr s level) ≡ false → get_mddnbr s level ≤ 1
      at_most e = ground arith

      above : ltb (level + 1) k ≡ false → k ≤ suc level
      above e = ground arith
