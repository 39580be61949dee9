-- ===== src/Sog/Canonize/Correct.antt =====
-- What Canonize (src/CommonSOG.cpp) returns: a part of the set from which unobservable transitions
-- reach all of it.
use mc_sog.Ldd.Canonical.{some_member}
use mc_sog.Ldd.Divide.{is_single_mdd}
use mc_sog.Ldd.Divide.Correct.{IsThin, IsThin-mono}
use mc_sog.Ldd.Tree.{IsIndex, IsLdd, IsNonempty, Ldd, lddmc_false, lddmc_true, mem, node}
use mc_sog.Ldd.Union.{lddmc_union_mono}
use mc_sog.Ldd.Union.Correct.{IsUnion, lddmc_union_mono-IsUnion}
use mc_sog.Prelude.{
  Bool, Bool-cases, List, Option, arith, false, inl, inr, length, ltb, not, refl, some, subst, suc,
  sym, true, zero, ℕ, ◌&&◌, ◌+◌, ◌<◌, ◌∙◌, ◌≡◌, ◌≤◌, ◌⊎◌,
}
use mc_sog.Sog.Canonize.{canonize, canonize_part, canonize_split, is_false}
use mc_sog.Sog.Canonize.Reduce.{IsReduced, is_false-cases, or_left, or_right, reduce-Reduces}
use mc_sog.Sog.Canonize.Split.{IsSplit, find_level-IsSplit}
use mc_sog.Sog.Finite.{InMarks, Within, missing, missing-le-length, missing-lt, missing_mono}
use mc_sog.Sog.Image.{or_cases}
use mc_sog.Sog.System.{AreBelow, AreSized, Reached, Run-trans, Weights, here, loaded}

-- `r` is a well-formed part of `s` that reaches each marking of `s`.
pub record IsRepresentative (k : ℕ) (ws : List Weights) (eps : List ℕ) (s r : Ldd) : Type 0 where
  pub formed : IsLdd k r
  pub inside : Within r s
  pub reaches : (m : List ℕ) → mem s m ≡ true → Reached ws eps r m

IsRepresentative-same :
    (k : ℕ) (ws : List Weights) (eps : List ℕ) (s : Ldd) → IsLdd k s → IsRepresentative k ws eps s s
IsRepresentative-same k ws eps s h = record {
  formed = h;
  inside = λ m inside. inside;
  reaches = λ m inside. (m, 0, inside, here);
}

Reached-trans :
    (ws : List Weights) (eps : List ℕ) (a b : Ldd)
    → ((m : List ℕ) → mem b m ≡ true → Reached ws eps a m)
    → (m : List ℕ) → Reached ws eps b m
    → Reached ws eps a m
Reached-trans ws eps a b h m (m1, p, inside, run) =
    let (m0, n, inside', run') = h m1 inside in
    let (q, whole) = Run-trans ws eps run' run in (m0, q, inside', whole)

module _ (index : Ldd → ℕ) (ok : IsIndex index) (k : ℕ) (ws : List Weights) (eps obs : List ℕ)
    (sized : AreSized k ws) (below : AreBelow (length ws) eps) (us : List (List ℕ)) (rounds : ℕ)
    (enough : length us < rounds) where
  -- All that unobservable transitions reach from the tree is one of `us`.
  abbrev AreBounded : Ldd → Type 0
  AreBounded s = (m : List ℕ) → Reached ws eps s m → InMarks m us

  AreBounded-Within : (s t : Ldd) → Within t s → AreBounded s → AreBounded t
  AreBounded-Within s t h bounded m (m0, n, inside, run) = bounded m (m0, n, h m0 inside, run)

  abbrev Represents : Ldd → Option Ldd → Type 0
  Represents s o = (r : Ldd) × (o ≡ some r) × IsRepresentative k ws eps s r

  -- What the recursive calls give for the sets that lack more of `us` than `s` does.
  abbrev Recursion : Ldd → (Ldd → ℕ → Option Ldd) → Type 0
  Recursion s rec =
      (t : Ldd) (l : ℕ)
      → IsLdd k t
      → IsThin l t
      → l ≤ k
      → AreBounded t
      → missing s us < missing t us
      → Represents t (rec t l)

  canonize_part-Represents :
      (s t : Ldd) (l : ℕ) (rec : Ldd → ℕ → Option Ldd)
      → Recursion s rec
      → IsLdd k t
      → IsThin l t
      → l ≤ k
      → AreBounded t
      → missing s us < missing t us
      → Represents t (canonize_part rec t l)
  unfolding canonize_part
  canonize_part-Represents s t l rec h ht thin le bounded lt = elim (Bool-cases (is_single_mdd t)) [
    | inl single ↦ (t, rw single, IsRepresentative-same k ws eps t ht)
    | inr many ↦ let (r, e, p) = h t l ht thin le bounded lt in (r, rw many e, p)
  ]

  module _ (s s0 s1 : Ldd) (l : ℕ) (hs : IsLdd k s) (bounded : AreBounded s)
      (split : IsSplit index ok k s s0 s1 l) where
    minus_inside : Within s1 s
    minus_inside m inside = first (mem s m) (mem s0 m) (sym (split.rest.members m) ∙ inside)
      where
        first : (a b : Bool) → (a && not b) ≡ true → a ≡ true
        first a b e = ground arith

    either : (m : List ℕ) → mem s m ≡ true → (mem s0 m ≡ true) ⊎ (mem s1 m ≡ true)
    either m inside = elim (Bool-cases (mem s0 m)) [
      | inl in0 ↦ inl in0
      | inr out ↦ inr (split.rest.members m ∙ rw (inside, out))
    ]

    fewer0 : (t : Ldd) → Within t s0 → missing s us < missing t us
    fewer0 t h =
        let (m, inside, cut) = split.part.less in
        let small =
          missing-lt s0 s us m split.part.inside (bounded m (m, 0, inside, here)) cut inside in
        omega (arith, missing_mono t s0 us h, small)

    fewer1 : (t : Ldd) → Within t s1 → missing s us < missing t us
    fewer1 t h =
        let (m, inside) = some_member k s0 split.part.formed split.part.filled in
        let small =
          missing-lt s1 s us m minus_inside (bounded m (m, 0, split.part.inside m inside, here))
            (split.rest.members m ∙ rw inside (no_more (mem s m))) (split.part.inside m inside) in
        omega (arith, missing_mono t s1 us h, small)
      where
        no_more : (a : Bool) → (a && not true) ≡ false
        no_more true = refl
        no_more false = refl

    -- Representatives of what is left of the two parts give one of the whole.
    union-IsRepresentative :
        (t0 t1 r0 r1 : Ldd)
        → Within t0 s
        → Within t1 s
        → IsReduced k ws eps s1 s0 t0
        → IsReduced k ws eps t0 s1 t1
        → IsRepresentative k ws eps t0 r0
        → IsRepresentative k ws eps t1 r1
        → IsRepresentative k ws eps s (lddmc_union_mono index r0 r1)
    union-IsRepresentative t0 t1 r0 r1 in0 in1 h0 h1 p0 p1 = record {
      formed = u.formed;
      inside = λ m inside. elim (or_cases (mem r0 m) (mem r1 m) (sym (u.members m) ∙ inside)) [
        | inl left ↦ in0 m (p0.inside m left)
        | inr right ↦ in1 m (p1.inside m right)
      ];
      reaches = λ m inside. elim (either m inside) [
        | inl left ↦ from0 m left
        | inr right ↦ from1 m right
      ];
    }
      where
        u : IsUnion k r0 r1 (lddmc_union_mono index r0 r1)
        u = lddmc_union_mono-IsUnion index ok k r0 r1 p0.formed p1.formed

        by_left :
            (m : List ℕ) → Reached ws eps r0 m → Reached ws eps (lddmc_union_mono index r0 r1) m
        by_left m (m0, n, inside, run) =
            (m0, n, u.members m0 ∙ or_left (mem r0 m0) (mem r1 m0) inside, run)

        by_right :
            (m : List ℕ) → Reached ws eps r1 m → Reached ws eps (lddmc_union_mono index r0 r1) m
        by_right m (m0, n, inside, run) =
            (m0, n, u.members m0 ∙ or_right (mem r0 m0) (mem r1 m0) inside, run)

        from1 : (m : List ℕ) → mem s1 m ≡ true → Reached ws eps (lddmc_union_mono index r0 r1) m
        from1 m inside = elim (h1.taken m inside) [
          | inl stays ↦ by_right m (p1.reaches m stays)
          | inr reached ↦
              Reached-trans ws eps _ t0 (λ m0 at. by_left m0 (p0.reaches m0 at)) m reached
        ]

        from0 : (m : List ℕ) → mem s0 m ≡ true → Reached ws eps (lddmc_union_mono index r0 r1) m
        from0 m inside = elim (h0.taken m inside) [
          | inl stays ↦ by_left m (p0.reaches m stays)
          | inr reached ↦ Reached-trans ws eps _ s1 from1 m reached
        ]

    canonize_split-Represents :
        (rec : Ldd → ℕ → Option Ldd)
        → Recursion s rec
        → Represents s (canonize_split index (loaded ws eps obs) rounds rec (s0, s1, l))
    unfolding canonize_split
    canonize_split-Represents rec h =
        let f0 = split.part.formed in
        let f1 = split.rest.formed in
        let b1 = AreBounded-Within s s1 minus_inside bounded in
        let (t0, e0, h0) =
          reduce-Reduces index ok k ws eps obs sized below us rounds s1 s0 f1 f0 b1 enough in
        let in0 : Within t0 s = λ m inside. split.part.inside m (h0.inside m inside) in
        let b0 = AreBounded-Within s t0 in0 bounded in
        let (t1, e1, h1) =
          reduce-Reduces index ok k ws eps obs sized below us rounds t0 s1 h0.formed f1 b0 enough in
        let in1 : Within t1 s = λ m inside. minus_inside m (h1.inside m inside) in
        let (r0, g0, p0) =
          canonize_part-Represents s t0 l rec h h0.formed
            (IsThin-mono k l s t0 hs h0.formed in0 split.thin) split.small b0
            (fewer0 t0 h0.inside) in
        let (r1, g1, p1) =
          canonize_part-Represents s t1 l rec h h1.formed
            (IsThin-mono k l s t1 hs h1.formed in1 split.thin) split.small
            (AreBounded-Within s t1 in1 bounded) (fewer1 t1 h1.inside) in
        (
          lddmc_union_mono index r0 r1,
          rw (not_empty, e0, e1, g0, g1),
          union-IsRepresentative t0 t1 r0 r1 in0 in1 h0 h1 p0 p1,
        )
      where
        not_empty : (is_false s0 && is_false s1) ≡ false
        not_empty = filled s0 split.part.filled
          where
            filled : (a : Ldd) → IsNonempty a → (is_false a && is_false s1) ≡ false
            filled lddmc_false n = absurd n
            filled lddmc_true n = refl
            filled (node v d r) n = refl

  canonize_level :
      (fuel : ℕ) (s : Ldd) (level : ℕ)
      → IsLdd k s
      → IsThin level s
      → level ≤ k
      → AreBounded s
      → length us < fuel + missing s us
      → Represents s (canonize index (loaded ws eps obs) k rounds fuel s level)
  unfolding canonize
  canonize_level zero s level hs thin le bounded lt = absurd (omega (arith, missing-le-length s us))
  canonize_level (suc fuel) s level hs thin le bounded lt = elim (is_false-cases s) [
    | inl (empty, e) ↦ (
      lddmc_false,
      rw (within, empty),
      record {
        formed = tt;
        inside = λ m inside. cc;
        reaches = λ m inside. cc (subst (λ z. mem z m ≡ true) e inside);
      },
    )
    | inr (filled, ne) ↦ elim (Bool-cases (is_single_mdd s)) [
      | inl single ↦ (s, rw (within, filled, single), IsRepresentative-same k ws eps s hs)
      | inr many ↦
          let (s0, s1, l, e, split) =
            find_level-IsSplit index ok k (suc k) s level hs ne many thin le (omega arith) in
          let (r, e', p) =
            canonize_split-Represents s s0 s1 l hs bounded split
              (canonize index (loaded ws eps obs) k rounds fuel)
              (λ t l ht thin' le' bounded' lt'.
                canonize_level fuel t l ht thin' le' bounded' (omega (arith, lt, lt'))) in
          (r, rw (within, filled, many, e) e', p)
    ]
  ]
    where
      within : ltb k level ≡ false
      within = ground arith

  -- For a set from which unobservable transitions reach finitely many markings, and with more fuel
  -- than there are such markings, Canonize returns a part of the set, and from the markings of the
  -- part unobservable transitions reach all of the set.
  pub canonize-IsRepresentative :
      (fuel : ℕ) (s : Ldd)
      → IsLdd k s
      → AreBounded s
      → length us < fuel
      → Represents s (canonize index (loaded ws eps obs) k rounds fuel s 0)
  canonize-IsRepresentative fuel s hs bounded lt =
      canonize_level fuel s 0 hs tt (omega arith) bounded (omega arith)
