-- ===== src/Sog/Ample/Covers.antt =====
-- What the set of computeAmple2 (src/CommonSOG.cpp) is good for, and when the function returns.
use mc_sog.Ldd.Canonical.{canonical, some_member}
use mc_sog.Ldd.Fire.Image.{Fires}
use mc_sog.Ldd.Intersect.{lddmc_intersect}
use mc_sog.Ldd.Intersect.Correct.{IsIntersect, lddmc_intersect-IsIntersect}
use mc_sog.Ldd.Tree.{IsIndex, IsLdd, Ldd, lddmc_false, lddmc_true, mem, node}
use mc_sog.Net.{Transition}
use mc_sog.Prelude.{
  ==_iff, Bool, Bool-cases, List, [], ap, arith, false, inl, inr, length, refl, some, some_eq,
  subst, suc, sym, true, zero, ℕ, ◌&&◌, ◌<◌, ◌^◌, ◌∙◌, ◌∷◌, ◌≡◌,
}
use mc_sog.Sog.{CommonSog, get_successor, image_among}
use mc_sog.Sog.Ample.{
  add_conflict2, ample_loop, ample_round, compute_ample2, insert_first, is_covered, preimage_among,
}
use mc_sog.Sog.Ample.Growth.{
  add_by2-IsGrowth, contains-In, insert_first-AreBelow, insert_first-contains, visit-IsGrowth,
}
use mc_sog.Sog.Ample.Reverse.{
  AreLight, AreSmall, Step-AreSmall, Step-back, Step-reverse, length-swapped,
  preimage_among-swapped, swapped, swapped-AreSized,
}
use mc_sog.Sog.Canonize.{is_false}
use mc_sog.Sog.Canonize.Reduce.{is_false-cases}
use mc_sog.Sog.Image.{IsStepImage, image_among-IsStepImage}
use mc_sog.Sog.System.{
  AreBelow, AreSized, Step, Weights, by, get_successor-IsImage, loaded, relations, weights_at,
}

module _ (index : Ldd → ℕ) (ok : IsIndex index) (k : ℕ) (ws : List Weights) (eps obs : List ℕ)
    (sized : AreSized k ws) (light : AreLight ws) (ts : List Transition)
    (one_each : length ts ≡ length ws) (s : Ldd) (hs : IsLdd k s)
    (small : (m : List ℕ) → mem s m ≡ true → AreSmall (2 ^ 30) m) where
  abbrev net : CommonSog
  net = loaded ws eps obs

  length-net : (ws : List Weights) → length (relations ws) ≡ length ws
  length-net [] = refl
  length-net (w ∷ ws) = ap suc (length-net ws)

  ample_round-AreBelow :
      (ample : List ℕ)
      → AreBelow (length ws) ample
      → AreBelow (length ws) (ample_round index net ts s ample)
  unfolding ample_round add_conflict2
  ample_round-AreBelow ample h =
      (visit-IsGrowth (add_conflict2 index net ts s) (length ws)
          (λ t a. add_by2-IsGrowth ts _ _ t (length ws) a (omega (arith, one_each)))
          (length net.tb_relation) 0
          (insert_first index net s (length net.tb_relation) 0 ample)).below
        (insert_first-AreBelow index net s (length ws) (length net.tb_relation) 0 ample
          (omega (arith, length-net ws)) h)

  abbrev image : (ample : List ℕ) → Ldd
  image ample = image_among index net s lddmc_false ample

  abbrev pre : (ample : List ℕ) → Ldd
  pre ample = preimage_among index net (image ample) lddmc_false ample

  module _ (ample : List ℕ) (below : AreBelow (length ws) ample) where
    image-IsStepImage : IsStepImage k ws ample s (image ample)
    image-IsStepImage = image_among-IsStepImage index ok k ws eps obs sized ample s below hs

    pre-IsStepImage : IsStepImage k (swapped ws) ample (image ample) (pre ample)
    pre-IsStepImage = rw (preimage_among-swapped index ws eps obs ample (image ample) lddmc_false) (
        image_among-IsStepImage index ok k (swapped ws) eps obs (swapped-AreSized k ws sized) ample
          (image ample) (subst (λ n. AreBelow n ample) (sym (length-swapped ws)) below)
          image-IsStepImage.formed)

    meet-IsIntersect : IsIntersect k s (pre ample) (lddmc_intersect index s (pre ample))
    meet-IsIntersect =
        lddmc_intersect-IsIntersect index ok k s (pre ample) hs pre-IsStepImage.formed

    -- When the test of the loop holds, each marking enables a transition of the set.
    is_covered-Step :
        is_covered index net s ample ≡ true
        → (m : List ℕ) → mem s m ≡ true
        → (m' : List ℕ) × Step ws ample m m'
    unfolding is_covered
    is_covered-Step e m inside =
        let same = ok.injective _ _ ((==_iff _ _).0 e) in
        let both = subst (λ c. mem c m ≡ true) (sym same) inside in
        let (m1, at, back) =
          pre-IsStepImage.only m (second (mem s m) _ (sym (meet-IsIntersect.members m) ∙ both)) in
        let (m0, at0, step) = image-IsStepImage.only m1 at in
        Step-back ws ample m m1 light (Step-AreSmall ws ample m0 m1 light (small m0 at0) step) back
      where
        second : (a b : Bool) → (a && b) ≡ true → b ≡ true
        second a b e = ground arith

    Step-is_covered :
        ((m : List ℕ) → mem s m ≡ true → (m' : List ℕ) × Step ws ample m m')
        → is_covered index net s ample ≡ true
    unfolding is_covered
    Step-is_covered h = (==_iff _ _).1 (ap index same)
      where
        whole : (m : List ℕ) → mem (lddmc_intersect index s (pre ample)) m ≡ mem s m
        whole m = elim (Bool-cases (mem s m)) [
          | inl inside ↦
              let (m', step) = h m inside in
              let back =
                pre-IsStepImage.all m' m (image-IsStepImage.all m m' inside step)
                  (Step-reverse ws ample m m' light (small m inside) step) in
              meet-IsIntersect.members m ∙ rw (inside, back) refl
          | inr out ↦ meet-IsIntersect.members m ∙ rw out refl
        ]

        same : lddmc_intersect index s (pre ample) ≡ s
        same = canonical k _ s meet-IsIntersect.formed hs whole

  -- The set names transitions, and each marking enables one of it.
  pub record IsCovering (ample : List ℕ) : Type 0 where
    pub below : AreBelow (length ws) ample
    pub enabled : (m : List ℕ) → mem s m ≡ true → (m' : List ℕ) × Step ws ample m m'

  ample_loop-IsCovering :
      (fuel : ℕ) (ample r : List ℕ)
      → AreBelow (length ws) ample
      → ample_loop index net ts fuel s ample ≡ some r
      → IsCovering r
  unfolding ample_loop
  ample_loop-IsCovering zero ample r h e = cc
  ample_loop-IsCovering (suc fuel) ample r h e =
      let ample' = ample_round index net ts s ample in
      let h' = ample_round-AreBelow ample h in
      elim (Bool-cases (is_covered index net s ample')) [
        | inl moves ↦
            subst IsCovering (some_eq (rw moves at e))
              (record { below = h'; enabled = is_covered-Step ample' h' moves })
        | inr rests ↦ ample_loop-IsCovering fuel ample' r h' (rw rests at e)
      ]

  -- For a well-formed set and a net without large values and weights, when computeAmple2 returns,
  -- the result names transitions of the net, and each marking of the set enables one of them.
  pub compute_ample2-IsCovering :
      (fuel : ℕ) (r : List ℕ) → compute_ample2 index net ts fuel s ≡ some r → IsCovering r
  unfolding compute_ample2
  compute_ample2-IsCovering fuel r e = ample_loop-IsCovering fuel [] r tt e

  is_false-image :
      (t : ℕ)
      → t < length ws
      → ((m m' : List ℕ)
          → mem s m ≡ true
          → ¬ Fires (weights_at ws t).pre (weights_at ws t).post m m')
      → is_false (get_successor index net s t) ≡ true
  is_false-image t lt none_fires = elim (is_false-cases (get_successor index net s t)) [
    | inl (e, _) ↦ e
    | inr (_, ne) ↦
        let h = get_successor-IsImage index ok k ws eps obs s t sized lt hs in
        let (m', inside) = some_member k _ h.formed ne in
        let (m, at, f) = h.only m' inside in absurd (none_fires m m' at f)
  ]

  image-is_false :
      (t : ℕ) (m m' : List ℕ)
      → t < length ws
      → mem s m ≡ true
      → Fires (weights_at ws t).pre (weights_at ws t).post m m'
      → is_false (get_successor index net s t) ≡ false
  image-is_false t m m' lt at f =
      filled (get_successor index net s t)
        ((get_successor-IsImage index ok k ws eps obs s t sized lt hs).all m' (m, at, f))
    where
      filled : (d : Ldd) → mem d m' ≡ true → is_false d ≡ false
      filled lddmc_false e = cc
      filled lddmc_true e = refl
      filled (node v d r) e = refl

  -- For a well-formed set and a net without large values and weights, when no marking of the set
  -- enables a transition before `t` and all of them enable `t`, computeAmple2 returns in the first
  -- round, and each marking of the set enables a transition of the result.
  pub compute_ample2_returns :
      (t fuel : ℕ)
      → t < length ws
      → ((j : ℕ)
          → j < t
          → (m m' : List ℕ) → mem s m ≡ true
          → ¬ Fires (weights_at ws j).pre (weights_at ws j).post m m')
      → ((m : List ℕ)
          → mem s m ≡ true
          → (m' : List ℕ) × Fires (weights_at ws t).pre (weights_at ws t).post m m')
      → (r : List ℕ) × (compute_ample2 index net ts (suc fuel) s ≡ some r) × IsCovering r
  unfolding compute_ample2 ample_loop ample_round add_conflict2
  compute_ample2_returns t fuel lt rests fires =
      let e : compute_ample2 index net ts (suc fuel) s ≡ some (ample_round index net ts s []) =
        rw (Step-is_covered _ (ample_round-AreBelow [] tt) each) refl in
      (ample_round index net ts s [], e, compute_ample2-IsCovering (suc fuel) _ e)
    where
      each :
          (m : List ℕ)
          → mem s m ≡ true
          → (m' : List ℕ) × Step ws (ample_round index net ts s []) m m'
      each m inside =
          let (m', f) = fires m inside in
          let first =
            insert_first-contains index net s t (length net.tb_relation) 0 [] (omega arith)
              (omega (arith, length-net ws, lt)) (image-is_false t m m' lt inside f)
              (λ j less. is_false-image j (omega (arith, lt)) (rests j less)) in
          let stays =
            (visit-IsGrowth (add_conflict2 index net ts s) (length ws)
                (λ u a. add_by2-IsGrowth ts _ _ u (length ws) a (omega (arith, one_each)))
                (length net.tb_relation) 0
                (insert_first index net s (length net.tb_relation) 0 [])).keeps
              t first in
          (m', by t (contains-In t _ stays) f)
