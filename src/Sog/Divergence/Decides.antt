-- ===== src/Sog/Divergence/Decides.antt =====
-- The fuel of Set_Div (src/CommonSOG.cpp), on a set of markings that is closed under unobservable
-- transitions.
use mc_sog.Ldd.Tree.{IsIndex, IsLdd, IsNonempty, Ldd, lddmc_false, lddmc_true, mem, node}
use mc_sog.Prelude.{
  ==_iff, Bool, Bool-cases, List, Option, [], ap, arith, false, inl, inr, length, refl, some, suc,
  true, zero, ℕ, ◌+◌, ◌<◌, ◌==◌, ◌↔◌, ◌∷◌, ◌≡◌,
}
use mc_sog.Sog.{div_loop, div_next, div_nonempty, image_among, set_div}
use mc_sog.Sog.Divergence.{Answers, Answers-iff, HasRun, div_loop-Answers}
use mc_sog.Sog.Finite.{InMarks, Within, missing, missing-le-length, missing-lt, new_member}
use mc_sog.Sog.Image.{IsStepImage, image_among-IsStepImage}
use mc_sog.Sog.System.{AreBelow, AreSized, Run, Step, Weights, by, loaded, then_by}

abbrev pub IsClosed : List Weights → List ℕ → Ldd → Type 0
IsClosed ws is a = (m m' : List ℕ) → mem a m ≡ true → Step ws is m m' → mem a m' ≡ true

-- All markings of the tree are in the list.
abbrev pub IsListed : Ldd → List (List ℕ) → Type 0
IsListed a us = (m : List ℕ) → mem a m ≡ true → InMarks m us

Within-IsStepImage :
    (k : ℕ) (ws : List Weights) (is : List ℕ) (a b c : Ldd)
    → IsStepImage k ws is a b
    → IsStepImage k ws is b c
    → Within b a
    → Within c b
Within-IsStepImage k ws is a b c h g within m inside =
    let (m0, start, step) = g.only m inside in h.all m0 m (within m0 start) step

module _ (index : Ldd → ℕ) (ok : IsIndex index) (k : ℕ) (ws : List Weights) (eps obs : List ℕ)
    (sized : AreSized k ws) (below : AreBelow (length ws) eps) (us : List (List ℕ)) where
  div_next_returns :
      (b : Ldd) (round : Ldd → Option Bool)
      → (IsNonempty b → (r : Bool) × (round b ≡ some r))
      → (r : Bool) × (div_next round b ≡ some r)
  unfolding div_next
  div_next_returns lddmc_false round h = (false, refl)
  div_next_returns lddmc_true round h = h tt
  div_next_returns (node v c d) round h = h tt

  div_loop_returns :
      (fuel : ℕ) (a : Ldd)
      → IsLdd k a
      → IsListed a us
      → Within (image_among index (loaded ws eps obs) a lddmc_false eps) a
      → length us < fuel + missing a us
      → (r : Bool) × (div_loop index (loaded ws eps obs) fuel a ≡ some r)
  unfolding div_loop
  div_loop_returns zero a ha listed within lt = absurd (omega (arith, missing-le-length a us))
  div_loop_returns (suc n) a ha listed within lt = elim (Bool-cases (index b == index a)) [
    | inl same ↦ (true, rw same)
    | inr more ↦
        let (m, out, inside) =
          new_member index ok k b a image.formed ha within (λ e. ne (ap index e) more) in
        let shrinks = missing-lt b a us m within (listed m inside) out inside in
        let (r, e) = div_next_returns b (div_loop index (loaded ws eps obs) n) (λ _.
          div_loop_returns n b image.formed (λ m' h. listed m' (within m' h))
            (Within-IsStepImage k ws eps a b _ image
              (image_among-IsStepImage index ok k ws eps obs sized eps b below image.formed) within)
            (omega (arith, shrinks))) in
        (r, rw more e)
  ]
    where
      b : Ldd
      b = image_among index (loaded ws eps obs) a lddmc_false eps

      image : IsStepImage k ws eps a b
      image = image_among-IsStepImage index ok k ws eps obs sized eps a below ha

      ne : {x y : ℕ} → x ≡ y → (x == y) ≡ false → ⊥
      ne {x} {y} e h = cc ((==_iff x y).1 e)

  no_step_run : (a : Ldd) → Answers k ws [] a false
  no_step_run a = (1, λ (m, m', inside, run). stuck m m' run)
    where
      stuck : (m m' : List ℕ) → Run ws [] m 1 m' → ⊥
      stuck m m' (then_by r (by i member f)) = member

  no_marking_run : (is : List ℕ) → Answers k ws is lddmc_false false
  no_marking_run is = (0, λ (m, m', inside, run). cc)

  div_nonempty_decides :
      (fuel : ℕ) (a : Ldd)
      → IsNonempty a
      → IsLdd k a
      → IsClosed ws eps a
      → IsListed a us
      → length us < fuel
      → (r : Bool) × (div_loop index (loaded ws eps obs) fuel a ≡ some r) × Answers k ws eps a r
  div_nonempty_decides fuel a ne ha closed listed lt =
      let image = image_among-IsStepImage index ok k ws eps obs sized eps a below ha in
      let (r, e) =
        div_loop_returns fuel a ha listed
          (λ m' h. let (m, start, step) = image.only m' h in closed m m' start step)
          (omega arith) in
      (r, e, div_loop-Answers index ok k ws eps obs sized below fuel a r ha ne e)

module _ (index : Ldd → ℕ) (ok : IsIndex index) (k : ℕ) (ws : List Weights) (obs : List ℕ)
    (sized : AreSized k ws) where
  set_div-Answers :
      (eps : List ℕ)
      → AreBelow (length ws) eps
      → (us : List (List ℕ)) (fuel : ℕ) (a : Ldd) → IsLdd k a
      → IsClosed ws eps a
      → IsListed a us
      → length us < fuel
      → (r : Bool) × (set_div index (loaded ws eps obs) fuel a ≡ some r) × Answers k ws eps a r
  unfolding set_div div_nonempty
  set_div-Answers [] below us fuel a ha closed listed lt =
      (false, refl, no_step_run index ok k ws [] obs sized below us a)
  set_div-Answers (i ∷ is) below us fuel lddmc_false ha closed listed lt =
      (false, refl, no_marking_run index ok k ws (i ∷ is) obs sized below us (i ∷ is))
  set_div-Answers (i ∷ is) below us fuel lddmc_true ha closed listed lt =
      div_nonempty_decides index ok k ws (i ∷ is) obs sized below us fuel lddmc_true tt ha closed
        listed lt
  set_div-Answers (i ∷ is) below us fuel (node v c d) ha closed listed lt =
      div_nonempty_decides index ok k ws (i ∷ is) obs sized below us fuel (node v c d) tt ha closed
        listed lt

  -- On a well-formed tree that is closed under unobservable transitions and has finitely many
  -- markings, with more rounds allowed than there are markings, Set_Div returns, and it returns
  -- true exactly when the tree has unobservable runs of every length.
  pub set_div_decides :
      (eps : List ℕ)
      → AreBelow (length ws) eps
      → (us : List (List ℕ)) (fuel : ℕ) (a : Ldd) → IsLdd k a
      → IsClosed ws eps a
      → IsListed a us
      → length us < fuel
      → (r : Bool) × (set_div index (loaded ws eps obs) fuel a ≡ some r)
        × ((r ≡ true) ↔ ((n : ℕ) → HasRun ws eps n a))
  set_div_decides eps below us fuel a ha closed listed lt =
      let (r, e, answers) = set_div-Answers eps below us fuel a ha closed listed lt in
      (r, e, Answers-iff k ws eps a r answers)
