-- ===== src/Sog/Canonize/Reduce.antt =====
-- The inner loops of Canonize (src/CommonSOG.cpp) end, and what they take away.
use mc_sog.Graph.Build.{reach}
use mc_sog.Ldd.Canonical.{some_member}
use mc_sog.Ldd.Minus.{ldd_minus}
use mc_sog.Ldd.Minus.Correct.{IsMinus, ldd_minus-IsMinus}
use mc_sog.Ldd.Tree.{IsIndex, IsLdd, IsNonempty, Ldd, lddmc_false, lddmc_true, mem, node}
use mc_sog.Ldd.Union.{lddmc_union_mono}
use mc_sog.Ldd.Union.Correct.{IsUnion, lddmc_union_mono-IsUnion}
use mc_sog.Prelude.{
  Bool, Bool-cases, List, Option, arith, false, inl, inr, length, not, refl, some, suc, sym, true,
  zero, ℕ, ◌&&◌, ◌<◌, ◌||◌, ◌∙◌, ◌≡◌, ◌⊎◌,
}
use mc_sog.Sog.{image_forward}
use mc_sog.Sog.Canonize.{is_false, reduce, reduce_loop}
use mc_sog.Sog.Finite.{InMarks, Within, missing, missing-le-length, missing-lt}
use mc_sog.Sog.Image.{IsStepImage, image_forward-IsStepImage}
use mc_sog.Sog.System.{AreBelow, AreSized, Reached, Weights, here, loaded, then_by}

-- `t` is the part of `s` without markings that unobservable transitions reach from `from`.
pub record IsReduced (k : ℕ) (ws : List Weights) (eps : List ℕ) (from s t : Ldd) : Type 0 where
  pub formed : IsLdd k t
  pub inside : Within t s
  pub taken : (m : List ℕ) → mem s m ≡ true → (mem t m ≡ true) ⊎ Reached ws eps from m

pub is_false-cases :
    (a : Ldd) → ((is_false a ≡ true) × (a ≡ lddmc_false)) ⊎ ((is_false a ≡ false) × IsNonempty a)
is_false-cases lddmc_false = inl (refl, refl)
is_false-cases lddmc_true = inr (refl, tt)
is_false-cases (node v d r) = inr (refl, tt)

IsReduced-same :
    (k : ℕ) (ws : List Weights) (eps : List ℕ) (from s : Ldd)
    → IsLdd k s
    → IsReduced k ws eps from s s
IsReduced-same k ws eps from s h = record {
  formed = h;
  inside = λ m inside. inside;
  taken = λ m inside. inl inside;
}

minus_true : (a b : Bool) → (a && not b) ≡ true → (a ≡ true) × (b ≡ false)
minus_true a b e = ground arith

minus_cases : (a b : Bool) → a ≡ true → ((a && not b) ≡ true) ⊎ (b ≡ true)
minus_cases a true e = inr refl
minus_cases a false e = inl (rw e)

pub or_left : (a b : Bool) → a ≡ true → (a || b) ≡ true
or_left a b e = rw e

pub or_right : (a b : Bool) → b ≡ true → (a || b) ≡ true
or_right true b e = refl
or_right false b e = e

module _ (index : Ldd → ℕ) (ok : IsIndex index) (k : ℕ) (ws : List Weights) (eps obs : List ℕ)
    (sized : AreSized k ws) (below : AreBelow (length ws) eps) where
  -- All of the tree is reached from `from`.
  abbrev AreReached : Ldd → Ldd → Type 0
  AreReached from a = (m : List ℕ) → mem a m ≡ true → Reached ws eps from m

  module _ (from front reach s : Ldd) (hf : IsLdd k front) (hr : IsLdd k reach) (hs : IsLdd k s)
      (rf : AreReached from front) where
    abbrev front' : Ldd
    front' = ldd_minus index (image_forward index (loaded ws eps obs) front) reach

    image : IsStepImage k ws eps front (image_forward index (loaded ws eps obs) front)
    image = image_forward-IsStepImage index ok k ws eps obs sized front below hf

    front-IsMinus : IsMinus k (image_forward index (loaded ws eps obs) front) reach front'
    front-IsMinus = ldd_minus-IsMinus index ok k _ reach image.formed hr

    front-AreReached : AreReached from front'
    front-AreReached m inside =
        let (in_image, fresh) = minus_true _ _ (sym (front-IsMinus.members m) ∙ inside) in
        let (m0, before, step) = image.only m in_image in
        let (m1, n, origin, run) = rf m0 before in (m1, suc n, origin, then_by run step)

    reach-IsUnion : IsUnion k reach front' (lddmc_union_mono index reach front')
    reach-IsUnion = lddmc_union_mono-IsUnion index ok k reach front' hr front-IsMinus.formed

    rest-IsMinus : IsMinus k s front' (ldd_minus index s front')
    rest-IsMinus = ldd_minus-IsMinus index ok k s front' hs front-IsMinus.formed

    rest-IsReduced : IsReduced k ws eps from s (ldd_minus index s front')
    rest-IsReduced = record {
      formed = rest-IsMinus.formed;
      inside = λ m inside. (minus_true _ _ (sym (rest-IsMinus.members m) ∙ inside)).0;
      taken = λ m inside. elim (minus_cases (mem s m) (mem front' m) inside) [
        | inl stays ↦ inl (rest-IsMinus.members m ∙ stays)
        | inr reached ↦ inr (front-AreReached m reached)
      ];
    }

    -- A front that is not empty adds a marking.
    reach-grows :
        (us : List (List ℕ))
        → ((m : List ℕ) → Reached ws eps from m → InMarks m us)
        → IsNonempty front'
        → missing (lddmc_union_mono index reach front') us < missing reach us
    reach-grows us bounded ne =
        let (m, inside) = some_member k front' front-IsMinus.formed ne in
        let (in_image, fresh) = minus_true _ _ (sym (front-IsMinus.members m) ∙ inside) in
        missing-lt reach (lddmc_union_mono index reach front') us m
          (λ u h. reach-IsUnion.members u ∙ or_left _ _ h) (bounded m (front-AreReached m inside))
          fresh (reach-IsUnion.members m ∙ or_right _ _ inside)

  IsReduced-trans :
      (from s t u : Ldd)
      → IsReduced k ws eps from s t
      → IsReduced k ws eps from t u
      → IsReduced k ws eps from s u
  IsReduced-trans from s t u h g = record {
    formed = g.formed;
    inside = λ m inside. h.inside m (g.inside m inside);
    taken = λ m inside. elim (h.taken m inside) [
      | inl stays ↦ g.taken m stays
      | inr reached ↦ inr reached
    ];
  }

  abbrev pub Reduces : Ldd → Ldd → Option Ldd → Type 0
  Reduces from s r = (t : Ldd) × (r ≡ some t) × IsReduced k ws eps from s t

  reduce_loop-Reduces :
      (us : List (List ℕ)) (fuel : ℕ) (from front reach s : Ldd)
      → IsLdd k front
      → IsLdd k reach
      → IsLdd k s
      → AreReached from front
      → ((m : List ℕ) → Reached ws eps from m → InMarks m us)
      → missing reach us < fuel
      → Reduces from s (reduce_loop index (loaded ws eps obs) fuel front reach s)
  unfolding reduce_loop
  reduce_loop-Reduces us zero from front reach s hf hr hs rf bounded lt = absurd (omega arith)
  reduce_loop-Reduces us (suc fuel) from front reach s hf hr hs rf bounded lt =
      let f = front' from front reach s hf hr hs rf in
      let first = rest-IsReduced from front reach s hf hr hs rf in
      elim (is_false-cases f) [
        | inl (over, e) ↦ (ldd_minus index s f, rw over, first)
        | inr (more, ne) ↦ elim (Bool-cases (is_false (ldd_minus index s f))) [
          | inl empty ↦ (ldd_minus index s f, rw (more, empty), first)
          | inr filled ↦
              let (t, e, h) =
                reduce_loop-Reduces us fuel from f (lddmc_union_mono index reach f)
                  (ldd_minus index s f) (front-IsMinus from front reach s hf hr hs rf).formed
                  (reach-IsUnion from front reach s hf hr hs rf).formed first.formed
                  (front-AreReached from front reach s hf hr hs rf) bounded
                  (omega (arith, reach-grows from front reach s hf hr hs rf us bounded ne)) in
              (t, rw (more, filled) e, IsReduced-trans from s _ t first h)
        ]
      ]

  -- With more fuel than there are markings to reach, the loop ends, and it takes away only markings
  -- that unobservable transitions reach from the other part.
  pub reduce-Reduces :
      (us : List (List ℕ)) (fuel : ℕ) (from s : Ldd)
      → IsLdd k from
      → IsLdd k s
      → ((m : List ℕ) → Reached ws eps from m → InMarks m us)
      → length us < fuel
      → Reduces from s (reduce index (loaded ws eps obs) fuel s from)
  unfolding reduce
  reduce-Reduces us fuel from s hf hs bounded lt = elim (Bool-cases (is_false s || is_false from)) [
    | inl empty ↦ (s, rw empty, IsReduced-same k ws eps from s hs)
    | inr filled ↦
        let (t, e, h) =
          reduce_loop-Reduces us fuel from from from s hf hf hs (λ m inside. (m, 0, inside, here))
            bounded (omega (arith, missing-le-length from us)) in
        (t, rw filled e, h)
  ]
