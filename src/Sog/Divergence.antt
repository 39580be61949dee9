-- ===== src/Sog/Divergence.antt =====
-- Set_Div (src/CommonSOG.cpp) and the unobservable runs from a set of markings.
pub mod Decides
use mc_sog.Ldd.Canonical.{some_member}
use mc_sog.Ldd.Tree.{IsIndex, IsLdd, IsNonempty, Ldd, lddmc_false, lddmc_true, mem, node}
use mc_sog.Prelude.{
  ==_iff, Bool, Bool-cases, List, Option, false, inl, inr, length, refl, some, subst, suc, sym,
  true, zero, ℕ, ◌==◌, ◌↔◌, ◌≡◌,
}
use mc_sog.Sog.{CommonSog, div_loop, div_next, image_among}
use mc_sog.Sog.Image.{IsStepImage, image_among-IsStepImage}
use mc_sog.Sog.System.{AreBelow, AreSized, Run, Step, Weights, here, loaded, then_by}

-- A run of `n` steps starts in the tree.
abbrev pub HasRun : List Weights → List ℕ → ℕ → Ldd → Type 0
HasRun ws is n a = (m m' : List ℕ) × (mem a m ≡ true) × Run ws is m n m'

Run-cons :
    (ws : List Weights) (is m : List ℕ) {m' m'' : List ℕ} {n : ℕ}
    → Step ws is m m'
    → Run ws is m' n m''
    → Run ws is m (suc n) m''
Run-cons ws is m step here = then_by here step
Run-cons ws is m step (then_by r last) = then_by (Run-cons ws is m step r) last

Run-first :
    (ws : List Weights) (is m : List ℕ) {m'' : List ℕ} {n : ℕ}
    → Run ws is m (suc n) m''
    → (m' : List ℕ) × Step ws is m m' × Run ws is m' n m''
Run-first ws is m {n = zero} (then_by here step) = (_, step, here)
Run-first ws is m {n = suc n} (then_by r step) =
    let (m', first, rest) = Run-first ws is m r in (m', first, then_by rest step)

module _ (k : ℕ) (ws : List Weights) (eps : List ℕ) where
  HasRun-back :
      (n : ℕ) (a b : Ldd) → IsStepImage k ws eps a b → HasRun ws eps n b → HasRun ws eps (suc n) a
  HasRun-back n a b h (m, m', inside, run) =
      let (m0, start, step) = h.only m inside in (m0, m', start, Run-cons ws eps m0 step run)

  HasRun-forth :
      (n : ℕ) (a b : Ldd) → IsStepImage k ws eps a b → HasRun ws eps (suc n) a → HasRun ws eps n b
  HasRun-forth n a b h (m, m', inside, run) =
      let (m1, step, rest) = Run-first ws eps m run in (m1, m', h.all m m1 inside step, rest)

  HasRun-zero : (a : Ldd) → IsLdd k a → IsNonempty a → HasRun ws eps 0 a
  HasRun-zero a ha n = let (m, inside) = some_member k a ha n in (m, m, inside, here)

  -- A set that is its own image has runs of every length.
  HasRun-self :
      (n : ℕ) (a : Ldd) → IsLdd k a → IsNonempty a → IsStepImage k ws eps a a → HasRun ws eps n a
  HasRun-self zero a ha ne h = HasRun-zero a ha ne
  HasRun-self (suc n) a ha ne h = HasRun-back n a a h (HasRun-self n a ha ne h)

  HasRun-all :
      (a b : Ldd)
      → IsLdd k a
      → IsNonempty a
      → IsStepImage k ws eps a b
      → ((n : ℕ) → HasRun ws eps n b)
      → (n : ℕ) → HasRun ws eps n a
  HasRun-all a b ha ne h runs zero = HasRun-zero a ha ne
  HasRun-all a b ha ne h runs (suc n) = HasRun-back n a b h (runs n)

  -- What an answer says of the runs that start in the tree.
  abbrev pub Answers : Ldd → Bool → Type 0
  Answers a true = (n : ℕ) → HasRun ws eps n a
  Answers a false = (n : ℕ) × ¬ HasRun ws eps n a

  Answers-next :
      (a b : Ldd) (r : Bool)
      → IsLdd k a
      → IsNonempty a
      → IsStepImage k ws eps a b
      → Answers b r
      → Answers a r
  Answers-next a b true ha ne h runs = HasRun-all a b ha ne h runs
  Answers-next a b false ha ne h (n, stuck) = (suc n, λ run. stuck (HasRun-forth n a b h run))

  pub Answers-iff : (a : Ldd) (r : Bool) → Answers a r → (r ≡ true) ↔ ((n : ℕ) → HasRun ws eps n a)
  Answers-iff a true runs = (λ _. runs, λ _. refl)
  Answers-iff a false (n, stuck) = (λ e. cc, λ runs. absurd (stuck (runs n)))

module _ (index : Ldd → ℕ) (ok : IsIndex index) (k : ℕ) (ws : List Weights) (eps obs : List ℕ)
    (sized : AreSized k ws) (below : AreBelow (length ws) eps) where
  abbrev net : CommonSog
  net = loaded ws eps obs

  div_next-Answers :
      (a b : Ldd) (r : Bool) (round : Ldd → Option Bool)
      → IsLdd k a
      → IsNonempty a
      → IsStepImage k ws eps a b
      → (IsNonempty b → round b ≡ some r → Answers k ws eps b r)
      → div_next round b ≡ some r
      → Answers k ws eps a r
  unfolding div_next
  div_next-Answers a lddmc_false true round ha ne h ih e = cc
  div_next-Answers a lddmc_false false round ha ne h ih e =
      (1, λ run. absurd_run (HasRun-forth k ws eps 0 a lddmc_false h run))
    where
      absurd_run : HasRun ws eps 0 lddmc_false → ⊥
      absurd_run (m, m', inside, run) = cc
  div_next-Answers a lddmc_true r round ha ne h ih e =
      Answers-next k ws eps a lddmc_true r ha ne h (ih tt e)
  div_next-Answers a (node v c d) r round ha ne h ih e =
      Answers-next k ws eps a (node v c d) r ha ne h (ih tt e)

  round_true : (r : Bool) → some true ≡ some r → r ≡ true
  round_true true e = refl
  round_true false e = cc

  pub div_loop-Answers :
      (fuel : ℕ) (a : Ldd) (r : Bool)
      → IsLdd k a
      → IsNonempty a
      → div_loop index net fuel a ≡ some r
      → Answers k ws eps a r
  unfolding div_loop
  div_loop-Answers zero a r ha ne e = cc
  div_loop-Answers (suc n) a r ha ne e =
      elim (Bool-cases (index (image_among index net a lddmc_false eps) == index a)) [
        | inl same ↦
            let fixed =
              ok.injective (image_among index net a lddmc_false eps) a ((==_iff _ _).0 same) in
            subst (Answers k ws eps a) (sym (round_true r (rw same at e)))
              (λ l. HasRun-self k ws eps l a ha ne (subst (IsStepImage k ws eps a) fixed image))
        | inr more ↦
            div_next-Answers a (image_among index net a lddmc_false eps) r (div_loop index net n) ha
              ne image (div_loop-Answers n (image_among index net a lddmc_false eps) r image.formed)
              (rw more at e)
      ]
    where
      image : IsStepImage k ws eps a (image_among index net a lddmc_false eps)
      image = image_among-IsStepImage index ok k ws eps obs sized eps a below ha
