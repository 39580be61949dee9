-- ===== src/Sog/Image.antt =====
-- firable_obs, ImageForward and the inner loop of Set_Div.
use mc_sog.Ldd.Canonical.{some_member}
use mc_sog.Ldd.Fire.Image.{Fires, IsImage}
use mc_sog.Ldd.Tree.{IsIndex, IsLdd, IsNonempty, Ldd, lddmc_false, lddmc_true, mem, node}
use mc_sog.Ldd.Union.{lddmc_union_mono}
use mc_sog.Ldd.Union.Correct.{lddmc_union_mono-IsUnion}
use mc_sog.Prelude.{
  Bool, List, [], false, inl, inr, length, refl, subst, sym, true, ℕ, ◌||◌, ◌↔◌, ◌∙◌, ◌∷◌, ◌≡◌, ◌⊎◌,
}
use mc_sog.Sog.{
  CommonSog, firable_among, firable_obs, get_successor, image_among, image_forward, insert_firable,
}
use mc_sog.Sog.System.{
  AreBelow, AreSized, In, Step, Weights, by, get_successor-IsImage, loaded, weights_at,
}

-- `b` is a well-formed tree for what one step of `is` makes of the markings of `a`.
pub record IsStepImage (k : ℕ) (ws : List Weights) (is : List ℕ) (a b : Ldd) : Type 0 where
  pub formed : IsLdd k b
  pub only : (m' : List ℕ) → mem b m' ≡ true → (m : List ℕ) × (mem a m ≡ true) × Step ws is m m'
  pub all : (m m' : List ℕ) → mem a m ≡ true → Step ws is m m' → mem b m' ≡ true

pub or_cases : (a b : Bool) → (a || b) ≡ true → (a ≡ true) ⊎ (b ≡ true)
or_cases true b h = inl refl
or_cases false b h = inr h

or_intro_left : (a b : Bool) → a ≡ true → (a || b) ≡ true
or_intro_left a b h = rw h

or_intro_right : (a b : Bool) → b ≡ true → (a || b) ≡ true
or_intro_right true b h = refl
or_intro_right false b h = h

Step-later :
    (ws : List Weights) (i : ℕ) (is m m' : List ℕ) → Step ws is m m' → Step ws (i ∷ is) m m'
Step-later ws i is m m' (by j member f) = by j (inr member) f

module _ (index : Ldd → ℕ) (ok : IsIndex index) (k : ℕ) (ws : List Weights) (eps obs : List ℕ)
    (sized : AreSized k ws) where
  abbrev net : CommonSog
  net = loaded ws eps obs

  -- What the loop makes of the tree `res` that it starts with.
  record IsGathered (is : List ℕ) (a res b : Ldd) : Type 0 where
    formed : IsLdd k b
    only :
        (m' : List ℕ)
        → mem b m' ≡ true
        → (mem res m' ≡ true) ⊎ ((m : List ℕ) × (mem a m ≡ true) × Step ws is m m')
    keeps : (m' : List ℕ) → mem res m' ≡ true → mem b m' ≡ true
    all : (m m' : List ℕ) → mem a m ≡ true → Step ws is m m' → mem b m' ≡ true

  IsGathered-step :
      (i : ℕ) (is : List ℕ) (a res image b : Ldd)
      → IsImage k a (weights_at ws i).pre (weights_at ws i).post image
      → ((m : List ℕ) → mem (lddmc_union_mono index res image) m ≡ (mem res m || mem image m))
      → IsGathered is a (lddmc_union_mono index res image) b
      → IsGathered (i ∷ is) a res b
  IsGathered-step i is a res image b h u g = record {
    formed = g.formed;
    only = λ m' inside. elim (g.only m' inside) [
      | inr (m, before, step) ↦ inr (m, before, Step-later ws i is m m' step)
      | inl before ↦ elim (or_cases (mem res m') (mem image m') (sym (u m') ∙ before)) [
        | inl old ↦ inl old
        | inr new ↦ let (m, start, fires) = h.only m' new in inr (m, start, by i (inl refl) fires)
      ]
    ];
    keeps = λ m' inside. g.keeps m' (u m' ∙ or_intro_left (mem res m') (mem image m') inside);
    all = all;
  }
    where
      first :
          (j : ℕ) (m m' : List ℕ)
          → j ≡ i
          → mem a m ≡ true
          → Fires (weights_at ws j).pre (weights_at ws j).post m m'
          → mem b m' ≡ true
      first j m m' e inside fires = g.keeps m' (
          u m'
          ∙ or_intro_right (mem res m') (mem image m') (
              h.all m' (
                m,
                inside,
                subst (λ t. Fires (weights_at ws t).pre (weights_at ws t).post m m') e fires,
              )))

      all : (m m' : List ℕ) → mem a m ≡ true → Step ws (i ∷ is) m m' → mem b m' ≡ true
      all m m' inside (by j (inl e) fires) = first j m m' e inside fires
      all m m' inside (by j (inr member) fires) = g.all m m' inside (by j member fires)

  image_among-IsGathered :
      (is : List ℕ) (a res : Ldd)
      → AreBelow (length ws) is
      → IsLdd k a
      → IsLdd k res
      → IsGathered is a res (image_among index net a res is)
  unfolding image_among
  image_among-IsGathered [] a res below ha hr = record {
    formed = hr;
    only = λ m' inside. inl inside;
    keeps = λ m' inside. inside;
    all = λ m m' inside step. absurd (no_step m m' step);
  }
    where
      no_step : (m m' : List ℕ) → Step ws [] m m' → ⊥
      no_step m m' (by i member f) = absurd member
  image_among-IsGathered (i ∷ is) a res below ha hr =
      let image = get_successor-IsImage index ok k ws eps obs a i sized below.0 ha in
      let u = lddmc_union_mono-IsUnion index ok k res _ hr image.formed in
      IsGathered-step i is a res _ _ image u.members
        (image_among-IsGathered is a _ below.1 ha u.formed)

  pub image_among-IsStepImage :
      (is : List ℕ) (a : Ldd)
      → AreBelow (length ws) is
      → IsLdd k a
      → IsStepImage k ws is a (image_among index net a lddmc_false is)
  image_among-IsStepImage is a below ha =
      let g = image_among-IsGathered is a lddmc_false below ha tt in
      record {
        formed = g.formed;
        only = λ m' inside. elim (g.only m' inside) [ inl old ↦ cc | inr step ↦ step ];
        all = g.all;
      }

  -- ImageForward returns a well-formed tree, and its markings are exactly those that one
  -- unobservable transition reaches from a marking of the given tree.
  pub image_forward-IsStepImage :
      (a : Ldd)
      → AreBelow (length ws) eps
      → IsLdd k a
      → IsStepImage k ws eps a (image_forward index net a)
  unfolding image_forward
  image_forward-IsStepImage a below ha = image_among-IsStepImage eps a below ha

  -- Some marking of the tree enables transition `i`.
  abbrev pub IsFirable : Ldd → ℕ → Type 0
  IsFirable a i =
      (m m' : List ℕ) × (mem a m ≡ true) × Fires (weights_at ws i).pre (weights_at ws i).post m m'

  insert_firable-In :
      (i j : ℕ) (a d : Ldd) (res : List ℕ)
      → IsImage k a (weights_at ws i).pre (weights_at ws i).post d
      → In j (insert_firable d i res) ↔ (((j ≡ i) × IsFirable a i) ⊎ In j res)
  unfolding insert_firable
  insert_firable-In i j a d res h = (to d h, from d h)
    where
      fires :
          (d : Ldd)
          → IsNonempty d
          → IsImage k a (weights_at ws i).pre (weights_at ws i).post d
          → IsFirable a i
      fires d n h =
          let (m', inside) = some_member k d h.formed n in
          let (m, start, f) = h.only m' inside in (m, m', start, f)

      to :
          (d : Ldd)
          → IsImage k a (weights_at ws i).pre (weights_at ws i).post d
          → In j (insert_firable d i res)
          → ((j ≡ i) × IsFirable a i) ⊎ In j res
      to lddmc_false h p = inr p
      to lddmc_true h (inl e) = inl (e, fires lddmc_true tt h)
      to lddmc_true h (inr p) = inr p
      to (node v c r) h (inl e) = inl (e, fires (node v c r) tt h)
      to (node v c r) h (inr p) = inr p

      from :
          (d : Ldd)
          → IsImage k a (weights_at ws i).pre (weights_at ws i).post d
          → ((j ≡ i) × IsFirable a i) ⊎ In j res
          → In j (insert_firable d i res)
      from lddmc_false h (inl (e, (m, m', start, f))) = cc (h.all m' (m, start, f))
      from lddmc_false h (inr p) = p
      from lddmc_true h (inl p) = inl p.0
      from lddmc_true h (inr p) = inr p
      from (node v c r) h (inl p) = inl p.0
      from (node v c r) h (inr p) = inr p

  firable_among-In :
      (is : List ℕ) (a : Ldd) (j : ℕ)
      → AreBelow (length ws) is
      → IsLdd k a
      → In j (firable_among index net a is) ↔ (In j is × IsFirable a j)
  unfolding firable_among
  firable_among-In [] a j below ha = (λ p. absurd p, λ p. p.0)
  firable_among-In (i ∷ is) a j below ha =
      let step =
        insert_firable-In i j a (get_successor index net a i) (firable_among index net a is)
          (get_successor-IsImage index ok k ws eps obs a i sized below.0 ha) in
      let rest = firable_among-In is a j below.1 ha in
      (
        λ p. elim (step.0 p) [
          | inl (e, f) ↦ (inl e, subst (IsFirable a) (sym e) f)
          | inr q ↦ (inr (rest.0 q).0, (rest.0 q).1)
        ],
        λ (member, f). elim member [
          | inl e ↦ step.1 (inl (e, subst (IsFirable a) e f))
          | inr q ↦ step.1 (inr (rest.1 (q, f)))
        ],
      )

  -- firable_obs returns exactly the observable transitions that some marking of the tree enables.
  pub firable_obs-In :
      (a : Ldd) (j : ℕ)
      → AreBelow (length ws) obs
      → IsLdd k a
      → In j (firable_obs index net a) ↔ (In j obs × IsFirable a j)
  unfolding firable_obs
  firable_obs-In a j below ha = firable_among-In obs a j below ha
