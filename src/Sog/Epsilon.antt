-- ===== src/Sog/Epsilon.antt =====
-- Accessible_epsilon (src/CommonSOG.cpp) and the markings that unobservable transitions reach.
pub mod Ends
use mc_sog.Ldd.Fire.Image.{Fires, IsImage}
use mc_sog.Ldd.Tree.{IsIndex, IsLdd, Ldd, mem}
use mc_sog.Ldd.Union.{lddmc_union_mono}
use mc_sog.Ldd.Union.Correct.{IsUnion, lddmc_union_mono-IsUnion}
use mc_sog.Prelude.{
  ==_iff, Bool, Bool-cases, List, [], false, inl, inr, length, refl, some, subst, suc, sym, true,
  zero, ℕ, ◌<◌, ◌==◌, ◌||◌, ◌↔◌, ◌∙◌, ◌∷◌, ◌≡◌, ◌⊎◌,
}
use mc_sog.Sog.{CommonSog, accessible_epsilon, epsilon_loop, epsilon_round, get_successor}
use mc_sog.Sog.System.{
  AreBelow, AreSized, In, Reached, Run, Run-trans, Step, Weights, by, get_successor-IsImage, here,
  loaded, then_by, weights_at,
}

-- What a round, or the loop, makes of the tree `a`.
pub record IsClosing (k : ℕ) (ws : List Weights) (eps : List ℕ) (a b : Ldd) : Type 0 where
  pub formed : IsLdd k b
  pub keeps : (m : List ℕ) → mem a m ≡ true → mem b m ≡ true
  pub sound : (m : List ℕ) → mem b m ≡ true → Reached ws eps a m

IsClosing-refl :
    (k : ℕ) (ws : List Weights) (eps : List ℕ) (a : Ldd) → IsLdd k a → IsClosing k ws eps a a
IsClosing-refl k ws eps a h = record {
  formed = h;
  keeps = λ m inside. inside;
  sound = λ m inside. (m, 0, inside, here);
}

IsClosing-trans :
    (k : ℕ) (ws : List Weights) (eps : List ℕ) (a b c : Ldd)
    → IsClosing k ws eps a b
    → IsClosing k ws eps b c
    → IsClosing k ws eps a c
IsClosing-trans k ws eps a b c h g = record {
  formed = g.formed;
  keeps = λ m inside. g.keeps m (h.keeps m inside);
  sound = λ m inside.
      let (m1, p, in1, r1) = g.sound m inside in
      let (m0, n, in0, r0) = h.sound m1 in1 in
      let (q, r) = Run-trans ws eps r0 r1 in (m0, q, in0, r);
}

-- The markings of `b` hold what `i` makes of those of `a`.
abbrev Adds : List Weights → Ldd → Ldd → ℕ → Type 0
Adds ws a b i =
    (m m' : List ℕ)
    → mem a m ≡ true
    → Fires (weights_at ws i).pre (weights_at ws i).post m m'
    → mem b m' ≡ true

or_true : (a b : Bool) → (a ≡ true) ⊎ (b ≡ true) → (a || b) ≡ true
or_true true b h = refl
or_true false b (inl h) = cc
or_true false b (inr h) = h

true_or : (a b : Bool) → (a || b) ≡ true → (a ≡ true) ⊎ (b ≡ true)
true_or true b h = inl refl
true_or false b h = inr h

module _ (index : Ldd → ℕ) (ok : IsIndex index) (k : ℕ) (ws : List Weights) (eps obs : List ℕ)
    (sized : AreSized k ws) where
  abbrev net : CommonSog
  net = loaded ws eps obs

  step_union : Ldd → ℕ → Ldd
  step_union a i = lddmc_union_mono index a (get_successor index net a i)

  step_union-IsClosing :
      (a : Ldd) (i : ℕ)
      → IsLdd k a
      → i < length ws
      → In i eps
      → IsClosing k ws eps a (step_union a i) × Adds ws a (step_union a i) i
  unfolding step_union
  step_union-IsClosing a i ha hi member = (
    record {
      formed = u.formed;
      keeps = λ m inside. u.members m ∙ or_true (mem a m) _ (inl inside);
      sound = λ m inside. elim (true_or (mem a m) _ (sym (u.members m) ∙ inside)) [
        | inl old ↦ (m, 0, old, here)
        | inr new ↦
            let (m0, in0, fires) = image.only m new in
            (m0, 1, in0, then_by here (by i member fires))
      ];
    },
    λ m m' inside fires.
        u.members m' ∙ or_true (mem a m') _ (inr (image.all m' (m, inside, fires))),
  )
    where
      image : IsImage k a (weights_at ws i).pre (weights_at ws i).post (get_successor index net a i)
      image = get_successor-IsImage index ok k ws eps obs a i sized hi ha

      u :
          IsUnion k a
            (get_successor index net a i)
            (lddmc_union_mono index a (get_successor index net a i))
      u = lddmc_union_mono-IsUnion index ok k a _ ha image.formed

  pub epsilon_round-IsClosing :
      (a : Ldd) (is : List ℕ)
      → IsLdd k a
      → AreBelow (length ws) is
      → ((i : ℕ) → In i is → In i eps)
      → IsClosing k ws eps a (epsilon_round index net a is)
  unfolding epsilon_round step_union
  epsilon_round-IsClosing a [] ha below sub = IsClosing-refl k ws eps a ha
  epsilon_round-IsClosing a (i ∷ is) ha below sub =
      let (c, _) = step_union-IsClosing a i ha below.0 (sub i (inl refl)) in
      IsClosing-trans k ws eps a (step_union a i) _ c
        (epsilon_round-IsClosing (step_union a i) is c.formed below.1 (λ j h. sub j (inr h)))

  epsilon_round-Adds :
      (a : Ldd) (is : List ℕ)
      → IsLdd k a
      → AreBelow (length ws) is
      → ((i : ℕ) → In i is → In i eps)
      → (i : ℕ) → In i is
      → Adds ws a (epsilon_round index net a is) i
  unfolding epsilon_round step_union
  epsilon_round-Adds a [] ha below sub i h = absurd h
  epsilon_round-Adds a (j ∷ is) ha below sub i (inl e) = λ m m' inside fires.
      let (c, adds) = step_union-IsClosing a j ha below.0 (sub j (inl refl)) in
      let rest =
        epsilon_round-IsClosing (step_union a j) is c.formed below.1 (λ l h. sub l (inr h)) in
      rest.keeps m' (adds m m' inside (rw e at fires))
  epsilon_round-Adds a (j ∷ is) ha below sub i (inr h) = λ m m' inside fires.
      let (c, adds) = step_union-IsClosing a j ha below.0 (sub j (inl refl)) in
      epsilon_round-Adds (step_union a j) is c.formed below.1 (λ l p. sub l (inr p)) i h m m'
        (c.keeps m inside) fires

  -- The result of the loop is closed under the unobservable transitions.
  abbrev IsClosed : Ldd → Type 0
  IsClosed b = (m m' : List ℕ) → mem b m ≡ true → Step ws eps m m' → mem b m' ≡ true

  module _ (below : AreBelow (length ws) eps) where
    some_eq : (a b : Ldd) → some a ≡ some b → a ≡ b
    some_eq a b e = cc

    -- A round that changes nothing ends the loop.
    fixed :
        (a r b : Ldd)
        → a ≡ r
        → r ≡ b
        → IsClosing k ws eps a r
        → ((i : ℕ) → In i eps → Adds ws a r i)
        → IsClosing k ws eps a b × IsClosed b
    fixed a r b same e closing adds =
        subst (λ c. IsClosing k ws eps a c × IsClosed c) e (closing, closed)
      where
        closed : IsClosed r
        closed m m' inside (by i member fires) = adds i member m m' (rw same inside) fires

    epsilon_loop-IsClosing :
        (fuel : ℕ) (a b : Ldd)
        → IsLdd k a
        → epsilon_loop index net fuel a ≡ some b
        → IsClosing k ws eps a b × IsClosed b
    unfolding epsilon_loop
    epsilon_loop-IsClosing zero a b ha e = cc
    epsilon_loop-IsClosing (suc n) a b ha e =
        elim (Bool-cases (index a == index (epsilon_round index net a eps))) [
          | inl same ↦
              fixed a (epsilon_round index net a eps) b
                (ok.injective a (epsilon_round index net a eps) ((==_iff _ _).0 same))
                (some_eq (epsilon_round index net a eps) b (rw same at e))
                (epsilon_round-IsClosing a eps ha below (λ i h. h))
                (epsilon_round-Adds a eps ha below (λ i h. h))
          | inr more ↦
              let closing = epsilon_round-IsClosing a eps ha below (λ i h. h) in
              let (c, closed) =
                epsilon_loop-IsClosing n (epsilon_round index net a eps) b closing.formed
                  (rw more at e) in
              (IsClosing-trans k ws eps a (epsilon_round index net a eps) b closing c, closed)
        ]

    Run-member :
        (b : Ldd) (m : List ℕ) {m' : List ℕ} {n : ℕ}
        → IsClosed b
        → mem b m ≡ true
        → Run ws eps m n m'
        → mem b m' ≡ true
    Run-member b m closed inside here = inside
    Run-member b m closed inside (then_by r step) = closed _ _ (Run-member b m closed inside r) step

    -- When Accessible_epsilon returns a tree, it is well formed and its markings are exactly those
    -- that unobservable transitions reach from the markings of the given tree.
    pub accessible_epsilon-members :
        (fuel : ℕ) (from to : Ldd)
        → IsLdd k from
        → accessible_epsilon index net fuel from ≡ some to
        → IsLdd k to × ((m : List ℕ) → (mem to m ≡ true) ↔ Reached ws eps from m)
    unfolding accessible_epsilon
    accessible_epsilon-members fuel from to hf e =
        let (closing, closed) = epsilon_loop-IsClosing fuel from to hf e in
        (
          closing.formed,
          λ m. (
            closing.sound m,
            λ (m0, n, inside, run). Run-member to m0 closed (closing.keeps m0 inside) run,
          ),
        )
