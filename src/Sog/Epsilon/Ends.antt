-- ===== src/Sog/Epsilon/Ends.antt =====
-- The fuel of Accessible_epsilon (src/CommonSOG.cpp), for finitely many reachable markings.
use mc_sog.Ldd.Tree.{IsIndex, IsLdd, Ldd, mem}
use mc_sog.Prelude.{
  ==_iff, Bool-cases, List, ap, arith, false, inl, inr, length, some, suc, true, zero, ℕ, ◌<◌, ◌==◌,
  ◌↔◌, ◌≡◌,
}
use mc_sog.Sog.{accessible_epsilon, epsilon_loop, epsilon_round}
use mc_sog.Sog.Epsilon.{IsClosing, accessible_epsilon-members, epsilon_round-IsClosing}
use mc_sog.Sog.Finite.{InMarks, missing, missing-le-length, missing-lt, new_member}
use mc_sog.Sog.System.{AreBelow, AreSized, Reached, Run-trans, Weights, loaded}

-- All that the transitions `is` reach from the tree is in the list.
abbrev pub IsBounded : List Weights → List ℕ → Ldd → List (List ℕ) → Type 0
IsBounded ws is a us = (m : List ℕ) → Reached ws is a m → InMarks m us

module _ (index : Ldd → ℕ) (ok : IsIndex index) (k : ℕ) (ws : List Weights) (eps obs : List ℕ)
    (sized : AreSized k ws) (below : AreBelow (length ws) eps) where
  epsilon_loop_returns :
      (us : List (List ℕ)) (fuel : ℕ) (a : Ldd)
      → IsLdd k a
      → IsBounded ws eps a us
      → missing a us < fuel
      → (b : Ldd) × (epsilon_loop index (loaded ws eps obs) fuel a ≡ some b)
  unfolding epsilon_loop
  epsilon_loop_returns us zero a ha bounded lt = elim lt [ ]
  epsilon_loop_returns us (suc n) a ha bounded lt =
      elim (Bool-cases (index a == index (epsilon_round index (loaded ws eps obs) a eps))) [
        | inl same ↦ (epsilon_round index (loaded ws eps obs) a eps, rw same)
        | inr more ↦
            let r = epsilon_round index (loaded ws eps obs) a eps in
            let closing : IsClosing k ws eps a r =
              epsilon_round-IsClosing index ok k ws eps obs sized a eps ha below (λ i h. h) in
            let (m, out, inside) =
              new_member index ok k a r ha closing.formed closing.keeps
                (λ e. ne (ap index e) more) in
            let (b, e) =
              epsilon_loop_returns us n r closing.formed
                (λ m' reached. bounded m' (reached_round a r closing m' reached))
                (omega (
                  arith,
                  missing-lt a r us m closing.keeps (bounded m (closing.sound m inside)) out inside,
                )) in
            (b, rw more e)
      ]
    where
      ne : {x y : ℕ} → x ≡ y → (x == y) ≡ false → ⊥
      ne {x} {y} e h = cc ((==_iff x y).1 e)

      reached_round :
          (a r : Ldd)
          → IsClosing k ws eps a r
          → (m : List ℕ) → Reached ws eps r m
          → Reached ws eps a m
      reached_round a r closing m (m1, p, in1, r1) =
          let (m0, n, in0, r0) = closing.sound m1 in1 in
          let (q, run) = Run-trans ws eps r0 r1 in (m0, q, in0, run)

  -- Where unobservable transitions reach finitely many markings from the given tree, and the loop
  -- may make more rounds than there are such markings, Accessible_epsilon returns a well-formed
  -- tree whose markings are exactly the reached ones.
  pub accessible_epsilon_closure :
      (us : List (List ℕ)) (fuel : ℕ) (from : Ldd)
      → IsLdd k from
      → IsBounded ws eps from us
      → length us < fuel
      → (to : Ldd) × (accessible_epsilon index (loaded ws eps obs) fuel from ≡ some to)
        × IsLdd k to
        × ((m : List ℕ) → (mem to m ≡ true) ↔ Reached ws eps from m)
  accessible_epsilon_closure us fuel from hf bounded lt =
      let (to, e) =
        epsilon_loop_returns us fuel from hf bounded (omega (arith, missing-le-length from us)) in
      let e' : accessible_epsilon index (loaded ws eps obs) fuel from ≡ some to =
        unfold accessible_epsilon in e in
      let (formed, members) =
        accessible_epsilon-members index ok k ws eps obs sized below fuel from to hf e' in
      (to, e', formed, members)
