-- ===== src/Tests/AmpleTests.antt =====
-- computeAmple2 and saturatePOR (src/CommonSOG.cpp) on a net of two places.
use mc_sog.Ldd.Fire.{fire_chain, lddmc_firing_mono}
use mc_sog.Ldd.Fire.Image.{Fires}
use mc_sog.Ldd.Index.{tree_index, tree_index-IsIndex}
use mc_sog.Ldd.Intersect.{intersect_fuel, lddmc_intersect}
use mc_sog.Ldd.Tree.{IsLdd, Ldd, lddmc_cube, lddmc_false, lddmc_makenode, lddmc_true, mem, node}
use mc_sog.Ldd.Union.{lddmc_union_mono, union_fuel, union_nodes, union_swapped, union_terminal}
use mc_sog.Net.{Transition, empty_node}
use mc_sog.Net.Observable.{contains, insert_int}
use mc_sog.Prelude.{
  List, [], arith, false, inl, inr, length, none, pos, refl, some, subst, suc, sym, true, zero, ℕ,
  ◌<◌, ◌^◌, ◌∷◌, ◌≡◌,
}
use mc_sog.Sog.{CommonSog, get_pred, get_successor, image_among}
use mc_sog.Sog.Ample.{
  Saturated, add_by2, add_conflict2, ample_loop, ample_round, compute_ample2, insert_first,
  is_covered, is_stacked, observable_at, preimage_among, saturate_loop, saturate_por, take,
  take_all, take_ample, take_one, visit,
}
use mc_sog.Sog.Ample.Covers.{IsCovering, compute_ample2-IsCovering, compute_ample2_returns}
use mc_sog.Sog.Ample.Reverse.{AreLight, AreSmall}
use mc_sog.Sog.Ample.Saturate.{IsSaturated, saturate_por-IsSaturated, saturate_por_stuck}
use mc_sog.Sog.Conflict.{add_from, common_with, have_common_pre, insert_if}
use mc_sog.Sog.Finite.{InMarks}
use mc_sog.Sog.System.{In, Reached, loaded, relation_of, weights_at}
use mc_sog.Tests.SogTests.{bounded-Run, reachable, weights}

-- Transition 0 moves a token from the first place to the second, and transition 1, which is
-- observable, takes one from the second.
abbrev transitions : List Transition
transitions =
    record {
      arcs = record empty_node { pre = (0, pos 1) ∷ []; post = (1, pos 1) ∷ [] };
      name = [];
      observable = false;
    }
    ∷ record { arcs = record empty_node { pre = (1, pos 1) ∷ [] }; name = []; observable = true }
    ∷ []

abbrev two_tokens : Ldd
two_tokens = node 2 (node 0 lddmc_true lddmc_false) lddmc_false

two_tokens-IsLdd : IsLdd 2 two_tokens
two_tokens-IsLdd = omega arith

two_tokens_member : (m : List ℕ) → mem two_tokens m ≡ true → m ≡ 2 ∷ 0 ∷ []
two_tokens_member [] h = cc
two_tokens_member (x ∷ []) h = absurd (ground arith)
two_tokens_member (x ∷ y ∷ []) h = ground arith
two_tokens_member (x ∷ y ∷ z ∷ m) h = absurd (ground arith)

weights-AreLight : AreLight weights
weights-AreLight = omega arith

two_tokens-AreSmall : (m : List ℕ) → mem two_tokens m ≡ true → AreSmall (2 ^ 30) m
two_tokens-AreSmall m inside = rw (two_tokens_member m inside) (omega arith)

abbrev test_net : CommonSog
test_net = loaded weights (0 ∷ []) (1 ∷ [])

compute_ample2_runs : compute_ample2 tree_index test_net transitions 1 two_tokens ≡ some (0 ∷ [])
unfolding compute_ample2 ample_loop ample_round visit add_conflict2 add_by2 insert_first
    preimage_among is_covered add_from insert_if have_common_pre common_with contains insert_int
    image_among get_successor get_pred lddmc_firing_mono fire_chain lddmc_intersect intersect_fuel
    lddmc_union_mono union_fuel union_terminal union_swapped union_nodes lddmc_makenode lddmc_cube
    tree_index relation_of
compute_ample2_runs = refl

abbrev saturated : Saturated
saturated = record {
  reach2 =
      node 0 (node 2 lddmc_true lddmc_false) (
        node 1 (node 1 lddmc_true lddmc_false)
          (node 2 (node 0 lddmc_true lddmc_false) lddmc_false));
  fire_obs = 1 ∷ [];
  div = false;
  dead = false;
}

saturate_por_runs : saturate_por tree_index test_net transitions 1 3 two_tokens ≡ some saturated
unfolding saturate_por saturate_loop take_ample take_one take_all take is_stacked compute_ample2
    ample_loop ample_round visit add_conflict2 add_by2 insert_first preimage_among is_covered
    add_from insert_if have_common_pre common_with contains insert_int image_among get_successor
    get_pred lddmc_firing_mono fire_chain lddmc_intersect intersect_fuel lddmc_union_mono union_fuel
    union_terminal union_swapped union_nodes lddmc_makenode lddmc_cube tree_index relation_of
saturate_por_runs = refl

hidden_others : (t : ℕ) → t < length weights → observable_at transitions t ≡ false → In t (0 ∷ [])
hidden_others zero lt e = inl refl
hidden_others (suc zero) lt e = cc
hidden_others (suc (suc t)) lt e = absurd (omega (arith, lt))

reachable-AreSmall : (m : List ℕ) → InMarks m reachable → AreSmall (2 ^ 30) m
reachable-AreSmall m (inl e) = rw e (omega arith)
reachable-AreSmall m (inr (inl e)) = rw e (omega arith)
reachable-AreSmall m (inr (inr (inl e))) = rw e (omega arith)
reachable-AreSmall m (inr (inr (inr h))) = absurd h

reached-AreSmall : (m : List ℕ) → Reached weights (0 ∷ []) two_tokens m → AreSmall (2 ^ 30) m
reached-AreSmall m (m0, n, inside, run) =
    reachable-AreSmall m (bounded-Run m0 (inl (two_tokens_member m0 inside)) run)

compute_ample2-IsCovering_example :
    IsCovering tree_index tree_index-IsIndex 2 weights
      (0 ∷ [])
      (1 ∷ [])
      (omega arith)
      weights-AreLight
      transitions
      refl
      two_tokens
      two_tokens-IsLdd
      two_tokens-AreSmall
      (0 ∷ [])
compute_ample2-IsCovering_example =
    compute_ample2-IsCovering tree_index tree_index-IsIndex 2 weights (0 ∷ []) (1 ∷ [])
      (omega arith) weights-AreLight transitions refl two_tokens two_tokens-IsLdd
      two_tokens-AreSmall 1 (0 ∷ []) compute_ample2_runs

no_earlier :
    (j : ℕ)
    → j < 0
    → (m m' : List ℕ) → mem two_tokens m ≡ true
    → ¬ Fires (weights_at weights j).pre (weights_at weights j).post m m'
no_earlier j lt m m' inside f = omega (arith, lt)

two_tokens_enable :
    (m : List ℕ)
    → mem two_tokens m ≡ true
    → (m' : List ℕ) × Fires (weights_at weights 0).pre (weights_at weights 0).post m m'
two_tokens_enable m inside =
    subst (λ m. (m' : List ℕ) × Fires (weights_at weights 0).pre (weights_at weights 0).post m m')
      (sym (two_tokens_member m inside)) (1 ∷ 1 ∷ [], omega arith)

compute_ample2_returns_example :
    (r : List ℕ) × (compute_ample2 tree_index test_net transitions 1 two_tokens ≡ some r)
    × IsCovering tree_index tree_index-IsIndex 2 weights
        (0 ∷ [])
        (1 ∷ [])
        (omega arith)
        weights-AreLight
        transitions
        refl
        two_tokens
        two_tokens-IsLdd
        two_tokens-AreSmall
        r
compute_ample2_returns_example =
    compute_ample2_returns tree_index tree_index-IsIndex 2 weights (0 ∷ []) (1 ∷ []) (omega arith)
      weights-AreLight transitions refl two_tokens two_tokens-IsLdd two_tokens-AreSmall 0 0
      (omega arith) no_earlier two_tokens_enable

saturate_por-IsSaturated_example :
    IsSaturated tree_index tree_index-IsIndex 2 weights
      (0 ∷ [])
      (1 ∷ [])
      (omega arith)
      weights-AreLight
      transitions
      refl
      hidden_others
      two_tokens
      two_tokens-IsLdd
      reached-AreSmall
      saturated
saturate_por-IsSaturated_example =
    saturate_por-IsSaturated tree_index tree_index-IsIndex 2 weights (0 ∷ []) (1 ∷ []) (omega arith)
      weights-AreLight transitions refl hidden_others two_tokens two_tokens-IsLdd reached-AreSmall 1
      3 saturated tt saturate_por_runs

-- The marking without tokens enables nothing.
abbrev no_tokens : Ldd
no_tokens = node 0 (node 0 lddmc_true lddmc_false) lddmc_false

no_tokens-AreSmall : (m : List ℕ) → mem no_tokens m ≡ true → AreSmall (2 ^ 30) m
no_tokens-AreSmall [] h = tt
no_tokens-AreSmall (x ∷ []) h = absurd (ground arith)
no_tokens-AreSmall (x ∷ y ∷ []) h = ground arith
no_tokens-AreSmall (x ∷ y ∷ z ∷ m) h = absurd (ground arith)

no_tokens_stuck :
    (t : ℕ)
    → t < length weights
    → (m' : List ℕ) → ¬ Fires (weights_at weights t).pre (weights_at weights t).post (0 ∷ 0 ∷ []) m'
no_tokens_stuck zero lt [] f = f
no_tokens_stuck zero lt (x ∷ m') f = omega (arith, f.0)
no_tokens_stuck (suc zero) lt [] f = f
no_tokens_stuck (suc zero) lt (x ∷ []) f = f.2
no_tokens_stuck (suc zero) lt (x ∷ y ∷ m') f = omega (arith, f.2.0)
no_tokens_stuck (suc (suc t)) lt m' f = omega (arith, lt)

saturate_por_stuck_example : saturate_por tree_index test_net transitions 7 7 no_tokens ≡ none
saturate_por_stuck_example =
    saturate_por_stuck tree_index tree_index-IsIndex 2 weights (0 ∷ []) (1 ∷ []) (omega arith)
      weights-AreLight transitions refl hidden_others 7 7 no_tokens (omega arith) no_tokens-AreSmall
      (0 ∷ 0 ∷ []) refl no_tokens_stuck
