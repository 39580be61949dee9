-- ===== src/Tests/CanonizedTests.antt =====
-- Steps of a thread of doComputeCanonized (src/threadSOG.cpp).
use mc_sog.Graph.{find}
use mc_sog.Graph.Build.{task}
use mc_sog.Graph.Canonized.{
  CanonizedSteps, canonical_of, fire_canonized, first_canonized, fresh_of, no_canonized,
  one_canonized, take_canonized,
}
use mc_sog.Graph.Canonized.Lookup.{GraphMatch}
use mc_sog.Graph.Canonized.Nets.{do_compute_canonized_refines}
use mc_sog.Graph.Threads.{Shared, Steps, firing, linking, look_up}
use mc_sog.Ldd.Divide.{chain_length, get_mddnbr, is_single_mdd, ldd_divide_internal, ldd_divide_rec}
use mc_sog.Ldd.Fire.{fire_chain, lddmc_firing_mono}
use mc_sog.Ldd.Index.{tree_index, tree_index-IsIndex}
use mc_sog.Ldd.Minus.{ldd_minus, minus_fuel, minus_nodes, minus_terminal}
use mc_sog.Ldd.Tree.{Ldd, lddmc_cube, lddmc_makenode}
use mc_sog.Ldd.Union.{lddmc_union_mono, union_fuel, union_nodes, union_swapped, union_terminal}
use mc_sog.Prelude.{Option, [], ap, arith, inl, refl, some, update, ◌∷◌, ◌≡◌}
use mc_sog.Sog.{
  accessible_epsilon, epsilon_loop, epsilon_round, get_successor, image_among, image_forward,
}
use mc_sog.Sog.Canonize.{canonize, canonize_part, canonize_split, find_level, reduce, reduce_loop}
use mc_sog.Sog.System.{loaded, relation_of}
use mc_sog.Tests.GraphTests.{all_markings, observed_all, one_token, one_token_member}
use mc_sog.Tests.SogTests.{weights}
use mc_sog.Tests.ThreadTests.{begun, fires, first_aggregate, leads, next_aggregate, steps_of}

abbrev canon : Ldd → Option Ldd
canon = canonical_of tree_index (loaded weights (0 ∷ []) (1 ∷ [])) 2 9

first_canon : canon first_aggregate ≡ some one_token
unfolding canonize find_level canonize_split canonize_part reduce reduce_loop is_single_mdd
    get_mddnbr chain_length ldd_divide_rec ldd_divide_internal ldd_minus minus_fuel minus_terminal
    minus_nodes image_forward image_among get_successor lddmc_firing_mono fire_chain
    lddmc_union_mono union_fuel union_terminal union_swapped union_nodes lddmc_makenode lddmc_cube
    tree_index relation_of
first_canon = refl

next_canon : canon next_aggregate ≡ some next_aggregate
unfolding canonize is_single_mdd
next_canon = refl

abbrev canonized_begun : Shared
canonized_begun = first_canonized tree_index steps_of canon first_aggregate one_token

abbrev canonized_taken : Shared
canonized_taken = record canonized_begun {
  stacks = update canonized_begun.stacks 0 [];
  phases = update canonized_begun.phases 0 (firing (task 0 first_aggregate (1 ∷ [])));
}

abbrev canonized_fired : Shared
canonized_fired = record canonized_taken {
  graph =
      (look_up canonized_taken.graph next_aggregate
        (find tree_index canonized_taken.graph next_aggregate)).0;
  phases = update canonized_taken.phases 0 (
      linking (task 0 first_aggregate []) 1
        (look_up canonized_taken.graph next_aggregate
          (find tree_index canonized_taken.graph next_aggregate)).1
        (fresh_of next_aggregate (find tree_index canonized_taken.graph next_aggregate)));
}

canonized_steps : CanonizedSteps tree_index steps_of canon canonized_begun canonized_fired
canonized_steps =
    one_canonized 0
      (one_canonized 0 no_canonized (
        take_canonized (task 0 first_aggregate (1 ∷ [])) [] refl
          (ap (λ ts. task 0 first_aggregate ts ∷ []) fires)))
      (fire_canonized 0 first_aggregate next_aggregate next_aggregate 1 [] refl leads next_canon)

first_closed :
    accessible_epsilon tree_index (loaded weights (0 ∷ []) (1 ∷ [])) 9 one_token
    ≡ some first_aggregate
unfolding accessible_epsilon epsilon_loop epsilon_round get_successor lddmc_firing_mono fire_chain
    lddmc_union_mono union_fuel union_terminal union_swapped union_nodes lddmc_makenode lddmc_cube
    tree_index relation_of
first_closed = refl

do_compute_canonized_refines_example :
    (s0 : Shared) × Steps tree_index steps_of begun s0
    × (canonized_fired.stacks ≡ s0.stacks)
    × (canonized_fired.phases ≡ s0.phases)
    × GraphMatch tree_index tree_index-IsIndex canon s0.graph canonized_fired.graph
do_compute_canonized_refines_example =
    do_compute_canonized_refines tree_index tree_index-IsIndex 2 weights (0 ∷ []) (1 ∷ [])
      (omega arith) (omega arith) (omega arith) one_token all_markings 9
      (λ m (σ, (m0, first, o)). observed_all (inl (one_token_member m0 first)) o) (omega arith)
      (omega arith) first_aggregate one_token first_closed first_canon canonized_fired
      canonized_steps
