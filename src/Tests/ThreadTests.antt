-- ===== src/Tests/ThreadTests.antt =====
-- Steps of a thread of doCompute (src/threadSOG.cpp).
use mc_sog.Graph.{find}
use mc_sog.Graph.Build.{Explorer, explorer, task}
use mc_sog.Graph.Build.Correct.{IsSog}
use mc_sog.Graph.Build.Invariant.{IsEdge}
use mc_sog.Graph.Edges.{HasEdge}
use mc_sog.Graph.Nodes.{ldd_at}
use mc_sog.Graph.Threads.{
  IsFinished, Shared, Steps, fire_transition, firing, first_shared, linking, look_up, no_step,
  one_more, take_entry,
}
use mc_sog.Graph.Threads.Reached.{do_compute-IsSog}
use mc_sog.Ldd.Fire.{fire_chain, lddmc_firing_mono}
use mc_sog.Ldd.Index.{tree_index, tree_index-IsIndex}
use mc_sog.Ldd.Tree.{Ldd, lddmc_cube, lddmc_false, lddmc_makenode, lddmc_true, node}
use mc_sog.Ldd.Union.{lddmc_union_mono, union_fuel, union_nodes, union_swapped, union_terminal}
use mc_sog.Prelude.{[], ap, refl, some, update, ℕ, ◌∷◌, ◌≡◌}
use mc_sog.Sog.{
  accessible_epsilon, epsilon_loop, epsilon_round, firable_among, firable_obs, get_successor,
  insert_firable,
}
use mc_sog.Sog.System.{relation_of}
use mc_sog.Tests.GraphTests.{net}

abbrev pub first_aggregate : Ldd
first_aggregate =
    node 0 (node 1 lddmc_true lddmc_false) (node 1 (node 0 lddmc_true lddmc_false) lddmc_false)

abbrev pub next_aggregate : Ldd
next_aggregate = node 0 (node 0 lddmc_true lddmc_false) lddmc_false

abbrev pub steps_of : Explorer
steps_of = explorer tree_index net 9

abbrev pub begun : Shared
begun = first_shared tree_index steps_of first_aggregate

-- Thread 0 has taken the entry of the initial aggregate.
abbrev taken : Shared
taken = record begun {
  stacks = update begun.stacks 0 [];
  phases = update begun.phases 0 (firing (task 0 first_aggregate (1 ∷ [])));
}

-- It has inserted the aggregate that transition 1 leads to.
abbrev looked_up : Shared
looked_up = record taken {
  graph = (look_up taken.graph next_aggregate (find tree_index taken.graph next_aggregate)).0;
  phases = update taken.phases 0 (
      linking (task 0 first_aggregate []) 1
        (look_up taken.graph next_aggregate (find tree_index taken.graph next_aggregate)).1
        (look_up taken.graph next_aggregate (find tree_index taken.graph next_aggregate)).2);
}

pub fires : steps_of.fire first_aggregate ≡ 1 ∷ []
unfolding firable_obs firable_among insert_firable get_successor lddmc_firing_mono fire_chain
    lddmc_union_mono union_fuel union_terminal union_swapped union_nodes lddmc_makenode lddmc_cube
    tree_index relation_of
fires = refl

pub leads : steps_of.next first_aggregate 1 ≡ some next_aggregate
unfolding accessible_epsilon epsilon_loop epsilon_round get_successor lddmc_firing_mono fire_chain
    lddmc_union_mono union_fuel union_terminal union_swapped union_nodes lddmc_makenode lddmc_cube
    tree_index relation_of
leads = refl

steps : Steps tree_index steps_of begun looked_up
steps =
    one_more 0
      (one_more 0 no_step (
        take_entry (task 0 first_aggregate (1 ∷ [])) [] refl
          (ap (λ ts. task 0 first_aggregate ts ∷ []) fires)))
      (fire_transition 0 first_aggregate next_aggregate 1 [] refl leads)

do_compute-IsSog_example :
    ((i j : ℕ) (d : Ldd)
      → ldd_at looked_up.graph.go_nodes i ≡ some d
      → ldd_at looked_up.graph.go_nodes j ≡ some d
      → i ≡ j)
    × ((p t q : ℕ)
        → HasEdge looked_up.graph.go_nodes p t q
        → IsEdge steps_of first_aggregate looked_up.graph.go_nodes p t q)
    × (IsFinished looked_up → IsSog steps_of first_aggregate looked_up.graph.go_nodes)
do_compute-IsSog_example =
    do_compute-IsSog tree_index tree_index-IsIndex steps_of first_aggregate looked_up steps
