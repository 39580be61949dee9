-- ===== src/Tests/GraphTests.antt =====
-- The graph of a net of two places by computeSeqSOG (src/threadSOG.cpp).
use mc_sog.Graph.{
  LddGraph, add_arc, find, find_from, insert, insert_find_by_mdd, insert_predecessor,
  insert_successor, link, new_state, set_initial_state,
}
use mc_sog.Graph.Build.{
  build_loop, compute_seq_sog, empty_graph, explorer, first_search, reach, reach_found, reach_new,
  scan,
}
use mc_sog.Graph.Build.Aggregates.{
  Observed, Reaches, compute_seq_sog_returns, observed, silent, start,
}
use mc_sog.Graph.Build.Correct.{IsSog}
use mc_sog.Graph.Build.Loop.{compute_seq_sog-IsSog}
use mc_sog.Graph.Build.Traces.{Shows, compute_seq_sog_traces}
use mc_sog.Graph.Lookup.{AreDistinct, IsInserted, insert_find_by_mdd-IsInserted}
use mc_sog.Graph.Places.{
  get_marked_places, get_marked_places-In, get_unmarked_places, least_marking,
}
use mc_sog.Ldd.Fire.{fire_chain, lddmc_firing_mono}
use mc_sog.Ldd.Fire.Image.{Fires}
use mc_sog.Ldd.Index.{tree_index, tree_index-IsIndex}
use mc_sog.Ldd.Tree.{Ldd, lddmc_cube, lddmc_false, lddmc_makenode, lddmc_true, mem, node}
use mc_sog.Ldd.Union.{lddmc_union_mono, union_fuel, union_nodes, union_swapped, union_terminal}
use mc_sog.Prelude.{
  List, Option, [], arith, get_or, inl, inr, refl, some, subst, true, ℕ, ◌↔◌, ◌∷◌, ◌≡◌, ◌≢◌,
}
use mc_sog.Sog.{
  CommonSog, accessible_epsilon, div_loop, div_next, div_nonempty, epsilon_loop, epsilon_round,
  firable_among, firable_obs, get_successor, image_among, insert_firable, set_div,
}
use mc_sog.Sog.Finite.{InMarks}
use mc_sog.Sog.System.{In, by, loaded, relation_of, weights_at}
use mc_sog.Tests.SogTests.{weights}

-- One token in the first place.
abbrev pub one_token : Ldd
one_token = node 1 (node 0 lddmc_true lddmc_false) lddmc_false

abbrev pub net : CommonSog
net = loaded weights (0 ∷ []) (1 ∷ [])

sog : Option LddGraph
unfolding compute_seq_sog build_loop scan reach reach_new reach_found first_search link find
    find_from insert_successor insert_predecessor insert set_initial_state add_arc
    accessible_epsilon epsilon_loop epsilon_round get_successor firable_obs firable_among
    insert_firable set_div div_nonempty div_loop div_next image_among lddmc_firing_mono fire_chain
    lddmc_union_mono union_fuel union_terminal union_swapped union_nodes lddmc_makenode lddmc_cube
    tree_index relation_of
sog = compute_seq_sog tree_index net 9 one_token

abbrev pub built : LddGraph
built = record {
  go_nodes =
      record (new_state (
        node 0 (node 1 lddmc_true lddmc_false)
          (node 1 (node 0 lddmc_true lddmc_false) lddmc_false))) { successors = (1, 1) ∷ [] }
      ∷ record (new_state (node 0 (node 0 lddmc_true lddmc_false) lddmc_false)) {
        predecessors = (0, 1) ∷ [];
      }
      ∷ [];
  initialstate = some 0;
  nb_arcs = 1;
}

pub sog_runs : compute_seq_sog tree_index net 9 one_token ≡ some built
unfolding compute_seq_sog build_loop scan reach reach_new reach_found first_search link find
    find_from insert_successor insert_predecessor insert set_initial_state add_arc
    accessible_epsilon epsilon_loop epsilon_round get_successor firable_obs firable_among
    insert_firable set_div div_nonempty div_loop div_next image_among lddmc_firing_mono fire_chain
    lddmc_union_mono union_fuel union_terminal union_swapped union_nodes lddmc_makenode lddmc_cube
    tree_index relation_of
sog_runs = refl

compute_seq_sog-IsSog_example :
    (a0 : Ldd) × (accessible_epsilon tree_index net 9 one_token ≡ some a0)
    × IsSog (explorer tree_index net 9) a0 built.go_nodes
compute_seq_sog-IsSog_example =
    compute_seq_sog-IsSog tree_index tree_index-IsIndex net 9 one_token built sog_runs

compute_seq_sog_traces_example :
    Shows built.go_nodes (1 ∷ []) (0 ∷ 0 ∷ [])
    ↔ Reaches weights (0 ∷ []) (1 ∷ []) one_token (1 ∷ []) (0 ∷ 0 ∷ [])
compute_seq_sog_traces_example =
    compute_seq_sog_traces tree_index tree_index-IsIndex 2 weights (0 ∷ []) (1 ∷ []) (omega arith)
      (omega arith) (omega arith) 9 one_token (omega arith) built sog_runs (1 ∷ []) (0 ∷ 0 ∷ [])

abbrev pub all_markings : List (List ℕ)
all_markings = (1 ∷ 0 ∷ []) ∷ (0 ∷ 1 ∷ []) ∷ (0 ∷ 0 ∷ []) ∷ []

pub one_token_member : (m : List ℕ) → mem one_token m ≡ true → m ≡ 1 ∷ 0 ∷ []
one_token_member [] h = cc
one_token_member (x ∷ []) h = ground arith
one_token_member (x ∷ y ∷ []) h = ground arith
one_token_member (x ∷ y ∷ z ∷ m) h = ground arith

-- One firing from a marking of the list.
move_token :
    (m m' : List ℕ)
    → InMarks m all_markings
    → Fires (1 ∷ 0 ∷ []) (0 ∷ 1 ∷ []) m m'
    → InMarks m' all_markings
move_token m m' (inl e) f = go m' (subst (λ x. Fires (1 ∷ 0 ∷ []) (0 ∷ 1 ∷ []) x m') e f)
  where
    go : (m' : List ℕ) → Fires (1 ∷ 0 ∷ []) (0 ∷ 1 ∷ []) (1 ∷ 0 ∷ []) m' → InMarks m' all_markings
    go [] f = absurd f
    go (y ∷ []) f = absurd f.2
    go (y ∷ z ∷ []) f = inr (inl (rw (f.1, f.2.1)))
    go (y ∷ z ∷ x ∷ m) f = absurd f.2.2
move_token m m' (inr (inl e)) f =
    absurd (go m' (subst (λ x. Fires (1 ∷ 0 ∷ []) (0 ∷ 1 ∷ []) x m') e f))
  where
    go : (m' : List ℕ) → Fires (1 ∷ 0 ∷ []) (0 ∷ 1 ∷ []) (0 ∷ 1 ∷ []) m' → ⊥
    go [] f = f
    go (y ∷ m') f = absurd (omega arith)
move_token m m' (inr (inr (inl e))) f =
    absurd (go m' (subst (λ x. Fires (1 ∷ 0 ∷ []) (0 ∷ 1 ∷ []) x m') e f))
  where
    go : (m' : List ℕ) → Fires (1 ∷ 0 ∷ []) (0 ∷ 1 ∷ []) (0 ∷ 0 ∷ []) m' → ⊥
    go [] f = f
    go (y ∷ m') f = absurd (omega arith)
move_token m m' (inr (inr (inr h))) f = absurd h

take_token :
    (m m' : List ℕ)
    → InMarks m all_markings
    → Fires (0 ∷ 1 ∷ []) (0 ∷ 0 ∷ []) m m'
    → InMarks m' all_markings
take_token m m' (inr (inl e)) f = go m' (subst (λ x. Fires (0 ∷ 1 ∷ []) (0 ∷ 0 ∷ []) x m') e f)
  where
    go : (m' : List ℕ) → Fires (0 ∷ 1 ∷ []) (0 ∷ 0 ∷ []) (0 ∷ 1 ∷ []) m' → InMarks m' all_markings
    go [] f = absurd f
    go (y ∷ []) f = absurd f.2
    go (y ∷ z ∷ []) f = inr (inr (inl (rw (f.1, f.2.1))))
    go (y ∷ z ∷ x ∷ m) f = absurd f.2.2
take_token m m' (inl e) f = absurd (go m' (subst (λ x. Fires (0 ∷ 1 ∷ []) (0 ∷ 0 ∷ []) x m') e f))
  where
    go : (m' : List ℕ) → Fires (0 ∷ 1 ∷ []) (0 ∷ 0 ∷ []) (1 ∷ 0 ∷ []) m' → ⊥
    go [] f = f
    go (y ∷ []) f = f.2
    go (y ∷ z ∷ m') f = absurd (omega (arith, f.2.0))
take_token m m' (inr (inr (inl e))) f =
    absurd (go m' (subst (λ x. Fires (0 ∷ 1 ∷ []) (0 ∷ 0 ∷ []) x m') e f))
  where
    go : (m' : List ℕ) → Fires (0 ∷ 1 ∷ []) (0 ∷ 0 ∷ []) (0 ∷ 0 ∷ []) m' → ⊥
    go [] f = f
    go (y ∷ []) f = f.2
    go (y ∷ z ∷ m') f = absurd (omega (arith, f.2.0))
take_token m m' (inr (inr (inr h))) f = absurd h

pub observed_all :
    {m : List ℕ} {σ : List ℕ} {m' : List ℕ}
    → InMarks m all_markings
    → Observed weights (0 ∷ []) (1 ∷ []) m σ m'
    → InMarks m' all_markings
observed_all i start = i
observed_all i (silent {m' = u} {m'' = v} o (by j (inl e) f)) =
    move_token u v (observed_all i o)
      (subst (λ t. Fires (weights_at weights t).pre (weights_at weights t).post u v) e f)
observed_all i (silent o (by j (inr h) f)) = absurd h
observed_all i (observed {m' = u} {m'' = v} t o (inl e) f) =
    take_token u v (observed_all i o)
      (subst (λ t. Fires (weights_at weights t).pre (weights_at weights t).post u v) e f)
observed_all i (observed t o (inr h) f) = absurd h

compute_seq_sog_returns_example :
    (g : LddGraph) × (compute_seq_sog tree_index net 9 one_token ≡ some g)
compute_seq_sog_returns_example =
    compute_seq_sog_returns tree_index tree_index-IsIndex 2 weights (0 ∷ []) (1 ∷ []) (omega arith)
      (omega arith) (omega arith) one_token all_markings 9
      (λ m (σ, (m0, first, o)). observed_all (inl (one_token_member m0 first)) o) (omega arith)
      (omega arith)

empty_graph-AreDistinct : AreDistinct empty_graph.go_nodes
empty_graph-AreDistinct i j d ei ej = cc

insert_find_by_mdd-IsInserted_example :
    IsInserted empty_graph one_token (insert_find_by_mdd tree_index empty_graph one_token)
insert_find_by_mdd-IsInserted_example =
    insert_find_by_mdd-IsInserted tree_index tree_index-IsIndex empty_graph one_token
      empty_graph-AreDistinct

get_marked_places-In_example :
    (In 0 (get_marked_places (new_state one_token) (0 ∷ 1 ∷ []))
      ↔ (In 0 (0 ∷ 1 ∷ []) × (get_or (least_marking one_token) 0 0 ≢ 0)))
    × (In 0 (get_unmarked_places (new_state one_token) (0 ∷ 1 ∷ []))
        ↔ (In 0 (0 ∷ 1 ∷ []) × (get_or (least_marking one_token) 0 0 ≡ 0)))
get_marked_places-In_example =
    get_marked_places-In (new_state one_token) (0 ∷ 1 ∷ []) 0 (omega arith)
