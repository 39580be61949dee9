-- ===== src/Tests/NetTests.antt =====
-- A net of one place and two transitions (src/NewNet.cpp), from its parsing to its graph.
use mc_sog.Graph.{LddGraph, new_state}
use mc_sog.Ldd.Fire.{u32}
use mc_sog.Ldd.Tree.{lddmc_false, lddmc_true, node}
use mc_sog.Net.{
  NewNet, Transition, add_pre, answer, empty_node, find_arc, find_name, find_place, push_post,
  push_pre, record_arc,
}
use mc_sog.Net.Arcs.{transition_node}
use mc_sog.Net.Arcs.Kept.{handle, handle_unchanged, pre_arc}
use mc_sog.Net.Observable.{ObservableSets, contains, set_non_observables}
use mc_sog.Net.Observable.Others.{set_non_observables-contains}
use mc_sog.Prelude.{
  List, [], arith, false, get_or, length, pos, refl, some, suc, true, zero, ℕ, ◌<◌, ◌↔◌, ◌∷◌, ◌≡◌,
  ◌⊎◌,
}
use mc_sog.Sog.{relation_at}
use mc_sog.Sog.Conflict.{add_conflict}
use mc_sog.Sog.Conflict.Adds.{ArePostSorted, Conflicts, add_conflict-contains}
use mc_sog.Sog.Load.{all_weights}
use mc_sog.Sog.Load.Correct.{all_weights-valuations, valuations}
use mc_sog.Sog.System.{Weights, loaded, relation_of, weights_at}

abbrev step1 : NewNet
step1 = record {
  places = record { arcs = empty_node; name = 112 ∷ []; marking = pos 1; capacity = pos 0 } ∷ [];
  transitions = [];
  place_name = (112 ∷ [], 0) ∷ [];
  transition_name = [];
}

abbrev step2 : NewNet
step2 = record step1 {
  transitions = record { arcs = empty_node; name = 116 ∷ []; observable = false } ∷ [];
  transition_name = (116 ∷ [], 0) ∷ [];
}

-- The transition takes the token.
abbrev parsed : NewNet
parsed = record step2 {
  places =
      record {
        arcs = record empty_node { post = (0, pos 1) ∷ [] };
        name = 112 ∷ [];
        marking = pos 1;
        capacity = pos 0;
      }
      ∷ [];
  transitions =
      record {
        arcs = record empty_node { pre = (0, pos 1) ∷ [] };
        name = 116 ∷ [];
        observable = false;
      }
      ∷ [];
}

-- No place has the name.
refused_runs : (handle step2 (pre_arc (113 ∷ []) (116 ∷ []) (pos 1))).0 ≡ false
unfolding handle add_pre answer find_arc find_place find_name record_arc push_pre push_post
refused_runs = refl

handle_unchanged_example : (handle step2 (pre_arc (113 ∷ []) (116 ∷ []) (pos 1))).1 ≡ step2
handle_unchanged_example =
    handle_unchanged step2 (pre_arc (113 ∷ []) (116 ∷ []) (pos 1)) refused_runs

-- The formula names the place.
abbrev chosen : ObservableSets
chosen = record {
  observable = 0 ∷ [];
  formula_trans = [];
  formula_place = 0 ∷ [];
  transitions =
      record {
        arcs = record empty_node { pre = (0, pos 1) ∷ [] };
        name = 116 ∷ [];
        observable = true;
      }
      ∷ [];
}

set_non_observables-contains_example :
    (contains 0 (set_non_observables parsed.transitions []) ≡ true)
    ↔ ((0 < length parsed.transitions) × (contains 0 [] ≡ false))
set_non_observables-contains_example = set_non_observables-contains parsed.transitions [] 0

all_weights-valuations_example :
    (get_or (weights_at (all_weights 1 parsed.transitions) 0).pre 0 0
      ≡ u32 (valuations 0 (transition_node parsed.transitions 0).pre))
    × (get_or (weights_at (all_weights 1 parsed.transitions) 0).post 0 0
        ≡ u32 (valuations 0 (transition_node parsed.transitions 0).post))
all_weights-valuations_example =
    all_weights-valuations 1 parsed.transitions 0 0 (omega arith) (omega arith)

abbrev whole_graph : LddGraph
whole_graph = record {
  go_nodes =
      record (new_state (node 1 lddmc_true lddmc_false)) { successors = (1, 0) ∷ [] }
      ∷ record (new_state (node 0 lddmc_true lddmc_false)) { predecessors = (0, 0) ∷ [] }
      ∷ [];
  initialstate = some 0;
  nb_arcs = 1;
}

-- Two transitions that take from the one place.
abbrev rivals : List Transition
rivals =
    record {
      arcs = record empty_node { pre = (0, pos 1) ∷ [] };
      name = 97 ∷ [];
      observable = false;
    }
    ∷ record {
      arcs = record empty_node { pre = (0, pos 1) ∷ [] };
      name = 98 ∷ [];
      observable = false;
    }
    ∷ []

abbrev taking : Weights
taking = record { pre = 1 ∷ []; post = 0 ∷ [] }

rivals-ArePostSorted : ArePostSorted rivals
rivals-ArePostSorted zero = tt
rivals-ArePostSorted (suc zero) = tt
rivals-ArePostSorted (suc (suc i)) = tt

relation_runs : relation_at (loaded (taking ∷ taking ∷ []) (0 ∷ 1 ∷ []) []) 0 ≡ relation_of taking
unfolding relation_of
relation_runs = refl

add_conflict-contains_example :
    (r : List ℕ) × (add_conflict
        (loaded (taking ∷ taking ∷ []) (0 ∷ 1 ∷ []) [])
        rivals
        (node 1 lddmc_true lddmc_false)
        0
        (0 ∷ [])
      ≡ some r)
    × ((j : ℕ)
        → (contains j r ≡ true) ↔ (
            (contains j (0 ∷ []) ≡ true)
            ⊎ Conflicts (node 1 lddmc_true lddmc_false) (1 ∷ []) rivals 0 j))
add_conflict-contains_example =
    add_conflict-contains 1 (loaded (taking ∷ taking ∷ []) (0 ∷ 1 ∷ []) []) taking rivals
      (node 1 lddmc_true lddmc_false) 0 (0 ∷ []) (omega arith) tt relation_runs refl (omega arith)
      rivals-ArePostSorted
