-- ===== src/Tests/KripkeTests.antt =====
-- The Kripke structures of src/SogKripke.cpp and src/SogKripkeTh.cpp on a graph of two aggregates.
use mc_sog.Graph.{new_state}
use mc_sog.Graph.Build.Aggregates.{Reaches}
use mc_sog.Graph.Places.{
  get_marked_places, get_unmarked_places, go_down, least_marking, places_from,
}
use mc_sog.Kripke.{
  aggregate_at, conjoin, current, done, first, next, push_edges, set_div_at, sog_kripke_iterator,
  sog_kripke_iterator_th, state_condition, state_of,
}
use mc_sog.Kripke.Condition.{Formulas, IsModel, state_condition-Holds}
use mc_sog.Kripke.Enumerates.{for_each}
use mc_sog.Kripke.Traces.{KripkeShows, kripke_traces}
use mc_sog.Kripke.Walks.{HasRoom}
use mc_sog.Ldd.Index.{tree_index, tree_index-IsIndex}
use mc_sog.Prelude.{
  Bool, [], arith, false, get_or, negsuc, not, pos, refl, some, suc, true, zero, ℕ, ◌&&◌, ◌==◌, ◌↔◌,
  ◌∷◌, ◌≡◌, ◌≢◌,
}
use mc_sog.Sog.System.{In}
use mc_sog.Tests.GraphTests.{built, one_token, sog_runs}
use mc_sog.Tests.SogTests.{weights}

-- The iterator of the first aggregate has its edge and the loop that the constructor turns on.
iterator_runs :
    for_each 3 (first (sog_kripke_iterator built 0).1).0 ≡ some ((1, pos 1) ∷ (0, negsuc 0) ∷ [])
unfolding for_each first next done current sog_kripke_iterator set_div_at push_edges
iterator_runs = refl

-- The iterator of SogKripkeTh has no such loop.
iterator_th_runs :
    for_each 2 (first (sog_kripke_iterator_th built (aggregate_at 0))).0
    ≡ some ((aggregate_at 1, pos 1) ∷ [])
unfolding for_each first next done current sog_kripke_iterator_th state_of push_edges
iterator_th_runs = refl

built-HasRoom : HasRoom built
built-HasRoom zero = omega arith
built-HasRoom (suc zero) = omega arith
built-HasRoom (suc (suc p)) = omega arith

kripke_traces_example :
    KripkeShows built (1 ∷ []) (0 ∷ 0 ∷ [])
    ↔ Reaches weights (0 ∷ []) (1 ∷ []) one_token (1 ∷ []) (0 ∷ 0 ∷ [])
kripke_traces_example =
    kripke_traces tree_index tree_index-IsIndex 2 weights (0 ∷ []) (1 ∷ []) (omega arith)
      (omega arith) (omega arith) 9 one_token (omega arith) built sog_runs built-HasRoom (1 ∷ [])
      (0 ∷ 0 ∷ [])

-- The formulas under the valuation in which only the proposition of place 0 holds.
abbrev valued : Formulas Bool
valued = record {
  bddtrue = true;
  bdd_and = λ a b. a && b;
  bdd_not = λ a. not a;
  ithvar = λ p. p == 0;
}

abbrev IsTrue : Bool → Type 0
IsTrue b = b ≡ true

valued-IsModel : IsModel valued IsTrue
valued-IsModel = record { of_true = refl; of_and = λ a b. and_iff a b; of_not = λ a. not_iff a }
  where
    and_iff : (a b : Bool) → ((a && b) ≡ true) ↔ ((a ≡ true) × (b ≡ true))
    and_iff true b = (λ h. (refl, h), λ h. h.1)
    and_iff false b = (λ h. cc, λ h. h.0)

    not_iff : (a : Bool) → (not a ≡ true) ↔ ¬ (a ≡ true)
    not_iff true = (λ h. cc, λ h. absurd (h refl))
    not_iff false = (λ h e. cc, λ h. refl)

state_condition-Holds_example :
    IsTrue (
      state_condition valued.bddtrue valued.bdd_and valued.bdd_not valued.ithvar
        (new_state one_token)
        (0 ∷ 1 ∷ []))
    ↔ ((p : ℕ)
        → In p (0 ∷ 1 ∷ [])
        → (get_or (least_marking one_token) p 0 ≢ 0 → IsTrue (valued.ithvar p))
          × (get_or (least_marking one_token) p 0 ≡ 0 → ¬ IsTrue (valued.ithvar p)))
state_condition-Holds_example =
    state_condition-Holds valued IsTrue valued-IsModel (new_state one_token) (0 ∷ 1 ∷ [])
      (omega arith)

-- The condition of the aggregate holds under the valuation.
state_condition_runs :
    state_condition valued.bddtrue valued.bdd_and valued.bdd_not valued.ithvar
      (new_state one_token)
      (0 ∷ 1 ∷ [])
    ≡ true
unfolding state_condition conjoin get_marked_places get_unmarked_places places_from go_down
state_condition_runs = refl
