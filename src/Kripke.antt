-- ===== src/Kripke.antt =====
-- The graph of aggregates as a Kripke structure of the library spot: src/SogKripke.cpp,
-- src/SogKripkeIterator.cpp, src/SogKripkeTh.cpp, src/SogKripkeIteratorTh.cpp and
-- src/SogKripkeStateTh.h. A state of the structure is the position of an aggregate.
pub mod Enumerates
pub mod Walks
pub mod Traces
pub mod Condition
use Prim.Native.Nat.{◌%◌, ◌^◌}
use mc_sog.Graph.{LddGraph, LddState, new_state}
use mc_sog.Graph.Places.{get_marked_places, get_unmarked_places}
use mc_sog.Ldd.Tree.{Ldd, lddmc_false, lddmc_true}
use mc_sog.Prelude.{
  Bool, List, Option, [], false, get_elem?, get_or, if◌then◌else◌, length, ltb, modify, negsuc, not,
  pos, some, true, ℕ, ℤ, ◌%◌, ◌++◌, ◌+◌, ◌==◌, ◌>>=◌, ◌^◌, ◌∷◌,
}

-- An iterator over the edges `m_lsucc` to targets of type `A`; the loop edges have the transition
-- -1.
pub record Iterator (A : Type 0) : Type 0 where
  pub lsucc : List (A × ℤ)
  pub current_edge : ℕ

abbrev pub node_at : LddGraph → ℕ → LddState
node_at g p = get_or g.go_nodes p (new_state lddmc_false)

-- `m_lsucc.push_back(elt)` for each edge of the aggregate.
unfoldable pub push_edges : {A : Type 0} → (ℕ → A) → List (ℕ × ℕ) → List (A × ℤ)
push_edges target [] = []
push_edges target ((q, t) ∷ es) = (target q, pos t) ∷ push_edges target es

abbrev pub push_if : {A : Type 0} → Bool → A → List (A × ℤ)
push_if true a = (a, negsuc 0) ∷ []
push_if false a = []

-- `m_lddstate->setDiv(true)`
unfoldable pub set_div_at : LddGraph → ℕ → LddGraph
set_div_at g p = record g { go_nodes = modify g.go_nodes p (λ n. record n { boucle = true }) }

-- The constructor of SogKripkeIterator changes the aggregate.
unfoldable pub sog_kripke_iterator : LddGraph → ℕ → LddGraph × Iterator ℕ
unfolding set_div_at push_edges
sog_kripke_iterator g p =
    let g' = set_div_at g p in
    (
      g',
      record {
        lsucc = push_edges (λ q. q) (node_at g' p).successors ++ push_if (node_at g' p).boucle p;
        current_edge = 0;
      },
    )

-- The states of SogKripkeTh: an aggregate, or the state `m_deadlock`.
pub data Target : Type 0 where
  aggregate_at : ℕ → Target
  deadlock : Target

unfoldable pub state_of : LddGraph → Target → LddState
state_of g (aggregate_at p) = node_at g p
state_of g deadlock = record (new_state lddmc_true) { visited = true; completed = true }

unfoldable pub sog_kripke_iterator_th : LddGraph → Target → Iterator Target
unfolding push_edges state_of
sog_kripke_iterator_th g p = record {
  lsucc =
      push_if (state_of g p).blocage deadlock
      ++ (push_if (state_of g p).boucle p ++ push_edges aggregate_at (state_of g p).successors);
  current_edge = 0;
}

-- `compare` of the states, by their MDDs.
unfoldable pub compare_states : (Ldd → ℕ) → LddState → LddState → ℤ
compare_states index s other =
    if ltb (index s.lddstate) (index other.lddstate)
    then negsuc 0
    else if ltb (index other.lddstate) (index s.lddstate)
    then pos 1
    else pos 0

module _ {A : Type 0} where
  unfoldable pub first : Iterator A → Iterator A × Bool
  first it = (record it { current_edge = 0 }, not (length it.lsucc == 0))

  -- `m_current_edge` is an unsigned int.
  unfoldable pub next : Iterator A → Iterator A × Bool
  next it =
      let edge = (it.current_edge + 1) % 2 ^ 32 in
      (record it { current_edge = edge }, ltb edge (length it.lsucc))

  unfoldable pub done : Iterator A → Bool
  done it = it.current_edge == length it.lsucc

  -- `m_lsucc.at(m_current_edge)`, the target and the transition.
  unfoldable pub current : Iterator A → Option (A × ℤ)
  current it = get_elem? it.lsucc it.current_edge

  unfoldable pub dst : Iterator A → Option A
  unfolding current
  dst it = do e ← current it; some e.0

-- The conditions are formulas of the library, of the type `Bdd`; `variable` is the one that
-- the dictionary has for the name of a transition, or of a place.
module _ {Bdd : Type 0} (bddtrue : Bdd) (bdd_and : Bdd → Bdd → Bdd) (bdd_not : Bdd → Bdd)
    (variable : ℕ → Bdd) where
  -- `state_cond` is the condition that the iterator was made with.
  unfoldable pub cond_of : ℤ → Bdd → Bdd
  cond_of (pos t) state_cond = bdd_and (variable t) state_cond
  cond_of (negsuc n) state_cond = bddtrue

  unfoldable pub cond : {A : Type 0} → Iterator A → Bdd → Option Bdd
  unfolding current cond_of
  cond it state_cond = do e ← current it; some (cond_of e.1 state_cond)

  unfoldable pub conjoin : Bdd → (ℕ → Bdd) → List ℕ → Bdd
  conjoin result literal [] = result
  conjoin result literal (p ∷ ps) = conjoin (bdd_and result (literal p)) literal ps

  unfoldable pub state_condition : LddState → List ℕ → Bdd
  unfolding conjoin get_marked_places get_unmarked_places
  state_condition s places =
      conjoin (conjoin bddtrue variable (get_marked_places s places)) (λ p. bdd_not (variable p))
        (get_unmarked_places s places)
