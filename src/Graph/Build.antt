-- ===== src/Graph/Build.antt =====
-- computeSeqSOG (src/threadSOG.cpp): the graph of aggregates by one thread.
pub mod Invariant
pub mod Correct
pub mod Loop
pub mod Measure
pub mod Ends
pub mod Aggregates
pub mod Traces
pub mod Whole
use mc_sog.Graph.{LddGraph, add_arc, find, insert, link, new_state, set_initial_state}
use mc_sog.Ldd.Tree.{Ldd}
use mc_sog.Prelude.{Bool, List, Option, [], length, none, pos, some, suc, zero, ℕ, ◌>>=◌, ◌∷◌}
use mc_sog.Sog.{CommonSog, accessible_epsilon, firable_obs, get_successor, set_div}
use mc_sog.Sog.Load.{initial_marking}

-- What the construction asks of the net: Accessible_epsilon of get_successor, firable_obs and
-- Set_Div. `none` is a computation that does not end.
pub record Explorer : Type 0 where
  pub next : Ldd → ℕ → Option Ldd
  pub fire : Ldd → List ℕ
  pub div : Ldd → Option Bool

-- The operations of CommonSOG, with `fuel` rounds for each loop.
abbrev pub explorer : (Ldd → ℕ) → CommonSog → ℕ → Explorer
explorer index g fuel = record {
  next = λ a t. accessible_epsilon index g fuel (get_successor index g a t);
  fire = firable_obs index g;
  div = set_div index g fuel;
}

-- An entry of the stack: an aggregate, its MDD, and the transitions still to be fired.
pub record Task : Type 0 where
  pub aggregate : ℕ
  pub mdd : Ldd
  pub fire : List ℕ

abbrev pub task : ℕ → Ldd → List ℕ → Task
task p a ts = record { aggregate = p; mdd = a; fire = ts }

pub record Search : Type 0 where
  pub graph : LddGraph
  pub stack : List Task

module _ (index : Ldd → ℕ) (ex : Explorer) where
  -- The branch `!pos`: the aggregate `b`, reached from `p` by `t`, is new.
  unfoldable pub reach_new : Search → ℕ → ℕ → Ldd → Bool → Search
  unfolding insert link add_arc
  reach_new s p t b boucle = record {
    graph = add_arc (link (insert s.graph (record (new_state b) { boucle = boucle })) p pos t);
    stack = record { aggregate = pos; mdd = b; fire = ex.fire b } ∷ s.stack;
  }
    where
      pos : ℕ
      pos = length s.graph.go_nodes

  -- The other branch: `b` is the aggregate at `q`.
  unfoldable pub reach_found : Search → ℕ → ℕ → ℕ → Search
  unfolding link add_arc
  reach_found s p t q = record s { graph = add_arc (link s.graph p q t) }

  unfoldable pub reach : Search → ℕ → ℕ → Ldd → Option ℕ → Option Search
  unfolding reach_new reach_found
  reach s p t b none = do boucle ← ex.div b; some (reach_new s p t b boucle)
  reach s p t b (some q) = some (reach_found s p t q)

  -- The inner loop, over the transitions of one entry.
  unfoldable pub scan : ℕ → Ldd → List ℕ → Search → Option Search
  unfolding reach find
  scan p a [] s = some s
  scan p a (t ∷ ts) s = do
    b ← ex.next a t
    s' ← reach s p t b (find index s.graph b)
    scan p a ts s'

  -- The outer loop; `none` also when the fuel runs out.
  unfoldable pub build_loop : ℕ → Search → Option LddGraph
  unfolding scan
  build_loop zero s = elim s.stack [ [] ↦ some s.graph | _ ∷ _ ↦ none ]
  build_loop (suc fuel) s = elim s.stack [
    | [] ↦ some s.graph
    | e ∷ rest ↦ scan e.aggregate e.mdd e.fire (record s { stack = rest }) >>= build_loop fuel
  ]

  -- The graph and the stack before the loop, for the initial aggregate `a`.
  unfoldable pub first_search : LddGraph → Ldd → Search
  unfolding insert set_initial_state
  first_search g a = record {
    graph = insert (set_initial_state g (length g.go_nodes)) (new_state a);
    stack = record { aggregate = length g.go_nodes; mdd = a; fire = ex.fire a } ∷ [];
  }

-- An LDDGraph as its constructor leaves it.
abbrev pub empty_graph : LddGraph
empty_graph = record { go_nodes = []; initialstate = none; nb_arcs = 0 }

-- computeSeqSOG on the net `g`, from the initial marking.
unfoldable pub compute_seq_sog : (Ldd → ℕ) → CommonSog → ℕ → Ldd → Option LddGraph
unfolding build_loop first_search
compute_seq_sog index g fuel initial_marking = do
  a ← accessible_epsilon index g fuel initial_marking
  build_loop index (explorer index g fuel) fuel
      (first_search index (explorer index g fuel) empty_graph a)
