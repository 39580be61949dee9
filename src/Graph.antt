-- ===== src/Graph.antt =====
-- The graph of aggregates: src/LDDState.h and src/LDDGraph.cpp. A pointer to an LDDState is the
-- position of the state in m_GONodes, where each state is put once and stays.
pub mod Nodes
pub mod Edges
pub mod Build
pub mod Threads
pub mod Canonized
pub mod Places
pub mod Lookup
use mc_sog.Ldd.Tree.{Ldd}
use mc_sog.Prelude.{
  Bool, List, Option, [], false, if◌then◌else◌, length, none, some, suc, true, zero, ℕ, ◌%◌, ◌++◌,
  ◌+◌, ◌==◌, ◌^◌, ◌∷◌,
}

pub record LddState : Type 0 where
  pub lddstate : Ldd
  pub boucle : Bool
  pub blocage : Bool
  pub visited : Bool
  pub completed : Bool
  pub successors : List (ℕ × ℕ)
  pub predecessors : List (ℕ × ℕ)

pub record LddGraph : Type 0 where
  pub go_nodes : List LddState
  pub initialstate : Option ℕ
  pub nb_arcs : ℕ

-- The state that `new LDDState` makes, with its MDD.
abbrev pub new_state : Ldd → LddState
new_state md = record {
  lddstate = md;
  boucle = false;
  blocage = false;
  visited = false;
  completed = false;
  successors = [];
  predecessors = [];
}

module _ (index : Ldd → ℕ) where
  -- The loop of `find` and of insertFindByMDD, from position `i` on.
  unfoldable pub find_from : Ldd → List LddState → ℕ → Option ℕ
  find_from md [] i = none
  find_from md (n ∷ ns) i = if index md == index n.lddstate then some i else find_from md ns (suc i)

  unfoldable pub find : LddGraph → Ldd → Option ℕ
  unfolding find_from
  find g md = find_from md g.go_nodes 0

unfoldable pub insert : LddGraph → LddState → LddGraph
insert g c = record g { go_nodes = g.go_nodes ++ c ∷ [] }

unfoldable pub set_initial_state : LddGraph → ℕ → LddGraph
set_initial_state g c = record g { initialstate = some c }

unfoldable pub add_arc : LddGraph → LddGraph
add_arc g = record g { nb_arcs = (g.nb_arcs + 1) % 2 ^ 32 }

-- `Successors.insert(Successors.begin(), LDDEdge(q, t))` at one state of the list.
unfoldable pub insert_successor : List LddState → ℕ → ℕ → ℕ → List LddState
insert_successor [] p q t = []
insert_successor (n ∷ ns) zero q t = record n { successors = (q, t) ∷ n.successors } ∷ ns
insert_successor (n ∷ ns) (suc p) q t = n ∷ insert_successor ns p q t

unfoldable pub insert_predecessor : List LddState → ℕ → ℕ → ℕ → List LddState
insert_predecessor [] p q t = []
insert_predecessor (n ∷ ns) zero q t = record n { predecessors = (q, t) ∷ n.predecessors } ∷ ns
insert_predecessor (n ∷ ns) (suc p) q t = n ∷ insert_predecessor ns p q t

-- The two insertions that record the edge from `p` to `q` by `t`.
unfoldable pub link : LddGraph → ℕ → ℕ → ℕ → LddGraph
unfolding insert_successor insert_predecessor
link g p q t = record g { go_nodes = insert_predecessor (insert_successor g.go_nodes p q t) q p t }

module _ (index : Ldd → ℕ) where
  -- The state's position, the answer `found`, and the graph afterwards.
  unfoldable pub insert_found : LddGraph → Ldd → Option ℕ → ℕ × Bool × LddGraph
  unfolding insert
  insert_found g md (some i) = (i, true, g)
  insert_found g md none = (length g.go_nodes, false, insert g (new_state md))

  unfoldable pub insert_find_by_mdd : LddGraph → Ldd → ℕ × Bool × LddGraph
  unfolding insert_found find
  insert_find_by_mdd g md = insert_found g md (find index g md)
