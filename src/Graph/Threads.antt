-- ===== src/Graph/Threads.antt =====
-- The construction of the graph by several threads: doCompute (src/threadSOG.cpp), as steps of the
-- threads in any order. A step is what a thread does under m_graph_mutex, under the spin lock of a
-- stack, or on its own between two of these.
pub mod Invariant
pub mod Kept
pub mod Edges
pub mod Reached
use mc_sog.Graph.{LddGraph, add_arc, find, insert, link, new_state, set_initial_state}
use mc_sog.Graph.Build.{Explorer, Task, empty_graph, task}
use mc_sog.Ldd.Tree.{Ldd}
use mc_sog.Prelude.{List, Option, [], length, none, some, update, ℕ, ◌∷◌, ◌≡◌}

-- Where a thread is. `linking` is behind the critical section, with the edge still to be recorded,
-- and with the MDD of the aggregate if it is new; `pushing` is before the push of a new aggregate.
pub data Phase : Type 0 where
  idle : Phase
  firing : Task → Phase
  linking : Task → (t q : ℕ) → (fresh : Option Ldd) → Phase
  pushing : Task → (q : ℕ) → (b : Ldd) → Phase

-- The graph, with the stack and the phase of each thread.
pub record Shared : Type 0 where
  pub graph : LddGraph
  pub stacks : ℕ → List Task
  pub phases : ℕ → Phase

-- The critical section: the aggregate `b` is looked up, and inserted if it is not there.
unfoldable pub look_up : LddGraph → Ldd → Option ℕ → LddGraph × ℕ × Option Ldd
unfolding insert add_arc
look_up g b (some q) = (add_arc g, q, none)
look_up g b none = (insert (add_arc g) (new_state b), length g.go_nodes, some b)

-- After the edge: the new aggregate is still to be pushed.
abbrev pub after_link : Task → ℕ → Option Ldd → Phase
after_link e q none = firing e
after_link e q (some b) = pushing e q b

module _ (index : Ldd → ℕ) (ex : Explorer) where
  -- The steps of thread `i`. The thread `j` that minCharge chooses may be any, since the counters
  -- that it reads change meanwhile.
  pub data ThreadStep (s : Shared) (i : ℕ) : Shared → Type 0 where
    take_entry :
        (e : Task) (st : List Task)
        → s.phases i ≡ idle
        → s.stacks i ≡ e ∷ st
        → ThreadStep s i
            (record s { stacks = update s.stacks i st; phases = update s.phases i (firing e) })
    fire_transition :
        (p : ℕ) (a b : Ldd) (t : ℕ) (ts : List ℕ)
        → s.phases i ≡ firing (task p a (t ∷ ts))
        → ex.next a t ≡ some b
        → ThreadStep s i (record s {
          graph = (look_up s.graph b (find index s.graph b)).0;
          phases = update s.phases i (
              linking
                (task p a ts)
                t
                (look_up s.graph b (find index s.graph b)).1
                (look_up s.graph b (find index s.graph b)).2);
        })
    record_edge :
        (p : ℕ) (a : Ldd) (ts : List ℕ) (t q : ℕ) (fresh : Option Ldd)
        → s.phases i ≡ linking (task p a ts) t q fresh
        → ThreadStep s i (record s {
          graph = link s.graph p q t;
          phases = update s.phases i (after_link (task p a ts) q fresh);
        })
    push_entry :
        (e : Task) (q : ℕ) (b : Ldd) (j : ℕ)
        → s.phases i ≡ pushing e q b
        → ThreadStep s i (record s {
          stacks = update s.stacks j (task q b (ex.fire b) ∷ s.stacks j);
          phases = update s.phases i (firing e);
        })
    end_entry :
        (p : ℕ) (a : Ldd)
        → s.phases i ≡ firing (task p a [])
        → ThreadStep s i (record s { phases = update s.phases i idle })

  -- The states that the threads reach.
  pub data Steps (s : Shared) : Shared → Type 0 where
    no_step : Steps s s
    one_more : {s' s'' : Shared} (i : ℕ) → Steps s s' → ThreadStep s' i s'' → Steps s s''

  -- Thread 0 has put the initial aggregate into the graph and on its stack.
  abbrev pub first_shared : Ldd → Shared
  first_shared a = record {
    graph = insert (set_initial_state empty_graph 0) (new_state a);
    stacks = update (λ j. []) 0 (task 0 a (ex.fire a) ∷ []);
    phases = λ j. idle;
  }

-- No thread has anything left to do.
abbrev pub IsFinished : Shared → Type 0
IsFinished s = (i : ℕ) → (s.stacks i ≡ []) × (s.phases i ≡ idle)
