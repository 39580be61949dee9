-- ===== src/Graph/Canonized.antt =====
-- doComputeCanonized (src/threadSOG.cpp): doCompute with the aggregates kept in the graph as what
-- Canonize returns for them, and whole in the entries of the stacks.
pub mod Lookup
pub mod Refines
pub mod Nets
use mc_sog.Graph.{find, insert, link, new_state, set_initial_state}
use mc_sog.Graph.Build.{Explorer, Task, empty_graph, task}
use mc_sog.Graph.Threads.{Shared, after_link, firing, first_shared, idle, linking, look_up, pushing}
use mc_sog.Ldd.Tree.{Ldd}
use mc_sog.Prelude.{List, Option, [], none, some, update, ℕ, ◌∷◌, ◌≡◌}
use mc_sog.Sog.{CommonSog}
use mc_sog.Sog.Canonize.{canonize}

-- The MDD that is still to be pushed, whole, when the lookup has missed.
abbrev pub fresh_of : Ldd → Option ℕ → Option Ldd
fresh_of b (some q) = none
fresh_of b none = some b

-- Canonize at level 0, on a net of `nb_places` places, with `fuel` for its loops and calls.
abbrev pub canonical_of : (Ldd → ℕ) → CommonSog → (nb_places fuel : ℕ) → Ldd → Option Ldd
canonical_of index g nb_places fuel a = canonize index g nb_places fuel fuel a 0

module _ (index : Ldd → ℕ) (ex : Explorer) (canon : Ldd → Option Ldd) where
  -- The steps of thread `i`; `canon` is Canonize at level 0.
  pub data CanonizedStep (s : Shared) (i : ℕ) : Shared → Type 0 where
    take_canonized :
        (e : Task) (st : List Task)
        → s.phases i ≡ idle
        → s.stacks i ≡ e ∷ st
        → CanonizedStep s i
            (record s { stacks = update s.stacks i st; phases = update s.phases i (firing e) })
    fire_canonized :
        (p : ℕ) (a b c : Ldd) (t : ℕ) (ts : List ℕ)
        → s.phases i ≡ firing (task p a (t ∷ ts))
        → ex.next a t ≡ some b
        → canon b ≡ some c
        → CanonizedStep s i (record s {
          graph = (look_up s.graph c (find index s.graph c)).0;
          phases = update s.phases i (
              linking
                (task p a ts)
                t
                (look_up s.graph c (find index s.graph c)).1
                (fresh_of b (find index s.graph c)));
        })
    record_canonized :
        (p : ℕ) (a : Ldd) (ts : List ℕ) (t q : ℕ) (fresh : Option Ldd)
        → s.phases i ≡ linking (task p a ts) t q fresh
        → CanonizedStep s i (record s {
          graph = link s.graph p q t;
          phases = update s.phases i (after_link (task p a ts) q fresh);
        })
    push_canonized :
        (e : Task) (q : ℕ) (b : Ldd) (j : ℕ)
        → s.phases i ≡ pushing e q b
        → CanonizedStep s i (record s {
          stacks = update s.stacks j (task q b (ex.fire b) ∷ s.stacks j);
          phases = update s.phases i (firing e);
        })
    end_canonized :
        (p : ℕ) (a : Ldd)
        → s.phases i ≡ firing (task p a [])
        → CanonizedStep s i (record s { phases = update s.phases i idle })

  pub data CanonizedSteps (s : Shared) : Shared → Type 0 where
    no_canonized : CanonizedSteps s s
    one_canonized :
        {s' s'' : Shared} (i : ℕ)
        → CanonizedSteps s s'
        → CanonizedStep s' i s''
        → CanonizedSteps s s''

  -- Thread 0 has put the initial aggregate `a` into the graph, as `c`, and on its stack.
  abbrev pub first_canonized : (a c : Ldd) → Shared
  first_canonized a c = record (first_shared index ex a) {
    graph = insert (set_initial_state empty_graph 0) (new_state c);
  }
