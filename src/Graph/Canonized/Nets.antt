-- ===== src/Graph/Canonized/Nets.antt =====
-- doComputeCanonized (src/threadSOG.cpp) on a net, with Canonize of src/CommonSOG.cpp.
use mc_sog.Graph.Build.{explorer}
use mc_sog.Graph.Build.Aggregates.{
  IsAggregate, Reachable, closure_IsAggregate, net_IsExplored, start,
}
use mc_sog.Graph.Canonized.{CanonizedSteps, canonical_of, first_canonized}
use mc_sog.Graph.Canonized.Lookup.{GraphMatch}
use mc_sog.Graph.Canonized.Refines.{CanonizedSteps-Follows}
use mc_sog.Graph.Threads.{Shared, Steps, first_shared}
use mc_sog.Ldd.Tree.{IsIndex, IsLdd, Ldd}
use mc_sog.Prelude.{List, Option, [], length, some, some_eq, subst, sym, ℕ, ◌<◌, ◌∙◌, ◌≡◌}
use mc_sog.Sog.{accessible_epsilon}
use mc_sog.Sog.Canonize.Recovers.{accessible_epsilon-canonize}
use mc_sog.Sog.Finite.{InMarks}
use mc_sog.Sog.System.{AreBelow, AreSized, Weights, loaded}

module _ (index : Ldd → ℕ) (ok : IsIndex index) (k : ℕ) (ws : List Weights) (eps obs : List ℕ)
    (sized : AreSized k ws) (below : AreBelow (length ws) eps)
    (below_obs : AreBelow (length ws) obs) (from : Ldd) (us : List (List ℕ)) (fuel : ℕ)
    (finite : (m : List ℕ)
      → Reachable index ok k ws eps obs sized below below_obs from m
      → InMarks m us)
    (enough : length us < fuel) where
  abbrev Aggregate : Ldd → Type 0
  Aggregate = IsAggregate index ok k ws eps obs sized below below_obs from

  abbrev canon : Ldd → Option Ldd
  canon = canonical_of index (loaded ws eps obs) k fuel

  canon-recovers :
      (a c : Ldd)
      → Aggregate a
      → canon a ≡ some c
      → accessible_epsilon index (loaded ws eps obs) fuel c ≡ some a
  canon-recovers a c agg e =
      let (r, found, back) =
        accessible_epsilon-canonize index ok k ws eps obs sized below us fuel a agg.formed
          agg.closed (λ m inside. finite m (agg.reached m inside)) enough in
      subst (λ z. accessible_epsilon index (loaded ws eps obs) fuel z ≡ some a)
        (some_eq (sym found ∙ e)) back

  canon-injective :
      (a b c : Ldd) → Aggregate a → Aggregate b → canon a ≡ some c → canon b ≡ some c → a ≡ b
  canon-injective a b c agg_a agg_b ea eb =
      some_eq (sym (canon-recovers a c agg_a ea) ∙ canon-recovers b c agg_b eb)

  -- On a net with finitely many reachable markings, and with more fuel than there are such
  -- markings: whatever state the steps of the threads of doComputeCanonized reach, in any order,
  -- steps of doCompute reach a state with the same stacks, phases and edges, whose graph has at
  -- each position the aggregate that Canonize took there.
  pub do_compute_canonized_refines :
      IsLdd k from
      → (a0 c0 : Ldd) → accessible_epsilon index (loaded ws eps obs) fuel from ≡ some a0
      → canonical_of index (loaded ws eps obs) k fuel a0 ≡ some c0
      → (s : Shared)
      → CanonizedSteps index
          (explorer index (loaded ws eps obs) fuel)
          canon
          (first_canonized index (explorer index (loaded ws eps obs) fuel) canon a0 c0)
          s
      → (s0 : Shared) × Steps index
          (explorer index (loaded ws eps obs) fuel)
          (first_shared index (explorer index (loaded ws eps obs) fuel) a0)
          s0
        × (s.stacks ≡ s0.stacks)
        × (s.phases ≡ s0.phases)
        × GraphMatch index ok canon s0.graph s.graph
  do_compute_canonized_refines hf a0 c0 first e s steps =
      let ex = explorer index (loaded ws eps obs) fuel in
      let (a1, e1, agg, _) =
        closure_IsAggregate index ok k ws eps obs sized below below_obs from us fuel from finite
          enough hf (λ m inside. ([], (m, inside, start))) in
      let good0 = subst Aggregate (some_eq (sym e1 ∙ first)) agg in
      let explored =
        net_IsExplored index ok k ws eps obs sized below below_obs from us fuel finite enough in
      let (s0, run, match, _) =
        CanonizedSteps-Follows index ok ex canon a0 Aggregate canon-injective good0
          (λ a b t good fires next.
            let (b', e', good') = explored.next_returns a t good fires in
            subst Aggregate (some_eq (sym e' ∙ next)) good')
          c0 e s steps in
      (s0, run, match.stacks, match.phases, match.graph)
