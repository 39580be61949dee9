-- ===== src/Graph/Canonized/Refines.antt =====
-- Each run of doComputeCanonized (src/threadSOG.cpp) follows a run of doCompute.
use mc_sog.Graph.{
  LddGraph, add_arc, find, insert, insert_successor, link, new_state, set_initial_state,
}
use mc_sog.Graph.Build.{Explorer, task}
use mc_sog.Graph.Canonized.{
  CanonizedStep, CanonizedSteps, end_canonized, fire_canonized, first_canonized, fresh_of,
  no_canonized, one_canonized, push_canonized, record_canonized, take_canonized,
}
use mc_sog.Graph.Canonized.Lookup.{GraphMatch, GraphMatch-link, GraphMatch-look_up, find-same}
use mc_sog.Graph.Nodes.{ldd_at, ldd_at-insert_predecessor, ldd_at-insert_successor}
use mc_sog.Graph.Threads.{
  Phase, Shared, Steps, ThreadStep, end_entry, fire_transition, firing, first_shared, linking,
  look_up, no_step, one_more, push_entry, record_edge, take_entry,
}
use mc_sog.Graph.Threads.Invariant.{IsPhase, IsShared, IsTask}
use mc_sog.Graph.Threads.Kept.{append_cases}
use mc_sog.Graph.Threads.Reached.{Steps-IsShared, first_shared-IsShared}
use mc_sog.Ldd.Tree.{IsIndex, Ldd}
use mc_sog.Prelude.{
  List, Option, [], ap, inl, inr, none, refl, some, subst, sym, update, ℕ, ◌∙◌, ◌∷◌, ◌≡◌,
}
use mc_sog.Sog.System.{In}

module _ (index : Ldd → ℕ) (ok : IsIndex index) (ex : Explorer) (canon : Ldd → Option Ldd)
    (a0 : Ldd) (Good : Ldd → Type 0)
    (injective : (a b c : Ldd) → Good a → Good b → canon a ≡ some c → canon b ≡ some c → a ≡ b)
    (first_good : Good a0)
    (next_good : (a b : Ldd) (t : ℕ)
      → Good a
      → In t (ex.fire a)
      → ex.next a t ≡ some b
      → Good b) where
  abbrev AreGood : LddGraph → Type 0
  AreGood g = (q : ℕ) (d : Ldd) → ldd_at g.go_nodes q ≡ some d → Good d

  -- The stacks and the phases are the same, and the graphs match.
  pub record SharedMatch (s0 s : Shared) : Type 0 where
    pub graph : GraphMatch index ok canon s0.graph s.graph
    pub stacks : s.stacks ≡ s0.stacks
    pub phases : s.phases ≡ s0.phases

  look_up-AreGood :
      (g : LddGraph) (b : Ldd) (o : Option ℕ) → Good b → AreGood g → AreGood (look_up g b o).0
  unfolding look_up insert add_arc
  look_up-AreGood g b (some q) good h p d e = h p d e
  look_up-AreGood g b none good h q d e = elim (append_cases g.go_nodes (new_state b) q d e) [
    | inl (_, new) ↦ subst Good new good
    | inr old ↦ h q d old
  ]

  link-AreGood : (g : LddGraph) (p q t : ℕ) → AreGood g → AreGood (link g p q t)
  unfolding link
  link-AreGood g p q t h i d e = h i d (
      sym (
        ldd_at-insert_predecessor (insert_successor g.go_nodes p q t) q p t i
        ∙ ldd_at-insert_successor g.go_nodes p q t i)
      ∙ e)

  -- A step of doCompute to a state that matches.
  abbrev FollowsStep : Shared → ℕ → Shared → Type 0
  FollowsStep s0 i s' =
      (s0' : Shared) × ThreadStep index ex s0 i s0' × SharedMatch s0' s' × AreGood s0'.graph

  module _ (s0 s : Shared) (i : ℕ) (h : SharedMatch s0 s) (inv : IsShared ex a0 s0)
      (goods : AreGood s0.graph) where
    phase_at : (x : Phase) → s.phases i ≡ x → s0.phases i ≡ x
    phase_at x e = sym (ap (λ f. f i) h.phases) ∙ e

    phases_updated : (x : Phase) → update s.phases i x ≡ update s0.phases i x
    phases_updated x = ap (λ f. update f i x) h.phases

    fire_canonized-Follows :
        (p : ℕ) (a b c : Ldd) (t : ℕ) (ts : List ℕ)
        → s.phases i ≡ firing (task p a (t ∷ ts))
        → ex.next a t ≡ some b
        → canon b ≡ some c
        → FollowsStep s0 i (record s {
          graph = (look_up s.graph c (find index s.graph c)).0;
          phases = update s.phases i (
              linking
                (task p a ts)
                t
                (look_up s.graph c (find index s.graph c)).1
                (fresh_of b (find index s.graph c)));
        })
    fire_canonized-Follows p a b c t ts at_i next e =
        let at0 = phase_at _ at_i in
        let busy : IsTask ex a0 s0.graph.go_nodes (task p a (t ∷ ts)) =
          subst (IsPhase ex a0 s0.graph.go_nodes) at0 (inv.in_phase i) in
        let good = next_good a b t (goods p a busy.0) (busy.1 t (inl refl)) next in
        let same =
          find-same index ok canon Good injective b c good e s0.graph s.graph h.graph goods in
        let (graphs, places, fresh) =
          GraphMatch-look_up index ok canon b c e s0.graph s.graph h.graph
            (find index s0.graph b) in
        (
          _,
          fire_transition p a b t ts at0 next,
          rw same (record {
            graph = graphs;
            stacks = h.stacks;
            phases = phases_updated _ ∙ ap (λ x. update s0.phases i x) (rw (places, fresh) refl);
          }),
          look_up-AreGood s0.graph b (find index s0.graph b) good goods,
        )

    CanonizedStep-Follows :
        (s' : Shared) → CanonizedStep index ex canon s i s' → FollowsStep s0 i s'
    CanonizedStep-Follows s' (take_canonized e st at_i es) = (
      _,
      take_entry e st (phase_at _ at_i) (sym (ap (λ f. f i) h.stacks) ∙ es),
      record {
        graph = h.graph;
        stacks = ap (λ f. update f i st) h.stacks;
        phases = phases_updated _;
      },
      goods,
    )
    CanonizedStep-Follows s' (fire_canonized p a b c t ts at_i next e) =
        fire_canonized-Follows p a b c t ts at_i next e
    CanonizedStep-Follows s' (record_canonized p a ts t q fresh at_i) = (
      _,
      record_edge p a ts t q fresh (phase_at _ at_i),
      record {
        graph = GraphMatch-link index ok canon s0.graph s.graph p q t h.graph;
        stacks = h.stacks;
        phases = phases_updated _;
      },
      link-AreGood s0.graph p q t goods,
    )
    CanonizedStep-Follows s' (push_canonized e q b j at_i) = (
      _,
      push_entry e q b j (phase_at _ at_i),
      record {
        graph = h.graph;
        stacks = ap (λ f. update f j (task q b (ex.fire b) ∷ f j)) h.stacks;
        phases = phases_updated _;
      },
      goods,
    )
    CanonizedStep-Follows s' (end_canonized p a at_i) = (
      _,
      end_entry p a (phase_at _ at_i),
      record { graph = h.graph; stacks = h.stacks; phases = phases_updated _ },
      goods,
    )

  pub CanonizedSteps-Follows :
      (c0 : Ldd)
      → canon a0 ≡ some c0
      → (s : Shared) → CanonizedSteps index ex canon (first_canonized index ex canon a0 c0) s
      → (s0 : Shared) × Steps index ex (first_shared index ex a0) s0
        × SharedMatch s0 s
        × AreGood s0.graph
  unfolding insert set_initial_state
  CanonizedSteps-Follows c0 e s no_canonized = (
    first_shared index ex a0,
    no_step,
    record {
      graph = record { nodes = (e, refl, tt); initial = refl; arcs = refl };
      stacks = refl;
      phases = refl;
    },
    λ q d at. elim (append_cases [] (new_state a0) q d at) [
      | inl (_, same) ↦ subst Good same first_good
      | inr nowhere ↦ cc
    ],
  )
  CanonizedSteps-Follows c0 e s (one_canonized {s' = u} {s'' = v} i steps step) =
      let (u0, run, match, goods) = CanonizedSteps-Follows c0 e u steps in
      let inv =
        Steps-IsShared index ok ex a0 (first_shared index ex a0) u0 run
          (first_shared-IsShared index ok ex a0) in
      let (v0, step0, match', goods') = CanonizedStep-Follows u0 u i match inv goods v step in
      (v0, one_more i run step0, match', goods')
