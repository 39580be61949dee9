-- ===== src/Graph/Build/Traces.antt =====
-- The graph that computeSeqSOG builds (src/threadSOG.cpp) and the firing sequences of the net.
use mc_sog.Graph.{LddGraph, LddState}
use mc_sog.Graph.Build.{compute_seq_sog, explorer}
use mc_sog.Graph.Build.Aggregates.{Observed, Observed-Run, Reaches, observed, silent, start}
use mc_sog.Graph.Build.Correct.{IsSog}
use mc_sog.Graph.Build.Loop.{compute_seq_sog-IsSog}
use mc_sog.Graph.Edges.{HasEdge}
use mc_sog.Graph.Nodes.{ldd_at}
use mc_sog.Ldd.Fire.Image.{Fires}
use mc_sog.Ldd.Tree.{IsIndex, IsLdd, Ldd, mem}
use mc_sog.Prelude.{List, [], length, some, some_eq, subst, suc, sym, true, ℕ, ◌↔◌, ◌∙◌, ◌∷◌, ◌≡◌}
use mc_sog.Sog.{accessible_epsilon, firable_obs, get_successor}
use mc_sog.Sog.Divergence.Decides.{IsClosed}
use mc_sog.Sog.Epsilon.{accessible_epsilon-members}
use mc_sog.Sog.Image.{firable_obs-In}
use mc_sog.Sog.System.{
  AreBelow, AreSized, In, In-below, Weights, get_successor-IsImage, here, loaded, then_by,
  weights_at,
}

-- The paths of the graph from `i`, with their labels, the last first.
pub data Trace (ns : List LddState) (i : ℕ) : List ℕ → ℕ → Type 0 where
  no_edge : Trace ns i [] i
  extend : {σ : List ℕ} {j q : ℕ} (t : ℕ) → Trace ns i σ j → HasEdge ns j t q → Trace ns i (t ∷ σ) q

-- A path with the labels `σ` ends at an aggregate that has the marking.
abbrev pub Shows : List LddState → List ℕ → List ℕ → Type 0
Shows ns σ m = (p : ℕ) × (d : Ldd) × Trace ns 0 σ p × (ldd_at ns p ≡ some d) × (mem d m ≡ true)

module _ (index : Ldd → ℕ) (ok : IsIndex index) (k : ℕ) (ws : List Weights) (eps obs : List ℕ)
    (sized : AreSized k ws) (below : AreBelow (length ws) eps)
    (below_obs : AreBelow (length ws) obs) (fuel : ℕ) (from a0 : Ldd) (formed : IsLdd k from)
    (closed : accessible_epsilon index (loaded ws eps obs) fuel from ≡ some a0) (ns : List LddState)
    (sog : IsSog (explorer index (loaded ws eps obs) fuel) a0 ns) where
  abbrev IsAggregateOf : List ℕ → Ldd → Type 0
  IsAggregateOf σ d =
      IsLdd k d × IsClosed ws eps d × ((m : List ℕ) → mem d m ≡ true → Reaches ws eps obs from σ m)

  -- Accessible_epsilon from markings that `σ` reaches.
  closure_IsAggregateOf :
      (σ : List ℕ) (c to : Ldd)
      → IsLdd k c
      → ((m : List ℕ) → mem c m ≡ true → Reaches ws eps obs from σ m)
      → accessible_epsilon index (loaded ws eps obs) fuel c ≡ some to
      → IsAggregateOf σ to × ((m : List ℕ) → mem c m ≡ true → mem to m ≡ true)
  closure_IsAggregateOf σ c to hc reached e =
      let (ht, members) =
        accessible_epsilon-members index ok k ws eps obs sized below fuel c to hc e in
      (
        (
          ht,
          λ m m' inside step.
              let (m0, n, first, run) = (members m).0 inside in
              (members m').1 (m0, suc n, first, then_by run step),
          λ m inside.
              let (m0, n, first, run) = (members m).0 inside in
              let (m1, first1, o) = reached m0 first in (m1, first1, Observed-Run ws eps obs o run),
        ),
        λ m inside. (members m).1 (m, 0, inside, here),
      )

  -- The aggregate that an edge leads to.
  step_IsAggregateOf :
      (σ : List ℕ) (t : ℕ) (a b : Ldd)
      → IsAggregateOf σ a
      → In t (firable_obs index (loaded ws eps obs) a)
      → accessible_epsilon index
          (loaded ws eps obs)
          fuel
          (get_successor index (loaded ws eps obs) a t)
        ≡ some b
      → IsAggregateOf (t ∷ σ) b
        × ((m m' : List ℕ)
            → mem a m ≡ true
            → Fires (weights_at ws t).pre (weights_at ws t).post m m'
            → mem b m' ≡ true)
  step_IsAggregateOf σ t a b (ha, stays, reached) fire next =
      let member = ((firable_obs-In index ok k ws eps obs sized a t below_obs ha).0 fire).0 in
      let image =
        get_successor-IsImage index ok k ws eps obs a t sized
          (In-below (length ws) t obs below_obs member) ha in
      let (agg, keeps) =
        closure_IsAggregateOf (t ∷ σ) _ b image.formed
          (λ m inside.
            let (m0, first, fires) = image.only m inside in
            let (m1, first1, o) = reached m0 first in (m1, first1, observed t o member fires))
          next in
      (agg, λ m m' inside fires. keeps m' (image.all m' (m, inside, fires)))

  Trace-IsAggregateOf :
      {σ : List ℕ} {p : ℕ} (d : Ldd) → Trace ns 0 σ p → ldd_at ns p ≡ some d → IsAggregateOf σ d
  Trace-IsAggregateOf d no_edge at =
      subst (IsAggregateOf []) (some_eq (sym sog.first ∙ at))
        (closure_IsAggregateOf [] from a0 formed (λ m inside. (m, inside, start)) closed).0
  Trace-IsAggregateOf d (extend {σ} {j} {q} t w e) at =
      let (a, b, at_a, fire, next, at_b) = sog.sound j t q e in
      subst (IsAggregateOf (t ∷ σ)) (some_eq (sym at_b ∙ at))
        (step_IsAggregateOf σ t a b (Trace-IsAggregateOf a w at_a) fire next).0

  Observed-Shows :
      (m : List ℕ) {σ : List ℕ} {m' : List ℕ}
      → mem from m ≡ true
      → Observed ws eps obs m σ m'
      → Shows ns σ m'
  Observed-Shows m inside start = (
    0,
    a0,
    no_edge,
    sog.first,
    (closure_IsAggregateOf [] from a0 formed (λ m inside. (m, inside, start)) closed).1 m inside,
  )
  Observed-Shows m inside (silent {m' = m1} {m'' = m2} o step) =
      let (p, d, w, at, has) = Observed-Shows m inside o in
      (p, d, w, at, (Trace-IsAggregateOf d w at).1 m1 m2 has step)
  Observed-Shows m inside (observed {σ} {m' = m1} {m'' = m2} t o member fires) =
      let (p, d, w, at, has) = Observed-Shows m inside o in
      let agg = Trace-IsAggregateOf d w at in
      let fire =
        (firable_obs-In index ok k ws eps obs sized d t below_obs agg.0).1
          (member, (m1, m2, has, fires)) in
      let (q, e) = sog.complete p d t at fire in
      let (a, b, at_a, fire_a, next, at_b) = sog.sound p t q e in
      let agg_a = Trace-IsAggregateOf a w at_a in
      let has_a : mem a m1 ≡ true = subst (λ x. mem x m1 ≡ true) (some_eq (sym at ∙ at_a)) has in
      (q, b, extend t w e, at_b, (step_IsAggregateOf σ t a b agg_a fire_a next).1 m1 m2 has_a fires)

  IsSog-traces : (σ m : List ℕ) → Shows ns σ m ↔ Reaches ws eps obs from σ m
  IsSog-traces σ m = (
    λ (p, d, w, at, inside). (Trace-IsAggregateOf d w at).2 m inside,
    λ (m0, first, o). Observed-Shows m0 first o,
  )

-- In the graph that computeSeqSOG returns from a well-formed initial tree, a path with the labels
-- `σ` ends at an aggregate that has the marking `m` exactly when a firing sequence of the net from
-- an initial marking ends in `m` with the observable transitions `σ`.
pub compute_seq_sog_traces :
    (index : Ldd → ℕ) (ok : IsIndex index) (k : ℕ) (ws : List Weights) (eps obs : List ℕ)
    → AreSized k ws
    → AreBelow (length ws) eps
    → AreBelow (length ws) obs
    → (fuel : ℕ) (from : Ldd) → IsLdd k from
    → (g : LddGraph) → compute_seq_sog index (loaded ws eps obs) fuel from ≡ some g
    → (σ m : List ℕ) → Shows g.go_nodes σ m ↔ Reaches ws eps obs from σ m
compute_seq_sog_traces index ok k ws eps obs sized below below_obs fuel from hf g e =
    let (a0, closed, sog) = compute_seq_sog-IsSog index ok (loaded ws eps obs) fuel from g e in
    IsSog-traces index ok k ws eps obs sized below below_obs fuel from a0 hf closed g.go_nodes sog
