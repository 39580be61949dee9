-- ===== src/Kripke/Traces.antt =====
-- The structure of src/SogKripke.cpp over the graph of computeSeqSOG, and the firing sequences.
use mc_sog.Graph.{LddGraph, LddState, find, insert, set_initial_state}
use mc_sog.Graph.Build.{
  Explorer, Search, Task, build_loop, compute_seq_sog, explorer, first_search, reach, reach_found,
  reach_new, scan,
}
use mc_sog.Graph.Build.Aggregates.{Reaches}
use mc_sog.Graph.Build.Traces.{Shows, Trace, compute_seq_sog_traces, extend, no_edge}
use mc_sog.Graph.Edges.{InEdge}
use mc_sog.Graph.Nodes.{ldd_at}
use mc_sog.Kripke.{sog_kripke_iterator}
use mc_sog.Kripke.Walks.{
  AreAlike, HasRoom, KripkeWalk, Offers-InEdge, Offers-same, at_init, by_edge, by_loop,
  sog_kripke_iterator-AreAlike,
}
use mc_sog.Ldd.Tree.{IsIndex, IsLdd, Ldd, mem}
use mc_sog.Prelude.{
  List, Option, Option-cases, [], ap, inl, inr, length, none, refl, some, some_eq, subst, suc, sym,
  true, zero, ℕ, ◌+◌, ◌<◌, ◌>>=◌, ◌^◌, ◌↔◌, ◌∙◌, ◌∷◌, ◌≡◌,
}
use mc_sog.Sog.{CommonSog, accessible_epsilon}
use mc_sog.Sog.System.{AreBelow, AreSized, Weights, loaded}

AreAlike-trans : (a b c : List LddState) → AreAlike a b → AreAlike b c → AreAlike a c
AreAlike-trans a b c h g = record {
  ldds = λ i. g.ldds i ∙ h.ldds i;
  edges = λ i. g.edges i ∙ h.edges i;
}

HasRoom-AreAlike : (g g' : LddGraph) → AreAlike g.go_nodes g'.go_nodes → HasRoom g → HasRoom g'
HasRoom-AreAlike g g' h room p = subst (λ es. length es + 1 < 2 ^ 32) (sym (h.edges p)) (room p)

module _ (g : LddGraph) (room : HasRoom g) (at_zero : g.initialstate ≡ some 0) where
  -- A walk is a path of the graph, and leaves its MDDs and edges.
  KripkeWalk-Trace :
      {σ : List ℕ} {g' : LddGraph} {p : ℕ}
      → KripkeWalk g σ g' p
      → AreAlike g.go_nodes g'.go_nodes × Trace g.go_nodes 0 σ p
  KripkeWalk-Trace (at_init p e) = (
    record { ldds = λ i. refl; edges = λ i. refl },
    subst (λ j. Trace g.go_nodes 0 [] j) (some_eq (sym at_zero ∙ e)) no_edge,
  )
  KripkeWalk-Trace (by_edge {g' = g'} {p = p} q t w o) =
      let (alike, path) = KripkeWalk-Trace w in
      let room' = HasRoom-AreAlike g g' alike room in
      let edge = (Offers-InEdge g' p room' q t).0 o in
      (
        AreAlike-trans _ _ _ alike (sog_kripke_iterator-AreAlike g' p room'),
        extend t path (subst (InEdge q t) (alike.edges p) edge),
      )
  KripkeWalk-Trace (by_loop {σ = σ} {g' = g'} {p = p} q w o) =
      let (alike, path) = KripkeWalk-Trace w in
      let room' = HasRoom-AreAlike g g' alike room in
      (
        AreAlike-trans _ _ _ alike (sog_kripke_iterator-AreAlike g' p room'),
        subst (λ j. Trace g.go_nodes 0 σ j) (sym (Offers-same g' p room' q o)) path,
      )

  Trace-KripkeWalk :
      {σ : List ℕ} {p : ℕ}
      → Trace g.go_nodes 0 σ p
      → (g' : LddGraph) × AreAlike g.go_nodes g'.go_nodes × KripkeWalk g σ g' p
  Trace-KripkeWalk no_edge = (g, record { ldds = λ i. refl; edges = λ i. refl }, at_init 0 at_zero)
  Trace-KripkeWalk (extend {j = p} {q = q} t path edge) =
      let (g', alike, w) = Trace-KripkeWalk path in
      let room' = HasRoom-AreAlike g g' alike room in
      (
        (sog_kripke_iterator g' p).0,
        AreAlike-trans _ _ _ alike (sog_kripke_iterator-AreAlike g' p room'),
        by_edge q t w
            ((Offers-InEdge g' p room' q t).1 (subst (InEdge q t) (sym (alike.edges p)) edge)),
      )

-- A walk with the transitions `σ` ends at an aggregate that has the marking.
abbrev pub KripkeShows : LddGraph → List ℕ → List ℕ → Type 0
KripkeShows g σ m =
    (g' : LddGraph) × (p : ℕ) × (d : Ldd) × KripkeWalk g σ g' p
    × (ldd_at g'.go_nodes p ≡ some d)
    × (mem d m ≡ true)

KripkeShows-Shows :
    (g : LddGraph)
    → HasRoom g
    → g.initialstate ≡ some 0
    → (σ m : List ℕ) → KripkeShows g σ m ↔ Shows g.go_nodes σ m
KripkeShows-Shows g room at_zero σ m = (
  λ (g', p, d, w, at, inside).
      let (alike, path) = KripkeWalk-Trace g room at_zero w in
      (p, d, path, sym (alike.ldds p) ∙ at, inside),
  λ (p, d, path, at, inside).
      let (g', alike, w) = Trace-KripkeWalk g room at_zero path in
      (g', p, d, w, alike.ldds p ∙ at, inside),
)

module _ (index : Ldd → ℕ) (ex : Explorer) where
  reach-initialstate :
      (s s' : Search) (p t : ℕ) (b : Ldd) (at : Option ℕ)
      → reach index ex s p t b at ≡ some s'
      → s'.graph.initialstate ≡ s.graph.initialstate
  unfolding reach
  reach-initialstate s s' p t b (some q) e =
      ap (λ u. u.graph.initialstate) (sym (some_eq e)) ∙ unfold reach_found in refl
  reach-initialstate s s' p t b none e = elim (Option-cases (ex.div b)) [
    | inl out ↦ cc (rw out at e)
    | inr (loops, found) ↦
        ap (λ u. u.graph.initialstate) (sym (some_eq (rw (found, ◌>>=◌) at e)))
        ∙ unfold reach_new in refl
  ]

  scan-initialstate :
      (p : ℕ) (a : Ldd) (ts : List ℕ) (s s' : Search)
      → scan index ex p a ts s ≡ some s'
      → s'.graph.initialstate ≡ s.graph.initialstate
  unfolding scan
  scan-initialstate p a [] s s' e = ap (λ u. u.graph.initialstate) (sym (some_eq e))
  scan-initialstate p a (t ∷ ts) s s' e = elim (Option-cases (ex.next a t)) [
    | inl out ↦ cc (rw out at e)
    | inr (b, found) ↦
        let e' = rw (found, ◌>>=◌) at e in
        elim (Option-cases (reach index ex s p t b (find index s.graph b))) [
          | inl out ↦ cc (rw out at e')
          | inr (s1, reached) ↦
              scan-initialstate p a ts s1 s' (rw (reached, ◌>>=◌) at e')
              ∙ reach-initialstate s s1 p t b (find index s.graph b) reached
        ]
  ]

  build_loop-initialstate :
      (fuel : ℕ) (s : Search) (g : LddGraph)
      → build_loop index ex fuel s ≡ some g
      → g.initialstate ≡ s.graph.initialstate
  unfolding build_loop
  build_loop-initialstate fuel s g e = by_stack fuel s.stack s refl e
    where
      by_stack :
          (fuel : ℕ) (st : List Task) (s : Search)
          → s.stack ≡ st
          → build_loop index ex fuel s ≡ some g
          → g.initialstate ≡ s.graph.initialstate
      by_stack zero [] s at e = ap (λ h. h.initialstate) (sym (some_eq (rw at at e)))
      by_stack zero (x ∷ st) s at e = cc (rw at at e)
      by_stack (suc n) [] s at e = ap (λ h. h.initialstate) (sym (some_eq (rw at at e)))
      by_stack (suc n) (x ∷ st) s at e =
          let e' = rw at at e in
          elim (Option-cases (scan index ex x.aggregate x.mdd x.fire (record s { stack = st }))) [
            | inl out ↦ cc (rw out at e')
            | inr (s1, found) ↦
                by_stack n s1.stack s1 refl (rw (found, ◌>>=◌) at e')
                ∙ scan-initialstate x.aggregate x.mdd x.fire (record s { stack = st }) s1 found
          ]

compute_seq_sog-initialstate :
    (index : Ldd → ℕ) (c : CommonSog) (fuel : ℕ) (from : Ldd) (g : LddGraph)
    → compute_seq_sog index c fuel from ≡ some g
    → g.initialstate ≡ some 0
unfolding compute_seq_sog
compute_seq_sog-initialstate index c fuel from g e =
    elim (Option-cases (accessible_epsilon index c fuel from)) [
      | inl out ↦ cc (rw out at e)
      | inr (a, found) ↦
          build_loop-initialstate index (explorer index c fuel) fuel _ g (rw (found, ◌>>=◌) at e)
          ∙ unfold first_search in unfold insert in unfold set_initial_state in refl
    ]

-- For the graph that computeSeqSOG returns from a well-formed initial LDD, with fewer edges at
-- each state than an unsigned int counts: a walk of a client through the structure with the
-- transitions s ends at an aggregate that has the marking m exactly when a firing sequence of the
-- net from an initial marking ends in m with the observable transitions s.
pub kripke_traces :
    (index : Ldd → ℕ) (ok : IsIndex index) (k : ℕ) (ws : List Weights) (eps obs : List ℕ)
    → AreSized k ws
    → AreBelow (length ws) eps
    → AreBelow (length ws) obs
    → (fuel : ℕ) (from : Ldd) → IsLdd k from
    → (g : LddGraph) → compute_seq_sog index (loaded ws eps obs) fuel from ≡ some g
    → HasRoom g
    → (σ m : List ℕ) → KripkeShows g σ m ↔ Reaches ws eps obs from σ m
kripke_traces index ok k ws eps obs sized below below_obs fuel from hf g e room σ m =
    let at_zero = compute_seq_sog-initialstate index (loaded ws eps obs) fuel from g e in
    let walks = KripkeShows-Shows g room at_zero σ m in
    let paths =
      compute_seq_sog_traces index ok k ws eps obs sized below below_obs fuel from hf g e σ m in
    (λ h. paths.0 (walks.0 h), λ h. walks.1 (paths.1 h))
