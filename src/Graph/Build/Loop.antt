-- ===== src/Graph/Build/Loop.antt =====
-- The loops of computeSeqSOG (src/threadSOG.cpp) and the invariant.
use mc_sog.Graph.{LddGraph, find, insert, set_initial_state}
use mc_sog.Graph.Build.{
  Explorer, Search, Task, build_loop, compute_seq_sog, empty_graph, explorer, first_search, reach,
  scan,
}
use mc_sog.Graph.Build.Correct.{
  Holds, IsPartial-IsSog, IsPartial-drop, IsPartial-first, IsSog, reach-Holds,
}
use mc_sog.Graph.Build.Invariant.{IsPartial}
use mc_sog.Graph.Nodes.{find_from-Finds}
use mc_sog.Ldd.Tree.{IsIndex, Ldd}
use mc_sog.Prelude.{>>=-eq-some, List, [], some, some_eq, subst, suc, zero, ℕ, ◌>>=◌, ◌∷◌, ◌≡◌}
use mc_sog.Sog.{CommonSog, accessible_epsilon}

module _ (index : Ldd → ℕ) (ok : IsIndex index) (ex : Explorer) (a0 : Ldd) where
  -- The invariant between two entries of the stack.
  abbrev pub HoldsBetween : Search → Type 0
  HoldsBetween s = IsPartial ex a0 s.graph.go_nodes s.stack

  pub scan-HoldsBetween :
      (s s' : Search) (p : ℕ) (a : Ldd) (ts : List ℕ)
      → Holds index ok ex a0 s p a ts
      → scan index ex p a ts s ≡ some s'
      → HoldsBetween s'
  unfolding scan find
  scan-HoldsBetween s s' p a [] h e =
      subst HoldsBetween (some_eq e) (IsPartial-drop ex a0 s.graph.go_nodes p a s.stack h)
  scan-HoldsBetween s s' p a (t ∷ ts) h e =
      let (b, next, e1) =
        >>=-eq-some (ex.next a t)
          (λ b. reach index ex s p t b (find index s.graph b) >>= scan index ex p a ts) e in
      let (s1, done, e2) =
        >>=-eq-some (reach index ex s p t b (find index s.graph b)) (scan index ex p a ts) e1 in
      scan-HoldsBetween s1 s' p a ts
        (reach-Holds index ok ex a0 s s1 p t a b ts _
          (find_from-Finds index ok b s.graph.go_nodes 0) next h done)
        e2

  -- The loop with the stack given apart.
  loop_stack :
      (fuel : ℕ) (gr : LddGraph) (st : List Task) (g : LddGraph)
      → HoldsBetween (record { graph = gr; stack = st })
      → build_loop index ex fuel (record { graph = gr; stack = st }) ≡ some g
      → IsSog ex a0 g.go_nodes
  unfolding build_loop
  loop_stack zero gr [] g h e =
      subst (λ x. IsSog ex a0 x.go_nodes) (some_eq e) (IsPartial-IsSog ex a0 gr.go_nodes h)
  loop_stack (suc fuel) gr [] g h e =
      subst (λ x. IsSog ex a0 x.go_nodes) (some_eq e) (IsPartial-IsSog ex a0 gr.go_nodes h)
  loop_stack zero gr (k ∷ st) g h e = cc
  loop_stack (suc fuel) gr (k ∷ st) g h e =
      let (s1, done, e1) =
        >>=-eq-some (scan index ex k.aggregate k.mdd k.fire (record { graph = gr; stack = st }))
          (build_loop index ex fuel) e in
      loop_stack fuel s1.graph s1.stack g
        (scan-HoldsBetween (record { graph = gr; stack = st }) s1 k.aggregate k.mdd k.fire h done)
        e1

module _ (index : Ldd → ℕ) (ok : IsIndex index) where
  -- When computeSeqSOG returns a graph, its first aggregate is the closure of the initial marking,
  -- no aggregate occurs twice, each aggregate has an edge for each of its firable observable
  -- transitions, each edge is a step between aggregates, and all are reached from the first.
  pub compute_seq_sog-IsSog :
      (c : CommonSog) (fuel : ℕ) (m0 : Ldd) (g : LddGraph)
      → compute_seq_sog index c fuel m0 ≡ some g
      → (a0 : Ldd) × (accessible_epsilon index c fuel m0 ≡ some a0)
        × IsSog (explorer index c fuel) a0 g.go_nodes
  unfolding compute_seq_sog first_search insert set_initial_state
  compute_seq_sog-IsSog c fuel m0 g e =
      let ex = explorer index c fuel in
      let (a0, closed, e1) =
        >>=-eq-some (accessible_epsilon index c fuel m0)
          (λ a. build_loop index ex fuel (first_search index ex empty_graph a)) e in
      (a0, closed, loop_stack index ok ex a0 fuel _ _ g (IsPartial-first ex a0) e1)
