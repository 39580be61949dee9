-- ===== src/Graph/Edges.antt =====
-- The edges of the graph, and what one insertion of an edge changes.
use mc_sog.Graph.{LddGraph, LddState, insert_predecessor, insert_successor, link}
use mc_sog.Graph.Nodes.{
  ldd_at, ldd_at-insert_predecessor, ldd_at-insert_successor, successors_at,
  successors_at-insert_predecessor, successors_at-insert_successor,
}
use mc_sog.Prelude.{
  ==_iff, ==_self, Bool, List, [], false, if◌then◌else◌, inl, inr, length, refl, subst, sym, true,
  ℕ, ◌<◌, ◌==◌, ◌∙◌, ◌∷◌, ◌≡◌, ◌⊎◌,
}

abbrev pub InEdge : ℕ → ℕ → List (ℕ × ℕ) → Type 0
InEdge q t [] = ⊥
InEdge q t ((q', t') ∷ es) = ((q ≡ q') × (t ≡ t')) ⊎ InEdge q t es

-- The state at `p` has the successor `q` by `t`.
abbrev pub HasEdge : List LddState → ℕ → ℕ → ℕ → Type 0
HasEdge ns p t q = InEdge q t (successors_at ns p)

-- The states of `ns'` are those of `ns`, with the edge from `p` to `q` by `t` besides.
pub record IsLinked (ns : List LddState) (p q t : ℕ) (ns' : List LddState) : Type 0 where
  pub ldds : (i : ℕ) → ldd_at ns' i ≡ ldd_at ns i
  pub new : HasEdge ns' p t q
  pub old : (i u j : ℕ) → HasEdge ns i u j → HasEdge ns' i u j
  pub only : (i u j : ℕ) → HasEdge ns' i u j → HasEdge ns i u j ⊎ ((i ≡ p) × (u ≡ t) × (j ≡ q))

linked_successors :
    (ns : List LddState) (p q t i : ℕ)
    → p < length ns
    → successors_at (insert_predecessor (insert_successor ns p q t) q p t) i
      ≡ (if i == p then (q, t) ∷ successors_at ns i else successors_at ns i)
linked_successors ns p q t i h =
    successors_at-insert_predecessor (insert_successor ns p q t) q p t i
    ∙ successors_at-insert_successor ns p q t i h

cons_if :
    (b : Bool) (q t j u : ℕ) (es : List (ℕ × ℕ))
    → InEdge j u es
    → InEdge j u (if b then (q, t) ∷ es else es)
cons_if true q t j u es h = inr h
cons_if false q t j u es h = h

if_cons :
    (b : Bool) (q t j u : ℕ) (es : List (ℕ × ℕ))
    → InEdge j u (if b then (q, t) ∷ es else es)
    → InEdge j u es ⊎ ((b ≡ true) × (u ≡ t) × (j ≡ q))
if_cons true q t j u es (inl h) = inr (refl, h.1, h.0)
if_cons true q t j u es (inr h) = inl h
if_cons false q t j u es h = inl h

pub link-IsLinked :
    (g : LddGraph) (p q t : ℕ)
    → p < length g.go_nodes
    → IsLinked g.go_nodes p q t (link g p q t).go_nodes
unfolding link
link-IsLinked g p q t h = record {
  ldds = λ i.
      ldd_at-insert_predecessor (insert_successor g.go_nodes p q t) q p t i
      ∙ ldd_at-insert_successor g.go_nodes p q t i;
  new =
      subst (InEdge q t) (sym (linked_successors g.go_nodes p q t p h))
        (rw (==_self p) (inl (refl, refl)));
  old = λ i u j e.
      subst (InEdge j u) (sym (linked_successors g.go_nodes p q t i h))
        (cons_if (i == p) q t j u (successors_at g.go_nodes i) e);
  only = λ i u j e.
      elim (if_cons (i == p) q t j u (successors_at g.go_nodes i)
        (subst (InEdge j u) (linked_successors g.go_nodes p q t i h) e)) [
          | inl before ↦ inl before
          | inr (at, at_t, at_q) ↦ inr ((==_iff i p).0 at, at_t, at_q)
        ];
}
