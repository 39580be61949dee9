-- ===== src/Kripke/Walks.antt =====
-- The walks of a client through the structure of src/SogKripke.cpp, and the paths of the graph.
use Prim.Native.Nat.{◌^◌}
use mc_sog.Graph.{LddGraph, LddState, new_state}
use mc_sog.Graph.Edges.{InEdge}
use mc_sog.Graph.Nodes.{ldd_at, successors_at}
use mc_sog.Kripke.{first, node_at, push_edges, push_if, set_div_at, sog_kripke_iterator}
use mc_sog.Kripke.Enumerates.{for_each, for_each-lsucc}
use mc_sog.Ldd.Tree.{lddmc_false}
use mc_sog.Prelude.{
  Bool, List, [], ap, arith, false, get_or, inl, inr, length, modify, negsuc, pos, refl, some,
  some_eq, subst, suc, sym, true, zero, ℕ, ℤ, ◌++◌, ◌+◌, ◌<◌, ◌^◌, ◌↔◌, ◌∙◌, ◌∷◌, ◌≡◌, ◌≤◌, ◌⊎◌,
}

abbrev pub InPair : ℕ → ℤ → List (ℕ × ℤ) → Type 0
InPair q l [] = ⊥
InPair q l (e ∷ es) = ((q ≡ e.0) × (l ≡ e.1)) ⊎ InPair q l es

-- The loop over the iterator at `p` gives the edge to `q` with the label `l`.
abbrev pub Offers : LddGraph → ℕ → ℕ → ℤ → Type 0
Offers g p q l =
    (es : List (ℕ × ℤ)) × (for_each (suc (length (sog_kripke_iterator g p).1.lsucc))
        (first (sog_kripke_iterator g p).1).0
      ≡ some es)
    × InPair q l es

-- A walk from get_init_state, with its transitions, the last first; loop edges have none. The
-- graph is passed on, since an iterator changes it.
pub data KripkeWalk (g : LddGraph) : List ℕ → LddGraph → ℕ → Type 0 where
  at_init : (p : ℕ) → g.initialstate ≡ some p → KripkeWalk g [] g p
  by_edge :
      {σ : List ℕ} {g' : LddGraph} {p : ℕ} (q t : ℕ)
      → KripkeWalk g σ g' p
      → Offers g' p q (pos t)
      → KripkeWalk g (t ∷ σ) (sog_kripke_iterator g' p).0 q
  by_loop :
      {σ : List ℕ} {g' : LddGraph} {p : ℕ} (q : ℕ)
      → KripkeWalk g σ g' p
      → Offers g' p q (negsuc 0)
      → KripkeWalk g σ (sog_kripke_iterator g' p).0 q

-- The two graphs have the same MDDs and edges.
pub record AreAlike (ns ns' : List LddState) : Type 0 where
  pub ldds : (i : ℕ) → ldd_at ns' i ≡ ldd_at ns i
  pub edges : (i : ℕ) → successors_at ns' i ≡ successors_at ns i

modify-AreAlike :
    (ns : List LddState) (p : ℕ) → AreAlike ns (modify ns p (λ n. record n { boucle = true }))
modify-AreAlike ns p = record { ldds = same_ldds ns p; edges = same_edges ns p }
  where
    same_ldds :
        (ns : List LddState) (p i : ℕ)
        → ldd_at (modify ns p (λ n. record n { boucle = true })) i ≡ ldd_at ns i
    same_ldds [] p i = refl
    same_ldds (n ∷ ns) zero zero = refl
    same_ldds (n ∷ ns) zero (suc i) = refl
    same_ldds (n ∷ ns) (suc p) zero = refl
    same_ldds (n ∷ ns) (suc p) (suc i) = same_ldds ns p i

    same_edges :
        (ns : List LddState) (p i : ℕ)
        → successors_at (modify ns p (λ n. record n { boucle = true })) i ≡ successors_at ns i
    same_edges [] p i = refl
    same_edges (n ∷ ns) zero zero = refl
    same_edges (n ∷ ns) zero (suc i) = refl
    same_edges (n ∷ ns) (suc p) zero = refl
    same_edges (n ∷ ns) (suc p) (suc i) = same_edges ns p i

node_at-successors :
    (ns : List LddState) (p : ℕ)
    → (get_or ns p (new_state lddmc_false)).successors ≡ successors_at ns p
node_at-successors [] p = refl
node_at-successors (n ∷ ns) zero = refl
node_at-successors (n ∷ ns) (suc p) = node_at-successors ns p

pos-injective : {a b : ℕ} → pos a ≡ pos b → a ≡ b
pos-injective {a} e = ap value e
  where
    value : ℤ → ℕ
    value (pos n) = n
    value (negsuc n) = a

-- The edges of an iterator, from those of its aggregate.
pushed-InEdge :
    (es : List (ℕ × ℕ)) (b : Bool) (p q t : ℕ)
    → InPair q (pos t) (push_edges (λ j. j) es ++ push_if b p)
    → InEdge q t es
unfolding push_edges
pushed-InEdge [] true p q t (inl h) = cc
pushed-InEdge [] true p q t (inr h) = h
pushed-InEdge [] false p q t h = h
pushed-InEdge ((j, u) ∷ es) b p q t (inl h) = inl (h.0, pos-injective h.1)
pushed-InEdge ((j, u) ∷ es) b p q t (inr h) = inr (pushed-InEdge es b p q t h)

InEdge-pushed :
    (es : List (ℕ × ℕ)) (b : Bool) (p q t : ℕ)
    → InEdge q t es
    → InPair q (pos t) (push_edges (λ j. j) es ++ push_if b p)
unfolding push_edges
InEdge-pushed [] b p q t h = absurd h
InEdge-pushed ((j, u) ∷ es) b p q t (inl h) = inl (h.0, ap (λ n. pos n) h.1)
InEdge-pushed ((j, u) ∷ es) b p q t (inr h) = inr (InEdge-pushed es b p q t h)

pushed_loop :
    (es : List (ℕ × ℕ)) (b : Bool) (p q : ℕ)
    → InPair q (negsuc 0) (push_edges (λ j. j) es ++ push_if b p)
    → q ≡ p
unfolding push_edges
pushed_loop [] true p q (inl h) = h.0
pushed_loop [] true p q (inr h) = absurd h
pushed_loop [] false p q h = absurd h
pushed_loop ((j, u) ∷ es) b p q (inl h) = cc
pushed_loop ((j, u) ∷ es) b p q (inr h) = pushed_loop es b p q h

length-pushed :
    (es : List (ℕ × ℕ)) (b : Bool) (p : ℕ)
    → length (push_edges (λ j. j) es ++ push_if b p) ≤ length es + 1
unfolding push_edges
length-pushed [] true p = omega arith
length-pushed [] false p = omega arith
length-pushed (e ∷ es) b p = omega (arith, length-pushed es b p)

-- No state has as many edges as an unsigned int counts.
abbrev pub HasRoom : LddGraph → Type 0
HasRoom g = (p : ℕ) → length (successors_at g.go_nodes p) + 1 < 2 ^ 32

module _ (g : LddGraph) (p : ℕ) (room : HasRoom g) where
  successors-set_div_at : (node_at (set_div_at g p) p).successors ≡ successors_at g.go_nodes p
  unfolding set_div_at
  successors-set_div_at = node_at-successors _ p ∙ (modify-AreAlike g.go_nodes p).edges p

  pub sog_kripke_iterator-AreAlike : AreAlike g.go_nodes (sog_kripke_iterator g p).0.go_nodes
  unfolding sog_kripke_iterator set_div_at
  sog_kripke_iterator-AreAlike = modify-AreAlike g.go_nodes p

  abbrev edges_of : List (ℕ × ℕ) → List (ℕ × ℤ)
  edges_of es = push_edges (λ j. j) es ++ push_if (node_at (set_div_at g p) p).boucle p

  lsucc_edges : (sog_kripke_iterator g p).1.lsucc ≡ edges_of (successors_at g.go_nodes p)
  unfolding sog_kripke_iterator
  lsucc_edges = ap edges_of successors-set_div_at

  all_edges :
      for_each
        (suc (length (sog_kripke_iterator g p).1.lsucc))
        (first (sog_kripke_iterator g p).1).0
      ≡ some (sog_kripke_iterator g p).1.lsucc
  all_edges = for_each-lsucc (sog_kripke_iterator g p).1 fits
    where
      fits : length (sog_kripke_iterator g p).1.lsucc < 2 ^ 32
      fits =
          subst (λ es. length es < 2 ^ 32) (sym lsucc_edges)
            (omega (
              arith,
              room p,
              length-pushed (successors_at g.go_nodes p) (node_at (set_div_at g p) p).boucle p,
            ))

  Offers-InPair :
      (q : ℕ) (l : ℤ) → Offers g p q l → InPair q l (edges_of (successors_at g.go_nodes p))
  Offers-InPair q l (es, e, inside) =
      subst (InPair q l) (some_eq (sym e ∙ all_edges) ∙ lsucc_edges) inside

  InPair-Offers :
      (q : ℕ) (l : ℤ) → InPair q l (edges_of (successors_at g.go_nodes p)) → Offers g p q l
  InPair-Offers q l inside = (_, all_edges, subst (InPair q l) (sym lsucc_edges) inside)

  pub Offers-InEdge : (q t : ℕ) → Offers g p q (pos t) ↔ InEdge q t (successors_at g.go_nodes p)
  Offers-InEdge q t = (
    λ h. pushed-InEdge _ _ p q t (Offers-InPair q (pos t) h),
    λ h. InPair-Offers q (pos t) (InEdge-pushed _ _ p q t h),
  )

  pub Offers-same : (q : ℕ) → Offers g p q (negsuc 0) → q ≡ p
  Offers-same q h = pushed_loop _ _ p q (Offers-InPair q (negsuc 0) h)
