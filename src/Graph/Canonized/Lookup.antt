-- ===== src/Graph/Canonized/Lookup.antt =====
-- The graph of doComputeCanonized and that of doCompute (src/threadSOG.cpp), state by state, and
-- what a lookup finds in them.
use mc_sog.Graph.{
  LddGraph, LddState, add_arc, find, find_from, insert, insert_predecessor, insert_successor, link,
  new_state,
}
use mc_sog.Graph.Canonized.{fresh_of}
use mc_sog.Graph.Nodes.{ldd_at}
use mc_sog.Graph.Threads.{look_up}
use mc_sog.Ldd.Tree.{IsIndex, Ldd}
use mc_sog.Prelude.{
  ==_iff, Bool-cases, List, Option, [], ap, arith, inl, inr, length, none, refl, some, some_eq, suc,
  sym, zero, ℕ, ◌%◌, ◌++◌, ◌+◌, ◌==◌, ◌^◌, ◌∙◌, ◌∷◌, ◌≡◌,
}

module _ (index : Ldd → ℕ) (ok : IsIndex index) (canon : Ldd → Option Ldd) where
  -- The states are the same but for their MDDs, and these are canonized.
  abbrev pub NodesMatch : (whole canonized : List LddState) → Type 0
  NodesMatch [] [] = Unit {0}
  NodesMatch (n0 ∷ ns0) (n ∷ ns) =
      (canon n0.lddstate ≡ some n.lddstate)
      × (n ≡ record n0 { lddstate = n.lddstate })
      × NodesMatch ns0 ns
  NodesMatch _ _ = ⊥

  NodesMatch-length : (ns0 ns : List LddState) → NodesMatch ns0 ns → length ns ≡ length ns0
  NodesMatch-length [] [] h = refl
  NodesMatch-length (n0 ∷ ns0) (n ∷ ns) h = omega (arith, NodesMatch-length ns0 ns h.2)
  NodesMatch-length [] (n ∷ ns) h = absurd h
  NodesMatch-length (n0 ∷ ns0) [] h = absurd h

  NodesMatch-insert :
      (ns0 ns : List LddState) (b c : Ldd)
      → canon b ≡ some c
      → NodesMatch ns0 ns
      → NodesMatch (ns0 ++ new_state b ∷ []) (ns ++ new_state c ∷ [])
  NodesMatch-insert [] [] b c e h = (e, refl, tt)
  NodesMatch-insert (n0 ∷ ns0) (n ∷ ns) b c e h = (h.0, h.1, NodesMatch-insert ns0 ns b c e h.2)
  NodesMatch-insert [] (n ∷ ns) b c e h = absurd h
  NodesMatch-insert (n0 ∷ ns0) [] b c e h = absurd h

  NodesMatch-successor :
      (ns0 ns : List LddState) (p q t : ℕ)
      → NodesMatch ns0 ns
      → NodesMatch (insert_successor ns0 p q t) (insert_successor ns p q t)
  unfolding insert_successor
  NodesMatch-successor [] [] p q t h = tt
  NodesMatch-successor (n0 ∷ ns0) (n ∷ ns) zero q t h =
      (h.0, ap {A = LddState} (λ z. record z { successors = (q, t) ∷ z.successors }) h.1, h.2)
  NodesMatch-successor (n0 ∷ ns0) (n ∷ ns) (suc p) q t h =
      (h.0, h.1, NodesMatch-successor ns0 ns p q t h.2)
  NodesMatch-successor [] (n ∷ ns) p q t h = absurd h
  NodesMatch-successor (n0 ∷ ns0) [] p q t h = absurd h

  NodesMatch-predecessor :
      (ns0 ns : List LddState) (p q t : ℕ)
      → NodesMatch ns0 ns
      → NodesMatch (insert_predecessor ns0 p q t) (insert_predecessor ns p q t)
  unfolding insert_predecessor
  NodesMatch-predecessor [] [] p q t h = tt
  NodesMatch-predecessor (n0 ∷ ns0) (n ∷ ns) zero q t h =
      (h.0, ap {A = LddState} (λ z. record z { predecessors = (q, t) ∷ z.predecessors }) h.1, h.2)
  NodesMatch-predecessor (n0 ∷ ns0) (n ∷ ns) (suc p) q t h =
      (h.0, h.1, NodesMatch-predecessor ns0 ns p q t h.2)
  NodesMatch-predecessor [] (n ∷ ns) p q t h = absurd h
  NodesMatch-predecessor (n0 ∷ ns0) [] p q t h = absurd h

  module _ (Good : Ldd → Type 0)
      (injective : (a b c : Ldd) → Good a → Good b → canon a ≡ some c → canon b ≡ some c → a ≡ b)
      (b c : Ldd) (good : Good b) (canonized : canon b ≡ some c) where
    find_from-same :
        (ns0 ns : List LddState) (i : ℕ)
        → NodesMatch ns0 ns
        → ((q : ℕ) (d : Ldd) → ldd_at ns0 q ≡ some d → Good d)
        → find_from index c ns i ≡ find_from index b ns0 i
    unfolding find_from
    find_from-same [] [] i h goods = refl
    find_from-same (n0 ∷ ns0) (n ∷ ns) i h goods =
        elim (Bool-cases (index b == index n0.lddstate)) [
          | inl same ↦
              let e = ok.injective _ _ ((==_iff _ _).0 same) in
              let e' = some_eq (sym canonized ∙ ap canon e ∙ h.0) in
              rw (same, (==_iff (index c) (index n.lddstate)).1 (ap index e')) refl
          | inr other ↦ elim (Bool-cases (index c == index n.lddstate)) [
            | inl same ↦
                let e = ok.injective _ _ ((==_iff _ _).0 same) in
                let e' =
                  injective b n0.lddstate c good (goods 0 n0.lddstate refl) canonized
                    (h.0 ∙ ap (λ z. some z) (sym e)) in
                cc ((==_iff (index b) (index n0.lddstate)).1 (ap index e'))
            | inr other' ↦
                rw (other, other')
                  (find_from-same ns0 ns (suc i) h.2 (λ q d at. goods (suc q) d at))
          ]
        ]
    find_from-same [] (n ∷ ns) i h goods = absurd h
    find_from-same (n0 ∷ ns0) [] i h goods = absurd h

  pub record GraphMatch (g0 g : LddGraph) : Type 0 where
    pub nodes : NodesMatch g0.go_nodes g.go_nodes
    pub initial : g.initialstate ≡ g0.initialstate
    pub arcs : g.nb_arcs ≡ g0.nb_arcs

  pub find-same :
      (Good : Ldd → Type 0)
      → ((a b c : Ldd) → Good a → Good b → canon a ≡ some c → canon b ≡ some c → a ≡ b)
      → (b c : Ldd) → Good b
      → canon b ≡ some c
      → (g0 g : LddGraph) → GraphMatch g0 g
      → ((q : ℕ) (d : Ldd) → ldd_at g0.go_nodes q ≡ some d → Good d)
      → find index g c ≡ find index g0 b
  unfolding find
  find-same Good injective b c good e g0 g h goods =
      find_from-same Good injective b c good e g0.go_nodes g.go_nodes 0 h.nodes goods

  pub GraphMatch-link :
      (g0 g : LddGraph) (p q t : ℕ) → GraphMatch g0 g → GraphMatch (link g0 p q t) (link g p q t)
  unfolding link
  GraphMatch-link g0 g p q t h = record {
    nodes = NodesMatch-predecessor _ _ q p t (NodesMatch-successor _ _ p q t h.nodes);
    initial = h.initial;
    arcs = h.arcs;
  }

  pub GraphMatch-look_up :
      (b c : Ldd)
      → canon b ≡ some c
      → (g0 g : LddGraph) → GraphMatch g0 g
      → (o : Option ℕ)
      → GraphMatch (look_up g0 b o).0 (look_up g c o).0
        × ((look_up g c o).1 ≡ (look_up g0 b o).1)
        × (fresh_of b o ≡ (look_up g0 b o).2)
  unfolding look_up insert add_arc
  GraphMatch-look_up b c e g0 g h (some q) = (
    record { nodes = h.nodes; initial = h.initial; arcs = ap (λ n. (n + 1) % 2 ^ 32) h.arcs },
    refl,
    refl,
  )
  GraphMatch-look_up b c e g0 g h none = (
    record {
      nodes = NodesMatch-insert _ _ b c e h.nodes;
      initial = h.initial;
      arcs = ap (λ n. (n + 1) % 2 ^ 32) h.arcs;
    },
    NodesMatch-length _ _ h.nodes,
    refl,
  )
