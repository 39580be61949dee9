-- ===== src/Net/Arcs/Dual.antt =====
-- What one more arc does to the lists of its two nodes.
use mc_sog.Net.{NewNet, Node, Place, Transition, find_arc}
use mc_sog.Net.Arcs.{
  AreDual, InArc, InArc-append, IsNet, place_node, place_node-modify, transition_node,
  transition_node-modify,
}
use mc_sog.Net.Arcs.Grown.{find_arc-fits}
use mc_sog.Prelude.{
  ==_iff, Bool, Bool-cases, List, [], arith, false, if◌then◌else◌, inl, inr, length, modify, refl,
  some, ℕ, ℤ, ◌++◌, ◌<◌, ◌==◌, ◌↔◌, ◌∷◌, ◌≡◌, ◌⊎◌,
}

-- The arcs of a node after one of its kind has been added at position `i`.
added :
    (list : Node → List (ℕ × ℤ)) (f : Node → Node) (n : Node) (i j m k : ℕ) (w v : ℤ)
    → list (f n) ≡ list n ++ (m, w) ∷ []
    → InArc k v (list (if j == i then f n else n))
      ↔ (InArc k v (list n) ⊎ ((j ≡ i) × (k ≡ m) × (v ≡ w)))
added list f n i j m k w v e = elim (Bool-cases (j == i)) [
  | inl same ↦
      rw (same, e)
        (
          λ h. elim ((InArc-append k m v w (list n)).0 h) [
            | inl old ↦ inl old
            | inr (ek, ev) ↦ inr ((==_iff j i).0 same, ek, ev)
          ],
          λ h.
              (InArc-append k m v w (list n)).1
                (elim h [ inl old ↦ inl old | inr (ej, ek, ev) ↦ inr (ek, ev) ]),
        )
  | inr other ↦
      rw other
        (λ h. inl h, λ h. elim h [ inl old ↦ old | inr (ej, ek, ev) ↦ absurd (no_eq ej other) ])
]
  where
    no_eq : j ≡ i → (j == i) ≡ false → ⊥
    no_eq e h = ground arith

kept :
    (list : Node → List (ℕ × ℤ)) (f : Node → Node) (n : Node) (i j : ℕ)
    → list (f n) ≡ list n
    → list (if j == i then f n else n) ≡ list n
kept list f n i j e = elim (Bool-cases (j == i)) [
  | inl same ↦ rw same e
  | inr other ↦ rw other refl
]

-- One half of the duality: `of_trans` in the transitions is `of_place` in the places.
abbrev pub IsDual :
    (Node → List (ℕ × ℤ)) → (Node → List (ℕ × ℤ)) → List Place → List Transition → Type 0
IsDual of_trans of_place ps ts =
    (p t : ℕ) (v : ℤ)
    → InArc p v (of_trans (transition_node ts t)) ↔ InArc t v (of_place (place_node ps p))

module _ (of_trans of_place : Node → List (ℕ × ℤ)) (in_trans in_place : Node → Node)
    (ps : List Place) (ts : List Transition) (p t : ℕ) (p_fits : p < length ps)
    (t_fits : t < length ts) (dual : IsDual of_trans of_place ps ts) where
  pub IsDual-added :
      (w : ℤ)
      → ((n : Node) → of_trans (in_trans n) ≡ of_trans n ++ (p, w) ∷ [])
      → ((n : Node) → of_place (in_place n) ≡ of_place n ++ (t, w) ∷ [])
      → IsDual of_trans of_place
          (modify ps p (λ n. record n { arcs = in_place n.arcs }))
          (modify ts t (λ n. record n { arcs = in_trans n.arcs }))
  IsDual-added w et ep q u v =
      let left =
        added of_trans in_trans (transition_node ts u) t u p q w v (et (transition_node ts u)) in
      let right = added of_place in_place (place_node ps q) p q t u w v (ep (place_node ps q)) in
      rw (transition_node-modify ts t u in_trans t_fits, place_node-modify ps p q in_place p_fits)
        (
          λ h. right.1 (elim (left.0 h) [
            | inl old ↦ inl ((dual q u v).0 old)
            | inr (eu, eq, ev) ↦ inr (eq, eu, ev)
          ]),
          λ h. left.1 (elim (right.0 h) [
            | inl old ↦ inl ((dual q u v).1 old)
            | inr (eq, eu, ev) ↦ inr (eu, eq, ev)
          ]),
        )

  pub IsDual-kept :
      ((n : Node) → of_trans (in_trans n) ≡ of_trans n)
      → ((n : Node) → of_place (in_place n) ≡ of_place n)
      → IsDual of_trans of_place
          (modify ps p (λ n. record n { arcs = in_place n.arcs }))
          (modify ts t (λ n. record n { arcs = in_trans n.arcs }))
  IsDual-kept et ep q u v =
      rw
        (
          transition_node-modify ts t u in_trans t_fits,
          place_node-modify ps p q in_place p_fits,
          kept of_trans in_trans (transition_node ts u) t u (et (transition_node ts u)),
          kept of_place in_place (place_node ps q) p q (ep (place_node ps q)),
        )
        (dual q u v)

-- What is added to both lists of an arc, and what leaves them alone.
pub arc_added :
    (net : NewNet) (refused : Place → Bool) (of_place of_trans : List ℕ)
    (in_trans in_place : ℕ → Node → Node) (p t : ℕ)
    → IsNet net
    → find_arc refused net of_place of_trans ≡ some (p, t)
    → (v : ℤ)
    → (((n : Node) → (in_trans p n).pre ≡ n.pre ++ (p, v) ∷ [])
        × ((n : Node) → (in_place t n).post ≡ n.post ++ (t, v) ∷ [])
        × ((n : Node) → (in_trans p n).post ≡ n.post)
        × ((n : Node) → (in_place t n).pre ≡ n.pre))
    → AreDual
        (modify net.places p (λ n. record n { arcs = in_place t n.arcs }))
        (modify net.transitions t (λ n. record n { arcs = in_trans p n.arcs }))
arc_added net refused of_place of_trans in_trans in_place p t h e v (ep, eq, kp, kq) =
    let (p_fits, t_fits) = find_arc-fits net refused of_place of_trans p t h e in
    record {
      pre =
          IsDual-added (λ n. n.pre) (λ n. n.post) (in_trans p) (in_place t) net.places
            net.transitions p t p_fits t_fits h.dual.pre v ep eq;
      post =
          IsDual-kept (λ n. n.post) (λ n. n.pre) (in_trans p) (in_place t) net.places
            net.transitions p t p_fits t_fits h.dual.post kp kq;
    }

pub arc_added_back :
    (net : NewNet) (refused : Place → Bool) (of_place of_trans : List ℕ)
    (in_trans in_place : ℕ → Node → Node) (p t : ℕ)
    → IsNet net
    → find_arc refused net of_place of_trans ≡ some (p, t)
    → (v : ℤ)
    → (((n : Node) → (in_trans p n).post ≡ n.post ++ (p, v) ∷ [])
        × ((n : Node) → (in_place t n).pre ≡ n.pre ++ (t, v) ∷ [])
        × ((n : Node) → (in_trans p n).pre ≡ n.pre)
        × ((n : Node) → (in_place t n).post ≡ n.post))
    → AreDual
        (modify net.places p (λ n. record n { arcs = in_place t n.arcs }))
        (modify net.transitions t (λ n. record n { arcs = in_trans p n.arcs }))
arc_added_back net refused of_place of_trans in_trans in_place p t h e v (ep, eq, kp, kq) =
    let (p_fits, t_fits) = find_arc-fits net refused of_place of_trans p t h e in
    record {
      pre =
          IsDual-kept (λ n. n.pre) (λ n. n.post) (in_trans p) (in_place t) net.places
            net.transitions p t p_fits t_fits h.dual.pre kp kq;
      post =
          IsDual-added (λ n. n.post) (λ n. n.pre) (in_trans p) (in_place t) net.places
            net.transitions p t p_fits t_fits h.dual.post v ep eq;
    }

pub arc_kept :
    (net : NewNet) (refused : Place → Bool) (of_place of_trans : List ℕ)
    (in_trans in_place : ℕ → Node → Node) (p t : ℕ)
    → IsNet net
    → find_arc refused net of_place of_trans ≡ some (p, t)
    → (((n : Node) → (in_trans p n).pre ≡ n.pre)
        × ((n : Node) → (in_place t n).post ≡ n.post)
        × ((n : Node) → (in_trans p n).post ≡ n.post)
        × ((n : Node) → (in_place t n).pre ≡ n.pre))
    → AreDual
        (modify net.places p (λ n. record n { arcs = in_place t n.arcs }))
        (modify net.transitions t (λ n. record n { arcs = in_trans p n.arcs }))
arc_kept net refused of_place of_trans in_trans in_place p t h e (ep, eq, kp, kq) =
    let (p_fits, t_fits) = find_arc-fits net refused of_place of_trans p t h e in
    record {
      pre =
          IsDual-kept (λ n. n.pre) (λ n. n.post) (in_trans p) (in_place t) net.places
            net.transitions p t p_fits t_fits h.dual.pre ep eq;
      post =
          IsDual-kept (λ n. n.post) (λ n. n.pre) (in_trans p) (in_place t) net.places
            net.transitions p t p_fits t_fits h.dual.post kp kq;
    }
