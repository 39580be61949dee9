-- ===== src/Net/Observable/Named.antt =====
-- Which transitions setListObservable chooses (src/NewNet.cpp), by the names and the arcs of the net.
use mc_sog.Net.{NewNet, Transition}
use mc_sog.Net.Arcs.{
  InArc, IsNet, length-transition_names, place_names, transition_names, transition_node,
}
use mc_sog.Net.Names.{get_elem?-lt}
use mc_sog.Prelude.{
  List, [], arith, get_elem?, inl, inr, length, some, suc, zero, ℕ, ℤ, ◌<◌, ◌∷◌, ◌≡◌, ◌⊎◌,
}

-- The element at position `i` has the name.
abbrev pub IsNamed : List (List ℕ) → List ℕ → ℕ → Type 0
IsNamed names name i = get_elem? names i ≡ some name

-- The transition has an arc with the place.
abbrev pub IsNextTo : NewNet → ℕ → ℕ → Type 0
IsNextTo net p t =
    (v : ℤ) × (InArc p v (transition_node net.transitions t).pre
      ⊎ InArc p v (transition_node net.transitions t).post)

-- The transition has the name, or no transition has it and the transition is next to the place with
-- the name.
abbrev pub IsChosenBy : NewNet → List ℕ → ℕ → Type 0
IsChosenBy net name t =
    IsNamed (transition_names net.transitions) name t
    ⊎ (((j : ℕ) → ¬ IsNamed (transition_names net.transitions) name j)
        × ((p : ℕ) × IsNamed (place_names net.places) name p × IsNextTo net p t))

abbrev pub IsChosen : NewNet → List (List ℕ) → ℕ → Type 0
IsChosen net [] t = ⊥
IsChosen net (name ∷ names) t = IsChosenBy net name t ⊎ IsChosen net names t

-- Only a transition of the net has arcs.
arcs_fit :
    (ts : List Transition) (t p : ℕ) (v : ℤ)
    → InArc p v (transition_node ts t).pre ⊎ InArc p v (transition_node ts t).post
    → t < length ts
arcs_fit [] t p v (inl h) = absurd h
arcs_fit [] t p v (inr h) = absurd h
arcs_fit (u ∷ ts) zero p v h = omega arith
arcs_fit (u ∷ ts) (suc t) p v h = omega (arith, arcs_fit ts t p v h)

module _ (net : NewNet) (h : IsNet net) where
  -- Only a transition of the net has arcs or a name.
  pub IsChosen-lt :
      (names : List (List ℕ)) (t : ℕ) → IsChosen net names t → t < length net.transitions
  IsChosen-lt [] t c = absurd c
  IsChosen-lt (name ∷ names) t (inl (inl named)) =
      omega (arith, get_elem?-lt _ t name named, length-transition_names net.transitions)
  IsChosen-lt (name ∷ names) t (inl (inr (_, (p, _, (v, arc))))) =
      arcs_fit net.transitions t p v arc
  IsChosen-lt (name ∷ names) t (inr c) = IsChosen-lt names t c
