-- ===== src/Net/Arcs.antt =====
-- The well-formed nets of src/NewNet.cpp: what is asked of names, positions and arcs.
pub mod Dual
pub mod Grown
pub mod Kept
use mc_sog.Net.{NewNet, Node, Place, Transition, empty_net, empty_node, find_name}
use mc_sog.Net.Names.{IsTable}
use mc_sog.Prelude.{
  List, [], ap, arith, if◌then◌else◌, inl, inr, length, modify, refl, suc, zero, ℕ, ℤ, ◌++◌, ◌<◌,
  ◌==◌, ◌↔◌, ◌∙◌, ◌∷◌, ◌≡◌, ◌⊎◌,
}

abbrev pub place_names : List Place → List (List ℕ)
place_names [] = []
place_names (p ∷ ps) = p.name ∷ place_names ps

abbrev pub transition_names : List Transition → List (List ℕ)
transition_names [] = []
transition_names (t ∷ ts) = t.name ∷ transition_names ts

abbrev pub place_node : List Place → ℕ → Node
place_node [] i = empty_node
place_node (p ∷ ps) zero = p.arcs
place_node (p ∷ ps) (suc i) = place_node ps i

abbrev pub transition_node : List Transition → ℕ → Node
transition_node [] i = empty_node
transition_node (t ∷ ts) zero = t.arcs
transition_node (t ∷ ts) (suc i) = transition_node ts i

abbrev pub InArc : ℕ → ℤ → List (ℕ × ℤ) → Type 0
InArc n v [] = ⊥
InArc n v ((m, w) ∷ arcs) = ((n ≡ m) × (v ≡ w)) ⊎ InArc n v arcs

-- Each arc of a transition is one of its place, and the other way.
pub record AreDual (ps : List Place) (ts : List Transition) : Type 0 where
  pub pre :
      (p t : ℕ) (v : ℤ) → InArc p v (transition_node ts t).pre ↔ InArc t v (place_node ps p).post
  pub post :
      (p t : ℕ) (v : ℤ) → InArc p v (transition_node ts t).post ↔ InArc t v (place_node ps p).pre

pub record IsNet (net : NewNet) : Type 0 where
  pub places : IsTable (place_names net.places) net.place_name
  pub transitions : IsTable (transition_names net.transitions) net.transition_name
  pub dual : AreDual net.places net.transitions

pub length-place_names : (ps : List Place) → length (place_names ps) ≡ length ps
length-place_names [] = refl
length-place_names (p ∷ ps) = ap suc (length-place_names ps)

pub length-transition_names : (ts : List Transition) → length (transition_names ts) ≡ length ts
length-transition_names [] = refl
length-transition_names (t ∷ ts) = ap suc (length-transition_names ts)

pub place_names-append :
    (ps : List Place) (p : Place) → place_names (ps ++ p ∷ []) ≡ place_names ps ++ p.name ∷ []
place_names-append [] p = refl
place_names-append (q ∷ ps) p = ap (λ ns. q.name ∷ ns) (place_names-append ps p)

pub transition_names-append :
    (ts : List Transition) (t : Transition)
    → transition_names (ts ++ t ∷ []) ≡ transition_names ts ++ t.name ∷ []
transition_names-append [] t = refl
transition_names-append (u ∷ ts) t = ap (λ ns. u.name ∷ ns) (transition_names-append ts t)

pub place_names-modify :
    (ps : List Place) (i : ℕ) (f : Node → Node)
    → place_names (modify ps i (λ p. record p { arcs = f p.arcs })) ≡ place_names ps
place_names-modify [] i f = refl
place_names-modify (p ∷ ps) zero f = refl
place_names-modify (p ∷ ps) (suc i) f = ap (λ ns. p.name ∷ ns) (place_names-modify ps i f)

pub transition_names-modify :
    (ts : List Transition) (i : ℕ) (f : Node → Node)
    → transition_names (modify ts i (λ t. record t { arcs = f t.arcs })) ≡ transition_names ts
transition_names-modify [] i f = refl
transition_names-modify (t ∷ ts) zero f = refl
transition_names-modify (t ∷ ts) (suc i) f = ap (λ ns. t.name ∷ ns) (transition_names-modify ts i f)

-- A place or a transition without arcs at the end.
pub place_node-append :
    (ps : List Place) (p : Place) (i : ℕ)
    → p.arcs ≡ empty_node
    → place_node (ps ++ p ∷ []) i ≡ place_node ps i
place_node-append [] p zero e = e
place_node-append [] p (suc i) e = refl
place_node-append (q ∷ ps) p zero e = refl
place_node-append (q ∷ ps) p (suc i) e = place_node-append ps p i e

pub transition_node-append :
    (ts : List Transition) (t : Transition) (i : ℕ)
    → t.arcs ≡ empty_node
    → transition_node (ts ++ t ∷ []) i ≡ transition_node ts i
transition_node-append [] t zero e = e
transition_node-append [] t (suc i) e = refl
transition_node-append (u ∷ ts) t zero e = refl
transition_node-append (u ∷ ts) t (suc i) e = transition_node-append ts t i e

pub place_node-modify :
    (ps : List Place) (i j : ℕ) (f : Node → Node)
    → i < length ps
    → place_node (modify ps i (λ p. record p { arcs = f p.arcs })) j
      ≡ (if j == i then f (place_node ps j) else place_node ps j)
place_node-modify [] i j f h = absurd (omega arith)
place_node-modify (p ∷ ps) zero zero f h = refl
place_node-modify (p ∷ ps) zero (suc j) f h = ground arith
place_node-modify (p ∷ ps) (suc i) zero f h = ground arith
place_node-modify (p ∷ ps) (suc i) (suc j) f h =
    place_node-modify ps i j f (omega arith) ∙ ground arith

pub transition_node-modify :
    (ts : List Transition) (i j : ℕ) (f : Node → Node)
    → i < length ts
    → transition_node (modify ts i (λ t. record t { arcs = f t.arcs })) j
      ≡ (if j == i then f (transition_node ts j) else transition_node ts j)
transition_node-modify [] i j f h = absurd (omega arith)
transition_node-modify (t ∷ ts) zero zero f h = refl
transition_node-modify (t ∷ ts) zero (suc j) f h = ground arith
transition_node-modify (t ∷ ts) (suc i) zero f h = ground arith
transition_node-modify (t ∷ ts) (suc i) (suc j) f h =
    transition_node-modify ts i j f (omega arith) ∙ ground arith

pub InArc-append :
    (n m : ℕ) (v w : ℤ) (arcs : List (ℕ × ℤ))
    → InArc n v (arcs ++ (m, w) ∷ []) ↔ (InArc n v arcs ⊎ ((n ≡ m) × (v ≡ w)))
InArc-append n m v w [] = (
  λ h. elim h [ inl e ↦ inr e | inr h ↦ absurd h ],
  λ h. elim h [ inl h ↦ absurd h | inr e ↦ inl e ],
)
InArc-append n m v w ((k, u) ∷ arcs) = (
  λ h. elim h [
    | inl e ↦ inl (inl e)
    | inr h ↦ elim ((InArc-append n m v w arcs).0 h) [ inl i ↦ inl (inr i) | inr e ↦ inr e ]
  ],
  λ h. elim h [
    | inl (inl e) ↦ inl e
    | inl (inr i) ↦ inr ((InArc-append n m v w arcs).1 (inl i))
    | inr e ↦ inr ((InArc-append n m v w arcs).1 (inr e))
  ],
)

pub empty_net-IsNet : IsNet empty_net
unfolding find_name
empty_net-IsNet = record {
  places = record { found = λ name i e. cc; all = λ name i e. cc };
  transitions = record { found = λ name i e. cc; all = λ name i e. cc };
  dual = record {
    pre = λ p t v. (λ h. absurd h, λ h. absurd h);
    post = λ p t v. (λ h. absurd h, λ h. absurd h);
  };
}
