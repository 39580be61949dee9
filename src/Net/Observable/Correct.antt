-- ===== src/Net/Observable/Correct.antt =====
-- Which transitions setListObservable chooses (src/NewNet.cpp).
use mc_sog.Kripke.{first}
use mc_sog.Net.{NewNet, Transition, find_name, place_at}
use mc_sog.Net.Observable.{
  ObservableSets, contains, insert_int, mark, mark_all, observe, observe_names, observe_place,
  pos_from, pos_trans, set_list_observable,
}
use mc_sog.Prelude.{
  ==_iff, >>=-eq-some, Bool, Bool-cases, List, Option, [], ap, arith, inl, inr, modify, none, refl,
  some, some_eq, subst, suc, sym, true, zero, ℕ, ℤ, ◌==◌, ◌||◌, ◌↔◌, ◌∙◌, ◌∷◌, ◌≡◌, ◌⊎◌,
}

pub contains_insert :
    (i x : ℕ) (ys : List ℕ) → contains i (insert_int x ys) ≡ ((i == x) || contains i ys)
unfolding contains insert_int
contains_insert i x [] = refl
contains_insert i x (y ∷ ys) = ground (arith, contains_insert i x ys)

-- Marking changes no name.
pos_from-modify :
    (ts : List Transition) (i : ℕ) (name : List ℕ) (at : ℕ)
    → pos_from (modify ts i (λ t. record t { observable = true })) name at ≡ pos_from ts name at
unfolding pos_from
pos_from-modify [] i name at = refl
pos_from-modify (t ∷ ts) zero name at = refl
pos_from-modify (t ∷ ts) (suc i) name at = rw (pos_from-modify ts i name (suc at)) refl

-- `i` is the other end of one of the arcs.
abbrev pub InEnds : ℕ → List (ℕ × ℤ) → Type 0
InEnds i [] = ⊥
InEnds i ((j, v) ∷ arcs) = (i ≡ j) ⊎ InEnds i arcs

mark_all-contains :
    (arcs : List (ℕ × ℤ)) (s : ObservableSets) (i : ℕ)
    → (contains i (mark_all s arcs).observable ≡ true)
      ↔ ((contains i s.observable ≡ true) ⊎ InEnds i arcs)
unfolding mark_all mark
mark_all-contains [] s i = (λ h. inl h, λ h. elim h [ inl h ↦ h | inr h ↦ absurd h ])
mark_all-contains ((j, v) ∷ arcs) s i =
    let h = mark_all-contains arcs (mark s j) i in
    let step = contains_insert i j s.observable in
    (
      λ e. elim (h.0 e) [
        | inl now ↦ elim (either (i == j) (contains i s.observable) (sym step ∙ now)) [
          | inl same ↦ inr (inl ((==_iff i j).0 same))
          | inr old ↦ inl old
        ]
        | inr later ↦ inr (inr later)
      ],
      λ c. elim c [
        | inl old ↦ h.1 (inl (step ∙ or_right (i == j) (contains i s.observable) old))
        | inr (inl same) ↦
            h.1 (inl (step ∙ or_left (i == j) (contains i s.observable) ((==_iff i j).1 same)))
        | inr (inr later) ↦ h.1 (inr later)
      ],
    )
  where
    either : (a b : Bool) → (a || b) ≡ true → (a ≡ true) ⊎ (b ≡ true)
    either a b e = ground arith

    or_right : (a b : Bool) → b ≡ true → (a || b) ≡ true
    or_right a b e = ground arith

    or_left : (a b : Bool) → a ≡ true → (a || b) ≡ true
    or_left a b e = ground arith

-- Transition `i` is the one named, or it is next to the place named.
abbrev pub Touches : NewNet → List Transition → ℕ → List ℕ → Type 0
Touches net ts i name =
    (pos_trans ts name ≡ some i)
    ⊎ ((pos_trans ts name ≡ none)
        × ((p : ℕ) × (find_name net.place_name name ≡ some p)
            × (InEnds i (place_at net p).arcs.post ⊎ InEnds i (place_at net p).arcs.pre)))

abbrev pub TouchedBy : NewNet → List Transition → ℕ → List (List ℕ) → Type 0
TouchedBy net ts i [] = ⊥
TouchedBy net ts i (name ∷ names) = Touches net ts i name ⊎ TouchedBy net ts i names

mark_all-pos_trans :
    (arcs : List (ℕ × ℤ)) (s : ObservableSets) (name : List ℕ)
    → pos_trans (mark_all s arcs).transitions name ≡ pos_trans s.transitions name
unfolding mark_all mark pos_trans
mark_all-pos_trans [] s name = refl
mark_all-pos_trans ((j, v) ∷ arcs) s name =
    mark_all-pos_trans arcs (mark s j) name ∙ pos_from-modify s.transitions j name 0

-- Where the search for the name gives `o`.
abbrev TouchesAt : NewNet → ℕ → List ℕ → Option ℕ → Type 0
TouchesAt net i name o =
    (o ≡ some i)
    ⊎ ((o ≡ none)
        × ((p : ℕ) × (find_name net.place_name name ≡ some p)
            × (InEnds i (place_at net p).arcs.post ⊎ InEnds i (place_at net p).arcs.pre)))

record IsObserved (net : NewNet) (name : List ℕ) (o : Option ℕ) (s s' : ObservableSets)
    : Type 0 where
  chosen :
      (i : ℕ)
      → (contains i s'.observable ≡ true)
        ↔ ((contains i s.observable ≡ true) ⊎ TouchesAt net i name o)
  same : (n : List ℕ) → pos_trans s'.transitions n ≡ pos_trans s.transitions n

observe_place-IsObserved :
    (net : NewNet) (name : List ℕ) (s s' : ObservableSets) (r : Option ℕ)
    → find_name net.place_name name ≡ r
    → observe_place net.places s r ≡ some s'
    → IsObserved net name none s s'
unfolding observe_place
observe_place-IsObserved net name s s' none e h = cc
observe_place-IsObserved net name s s' (some p) e h =
    subst (IsObserved net name none s) (some_eq h) (record { chosen = chosen; same = same })
  where
    s1 : ObservableSets
    s1 = record s { formula_place = insert_int p s.formula_place }

    post : List (ℕ × ℤ)
    post = (place_at net p).arcs.post

    pre : List (ℕ × ℤ)
    pre = (place_at net p).arcs.pre

    same :
        (n : List ℕ)
        → pos_trans (mark_all (mark_all s1 post) pre).transitions n ≡ pos_trans s.transitions n
    same n = mark_all-pos_trans pre (mark_all s1 post) n ∙ mark_all-pos_trans post s1 n

    chosen :
        (i : ℕ)
        → (contains i (mark_all (mark_all s1 post) pre).observable ≡ true)
          ↔ ((contains i s.observable ≡ true) ⊎ TouchesAt net i name none)
    chosen i =
        let outer = mark_all-contains pre (mark_all s1 post) i in
        let inner = mark_all-contains post s1 i in
        (
          λ c. elim (outer.0 c) [
            | inl first ↦ elim (inner.0 first) [
              | inl old ↦ inl old
              | inr ends ↦ inr (inr (refl, (p, e, inl ends)))
            ]
            | inr ends ↦ inr (inr (refl, (p, e, inr ends)))
          ],
          λ c. elim c [
            | inl old ↦ outer.1 (inl (inner.1 (inl old)))
            | inr (inl at) ↦ cc
            | inr (inr (_, (q, e', ends))) ↦
                let at = some_eq (sym e' ∙ e) in
                elim ends [
                  | inl ends ↦ outer.1 (
                      inl
                        (inner.1 (inr (subst (λ x. InEnds i (place_at net x).arcs.post) at ends))))
                  | inr ends ↦
                      outer.1 (inr (subst (λ x. InEnds i (place_at net x).arcs.pre) at ends))
                ]
          ],
        )

observe-IsObserved :
    (net : NewNet) (name : List ℕ) (s s' : ObservableSets) (o : Option ℕ)
    → observe net s name o ≡ some s'
    → IsObserved net name o s s'
unfolding observe mark pos_trans
observe-IsObserved net name s s' none h = observe_place-IsObserved net name s s' _ refl h
observe-IsObserved net name s s' (some j) h =
    subst (IsObserved net name (some j) s) (some_eq h) (record {
      chosen = λ i.
          let step = contains_insert i j s.observable in
          (
            λ c. elim (Bool-cases (i == j)) [
              | inl equal ↦ inr (inl (ap some (sym ((==_iff i j).0 equal))))
              | inr other ↦ inl (rw other at (sym step ∙ c))
            ],
            λ c. elim c [
              | inl old ↦ step ∙ rw old (or_true (i == j))
              | inr (inl at) ↦ step ∙ rw ((==_iff i j).1 (sym (some_eq at))) refl
              | inr (inr (absent, _)) ↦ cc
            ],
          );
      same = λ n. pos_from-modify s.transitions j n 0;
    })
  where
    or_true : (b : Bool) → (b || true) ≡ true
    or_true b = ground arith

observe_names-contains :
    (net : NewNet) (ts : List Transition) (names : List (List ℕ)) (s s' : ObservableSets) (i : ℕ)
    → ((n : List ℕ) → pos_trans s.transitions n ≡ pos_trans ts n)
    → observe_names net s names ≡ some s'
    → (contains i s'.observable ≡ true)
      ↔ ((contains i s.observable ≡ true) ⊎ TouchedBy net ts i names)
unfolding observe_names
observe_names-contains net ts [] s s' i same h =
    subst (λ x. (contains i x.observable ≡ true) ↔ ((contains i s.observable ≡ true) ⊎ ⊥))
      (some_eq h) (λ c. inl c, λ c. elim c [ inl c ↦ c | inr c ↦ absurd c ])
observe_names-contains net ts (name ∷ names) s s' i same h =
    let (s1, first, later) =
      >>=-eq-some (observe net s name (pos_trans s.transitions name))
        (λ x. observe_names net x names) h in
    let now = observe-IsObserved net name s s1 _ first in
    let rest = observe_names-contains net ts names s1 s' i (λ n. now.same n ∙ same n) later in
    (
      λ c. elim (rest.0 c) [
        | inl c ↦ elim ((now.chosen i).0 c) [
          | inl old ↦ inl old
          | inr touch ↦ inr (inl (subst (TouchesAt net i name) (same name) touch))
        ]
        | inr c ↦ inr (inr c)
      ],
      λ c. elim c [
        | inl old ↦ rest.1 (inl ((now.chosen i).1 (inl old)))
        | inr (inl touch) ↦
            rest.1
              (inl ((now.chosen i).1 (inr (subst (TouchesAt net i name) (sym (same name)) touch))))
        | inr (inr c) ↦ rest.1 (inr c)
      ],
    )

pub set_list_observable-TouchedBy :
    (net : NewNet) (list_t : List (List ℕ)) (s : ObservableSets)
    → set_list_observable net list_t ≡ some s
    → (i : ℕ) → (contains i s.observable ≡ true) ↔ TouchedBy net net.transitions i list_t
unfolding set_list_observable contains
set_list_observable-TouchedBy net list_t s h i =
    let r = observe_names-contains net net.transitions list_t _ s i (λ n. refl) h in
    (λ c. elim (r.0 c) [ inl old ↦ cc | inr touch ↦ touch ], λ touch. r.1 (inr touch))
