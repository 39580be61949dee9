-- ===== src/Sog/Conflict/Correct.antt =====
-- haveCommonPre and the loops of AddConflict (src/CommonSOG.cpp), for lists of arcs that are sorted
-- by places, as the constructors of NewNet leave them.
use mc_sog.Net.{Node, Transition}
use mc_sog.Net.Observable.{contains}
use mc_sog.Net.Observable.Correct.{InEnds, contains_insert}
use mc_sog.Prelude.{
  ==_iff, ==_ne, Bool, Bool-cases, List, [], arith, false, inl, inr, le→ltb, lt_cases, lt→ltb, not,
  refl, subst, suc, sym, true, ℕ, ℤ, ◌&&◌, ◌==◌, ◌||◌, ◌↔◌, ◌∙◌, ◌∷◌, ◌≡◌, ◌≢◌, ◌≤◌, ◌⊎◌,
}
use mc_sog.Sog.Conflict.{add_from, common_with, have_common_pre, insert_if}

-- constructors of NewNet leave them.

-- The places rise along the list, all of them at `d` or above.
abbrev pub AreSorted : ℕ → List (ℕ × ℤ) → Type 0
AreSorted d [] = Unit {0}
AreSorted d ((p, v) ∷ arcs) = (d ≤ p) × AreSorted p arcs

-- Some place is in both lists.
abbrev pub Share : List (ℕ × ℤ) → List (ℕ × ℤ) → Type 0
Share xs ys = (p : ℕ) × InEnds p xs × InEnds p ys

sorted_below : (d p : ℕ) (arcs : List (ℕ × ℤ)) → AreSorted d arcs → InEnds p arcs → d ≤ p
sorted_below d p [] h i = absurd i
sorted_below d p ((q, v) ∷ arcs) h (inl e) = omega (arith, h.0, e)
sorted_below d p ((q, v) ∷ arcs) h (inr i) = omega (arith, h.0, sorted_below q p arcs h.1 i)

-- The early end of the loop misses nothing in a sorted list.
common_with-InEnds :
    (d p : ℕ) (arcs : List (ℕ × ℤ)) → AreSorted d arcs → (common_with p arcs ≡ true) ↔ InEnds p arcs
unfolding common_with
common_with-InEnds d p [] h = (λ e. cc, λ i. absurd i)
common_with-InEnds d p ((q, v) ∷ arcs) h = elim (lt_cases p q) [
  | inl below ↦ rw (lt→ltb p q below) (
    λ e. cc,
    λ i. absurd (elim i [
      | inl same ↦ omega (arith, same, below)
      | inr later ↦ omega (arith, below, sorted_below q p arcs h.1 later)
    ]),
  )
  | inr (inl same) ↦
      rw (le→ltb p q (omega (arith, same)), (==_iff p q).1 same) (λ e. inl same, λ i. refl)
  | inr (inr above) ↦
      let rest = common_with-InEnds q p arcs h.1 in
      rw (le→ltb p q (omega (arith, above)), ==_ne p q above)
        (
          λ e. inr (rest.0 e),
          λ i. elim i [ inl same ↦ absurd (omega (arith, same, above)) | inr later ↦ rest.1 later ],
        )
]

pub have_common_pre-Share :
    (d : ℕ) (xs ys : List (ℕ × ℤ)) → AreSorted d ys → (have_common_pre xs ys ≡ true) ↔ Share xs ys
unfolding have_common_pre
have_common_pre-Share d [] ys h = (λ e. cc, λ (p, i, j). absurd i)
have_common_pre-Share d ((p, v) ∷ xs) ys h =
    let now = common_with-InEnds d p ys h in
    let rest = have_common_pre-Share d xs ys h in
    (
      λ e. elim (either (common_with p ys) (have_common_pre xs ys) e) [
        | inl c ↦ (p, inl refl, now.0 c)
        | inr c ↦ let (q, i, j) = rest.0 c in (q, inr i, j)
      ],
      λ (q, i, j). elim i [
        | inl same ↦
            or_left (common_with p ys) (have_common_pre xs ys)
              (now.1 (subst (λ x. InEnds x ys) same j))
        | inr later ↦ or_right (common_with p ys) (have_common_pre xs ys) (rest.1 (q, later, j))
      ],
    )
  where
    either : (a b : Bool) → (a || b) ≡ true → (a ≡ true) ⊎ (b ≡ true)
    either a b e = ground arith

    or_left : (a b : Bool) → a ≡ true → (a || b) ≡ true
    or_left a b e = ground arith

    or_right : (a b : Bool) → b ≡ true → (a || b) ≡ true
    or_right a b e = ground arith

-- Transition `j` of the list, counted from `i`, is not `transition` and passes the test.
abbrev pub Passes : (Node → Bool) → ℕ → List Transition → ℕ → ℕ → Type 0
Passes test transition [] i j = ⊥
Passes test transition (t ∷ ts) i j =
    ((j ≡ i) × (j ≢ transition) × (test t.arcs ≡ true)) ⊎ Passes test transition ts (suc i) j

insert_if-contains :
    (b : Bool) (i j : ℕ) (ample : List ℕ)
    → (contains j (insert_if b i ample) ≡ true)
      ↔ ((contains j ample ≡ true) ⊎ ((j ≡ i) × (b ≡ true)))
unfolding insert_if
insert_if-contains false i j ample = (λ e. inl e, λ h. elim h [ inl e ↦ e | inr (same, e) ↦ cc ])
insert_if-contains true i j ample =
    let step = contains_insert j i ample in
    (
      λ e. elim (Bool-cases (j == i)) [
        | inl same ↦ inr ((==_iff j i).0 same, refl)
        | inr other ↦ inl (rw other at (sym step ∙ e))
      ],
      λ h. elim h [
        | inl e ↦ step ∙ rw e (or_true (j == i))
        | inr (same, e) ↦ step ∙ rw ((==_iff j i).1 same) refl
      ],
    )
  where
    or_true : (b : Bool) → (b || true) ≡ true
    or_true b = ground arith

pub add_from-contains :
    (test : Node → Bool) (transition : ℕ) (ts : List Transition) (i j : ℕ) (ample : List ℕ)
    → (contains j (add_from test transition ts i ample) ≡ true)
      ↔ ((contains j ample ≡ true) ⊎ Passes test transition ts i j)
unfolding add_from
add_from-contains test transition [] i j ample =
    (λ e. inl e, λ h. elim h [ inl e ↦ e | inr e ↦ absurd e ])
add_from-contains test transition (t ∷ ts) i j ample =
    let now = insert_if-contains (not (i == transition) && test t.arcs) i j ample in
    let rest =
      add_from-contains test transition ts (suc i) j
        (insert_if (not (i == transition) && test t.arcs) i ample) in
    (
      λ e. elim (rest.0 e) [
        | inl c ↦ elim (now.0 c) [
          | inl old ↦ inl old
          | inr (same, b) ↦ inr (
              inl (same, (λ at. split i (test t.arcs) (sym same ∙ at) b), second i (test t.arcs) b))
        ]
        | inr later ↦ inr (inr later)
      ],
      λ h. elim h [
        | inl old ↦ rest.1 (inl (now.1 (inl old)))
        | inr (inl (same, ne, e)) ↦
            rest.1 (inl (now.1 (inr (same, both i (test t.arcs) (λ at. ne (same ∙ at)) e))))
        | inr (inr later) ↦ rest.1 (inr later)
      ],
    )
  where
    split : (i : ℕ) (b : Bool) → i ≡ transition → (not (i == transition) && b) ≡ true → ⊥
    split i b e h = ground arith

    second : (i : ℕ) (b : Bool) → (not (i == transition) && b) ≡ true → b ≡ true
    second i b h = ground arith

    both : (i : ℕ) (b : Bool) → (i ≢ transition) → b ≡ true → (not (i == transition) && b) ≡ true
    both i b ne h = ground arith
