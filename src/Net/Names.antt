-- ===== src/Net/Names.antt =====
-- The maps from names to positions of class NewNet (src/NewNet.cpp).
use mc_sog.Net.{assign_name, find_name}
use mc_sog.Prelude.{
  Bool-cases, List, [], ap, arith, get_elem?, inl, inr, length, none, refl, same_name,
  same_name_self, same_name→≡, some, some_eq, subst, suc, sym, zero, ℕ, ◌%◌, ◌++◌, ◌<◌, ◌^◌, ◌∙◌,
  ◌∷◌, ◌≡◌, ◌⊎◌,
}

-- The table has the position of each name of the list, and nothing else.
pub record IsTable (names : List (List ℕ)) (table : List (List ℕ × ℕ)) : Type 0 where
  pub found :
      (name : List ℕ) (i : ℕ) → find_name table name ≡ some i → get_elem? names i ≡ some name
  pub all : (name : List ℕ) (i : ℕ) → get_elem? names i ≡ some name → find_name table name ≡ some i

pub get_elem?-lt :
    {A : Type 0} (xs : List A) (i : ℕ) (x : A) → get_elem? xs i ≡ some x → i < length xs
get_elem?-lt [] i x e = cc
get_elem?-lt (y ∷ xs) zero x e = omega arith
get_elem?-lt (y ∷ xs) (suc i) x e = omega (arith, get_elem?-lt xs i x e)

get_elem?-append :
    {A : Type 0} (xs : List A) (y : A) (i : ℕ) (x : A)
    → get_elem? (xs ++ y ∷ []) i ≡ some x
    → (get_elem? xs i ≡ some x) ⊎ ((i ≡ length xs) × (x ≡ y))
get_elem?-append [] y zero x e = inr (refl, sym (some_eq e))
get_elem?-append [] y (suc i) x e = cc
get_elem?-append (z ∷ xs) y zero x e = inl e
get_elem?-append (z ∷ xs) y (suc i) x e = elim (get_elem?-append xs y i x e) [
  | inl old ↦ inl old
  | inr (at, same) ↦ inr (ap suc at, same)
]

get_elem?-old :
    {A : Type 0} (xs : List A) (y : A) (i : ℕ) (x : A)
    → get_elem? xs i ≡ some x
    → get_elem? (xs ++ y ∷ []) i ≡ some x
get_elem?-old [] y i x e = cc
get_elem?-old (z ∷ xs) y zero x e = e
get_elem?-old (z ∷ xs) y (suc i) x e = get_elem?-old xs y i x e

get_elem?-last : {A : Type 0} (xs : List A) (y : A) → get_elem? (xs ++ y ∷ []) (length xs) ≡ some y
get_elem?-last [] y = refl
get_elem?-last (z ∷ xs) y = get_elem?-last xs y

-- A new name at the end, with a position that fits in a uint16_t.
pub assign_name-IsTable :
    (names : List (List ℕ)) (table : List (List ℕ × ℕ)) (name : List ℕ)
    → IsTable names table
    → find_name table name ≡ none
    → length names < 2 ^ 16
    → IsTable (names ++ name ∷ []) (assign_name table name (length names))
unfolding assign_name find_name
assign_name-IsTable names table name h absent fits = record { found = found; all = all }
  where
    position : length names % 2 ^ 16 ≡ length names
    position = omega arith

    found :
        (n : List ℕ) (i : ℕ)
        → find_name (assign_name table name (length names)) n ≡ some i
        → get_elem? (names ++ name ∷ []) i ≡ some n
    found n i e = elim (Bool-cases (same_name name n)) [
      | inl same ↦
          subst (λ j. get_elem? (names ++ name ∷ []) j ≡ some n)
            (sym position ∙ some_eq (rw same at e))
            (get_elem?-last names name ∙ ap some (same_name→≡ name n same))
      | inr other ↦ get_elem?-old names name i n (h.found n i (rw other at e))
    ]

    all :
        (n : List ℕ) (i : ℕ)
        → get_elem? (names ++ name ∷ []) i ≡ some n
        → find_name (assign_name table name (length names)) n ≡ some i
    all n i e = elim (get_elem?-append names name i n e) [
      | inl old ↦ elim (Bool-cases (same_name name n)) [
        | inl same ↦ absurd (clash n i (same_name→≡ name n same) old)
        | inr other ↦ rw other (h.all n i old)
      ]
      | inr (at, same) ↦ rw (same, same_name_self name) (ap some (position ∙ sym at))
    ]
      where
        clash : (n : List ℕ) (i : ℕ) → name ≡ n → get_elem? names i ≡ some n → ⊥
        clash n i e old =
            let f = h.all n i old in let g = subst (λ x. find_name table x ≡ none) e absent in cc
