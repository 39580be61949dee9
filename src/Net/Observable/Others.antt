-- ===== src/Net/Observable/Others.antt =====
-- Which transitions Set_Non_Observables chooses (src/NewNet.cpp).
use mc_sog.Net.{Transition}
use mc_sog.Net.Observable.{contains, non_observables_from, set_non_observables}
use mc_sog.Prelude.{
  ==_iff, Bool-cases, List, arith, false, inl, inr, length, lt_cases, refl, subst, suc, sym, true,
  zero, ℕ, ◌+◌, ◌<◌, ◌==◌, ◌↔◌, ◌≡◌, ◌≢◌, ◌≤◌,
}

contains_from :
    (i n : ℕ) (observable : List ℕ) (j : ℕ)
    → (contains j (non_observables_from i n observable) ≡ true)
      ↔ ((i ≤ j) × (j < i + n) × (contains j observable ≡ false))
unfolding non_observables_from contains
contains_from i zero observable j = ground arith
contains_from i (suc n) observable j =
    let rest = contains_from (suc i) n observable j in
    elim (Bool-cases (contains i observable)) [
      | inl chosen ↦ rw chosen (
        λ e. let (le, lt, out) = rest.0 e in (omega (arith, le), omega (arith, lt), out),
        λ (le, lt, out). rest.1 (after le (other_in chosen out), omega (arith, lt), out),
      )
      | inr free ↦ rw free (
        λ e. elim (Bool-cases (j == i)) [
          | inl same ↦
              let at = (==_iff j i).0 same in
              (
                omega (arith, at),
                omega (arith, at),
                subst (λ x. contains x observable ≡ false) (sym at) free,
              )
          | inr other ↦
              let (le, lt, out) = rest.0 (rw other at e) in
              (omega (arith, le), omega (arith, lt), out)
        ],
        λ (le, lt, out). elim (Bool-cases (j == i)) [
          | inl same ↦ rw same refl
          | inr other ↦ rw other (rest.1 (after le (λ at. differ at other), omega (arith, lt), out))
        ],
      )
    ]
  where
    differ : j ≡ i → (j == i) ≡ false → ⊥
    differ e h = ground arith

    after : i ≤ j → (j ≢ i) → suc i ≤ j
    after le ne = elim (lt_cases i j) [
      | inl lt ↦ lt
      | inr (inl e) ↦ absurd (ne (sym e))
      | inr (inr gt) ↦ absurd (omega (arith, le, gt))
    ]

    other_in : contains i observable ≡ true → contains j observable ≡ false → j ≢ i
    other_in chosen out e = let c = subst (λ x. contains x observable ≡ false) e out in cc

-- Set_Non_Observables chooses exactly the transitions that are not observable.
pub set_non_observables-contains :
    (transitions : List Transition) (observable : List ℕ) (j : ℕ)
    → (contains j (set_non_observables transitions observable) ≡ true)
      ↔ ((j < length transitions) × (contains j observable ≡ false))
unfolding set_non_observables
set_non_observables-contains transitions observable j =
    let h = contains_from 0 (length transitions) observable j in
    (
      λ e. let (_, lt, out) = h.0 e in (omega (arith, lt), out),
      λ (lt, out). h.1 (omega arith, omega (arith, lt), out),
    )
