-- ===== src/Graph/Nodes.antt =====
-- What the lists of states show: the MDD and the successors at a position.
use mc_sog.Graph.{LddState, find_from, insert_predecessor, insert_successor}
use mc_sog.Ldd.Tree.{IsIndex, Ldd}
use mc_sog.Prelude.{
  ==_iff, Bool-cases, List, Option, [], ap, arith, false, if◌then◌else◌, inl, inr, length, none,
  refl, some, some_eq, suc, sym, zero, ℕ, ◌++◌, ◌+◌, ◌<◌, ◌==◌, ◌∙◌, ◌∷◌, ◌≡◌, ◌≢◌,
}

abbrev pub ldd_at : List LddState → ℕ → Option Ldd
ldd_at [] i = none
ldd_at (n ∷ ns) zero = some n.lddstate
ldd_at (n ∷ ns) (suc i) = ldd_at ns i

abbrev pub successors_at : List LddState → ℕ → List (ℕ × ℕ)
successors_at [] i = []
successors_at (n ∷ ns) zero = n.successors
successors_at (n ∷ ns) (suc i) = successors_at ns i

pub ldd_at-insert_successor :
    (ns : List LddState) (p q t i : ℕ) → ldd_at (insert_successor ns p q t) i ≡ ldd_at ns i
unfolding insert_successor
ldd_at-insert_successor [] p q t i = refl
ldd_at-insert_successor (n ∷ ns) zero q t zero = refl
ldd_at-insert_successor (n ∷ ns) zero q t (suc i) = refl
ldd_at-insert_successor (n ∷ ns) (suc p) q t zero = refl
ldd_at-insert_successor (n ∷ ns) (suc p) q t (suc i) = ldd_at-insert_successor ns p q t i

pub ldd_at-insert_predecessor :
    (ns : List LddState) (p q t i : ℕ) → ldd_at (insert_predecessor ns p q t) i ≡ ldd_at ns i
unfolding insert_predecessor
ldd_at-insert_predecessor [] p q t i = refl
ldd_at-insert_predecessor (n ∷ ns) zero q t zero = refl
ldd_at-insert_predecessor (n ∷ ns) zero q t (suc i) = refl
ldd_at-insert_predecessor (n ∷ ns) (suc p) q t zero = refl
ldd_at-insert_predecessor (n ∷ ns) (suc p) q t (suc i) = ldd_at-insert_predecessor ns p q t i

pub successors_at-insert_predecessor :
    (ns : List LddState) (p q t i : ℕ)
    → successors_at (insert_predecessor ns p q t) i ≡ successors_at ns i
unfolding insert_predecessor
successors_at-insert_predecessor [] p q t i = refl
successors_at-insert_predecessor (n ∷ ns) zero q t zero = refl
successors_at-insert_predecessor (n ∷ ns) zero q t (suc i) = refl
successors_at-insert_predecessor (n ∷ ns) (suc p) q t zero = refl
successors_at-insert_predecessor (n ∷ ns) (suc p) q t (suc i) =
    successors_at-insert_predecessor ns p q t i

pub successors_at-insert_successor :
    (ns : List LddState) (p q t i : ℕ)
    → p < length ns
    → successors_at (insert_successor ns p q t) i
      ≡ (if i == p then (q, t) ∷ successors_at ns i else successors_at ns i)
unfolding insert_successor
successors_at-insert_successor [] p q t i h = absurd (omega arith)
successors_at-insert_successor (n ∷ ns) zero q t zero h = refl
successors_at-insert_successor (n ∷ ns) zero q t (suc i) h = ground arith
successors_at-insert_successor (n ∷ ns) (suc p) q t zero h = ground arith
successors_at-insert_successor (n ∷ ns) (suc p) q t (suc i) h =
    successors_at-insert_successor ns p q t i (omega arith) ∙ ground arith

-- One more state at the end.
pub ldd_at-append :
    (ns : List LddState) (c : LddState) (i : ℕ)
    → ldd_at (ns ++ c ∷ []) i ≡ (if i == length ns then some c.lddstate else ldd_at ns i)
ldd_at-append [] c zero = refl
ldd_at-append [] c (suc i) = ground arith
ldd_at-append (n ∷ ns) c zero = ground arith
ldd_at-append (n ∷ ns) c (suc i) = ldd_at-append ns c i ∙ ground arith

pub successors_at-append :
    (ns : List LddState) (c : LddState) (i : ℕ)
    → c.successors ≡ []
    → successors_at (ns ++ c ∷ []) i ≡ successors_at ns i
successors_at-append [] c zero e = e
successors_at-append [] c (suc i) e = refl
successors_at-append (n ∷ ns) c zero e = refl
successors_at-append (n ∷ ns) c (suc i) e = successors_at-append ns c i e

pub ldd_at-lt : (ns : List LddState) (i : ℕ) (d : Ldd) → ldd_at ns i ≡ some d → i < length ns
ldd_at-lt [] i d e = cc
ldd_at-lt (n ∷ ns) zero d e = omega arith
ldd_at-lt (n ∷ ns) (suc i) d e = omega (arith, ldd_at-lt ns i d e)

-- `find` returns a state with the given MDD, or there is none.
abbrev pub Finds : List LddState → Ldd → ℕ → Option ℕ → Type 0
Finds ns md s none = (i : ℕ) → ldd_at ns i ≢ some md
Finds ns md s (some p) = (i : ℕ) × (p ≡ s + i) × (ldd_at ns i ≡ some md)

Finds-later :
    (n : LddState) (ns : List LddState) (md : Ldd) (s : ℕ) (r : Option ℕ)
    → n.lddstate ≢ md
    → Finds ns md (suc s) r
    → Finds (n ∷ ns) md s r
Finds-later n ns md s none miss f = go
  where
    go : (i : ℕ) → ldd_at (n ∷ ns) i ≢ some md
    go zero e = miss (some_eq e)
    go (suc i) e = f i e
Finds-later n ns md s (some p) miss (i, e, at) = (suc i, omega arith, at)

pub find_from-Finds :
    (index : Ldd → ℕ) (ok : IsIndex index) (md : Ldd) (ns : List LddState) (s : ℕ)
    → Finds ns md s (find_from index md ns s)
unfolding find_from
find_from-Finds index ok md [] s = λ i e. cc
find_from-Finds index ok md (n ∷ ns) s = elim (Bool-cases (index md == index n.lddstate)) [
  | inl same ↦
      rw same (0, omega arith, ap some (sym (ok.injective md n.lddstate ((==_iff _ _).0 same))))
  | inr other ↦ rw other (
      Finds-later n ns md s (find_from index md ns (suc s)) (λ e. miss e other)
        (find_from-Finds index ok md ns (suc s)))
]
  where
    miss : n.lddstate ≡ md → (index md == index n.lddstate) ≡ false → ⊥
    miss e h = cc ((==_iff (index md) (index n.lddstate)).1 (ap index (sym e)))
