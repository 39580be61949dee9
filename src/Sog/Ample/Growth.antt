-- ===== src/Sog/Ample/Growth.antt =====
-- What the rounds of computeAmple2 (src/CommonSOG.cpp) keep and insert.
use mc_sog.Ldd.Tree.{Ldd}
use mc_sog.Net.{Node, Transition}
use mc_sog.Net.Observable.{contains, insert_int}
use mc_sog.Net.Observable.Correct.{contains_insert}
use mc_sog.Prelude.{
  ==_iff, Bool, Bool-cases, List, [], arith, false, inl, inr, length, ltb, ltb→lt, not, refl, suc,
  true, zero, ℕ, ◌&&◌, ◌+◌, ◌<◌, ◌==◌, ◌||◌, ◌∙◌, ◌∷◌, ◌≡◌, ◌≤◌,
}
use mc_sog.Sog.{CommonSog, get_successor}
use mc_sog.Sog.Ample.{add_by2, insert_first, visit}
use mc_sog.Sog.Canonize.{is_false}
use mc_sog.Sog.Conflict.{add_from, insert_if}
use mc_sog.Sog.Conflict.Correct.{add_from-contains}
use mc_sog.Sog.Image.{or_cases}
use mc_sog.Sog.System.{AreBelow, In}

pub In-contains : (j : ℕ) (is : List ℕ) → In j is → contains j is ≡ true
unfolding contains
In-contains j [] h = absurd h
In-contains j (i ∷ is) (inl e) = rw ((==_iff j i).1 e) refl
In-contains j (i ∷ is) (inr h) = rw (In-contains j is h) (or_true (j == i))
  where
    or_true : (b : Bool) → (b || true) ≡ true
    or_true b = ground arith

pub contains-In : (j : ℕ) (is : List ℕ) → contains j is ≡ true → In j is
unfolding contains
contains-In j [] e = cc
contains-In j (i ∷ is) e = elim (or_cases (j == i) (contains j is) e) [
  | inl same ↦ inl ((==_iff j i).0 same)
  | inr later ↦ inr (contains-In j is later)
]

insert_int-AreBelow : (n i : ℕ) (is : List ℕ) → i < n → AreBelow n is → AreBelow n (insert_int i is)
unfolding insert_int
insert_int-AreBelow n i [] lt h = (lt, tt)
insert_int-AreBelow n i (j ∷ is) lt h = ground (arith, insert_int-AreBelow n i is lt)

add_from-AreBelow :
    (test : Node → Bool) (transition : ℕ) (ts : List Transition) (n i : ℕ) (ample : List ℕ)
    → i + length ts ≤ n
    → AreBelow n ample
    → AreBelow n (add_from test transition ts i ample)
unfolding add_from insert_if
add_from-AreBelow test transition [] n i ample le h = h
add_from-AreBelow test transition (t ∷ ts) n i ample le h =
    add_from-AreBelow test transition ts n (suc i) _ (omega arith)
      (inserted (not (i == transition) && test t.arcs))
  where
    inserted : (b : Bool) → AreBelow n (insert_if b i ample)
    inserted true = insert_int-AreBelow n i ample (omega arith) h
    inserted false = h

-- What each of the three branches of AddConflict2 is.
pub record IsGrowth (n : ℕ) (ample ample' : List ℕ) : Type 0 where
  pub below : AreBelow n ample → AreBelow n ample'
  pub keeps : (j : ℕ) → contains j ample ≡ true → contains j ample' ≡ true

IsGrowth-same : (n : ℕ) (ample : List ℕ) → IsGrowth n ample ample
IsGrowth-same n ample = record { below = λ h. h; keeps = λ j h. h }

IsGrowth-trans : (n : ℕ) (a b c : List ℕ) → IsGrowth n a b → IsGrowth n b c → IsGrowth n a c
IsGrowth-trans n a b c h g = record {
  below = λ p. g.below (h.below p);
  keeps = λ j p. g.keeps j (h.keeps j p);
}

add_from-IsGrowth :
    (test : Node → Bool) (transition : ℕ) (ts : List Transition) (n : ℕ) (ample : List ℕ)
    → length ts ≤ n
    → IsGrowth n ample (add_from test transition ts 0 ample)
add_from-IsGrowth test transition ts n ample le = record {
  below = add_from-AreBelow test transition ts n 0 ample (omega arith);
  keeps = λ j h. (add_from-contains test transition ts 0 j ample).1 (inl h);
}

pub add_by2-IsGrowth :
    (ts : List Transition) (whole nothing : Bool) (t n : ℕ) (ample : List ℕ)
    → length ts ≤ n
    → IsGrowth n ample (add_by2 ts whole nothing t ample)
unfolding add_by2
add_by2-IsGrowth ts true nothing t n ample le = add_from-IsGrowth _ t ts n ample le
add_by2-IsGrowth ts false true t n ample le = add_from-IsGrowth _ t ts n ample le
add_by2-IsGrowth ts false false t n ample le = add_from-IsGrowth _ t ts n ample le

pub visit-IsGrowth :
    (add : ℕ → List ℕ → List ℕ) (n : ℕ)
    → ((t : ℕ) (ample : List ℕ) → IsGrowth n ample (add t ample))
    → (m t : ℕ) (ample : List ℕ) → IsGrowth n ample (visit add m t ample)
unfolding visit
visit-IsGrowth add n h zero t ample = IsGrowth-same n ample
visit-IsGrowth add n h (suc m) t ample = elim (Bool-cases (contains t ample)) [
  | inl in_it ↦ rw in_it (
      IsGrowth-trans n ample (add t ample) _ (h t ample)
        (visit-IsGrowth add n h m (suc t) (add t ample)))
  | inr out ↦ rw out (visit-IsGrowth add n h m (suc t) ample)
]

pub insert_first-AreBelow :
    (index : Ldd → ℕ) (g : CommonSog) (s : Ldd) (n m i : ℕ) (ample : List ℕ)
    → i + m ≤ n
    → AreBelow n ample
    → AreBelow n (insert_first index g s m i ample)
unfolding insert_first
insert_first-AreBelow index g s n zero i ample le h = h
insert_first-AreBelow index g s n (suc m) i ample le h =
    elim (Bool-cases (is_false (get_successor index g s i))) [
      | inl rests ↦ rw rests (insert_first-AreBelow index g s n m (suc i) ample (omega arith) h)
      | inr moves ↦ rw moves (insert_int-AreBelow n i ample (omega arith) h)
    ]

-- The first transition with a successor is inserted.
pub insert_first-contains :
    (index : Ldd → ℕ) (g : CommonSog) (s : Ldd) (t m i : ℕ) (ample : List ℕ)
    → i ≤ t
    → t < i + m
    → is_false (get_successor index g s t) ≡ false
    → ((j : ℕ) → j < t → is_false (get_successor index g s j) ≡ true)
    → contains t (insert_first index g s m i ample) ≡ true
unfolding insert_first
insert_first-contains index g s t zero i ample le lt moves rests = absurd (omega arith)
insert_first-contains index g s t (suc m) i ample le lt moves rests =
    elim (Bool-cases (is_false (get_successor index g s i))) [
      | inl none_here ↦ rw none_here (
          insert_first-contains index g s t m (suc i) ample (later none_here) (omega arith) moves
            rests)
      | inr here_it ↦
          rw here_it (contains_insert t i ample ∙ rw ((==_iff t i).1 (same here_it)) refl)
    ]
  where
    same : is_false (get_successor index g s i) ≡ false → t ≡ i
    same e = elim (Bool-cases (ltb i t)) [
      | inl less ↦ cc (rests i (ltb→lt _ _ less))
      | inr not_less ↦ ground arith
    ]

    later : is_false (get_successor index g s i) ≡ true → suc i ≤ t
    later e = elim (Bool-cases (t == i)) [
      | inl equal ↦ cc ((==_iff t i).0 equal)
      | inr other ↦ ground arith
    ]
