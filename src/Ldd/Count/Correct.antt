-- ===== src/Ldd/Count/Correct.antt =====
-- getMarksCount (src/SylvanWrapper.cpp) and the list of the markings of a tree.
use mc_sog.Ldd.Count.{count_loop, descend, get_marks_count, push_right}
use mc_sog.Ldd.Fire.Image.{mem-node, node-mem_down, node-mem_right}
use mc_sog.Ldd.Tree.{IsLdd, IsNonempty, Ldd, lddmc_false, lddmc_true, mem, mem-below, mem-nil, node}
use mc_sog.Prelude.{
  List, [], ap, arith, inl, inr, length, length-append, map, refl, some, suc, true, zero, ℕ, ◌%◌,
  ◌++◌, ◌+◌, ◌<◌, ◌^◌, ◌↔◌, ◌∙◌, ◌∷◌, ◌≡◌, ◌≤◌, ◌⊎◌,
}
use mc_sog.Sog.Finite.{InMarks}

-- The markings of a tree, in the order of its paths.
abbrev pub markings : Ldd → List (List ℕ)
markings lddmc_false = []
markings lddmc_true = [] ∷ []
markings (node v d r) = map (λ m. v ∷ m) (markings d) ++ markings r

-- No marking occurs twice.
abbrev pub Distinct : List (List ℕ) → Type 0
Distinct [] = Unit {0}
Distinct (u ∷ us) = (InMarks u us → ⊥) × Distinct us

InMarks-append :
    (m : List ℕ) (us vs : List (List ℕ)) → InMarks m (us ++ vs) ↔ (InMarks m us ⊎ InMarks m vs)
InMarks-append m [] vs = (λ h. inr h, λ h. elim h [ inl nowhere ↦ absurd nowhere | inr h ↦ h ])
InMarks-append m (u ∷ us) vs = (
  λ h. elim h [
    | inl e ↦ inl (inl e)
    | inr h ↦ elim ((InMarks-append m us vs).0 h) [ inl i ↦ inl (inr i) | inr i ↦ inr i ]
  ],
  λ h. elim h [
    | inl (inl e) ↦ inl e
    | inl (inr i) ↦ inr ((InMarks-append m us vs).1 (inl i))
    | inr i ↦ inr ((InMarks-append m us vs).1 (inr i))
  ],
)

InMarks-map :
    (v x : ℕ) (m : List ℕ) (us : List (List ℕ))
    → InMarks (x ∷ m) (map (λ u. v ∷ u) us) ↔ ((x ≡ v) × InMarks m us)
InMarks-map v x m [] = (λ h. absurd h, λ h. absurd h.1)
InMarks-map v x m (u ∷ us) = (
  λ h. elim h [
    | inl e ↦ (cc, inl cc)
    | inr h ↦ let (e, i) = (InMarks-map v x m us).0 h in (e, inr i)
  ],
  λ (e, h). elim h [ inl same ↦ inl cc | inr i ↦ inr ((InMarks-map v x m us).1 (e, i)) ],
)

no_empty : (v : ℕ) (us : List (List ℕ)) → InMarks [] (map (λ u. v ∷ u) us) → ⊥
no_empty v [] h = h
no_empty v (u ∷ us) (inl e) = cc
no_empty v (u ∷ us) (inr h) = no_empty v us h

pub InMarks-markings :
    (k : ℕ) (c : Ldd) (m : List ℕ) → IsLdd k c → InMarks m (markings c) ↔ (mem c m ≡ true)
InMarks-markings k lddmc_false m hc = (λ h. absurd h, λ e. cc)
InMarks-markings k lddmc_true [] hc = (λ h. refl, λ e. inl refl)
InMarks-markings k lddmc_true (x ∷ m) hc = (λ h. elim h [ inl e ↦ cc | inr h ↦ absurd h ], λ e. cc)
InMarks-markings zero (node v d r) m hc = absurd hc
InMarks-markings (suc k) (node v d r) [] hc = (
  λ h. elim ((InMarks-append [] (map (λ u. v ∷ u) (markings d)) (markings r)).0 h) [
    | inl i ↦ absurd (no_empty v (markings d) i)
    | inr i ↦ let f = mem-nil k r hc.2 in let t = (InMarks-markings (suc k) r [] hc.2).0 i in cc
  ],
  λ e. cc,
)
InMarks-markings (suc k) (node v d r) (x ∷ m) hc = (
  λ h. elim ((InMarks-append (x ∷ m) (map (λ u. v ∷ u) (markings d)) (markings r)).0 h) [
    | inl i ↦
        let (e, i') = (InMarks-map v x m (markings d)).0 i in
        rw e (node-mem_down v d r m ((InMarks-markings k d m hc.1).0 i'))
    | inr i ↦ node-mem_right k v d r (x ∷ m) hc.2 ((InMarks-markings (suc k) r (x ∷ m) hc.2).0 i)
  ],
  λ e.
      (InMarks-append (x ∷ m) (map (λ u. v ∷ u) (markings d)) (markings r)).1
        (elim (mem-node v d r x m e) [
          | inl (same, down) ↦
              inl ((InMarks-map v x m (markings d)).1 (same, (InMarks-markings k d m hc.1).1 down))
          | inr right ↦ inr ((InMarks-markings (suc k) r (x ∷ m) hc.2).1 right)
        ]),
)

Distinct-append :
    (us vs : List (List ℕ))
    → Distinct us
    → Distinct vs
    → ((m : List ℕ) → InMarks m us → InMarks m vs → ⊥)
    → Distinct (us ++ vs)
Distinct-append [] vs hu hv apart = hv
Distinct-append (u ∷ us) vs hu hv apart = (
  λ h. elim ((InMarks-append u us vs).0 h) [ inl i ↦ hu.0 i | inr i ↦ apart u (inl refl) i ],
  Distinct-append us vs hu.1 hv (λ m i j. apart m (inr i) j),
)

Distinct-map : (v : ℕ) (us : List (List ℕ)) → Distinct us → Distinct (map (λ u. v ∷ u) us)
Distinct-map v [] h = tt
Distinct-map v (u ∷ us) h = (λ i. h.0 ((InMarks-map v v u us).0 i).1, Distinct-map v us h.1)

pub markings-Distinct : (k : ℕ) (c : Ldd) → IsLdd k c → Distinct (markings c)
markings-Distinct k lddmc_false hc = tt
markings-Distinct k lddmc_true hc = (λ h. h, tt)
markings-Distinct zero (node v d r) hc = absurd hc
markings-Distinct (suc k) (node v d r) hc =
    Distinct-append (map (λ u. v ∷ u) (markings d)) (markings r)
      (Distinct-map v (markings d) (markings-Distinct k d hc.1)) (markings-Distinct (suc k) r hc.2)
      apart
  where
    apart : (m : List ℕ) → InMarks m (map (λ u. v ∷ u) (markings d)) → InMarks m (markings r) → ⊥
    apart [] i j = no_empty v (markings d) i
    apart (x ∷ m) i j =
        let e = ((InMarks-map v x m (markings d)).0 i).0 in
        let f = mem-below k v r x m hc.2 hc.3 (omega (arith, e)) in
        let t = (InMarks-markings (suc k) r (x ∷ m) hc.2).0 j in cc

-- Each entry of the stack is a set of markings that is not empty.
abbrev AreBranches : List Ldd → Type 0
AreBranches [] = Unit {0}
AreBranches (m ∷ st) = ((k : ℕ) × IsLdd k m) × IsNonempty m × AreBranches st

abbrev total : List Ldd → ℕ
total [] = 0
total (m ∷ st) = length (markings m) + total st

length-node :
    (v : ℕ) (d r : Ldd) → length (markings (node v d r)) ≡ length (markings d) + length (markings r)
length-node v d r =
    length-append (map (λ m. v ∷ m) (markings d)) (markings r)
    ∙ ap (λ n. n + length (markings r)) (length-map (markings d))
  where
    length-map : (us : List (List ℕ)) → length (map (λ m. v ∷ m) us) ≡ length us
    length-map [] = refl
    length-map (u ∷ us) = ap suc (length-map us)

push_right-total :
    (r : Ldd) (st : List Ldd) → total (push_right r st) ≡ length (markings r) + total st
unfolding push_right
push_right-total lddmc_false st = omega arith
push_right-total lddmc_true st = omega arith
push_right-total (node v d r) st = refl

push_right-AreBranches :
    (k : ℕ) (r : Ldd) (st : List Ldd) → IsLdd k r → AreBranches st → AreBranches (push_right r st)
unfolding push_right
push_right-AreBranches k lddmc_false st hr ok = ok
push_right-AreBranches k lddmc_true st hr ok = ((k, hr), tt, ok)
push_right-AreBranches k (node v d r) st hr ok = ((k, hr), tt, ok)

-- One descent accounts for one marking.
descend-total :
    (k : ℕ) (m : Ldd) (st : List Ldd)
    → IsLdd k m
    → IsNonempty m
    → AreBranches st
    → (total (descend m st) + 1 ≡ length (markings m) + total st) × AreBranches (descend m st)
unfolding descend
descend-total k lddmc_false st hm ne ok = absurd ne
descend-total k lddmc_true st hm ne ok = (omega arith, ok)
descend-total zero (node v d r) st hm ne ok = absurd hm
descend-total (suc k) (node v d r) st hm ne ok =
    let (e, ok') =
      descend-total k d (push_right r st) hm.1 hm.0 (push_right-AreBranches (suc k) r st hm.2 ok) in
    (omega (arith, e, push_right-total r st, length-node v d r), ok')

count_loop-total :
    (fuel : ℕ) (st : List Ldd) (compteur : ℕ)
    → AreBranches st
    → total st ≤ fuel
    → compteur < 2 ^ 64
    → count_loop fuel st compteur ≡ some ((compteur + total st) % 2 ^ 64)
unfolding count_loop
count_loop-total fuel [] compteur ok le lt = ap some (omega arith)
count_loop-total zero (m ∷ st) compteur ok le lt =
    let (e, _) = descend-total ok.0.0 m st ok.0.1 ok.1 ok.2 in absurd (omega (arith, e))
count_loop-total (suc fuel) (m ∷ st) compteur ok le lt =
    let (e, ok') = descend-total ok.0.0 m st ok.0.1 ok.1 ok.2 in
    count_loop-total fuel (descend m st) ((compteur + 1) % 2 ^ 64) ok' (omega (arith, e))
      (omega arith)
    ∙ ap some (omega (arith, e))

-- On a well-formed tree with a marking, with at least as many rounds as there are markings,
-- getMarksCount returns the length, as a uint64_t, of a list that has each marking of the tree
-- once.
pub get_marks_count-markings :
    (k : ℕ) (c : Ldd) (fuel : ℕ)
    → IsLdd k c
    → IsNonempty c
    → length (markings c) ≤ fuel
    → (get_marks_count fuel c ≡ some (length (markings c) % 2 ^ 64))
      × Distinct (markings c)
      × ((m : List ℕ) → InMarks m (markings c) ↔ (mem c m ≡ true))
unfolding get_marks_count
get_marks_count-markings k c fuel hc ne le = (
  count_loop-total fuel (c ∷ []) 0 ((k, hc), ne, tt) (omega arith) (omega arith)
      ∙ ap some (omega arith),
  markings-Distinct k c hc,
  λ m. InMarks-markings k c m hc,
)
