-- ===== src/Ldd/Canonical.antt =====
-- Equality of trees and equality of their sets of markings, for the comparisons of MDDs in
-- src/SylvanWrapper.cpp and src/CommonSOG.cpp.
use mc_sog.Ldd.Tree.{IsLdd, IsNonempty, Ldd, lddmc_false, lddmc_true, mem, mem-below, mem-nil, node}
use mc_sog.Prelude.{
  ==_iff, ==_self, Bool, Bool-cases, List, [], ap, arith, false, inl, inr, length, lt_cases, refl,
  suc, sym, true, zero, ℕ, ◌<◌, ◌==◌, ◌||◌, ◌∙◌, ◌∷◌, ◌≡◌, ◌≤◌,
}

-- A well-formed tree that is not `lddmc_false` has a marking.
pub some_member : (k : ℕ) (d : Ldd) → IsLdd k d → IsNonempty d → (m : List ℕ) × (mem d m ≡ true)
some_member k lddmc_false h n = absurd n
some_member k lddmc_true h n = ([], refl)
some_member zero (node v d r) h n = absurd h
some_member (suc k) (node v d r) h n =
    let (xs, e) = some_member k d h.1 h.0 in (v ∷ xs, rw (==_self v, e))

-- A marking has a value for each place.
pub length-member : (k : ℕ) (d : Ldd) (m : List ℕ) → IsLdd k d → mem d m ≡ true → length m ≡ k
length-member k lddmc_false m h e = cc
length-member zero lddmc_true [] h e = refl
length-member zero lddmc_true (x ∷ xs) h e = cc
length-member (suc k) lddmc_true m h e = absurd h
length-member zero (node v d r) m h e = absurd h
length-member (suc k) (node v d r) [] h e = cc
length-member (suc k) (node v d r) (x ∷ xs) h e = elim (Bool-cases (mem r (x ∷ xs))) [
  | inl inside ↦ length-member (suc k) r (x ∷ xs) h.2 inside
  | inr outside ↦ ap suc (length-member k d xs h.1 (ground arith))
]

-- The markings that start with `v` are those of the branch at `v`.
mem-head :
    (k v : ℕ) (d r : Ldd) (xs : List ℕ)
    → IsLdd (suc k) (node v d r)
    → mem (node v d r) (v ∷ xs) ≡ mem d xs
mem-head k v d r xs h =
    rw (==_self v, mem-below k v r v xs h.2 h.3 (omega arith)) (or_false (mem d xs))
  where
    or_false : (b : Bool) → (b || false) ≡ b
    or_false true = refl
    or_false false = refl

mem-other :
    (v : ℕ) (d r : Ldd) (x : ℕ) (xs : List ℕ)
    → (x == v) ≡ false
    → mem (node v d r) (x ∷ xs) ≡ mem r (x ∷ xs)
mem-other v d r x xs e = rw e

abbrev pub SameMembers : Ldd → Ldd → Type 0
SameMembers a b = (m : List ℕ) → mem a m ≡ mem b m

same_down :
    (k v : ℕ) (da ra db rb : Ldd)
    → IsLdd (suc k) (node v da ra)
    → IsLdd (suc k) (node v db rb)
    → SameMembers (node v da ra) (node v db rb)
    → SameMembers da db
same_down k v da ra db rb ha hb e xs =
    sym (mem-head k v da ra xs ha) ∙ e (v ∷ xs) ∙ mem-head k v db rb xs hb

same_right :
    (k v : ℕ) (da ra db rb : Ldd)
    → IsLdd (suc k) (node v da ra)
    → IsLdd (suc k) (node v db rb)
    → SameMembers (node v da ra) (node v db rb)
    → SameMembers ra rb
same_right k v da ra db rb ha hb e [] = mem-nil k ra ha.2 ∙ sym (mem-nil k rb hb.2)
same_right k v da ra db rb ha hb e (x ∷ xs) = elim (Bool-cases (x == v)) [
  | inl hit ↦
      let le : x ≤ v = omega (arith, (==_iff x v).0 hit) in
      mem-below k v ra x xs ha.2 ha.3 le ∙ sym (mem-below k v rb x xs hb.2 hb.3 le)
  | inr miss ↦ sym (mem-other v da ra x xs miss) ∙ e (x ∷ xs) ∙ mem-other v db rb x xs miss
]

-- Two chains with the same markings do not start at different values.
not_below :
    (k va vb : ℕ) (da ra db rb : Ldd)
    → IsLdd (suc k) (node va da ra)
    → IsLdd (suc k) (node vb db rb)
    → SameMembers (node va da ra) (node vb db rb)
    → va < vb
    → ⊥
not_below k va vb da ra db rb ha hb e lt =
    let (xs, inside) = some_member k da ha.1 ha.0 in
    let absent = mem-below k va (node vb db rb) va xs hb lt (omega arith) in
    let here = mem-head k va da ra xs ha in cc (e (va ∷ xs))

empty_member : (k : ℕ) (d : Ldd) → IsLdd k d → SameMembers lddmc_false d → lddmc_false ≡ d
empty_member k lddmc_false h e = refl
empty_member k lddmc_true h e = cc (e [])
empty_member k (node v d r) h e = let (m, inside) = some_member k (node v d r) h tt in cc (e m)

-- Two well-formed trees over k places with the same markings are the same tree.
pub canonical : (k : ℕ) (a b : Ldd) → IsLdd k a → IsLdd k b → SameMembers a b → a ≡ b
canonical k lddmc_false b ha hb e = empty_member k b hb e
canonical k lddmc_true lddmc_false ha hb e = cc (e [])
canonical k (node v d r) lddmc_false ha hb e = sym (empty_member k (node v d r) ha (λ m. sym (e m)))
canonical k lddmc_true lddmc_true ha hb e = refl
canonical zero lddmc_true (node w c s) ha hb e = absurd hb
canonical (suc k) lddmc_true (node w c s) ha hb e = absurd ha
canonical zero (node v d r) lddmc_true ha hb e = absurd ha
canonical (suc k) (node v d r) lddmc_true ha hb e = absurd hb
canonical zero (node v d r) (node w c s) ha hb e = absurd ha
canonical (suc k) (node v d r) (node w c s) ha hb e = elim (lt_cases v w) [
  | inl lt ↦ absurd (not_below k v w d r c s ha hb e lt)
  | inr (inr gt) ↦ absurd (not_below k w v c s d r hb ha (λ m. sym (e m)) gt)
  | inr (inl p) ↦
      let ha' = rw p at ha in
      let e' : SameMembers (node w d r) (node w c s) = rw p at e in
      let down = canonical k d c ha.1 hb.1 (same_down k w d r c s ha' hb e') in
      let right = canonical (suc k) r s ha.2 hb.2 (same_right k w d r c s ha' hb e') in cc
]
