-- ===== src/Graph/Build/Measure.antt =====
-- How many aggregates can still be new: a measure for the loop of computeSeqSOG.
use mc_sog.Graph.{LddGraph, LddState, insert_predecessor, insert_successor, link}
use mc_sog.Graph.Nodes.{ldd_at}
use mc_sog.Ldd.Tree.{Ldd}
use mc_sog.Prelude.{
  ==_iff, ==_self, Bool, Bool-cases, List, [], ap, arith, false, if◌then◌else◌, inl, inr, lt_cases,
  refl, some, subst, suc, true, zero, ℕ, ◌++◌, ◌<◌, ◌==◌, ◌||◌, ◌∙◌, ◌∷◌, ◌≡◌, ◌≤◌,
}

-- `i` is one of the keys.
abbrev pub seen : List ℕ → ℕ → Bool
seen [] i = false
seen (k ∷ ks) i = (k == i) || seen ks i

or_true : (b : Bool) → (b || true) ≡ true
or_true true = refl
or_true false = refl

-- The numbers below the bound that are no key.
abbrev pub unseen : List ℕ → ℕ → ℕ
unseen ks zero = 0
unseen ks (suc n) = if seen ks n then unseen ks n else suc (unseen ks n)

pub unseen-le : (ks : List ℕ) (n : ℕ) → unseen ks n ≤ n
unseen-le ks zero = omega arith
unseen-le ks (suc n) = ground (arith, unseen-le ks n)

seen-append : (ks : List ℕ) (k i : ℕ) → seen (ks ++ k ∷ []) i ≡ (seen ks i || (k == i))
seen-append [] k i = ground arith
seen-append (x ∷ ks) k i = ground (arith, seen-append ks k i)

unseen-append-le : (ks : List ℕ) (k n : ℕ) → unseen (ks ++ k ∷ []) n ≤ unseen ks n
unseen-append-le ks k zero = omega arith
unseen-append-le ks k (suc n) = ground (arith, unseen-append-le ks k n, seen-append ks k n)

pub unseen-append-lt :
    (ks : List ℕ) (k n : ℕ) → k < n → seen ks k ≡ false → unseen (ks ++ k ∷ []) n < unseen ks n
unseen-append-lt ks k zero lt new = omega arith
unseen-append-lt ks k (suc n) lt new = elim (lt_cases k n) [
  | inl below ↦ ground (arith, unseen-append-lt ks k n below new, seen-append ks k n)
  | inr (inl same) ↦ same_lt (subst (λ x. seen ks x ≡ false) same new) (appended same)
  | inr (inr above) ↦ omega arith
]
  where
    appended : k ≡ n → seen (ks ++ k ∷ []) n ≡ true
    appended same = seen-append ks k n ∙ rw (same, ==_self n) (or_true (seen ks n))

    same_lt :
        seen ks n ≡ false
        → seen (ks ++ k ∷ []) n ≡ true
        → unseen (ks ++ k ∷ []) (suc n) < unseen ks (suc n)
    same_lt a b = ground (arith, unseen-append-le ks k n)

module _ (key : Ldd → ℕ) where
  abbrev pub keys : List LddState → List ℕ
  keys [] = []
  keys (n ∷ ns) = key n.lddstate ∷ keys ns

  pub keys-append :
      (ns : List LddState) (c : LddState) → keys (ns ++ c ∷ []) ≡ keys ns ++ key c.lddstate ∷ []
  keys-append [] c = refl
  keys-append (n ∷ ns) c = ap (λ ks. key n.lddstate ∷ ks) (keys-append ns c)

  keys-insert_successor :
      (ns : List LddState) (p q t : ℕ) → keys (insert_successor ns p q t) ≡ keys ns
  unfolding insert_successor
  keys-insert_successor [] p q t = refl
  keys-insert_successor (n ∷ ns) zero q t = refl
  keys-insert_successor (n ∷ ns) (suc p) q t =
      ap (λ ks. key n.lddstate ∷ ks) (keys-insert_successor ns p q t)

  keys-insert_predecessor :
      (ns : List LddState) (p q t : ℕ) → keys (insert_predecessor ns p q t) ≡ keys ns
  unfolding insert_predecessor
  keys-insert_predecessor [] p q t = refl
  keys-insert_predecessor (n ∷ ns) zero q t = refl
  keys-insert_predecessor (n ∷ ns) (suc p) q t =
      ap (λ ks. key n.lddstate ∷ ks) (keys-insert_predecessor ns p q t)

  pub keys-link : (g : LddGraph) (p q t : ℕ) → keys (link g p q t).go_nodes ≡ keys g.go_nodes
  unfolding link
  keys-link g p q t =
      keys-insert_predecessor (insert_successor g.go_nodes p q t) q p t
      ∙ keys-insert_successor g.go_nodes p q t

  -- A key that is seen is that of a state.
  pub seen-keys :
      (ns : List LddState) (i : ℕ)
      → seen (keys ns) i ≡ true
      → (p : ℕ) × (d : Ldd) × (ldd_at ns p ≡ some d) × (key d ≡ i)
  seen-keys [] i h = cc
  seen-keys (n ∷ ns) i h = elim (Bool-cases (key n.lddstate == i)) [
    | inl same ↦ (0, n.lddstate, refl, (==_iff (key n.lddstate) i).0 same)
    | inr other ↦ let (p, d, at, e) = seen-keys ns i (later other h) in (suc p, d, at, e)
  ]
    where
      later : {x y : Bool} → x ≡ false → (x || y) ≡ true → y ≡ true
      later {x} {y} e h = ground arith
