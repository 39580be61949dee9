-- ===== src/Ldd/Divide/Correct.antt =====
-- What ldd_divide_rec (src/SylvanWrapper.cpp) cuts off, for a tree that is one path down to the
-- level.
use mc_sog.Ldd.Canonical.{some_member}
use mc_sog.Ldd.Divide.{get_mddnbr, is_single_mdd, ldd_divide_internal, ldd_divide_rec}
use mc_sog.Ldd.Tree.{
  Follows, IsLdd, IsNonempty, Ldd, lddmc_false, lddmc_makenode, lddmc_true, mem, node,
}
use mc_sog.Prelude.{
  ==_iff, ==_ne, ==_self, Bool, Bool-cases, List, [], arith, false, inl, inr, leb, refl, subst, suc,
  sym, true, zero, ℕ, ◌&&◌, ◌+◌, ◌<◌, ◌==◌, ◌||◌, ◌∷◌, ◌≡◌, ◌≤◌,
}

mem-down : (v : ℕ) (d r : Ldd) (xs : List ℕ) → mem d xs ≡ true → mem (node v d r) (v ∷ xs) ≡ true
mem-down v d r xs inside = rw (==_self v, inside)

mem-right :
    (v : ℕ) (d r : Ldd) (x : ℕ) (xs : List ℕ)
    → mem r (x ∷ xs) ≡ true
    → mem (node v d r) (x ∷ xs) ≡ true
mem-right v d r x xs inside = rw inside (or_true_right (x == v && mem d xs))
  where
    or_true_right : (b : Bool) → (b || true) ≡ true
    or_true_right true = refl
    or_true_right false = refl

-- There is one node at each of the first `n` levels.
abbrev pub IsThin : ℕ → Ldd → Type 0
IsThin zero a = Unit {0}
IsThin (suc n) (node v d r) = (r ≡ lddmc_false) × IsThin n d
IsThin (suc n) _ = Unit {0}

makenode-eq-node : (v : ℕ) (d r : Ldd) → IsNonempty d → lddmc_makenode v d r ≡ node v d r
unfolding lddmc_makenode
makenode-eq-node v lddmc_false r n = absurd n
makenode-eq-node v lddmc_true r n = refl
makenode-eq-node v (node w c s) r n = refl

-- Below the level a division keeps the tree as it is.
divide_below :
    (k : ℕ) (a : Ldd) (current level : ℕ)
    → IsLdd k a
    → level < current
    → ldd_divide_internal a current level ≡ a
unfolding ldd_divide_internal
divide_below k lddmc_false current level h lt = refl
divide_below k lddmc_true current level h lt = refl
divide_below zero (node v d r) current level h lt = absurd h
divide_below (suc k) (node v d r) current level h lt =
    rw
      (
        divide_below k d (current + 1) level h.1 (omega arith),
        divide_below (suc k) r current level h.2 lt,
        above lt,
      )
      (makenode-eq-node v d _ h.0)
  where
    above : level < current → leb current level ≡ false
    above lt = ground arith

-- The first branch at the level, for a tree that is one path down to it.
abbrev pub first_branch : Ldd → ℕ → Ldd
first_branch lddmc_false n = lddmc_false
first_branch lddmc_true n = lddmc_true
first_branch (node v d r) zero = node v d lddmc_false
first_branch (node v d r) (suc n) = node v (first_branch d n) lddmc_false

first_branch-IsNonempty : (n : ℕ) (a : Ldd) → IsNonempty a → IsNonempty (first_branch a n)
first_branch-IsNonempty n lddmc_false h = absurd h
first_branch-IsNonempty n lddmc_true h = tt
first_branch-IsNonempty zero (node v d r) h = tt
first_branch-IsNonempty (suc n) (node v d r) h = tt

divide-first_branch :
    (k n : ℕ) (a : Ldd) (current level : ℕ)
    → IsLdd k a
    → current + n ≡ level
    → ldd_divide_internal a current level ≡ first_branch a n
unfolding ldd_divide_internal
divide-first_branch k n lddmc_false current level h e = refl
divide-first_branch k n lddmc_true current level h e = refl
divide-first_branch zero n (node v d r) current level h e = absurd h
divide-first_branch (suc k) zero (node v d r) current level h e =
    rw (divide_below k d (current + 1) level h.1 (omega arith), at) (makenode-eq-node v d _ h.0)
  where
    at : leb current level ≡ true
    at = ground arith
divide-first_branch (suc k) (suc n) (node v d r) current level h e =
    rw (divide-first_branch k n d (current + 1) level h.1 (omega arith), at)
      (makenode-eq-node v (first_branch d n) lddmc_false (first_branch-IsNonempty n d h.0))
  where
    at : leb current level ≡ true
    at = ground arith

first_branch-IsLdd : (k n : ℕ) (a : Ldd) → IsLdd k a → IsLdd k (first_branch a n)
first_branch-IsLdd k n lddmc_false h = tt
first_branch-IsLdd zero n lddmc_true h = tt
first_branch-IsLdd (suc k) n lddmc_true h = absurd h
first_branch-IsLdd zero n (node v d r) h = absurd h
first_branch-IsLdd (suc k) zero (node v d r) h = (h.0, h.1, tt, tt)
first_branch-IsLdd (suc k) (suc n) (node v d r) h =
    (first_branch-IsNonempty n d h.0, first_branch-IsLdd k n d h.1, tt, tt)

first_branch-mem : (n : ℕ) (a : Ldd) (m : List ℕ) → mem (first_branch a n) m ≡ true → mem a m ≡ true
first_branch-mem n lddmc_false m e = e
first_branch-mem n lddmc_true m e = e
first_branch-mem zero (node v d r) [] e = e
first_branch-mem zero (node v d r) (x ∷ xs) e = ground arith
first_branch-mem (suc n) (node v d r) [] e = e
first_branch-mem (suc n) (node v d r) (x ∷ xs) e = ground (arith, first_branch-mem n d xs)

get_mddnbr-false : (n : ℕ) → get_mddnbr lddmc_false n ≡ 0
unfolding get_mddnbr
get_mddnbr-false zero = refl
get_mddnbr-false (suc n) = get_mddnbr-false n

get_mddnbr-true : (n : ℕ) → get_mddnbr lddmc_true n ≤ 1
unfolding get_mddnbr
get_mddnbr-true zero = omega arith
get_mddnbr-true (suc n) = omega (arith, get_mddnbr-false n)

-- Two or more nodes at the level: a marking is cut off.
cut_off :
    (k n : ℕ) (a : Ldd)
    → IsLdd k a
    → IsThin n a
    → 1 < get_mddnbr a n
    → (m : List ℕ) × (mem a m ≡ true) × (mem (first_branch a n) m ≡ false)
unfolding get_mddnbr
cut_off k n lddmc_false h t lt = absurd (omega (arith, get_mddnbr-false n))
cut_off k n lddmc_true h t lt = absurd (omega (arith, get_mddnbr-true n))
cut_off zero n (node v d r) h t lt = absurd h
cut_off (suc k) zero (node v d lddmc_false) h t lt = absurd (omega arith)
cut_off (suc k) zero (node v d lddmc_true) h t lt = absurd h.3
cut_off (suc k) zero (node v d (node w c s)) h t lt =
    let (xs, inside) = some_member k c h.2.1 h.2.0 in (w ∷ xs, is_second xs inside, is_cut xs)
  where
    is_second : (xs : List ℕ) → mem c xs ≡ true → mem (node v d (node w c s)) (w ∷ xs) ≡ true
    is_second xs inside = mem-right v d (node w c s) w xs (mem-down w c s xs inside)

    is_cut : (xs : List ℕ) → mem (node v d lddmc_false) (w ∷ xs) ≡ false
    is_cut xs = rw (==_ne w v h.3)
cut_off (suc k) (suc n) (node v d r) h t lt =
    let (xs, inside, cut) = cut_off k n d h.1 t.1 lt in (v ∷ xs, is_below xs inside, is_cut xs cut)
  where
    is_below : (xs : List ℕ) → mem d xs ≡ true → mem (node v d r) (v ∷ xs) ≡ true
    is_below xs inside = mem-down v d r xs inside

    is_cut :
        (xs : List ℕ)
        → mem (first_branch d n) xs ≡ false
        → mem (first_branch (node v d r) (suc n)) (v ∷ xs) ≡ false
    is_cut xs cut = ground (arith, cut)

-- Less than two nodes at the level: the tree is one path a level further down.
pub IsThin-next :
    (k n : ℕ) (a : Ldd) → IsLdd k a → IsThin n a → get_mddnbr a n ≤ 1 → IsThin (suc n) a
unfolding get_mddnbr
IsThin-next k n lddmc_false h t le = tt
IsThin-next k n lddmc_true h t le = tt
IsThin-next zero n (node v d r) h t le = absurd h
IsThin-next (suc k) zero (node v d lddmc_false) h t le = (refl, tt)
IsThin-next (suc k) zero (node v d lddmc_true) h t le = absurd h.3
IsThin-next (suc k) zero (node v d (node w c s)) h t le = absurd (omega arith)
IsThin-next (suc k) (suc n) (node v d r) h t le = (t.0, IsThin-next k n d h.1 t.1 le)

-- A tree that is one path down to the last place has one marking.
pub IsThin-single : (k n : ℕ) (a : Ldd) → IsLdd k a → k ≤ n → IsThin n a → is_single_mdd a ≡ true
unfolding is_single_mdd
IsThin-single k n lddmc_false h le t = refl
IsThin-single k n lddmc_true h le t = refl
IsThin-single zero n (node v d r) h le t = absurd h
IsThin-single (suc k) zero (node v d r) h le t = absurd (omega arith)
IsThin-single (suc k) (suc n) (node v d r) h le t =
    subst (λ z. is_single_mdd (node v d z) ≡ true) (sym t.0)
      (IsThin-single k n d h.1 (omega arith) t.1)

one_head :
    (v : ℕ) (d r : Ldd) (x : ℕ) (xs : List ℕ)
    → r ≡ lddmc_false
    → mem (node v d r) (x ∷ xs) ≡ true
    → (x ≡ v) × (mem d xs ≡ true)
one_head v d r x xs e inside = split (subst (λ z. mem (node v d z) (x ∷ xs) ≡ true) e inside)
  where
    split : mem (node v d lddmc_false) (x ∷ xs) ≡ true → (x ≡ v) × (mem d xs ≡ true)
    split h = elim (Bool-cases (x == v)) [
      | inl same ↦ ((==_iff x v).0 same, right (mem d xs) (rw same at h))
      | inr other ↦ absurd (cc (rw other at h))
    ]
      where
        right : (b : Bool) → (b || false) ≡ true → b ≡ true
        right b e = ground arith

abbrev pub IsWithin : Ldd → Ldd → Type 0
IsWithin b a = (m : List ℕ) → mem b m ≡ true → mem a m ≡ true

-- Any part of a tree that is one path down to a level is so too.
pub IsThin-mono :
    (k n : ℕ) (a b : Ldd) → IsLdd k a → IsLdd k b → IsWithin b a → IsThin n a → IsThin n b
IsThin-mono k zero a b ha hb sub t = tt
IsThin-mono k (suc n) a lddmc_false ha hb sub t = tt
IsThin-mono k (suc n) a lddmc_true ha hb sub t = tt
IsThin-mono zero (suc n) a (node w c s) ha hb sub t = absurd hb
IsThin-mono (suc k) (suc n) lddmc_false (node w c s) ha hb sub t =
    let (m, inside) = some_member (suc k) (node w c s) hb tt in absurd (cc (sub m inside))
IsThin-mono (suc k) (suc n) lddmc_true (node w c s) ha hb sub t = absurd ha
IsThin-mono (suc k) (suc n) (node v d r) (node w c s) ha hb sub t =
    (last s hb.2 hb.3 (λ x xs h. mem-right w c s x xs h), IsThin-mono k n d c ha.1 hb.1 below t.1)
  where
    head_same : w ≡ v
    head_same =
        let (xs, inside) = some_member k c hb.1 hb.0 in
        (one_head v d r w xs t.0 (sub (w ∷ xs) (mem-down w c s xs inside))).0

    below : IsWithin c d
    below xs inside = (one_head v d r w xs t.0 (sub (w ∷ xs) (mem-down w c s xs inside))).1

    last :
        (s' : Ldd)
        → IsLdd (suc k) s'
        → Follows w s'
        → ((x : ℕ) (xs : List ℕ) → mem s' (x ∷ xs) ≡ true → mem (node w c s) (x ∷ xs) ≡ true)
        → s' ≡ lddmc_false
    last lddmc_false hs f up = refl
    last lddmc_true hs f up = absurd hs
    last (node x e q) hs f up =
        let (xs, inside) = some_member k e hs.1 hs.0 in
        let same =
          (one_head v d r x xs t.0 (sub (x ∷ xs) (up x xs (mem-down x e q xs inside)))).0 in
        absurd (omega (arith, same, head_same))

-- The part of `a` below its first node at the level, where `a` has more nodes there.
pub record IsPart (k n : ℕ) (a b : Ldd) : Type 0 where
  pub formed : IsLdd k b
  pub inside : IsWithin b a
  pub filled : IsNonempty b
  pub less : (m : List ℕ) × (mem a m ≡ true) × (mem b m ≡ false)

pub ldd_divide_rec-IsPart :
    (k n : ℕ) (a : Ldd)
    → IsLdd k a
    → IsNonempty a
    → IsThin n a
    → 1 < get_mddnbr a n
    → IsPart k n a (ldd_divide_rec a n)
unfolding ldd_divide_rec
ldd_divide_rec-IsPart k n a h ne t lt = rw (divide-first_branch k n a 0 n h (omega arith)) (record {
  formed = first_branch-IsLdd k n a h;
  inside = first_branch-mem n a;
  filled = first_branch-IsNonempty n a ne;
  less = cut_off k n a h t lt;
})
