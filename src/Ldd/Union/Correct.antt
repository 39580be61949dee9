-- ===== src/Ldd/Union/Correct.antt =====
-- lddmc_union_mono (src/SylvanWrapper.cpp) and the union of two sets of markings.
use mc_sog.Prelude.{
  ℕ, zero, suc, ◌+◌, ◌<◌, ◌≡◌, refl, subst, ◌≢◌, inl, inr, ◌||◌, List, [], ◌∷◌, arith, ltb, ◌==◌,
  Bool-cases, lt_cases, lt→ltb, le→ltb, ==_ne, ==_self, ==_iff,
}
use mc_sog.Ldd.Tree.{
  Ldd, lddmc_false, lddmc_true, node, IsIndex, IsNonempty, mem, Follows, IsLdd, size,
  lddmc_makenode, mem-makenode, makenode-IsLdd, mem-nil, makenode-Follows, makenode-IsNonempty,
}
use mc_sog.Ldd.Union.{union_nodes, union_swapped, union_terminal, union_fuel, lddmc_union_mono}

-- `u` is a well-formed tree over `k` places for the markings of `a` and those of `b`.
pub record IsUnion (k : ℕ) (a b u : Ldd) : Type 0 where
  pub formed : IsLdd k u
  pub left : IsNonempty a → IsNonempty u
  pub right : IsNonempty b → IsNonempty u
  pub follows : (v : ℕ) → Follows v a → Follows v b → Follows v u
  pub members : (m : List ℕ) → mem u m ≡ (mem a m || mem b m)

IsUnion-comm : (k : ℕ) (a b u : Ldd) → IsUnion k a b u → IsUnion k b a u
IsUnion-comm k a b u h = record {
  formed = h.formed;
  left = h.right;
  right = h.left;
  follows = λ v fa fb. h.follows v fb fa;
  members = λ m. ground (arith, h.members m);
}

members_lt :
    (k va : ℕ) (da ra b r : Ldd) (m : List ℕ)
    → IsLdd (suc k) (lddmc_makenode va da r)
    → IsLdd (suc k) b
    → mem r m ≡ (mem ra m || mem b m)
    → mem (lddmc_makenode va da r) m ≡ (mem (node va da ra) m || mem b m)
members_lt k va da ra b r [] hu hb e = ground (arith, mem-nil k _ hu, mem-nil k b hb)
members_lt k va da ra b r (x ∷ xs) hu hb e = ground (arith, mem-makenode va da r x xs)

IsUnion-lt :
    (k va vb : ℕ) (da ra db rb r : Ldd)
    → IsLdd (suc k) (node va da ra)
    → IsLdd (suc k) (node vb db rb)
    → va < vb
    → IsUnion (suc k) ra (node vb db rb) r
    → IsUnion (suc k) (node va da ra) (node vb db rb) (lddmc_makenode va da r)
IsUnion-lt k va vb da ra db rb r ha hb lt h = record {
  formed = formed;
  left = λ _. makenode-IsNonempty va da r ha.0;
  right = λ _. makenode-IsNonempty va da r ha.0;
  follows = λ v fa fb. makenode-Follows v va da r fa ha.0;
  members = λ m. members_lt k va da ra (node vb db rb) r m formed hb (h.members m);
}
  where
    formed : IsLdd (suc k) (lddmc_makenode va da r)
    formed = makenode-IsLdd k va da r ha.1 h.formed (h.follows va ha.3 lt)

members_eq :
    (k v : ℕ) (da ra db rb d r : Ldd) (m : List ℕ)
    → IsLdd (suc k) (lddmc_makenode v d r)
    → ((xs : List ℕ) → mem d xs ≡ (mem da xs || mem db xs))
    → mem r m ≡ (mem ra m || mem rb m)
    → mem (lddmc_makenode v d r) m ≡ (mem (node v da ra) m || mem (node v db rb) m)
members_eq k v da ra db rb d r [] hu hd e = mem-nil k _ hu
members_eq k v da ra db rb d r (x ∷ xs) hu hd e = ground (arith, mem-makenode v d r x xs, hd xs)

IsUnion-eq :
    (k v : ℕ) (da ra db rb d r : Ldd)
    → IsLdd (suc k) (node v da ra)
    → IsLdd (suc k) (node v db rb)
    → IsUnion k da db d
    → IsUnion (suc k) ra rb r
    → IsUnion (suc k) (node v da ra) (node v db rb) (lddmc_makenode v d r)
IsUnion-eq k v da ra db rb d r ha hb hd hr = record {
  formed = formed;
  left = λ _. makenode-IsNonempty v d r (hd.left ha.0);
  right = λ _. makenode-IsNonempty v d r (hd.left ha.0);
  follows = λ w fa fb. makenode-Follows w v d r fa (hd.left ha.0);
  members = λ m. members_eq k v da ra db rb d r m formed hd.members (hr.members m);
}
  where
    formed : IsLdd (suc k) (lddmc_makenode v d r)
    formed = makenode-IsLdd k v d r hd.formed hr.formed (hr.follows v ha.3 hb.3)

-- What the induction on the fuel gives for the calls on smaller trees.
abbrev Unites : ℕ → (Ldd → Ldd → Ldd) → Type 0
Unites n union =
    (k : ℕ) (a b : Ldd) → size a + size b < n → IsLdd k a → IsLdd k b → IsUnion k a b (union a b)

union_nodes-IsUnion :
    (n : ℕ) (union : Ldd → Ldd → Ldd)
    → Unites n union
    → (k va vb : ℕ) (da ra db rb : Ldd) → size (node va da ra) + size (node vb db rb) < suc n
    → IsLdd (suc k) (node va da ra)
    → IsLdd (suc k) (node vb db rb)
    → IsUnion
        (suc k)
        (node va da ra)
        (node vb db rb)
        (union_nodes union (node va da ra) (node vb db rb))
unfolding union_nodes
union_nodes-IsUnion n union ih k va vb da ra db rb lt ha hb = elim (lt_cases va vb) [
  | inl below ↦ rw (lt→ltb va vb below) (
      IsUnion-lt k va vb da ra db rb _ ha hb below
        (ih (suc k) ra (node vb db rb) (omega arith) ha.2 hb))
  | inr (inl e) ↦
      rw (e, le→ltb vb vb (omega arith), ==_self vb)
        (IsUnion-eq k vb da ra db rb _ _ (rw e at ha) hb (ih k da db (omega arith) ha.1 hb.1)
          (ih (suc k) ra rb (omega arith) ha.2 hb.2))
  | inr (inr above) ↦
      rw (le→ltb va vb (omega arith), ==_ne va vb above)
        (IsUnion-comm (suc k) _ _ _ (
          IsUnion-lt k vb va db rb da ra _ hb ha above
            (IsUnion-comm (suc k) _ _ _ (ih (suc k) (node va da ra) rb (omega arith) ha hb.2))))
]

IsUnion-self : (k : ℕ) (a : Ldd) → IsLdd k a → IsUnion k a a a
IsUnion-self k a h = record {
  formed = h;
  left = λ n. n;
  right = λ n. n;
  follows = λ v f _. f;
  members = λ m. ground arith;
}

IsUnion-false : (k : ℕ) (a : Ldd) → IsLdd k a → IsUnion k lddmc_false a a
IsUnion-false k a h = record {
  formed = h;
  left = λ n. absurd n;
  right = λ n. n;
  follows = λ v _ f. f;
  members = λ m. refl;
}

module _ (index : Ldd → ℕ) (ok : IsIndex index) where
  union_swapped-IsUnion :
      (n : ℕ) (union : Ldd → Ldd → Ldd)
      → Unites n union
      → (k va vb : ℕ) (da ra db rb : Ldd) → size (node va da ra) + size (node vb db rb) < suc n
      → IsLdd (suc k) (node va da ra)
      → IsLdd (suc k) (node vb db rb)
      → IsUnion
          (suc k)
          (node va da ra)
          (node vb db rb)
          (union_swapped index union (node va da ra) (node vb db rb))
  unfolding union_swapped
  union_swapped-IsUnion n union ih k va vb da ra db rb lt ha hb =
      elim (Bool-cases (ltb (index (node va da ra)) (index (node vb db rb)))) [
        | inl e ↦ rw e (
            IsUnion-comm (suc k) _ _ _
              (union_nodes-IsUnion n union ih k vb va db rb da ra (omega arith) hb ha))
        | inr e ↦ rw e (union_nodes-IsUnion n union ih k va vb da ra db rb lt ha hb)
      ]

  union_terminal-IsUnion :
      (n : ℕ) (union : Ldd → Ldd → Ldd)
      → Unites n union
      → (k : ℕ) (a b : Ldd) → size a + size b < suc n
      → index a ≢ index b
      → IsLdd k a
      → IsLdd k b
      → IsUnion k a b (union_terminal index union a b)
  unfolding union_terminal
  union_terminal-IsUnion n union ih k lddmc_false b lt ne ha hb = IsUnion-false k b hb
  union_terminal-IsUnion n union ih k lddmc_true lddmc_false lt ne ha hb =
      IsUnion-comm k _ _ _ (IsUnion-false k lddmc_true ha)
  union_terminal-IsUnion n union ih k (node v d r) lddmc_false lt ne ha hb =
      IsUnion-comm k _ _ _ (IsUnion-false k (node v d r) ha)
  union_terminal-IsUnion n union ih k lddmc_true lddmc_true lt ne ha hb = absurd (ne refl)
  union_terminal-IsUnion n union ih zero lddmc_true (node w e s) lt ne ha hb = absurd hb
  union_terminal-IsUnion n union ih (suc k) lddmc_true (node w e s) lt ne ha hb = absurd ha
  union_terminal-IsUnion n union ih zero (node v d r) lddmc_true lt ne ha hb = absurd ha
  union_terminal-IsUnion n union ih (suc k) (node v d r) lddmc_true lt ne ha hb = absurd hb
  union_terminal-IsUnion n union ih zero (node v d r) (node w e s) lt ne ha hb = absurd ha
  union_terminal-IsUnion n union ih (suc k) (node v d r) (node w e s) lt ne ha hb =
      union_swapped-IsUnion n union ih k v w d r e s lt ha hb

  union_fuel-IsUnion : (n : ℕ) → Unites n (union_fuel index n)
  unfolding union_fuel
  union_fuel-IsUnion zero k a b lt ha hb = elim lt [ ]
  union_fuel-IsUnion (suc n) k a b lt ha hb = elim (Bool-cases (index a == index b)) [
    | inl e ↦
        rw e
          (subst (λ c. IsUnion k a c a) (ok.injective a b ((==_iff _ _).0 e)) (IsUnion-self k a ha))
    | inr e ↦ rw e (
        union_terminal-IsUnion n (union_fuel index n) (union_fuel-IsUnion n) k a b lt
          (λ p. cc ((==_iff (index a) (index b)).1 p)) ha hb)
  ]

  -- `lddmc_union_mono` of two well-formed trees over k places is a well-formed tree over k places,
  -- and its markings are those of either tree.
  pub lddmc_union_mono-IsUnion :
      (k : ℕ) (a b : Ldd) → IsLdd k a → IsLdd k b → IsUnion k a b (lddmc_union_mono index a b)
  unfolding lddmc_union_mono
  lddmc_union_mono-IsUnion k a b ha hb =
      union_fuel-IsUnion (suc (size a + size b)) k a b (omega arith) ha hb
