-- ===== src/Ldd/Minus/Correct.antt =====
-- ldd_minus (src/SylvanWrapper.cpp) and the difference of two sets of markings.
use mc_sog.Ldd.Minus.{ldd_minus, minus_fuel, minus_nodes, minus_terminal}
use mc_sog.Ldd.Tree.{
  Follows, Follows-mono, IsIndex, IsLdd, Ldd, lddmc_false, lddmc_makenode, lddmc_true,
  makenode-Follows_right, makenode-IsLdd, mem, mem-below, mem-makenode, mem-nil, node, size,
}
use mc_sog.Prelude.{
  ==_iff, ==_ne, ==_self, Bool, Bool-cases, List, [], ap, arith, false, inl, inr, le→ltb, lt_cases,
  lt→ltb, not, refl, subst, suc, true, zero, ℕ, ◌&&◌, ◌+◌, ◌<◌, ◌==◌, ◌||◌, ◌∙◌, ◌∷◌, ◌≡◌, ◌≢◌,
}

-- `u` is a well-formed tree over `k` places for the markings of `a` that `b` lacks.
pub record IsMinus (k : ℕ) (a b u : Ldd) : Type 0 where
  pub formed : IsLdd k u
  pub follows : (v : ℕ) → Follows v a → Follows v u
  pub members : (m : List ℕ) → mem u m ≡ (mem a m && not (mem b m))

or-and-not :
    (e p r b : Bool)
    → (e ≡ true → b ≡ false)
    → ((e && p) || (r && not b)) ≡ (((e && p) || r) && not b)
or-and-not true true r b h = rw (h refl)
or-and-not true false r b h = refl
or-and-not false p r b h = refl

and-not-or : (e p r a : Bool) → (e ≡ true → a ≡ false) → (a && not r) ≡ (a && not ((e && p) || r))
and-not-or true p r a h = rw (h refl)
and-not-or false p r a h = refl

members_lt :
    (k va vb : ℕ) (da ra db rb r : Ldd) (m : List ℕ)
    → IsLdd (suc k) (lddmc_makenode va da r)
    → IsLdd (suc k) (node vb db rb)
    → va < vb
    → mem r m ≡ (mem ra m && not (mem (node vb db rb) m))
    → mem (lddmc_makenode va da r) m ≡ (mem (node va da ra) m && not (mem (node vb db rb) m))
members_lt k va vb da ra db rb r [] hu hb lt e = mem-nil k _ hu
members_lt k va vb da ra db rb r (x ∷ xs) hu hb lt e =
    rw (mem-makenode va da r x xs, e)
      (or-and-not (x == va) (mem da xs) (mem ra (x ∷ xs)) (mem (node vb db rb) (x ∷ xs))
        λ h. mem-below k va (node vb db rb) x xs hb lt (omega (arith, (==_iff x va).0 h)))

IsMinus-lt :
    (k va vb : ℕ) (da ra db rb r : Ldd)
    → IsLdd (suc k) (node va da ra)
    → IsLdd (suc k) (node vb db rb)
    → va < vb
    → IsMinus (suc k) ra (node vb db rb) r
    → IsMinus (suc k) (node va da ra) (node vb db rb) (lddmc_makenode va da r)
IsMinus-lt k va vb da ra db rb r ha hb lt h = record {
  formed = formed;
  follows = λ v f.
      makenode-Follows_right v va da r f (h.follows v (Follows-mono v va ra (omega arith) ha.3));
  members = λ m. members_lt k va vb da ra db rb r m formed hb lt (h.members m);
}
  where
    formed : IsLdd (suc k) (lddmc_makenode va da r)
    formed = makenode-IsLdd k va da r ha.1 h.formed (h.follows va ha.3)

members_eq :
    (k v : ℕ) (da ra db rb d r : Ldd) (m : List ℕ)
    → IsLdd (suc k) (lddmc_makenode v d r)
    → IsLdd (suc k) (node v da ra)
    → IsLdd (suc k) (node v db rb)
    → ((xs : List ℕ) → mem d xs ≡ (mem da xs && not (mem db xs)))
    → mem r m ≡ (mem ra m && not (mem rb m))
    → mem (lddmc_makenode v d r) m ≡ (mem (node v da ra) m && not (mem (node v db rb) m))
members_eq k v da ra db rb d r [] hu ha hb hd e = mem-nil k _ hu
members_eq k v da ra db rb d r (x ∷ xs) hu ha hb hd e = ground (
  arith,
  mem-makenode v d r x xs,
  hd xs,
  mem-below k v ra x xs ha.2 ha.3,
  mem-below k v rb x xs hb.2 hb.3,
)

IsMinus-eq :
    (k v : ℕ) (da ra db rb d r : Ldd)
    → IsLdd (suc k) (node v da ra)
    → IsLdd (suc k) (node v db rb)
    → IsMinus k da db d
    → IsMinus (suc k) ra rb r
    → IsMinus (suc k) (node v da ra) (node v db rb) (lddmc_makenode v d r)
IsMinus-eq k v da ra db rb d r ha hb hd hr = record {
  formed = formed;
  follows = λ w f.
      makenode-Follows_right w v d r f (hr.follows w (Follows-mono w v ra (omega arith) ha.3));
  members = λ m. members_eq k v da ra db rb d r m formed ha hb hd.members (hr.members m);
}
  where
    formed : IsLdd (suc k) (lddmc_makenode v d r)
    formed = makenode-IsLdd k v d r hd.formed hr.formed (hr.follows v ha.3)

members_gt :
    (k va vb : ℕ) (da ra db rb u : Ldd) (m : List ℕ)
    → IsLdd (suc k) (node va da ra)
    → vb < va
    → mem u m ≡ (mem (node va da ra) m && not (mem rb m))
    → mem u m ≡ (mem (node va da ra) m && not (mem (node vb db rb) m))
members_gt k va vb da ra db rb u [] ha gt e = e
members_gt k va vb da ra db rb u (x ∷ xs) ha gt e =
    e
    ∙ and-not-or (x == vb) (mem db xs) (mem rb (x ∷ xs)) (mem (node va da ra) (x ∷ xs))
        (λ h. mem-below k vb (node va da ra) x xs ha gt (omega (arith, (==_iff x vb).0 h)))

IsMinus-gt :
    (k va vb : ℕ) (da ra db rb u : Ldd)
    → IsLdd (suc k) (node va da ra)
    → vb < va
    → IsMinus (suc k) (node va da ra) rb u
    → IsMinus (suc k) (node va da ra) (node vb db rb) u
IsMinus-gt k va vb da ra db rb u ha gt h = record {
  formed = h.formed;
  follows = h.follows;
  members = λ m. members_gt k va vb da ra db rb u m ha gt (h.members m);
}

IsMinus-false : (k : ℕ) (a : Ldd) → IsLdd k a → IsMinus k a lddmc_false a
IsMinus-false k a h = record { formed = h; follows = λ v f. f; members = λ m. ground arith }

IsMinus-self : (k : ℕ) (a : Ldd) → IsMinus k a a lddmc_false
IsMinus-self k a = record { formed = tt; follows = λ v f. tt; members = λ m. ground arith }

IsMinus-none : (k : ℕ) (b : Ldd) → IsMinus k lddmc_false b lddmc_false
IsMinus-none k b = record { formed = tt; follows = λ v f. tt; members = λ m. refl }

-- What the induction on the fuel gives for the calls on smaller trees.
abbrev Subtracts : ℕ → (Ldd → Ldd → Ldd) → Type 0
Subtracts n minus =
    (k : ℕ) (a b : Ldd) → size a + size b < n → IsLdd k a → IsLdd k b → IsMinus k a b (minus a b)

minus_nodes-IsMinus :
    (n : ℕ) (minus : Ldd → Ldd → Ldd)
    → Subtracts n minus
    → (k va vb : ℕ) (da ra db rb : Ldd) → size (node va da ra) + size (node vb db rb) < suc n
    → IsLdd (suc k) (node va da ra)
    → IsLdd (suc k) (node vb db rb)
    → IsMinus
        (suc k)
        (node va da ra)
        (node vb db rb)
        (minus_nodes minus (node va da ra) (node vb db rb))
unfolding minus_nodes
minus_nodes-IsMinus n minus ih k va vb da ra db rb lt ha hb = elim (lt_cases va vb) [
  | inl below ↦ rw (lt→ltb va vb below) (
      IsMinus-lt k va vb da ra db rb _ ha hb below
        (ih (suc k) ra (node vb db rb) (omega arith) ha.2 hb))
  | inr (inl e) ↦
      rw (e, le→ltb vb vb (omega arith), ==_self vb)
        (IsMinus-eq k vb da ra db rb _ _ (rw e at ha) hb (ih k da db (omega arith) ha.1 hb.1)
          (ih (suc k) ra rb (omega arith) ha.2 hb.2))
  | inr (inr above) ↦
      rw (le→ltb va vb (omega arith), ==_ne va vb above)
        (IsMinus-gt k va vb da ra db rb _ ha above
          (ih (suc k) (node va da ra) rb (omega arith) ha hb.2))
]

minus_terminal-IsMinus :
    (n : ℕ) (minus : Ldd → Ldd → Ldd)
    → Subtracts n minus
    → (k : ℕ) (a b : Ldd) → size a + size b < suc n
    → a ≢ b
    → IsLdd k a
    → IsLdd k b
    → IsMinus k a b (minus_terminal minus a b)
unfolding minus_terminal
minus_terminal-IsMinus n minus ih k lddmc_false b lt ne ha hb = IsMinus-none k b
minus_terminal-IsMinus n minus ih k lddmc_true lddmc_false lt ne ha hb =
    IsMinus-false k lddmc_true ha
minus_terminal-IsMinus n minus ih k (node v d r) lddmc_false lt ne ha hb =
    IsMinus-false k (node v d r) ha
minus_terminal-IsMinus n minus ih k lddmc_true lddmc_true lt ne ha hb = absurd (ne refl)
minus_terminal-IsMinus n minus ih zero lddmc_true (node w e s) lt ne ha hb = absurd hb
minus_terminal-IsMinus n minus ih (suc k) lddmc_true (node w e s) lt ne ha hb = absurd ha
minus_terminal-IsMinus n minus ih zero (node v d r) lddmc_true lt ne ha hb = absurd ha
minus_terminal-IsMinus n minus ih (suc k) (node v d r) lddmc_true lt ne ha hb = absurd hb
minus_terminal-IsMinus n minus ih zero (node v d r) (node w e s) lt ne ha hb = absurd ha
minus_terminal-IsMinus n minus ih (suc k) (node v d r) (node w e s) lt ne ha hb =
    minus_nodes-IsMinus n minus ih k v w d r e s lt ha hb

module _ (index : Ldd → ℕ) (ok : IsIndex index) where
  minus_fuel-IsMinus : (n : ℕ) → Subtracts n (minus_fuel index n)
  unfolding minus_fuel
  minus_fuel-IsMinus zero k a b lt ha hb = elim lt [ ]
  minus_fuel-IsMinus (suc n) k a b lt ha hb = elim (Bool-cases (index a == index b)) [
    | inl e ↦ rw e (
        subst (λ c. IsMinus k a c lddmc_false) (ok.injective a b ((==_iff _ _).0 e))
          (IsMinus-self k a))
    | inr e ↦ rw e (
        minus_terminal-IsMinus n (minus_fuel index n) (minus_fuel-IsMinus n) k a b lt
          (λ p. cc ((==_iff (index a) (index b)).1 (ap index p))) ha hb)
  ]

  -- `ldd_minus` of two well-formed trees over k places is a well-formed tree over k places, and
  -- its markings are those of the first that the second lacks.
  pub ldd_minus-IsMinus :
      (k : ℕ) (a b : Ldd) → IsLdd k a → IsLdd k b → IsMinus k a b (ldd_minus index a b)
  unfolding ldd_minus
  ldd_minus-IsMinus k a b ha hb =
      minus_fuel-IsMinus (suc (size a + size b)) k a b (omega arith) ha hb
