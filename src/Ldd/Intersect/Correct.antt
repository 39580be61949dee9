-- ===== src/Ldd/Intersect/Correct.antt =====
-- lddmc_intersect (src/SylvanWrapper.cpp) and the intersection of two sets of markings.
use mc_sog.Ldd.Intersect.{intersect_fuel, intersect_nodes, intersect_terminal, lddmc_intersect}
use mc_sog.Ldd.Intersect.Skip.{Skips, skip-Skips}
use mc_sog.Ldd.Tree.{
  Follows, Follows-mono, IsIndex, IsLdd, IsNonempty, Ldd, lddmc_false, lddmc_makenode, lddmc_true,
  makenode-Follows_right, makenode-IsLdd, mddnode_getvalue, mem, mem-below, mem-makenode, mem-nil,
  node, size,
}
use mc_sog.Prelude.{
  ==_iff, Bool, Bool-cases, List, Option, [], ap, arith, false, inl, inr, none, refl, some, subst,
  suc, sym, true, zero, ℕ, ◌&&◌, ◌+◌, ◌<◌, ◌==◌, ◌||◌, ◌∙◌, ◌∷◌, ◌≡◌, ◌≢◌,
}

-- `u` is a well-formed tree over `k` places for the markings that `a` and `b` share.
pub record IsIntersect (k : ℕ) (a b u : Ldd) : Type 0 where
  pub formed : IsLdd k u
  pub follows : (v : ℕ) → Follows v a → Follows v u
  pub members : (m : List ℕ) → mem u m ≡ (mem a m && mem b m)

or-and-or :
    (e p q r s : Bool)
    → (e ≡ true → r ≡ false)
    → (e ≡ true → s ≡ false)
    → ((e && (p && q)) || (r && s)) ≡ (((e && p) || r) && ((e && q) || s))
or-and-or true true true r s hr hs = refl
or-and-or true true false r s hr hs = rw (hr refl) (sym (hs refl))
or-and-or true false q r s hr hs = rw (hr refl)
or-and-or false p q r s hr hs = refl

members_eq :
    (k v : ℕ) (da ra db rb d r : Ldd) (m : List ℕ)
    → IsLdd (suc k) (lddmc_makenode v d r)
    → IsLdd (suc k) (node v da ra)
    → IsLdd (suc k) (node v db rb)
    → ((xs : List ℕ) → mem d xs ≡ (mem da xs && mem db xs))
    → mem r m ≡ (mem ra m && mem rb m)
    → mem (lddmc_makenode v d r) m ≡ (mem (node v da ra) m && mem (node v db rb) m)
members_eq k v da ra db rb d r [] hu ha hb hd e = mem-nil k _ hu
members_eq k v da ra db rb d r (x ∷ xs) hu ha hb hd e =
    rw (mem-makenode v d r x xs, e, hd xs)
      (or-and-or (x == v) (mem da xs) (mem db xs) (mem ra (x ∷ xs)) (mem rb (x ∷ xs))
        (λ h. mem-below k v ra x xs ha.2 ha.3 (omega (arith, (==_iff x v).0 h)))
        (λ h. mem-below k v rb x xs hb.2 hb.3 (omega (arith, (==_iff x v).0 h))))

IsIntersect-eq :
    (k v : ℕ) (da ra db rb d r : Ldd)
    → IsLdd (suc k) (node v da ra)
    → IsLdd (suc k) (node v db rb)
    → IsIntersect k da db d
    → IsIntersect (suc k) ra rb r
    → IsIntersect (suc k) (node v da ra) (node v db rb) (lddmc_makenode v d r)
IsIntersect-eq k v da ra db rb d r ha hb hd hr = record {
  formed = formed;
  follows = λ w f.
      makenode-Follows_right w v d r f (hr.follows w (Follows-mono w v ra (omega arith) ha.3));
  members = λ m. members_eq k v da ra db rb d r m formed ha hb hd.members (hr.members m);
}
  where
    formed : IsLdd (suc k) (lddmc_makenode v d r)
    formed = makenode-IsLdd k v d r hd.formed hr.formed (hr.follows v ha.3)

-- What the induction on the fuel gives for the calls on smaller trees.
abbrev Intersects : ℕ → (Ldd → Ldd → Ldd) → Type 0
Intersects n intersect =
    (k : ℕ) (a b : Ldd)
    → size a + size b < n
    → IsLdd k a
    → IsLdd k b
    → IsIntersect k a b (intersect a b)

found-IsIntersect :
    (n : ℕ) (intersect : Ldd → Ldd → Ldd)
    → Intersects n intersect
    → (k : ℕ) (a b : Ldd) → size a + size b < suc n
    → IsNonempty a
    → IsNonempty b
    → IsLdd (suc k) a
    → IsLdd (suc k) b
    → mddnode_getvalue a ≡ mddnode_getvalue b
    → IsIntersect (suc k) a b (intersect_nodes intersect (some (a, b)))
unfolding intersect_nodes
found-IsIntersect n intersect ih k lddmc_false b lt na nb ha hb e = absurd na
found-IsIntersect n intersect ih k lddmc_true b lt na nb ha hb e = absurd ha
found-IsIntersect n intersect ih k (node v d r) lddmc_false lt na nb ha hb e = absurd nb
found-IsIntersect n intersect ih k (node v d r) lddmc_true lt na nb ha hb e = absurd hb
found-IsIntersect n intersect ih k (node va da ra) (node vb db rb) lt na nb ha hb e = rw e (
    IsIntersect-eq k vb da ra db rb _ _ (rw e at ha) hb (ih k da db (omega arith) ha.1 hb.1)
      (ih (suc k) ra rb (omega arith) ha.2 hb.2))

intersect_nodes-IsIntersect :
    (n : ℕ) (intersect : Ldd → Ldd → Ldd)
    → Intersects n intersect
    → (k : ℕ) (a b : Ldd) (r : Option (Ldd × Ldd)) → size a + size b < suc n
    → Skips k a b r
    → IsIntersect (suc k) a b (intersect_nodes intersect r)
intersect_nodes-IsIntersect n intersect ih k a b none lt h = record {
  formed = unfold intersect_nodes in tt;
  follows = λ v f. unfold intersect_nodes in tt;
  members = λ m. unfold intersect_nodes in sym (h m);
}
intersect_nodes-IsIntersect n intersect ih k a b (some (c, d)) lt h = record {
  formed = found.formed;
  follows = λ v f. found.follows v (h.0.follows v f);
  members = λ m. found.members m ∙ sym (h.0.members m);
}
  where
    found : IsIntersect (suc k) c d (intersect_nodes intersect (some (c, d)))
    found =
        found-IsIntersect n intersect ih k c d (omega (arith, h.0.shrinks)) h.0.left_node
          h.0.right_node h.0.left_formed h.0.right_formed h.1

IsIntersect-none : (k : ℕ) (b : Ldd) → IsIntersect k lddmc_false b lddmc_false
IsIntersect-none k b = record { formed = tt; follows = λ v f. tt; members = λ m. refl }

IsIntersect-false : (k : ℕ) (a : Ldd) → IsIntersect k a lddmc_false lddmc_false
IsIntersect-false k a = record { formed = tt; follows = λ v f. tt; members = λ m. ground arith }

IsIntersect-self : (k : ℕ) (a : Ldd) → IsLdd k a → IsIntersect k a a a
IsIntersect-self k a h = record { formed = h; follows = λ v f. f; members = λ m. ground arith }

intersect_terminal-IsIntersect :
    (n : ℕ) (intersect : Ldd → Ldd → Ldd)
    → Intersects n intersect
    → (k : ℕ) (a b : Ldd) → size a + size b < suc n
    → a ≢ b
    → IsLdd k a
    → IsLdd k b
    → IsIntersect k a b (intersect_terminal intersect a b)
unfolding intersect_terminal
intersect_terminal-IsIntersect n intersect ih k lddmc_false b lt ne ha hb = IsIntersect-none k b
intersect_terminal-IsIntersect n intersect ih k lddmc_true lddmc_false lt ne ha hb =
    IsIntersect-false k lddmc_true
intersect_terminal-IsIntersect n intersect ih k (node v d r) lddmc_false lt ne ha hb =
    IsIntersect-false k (node v d r)
intersect_terminal-IsIntersect n intersect ih k lddmc_true lddmc_true lt ne ha hb = absurd (ne refl)
intersect_terminal-IsIntersect n intersect ih zero lddmc_true (node w e s) lt ne ha hb = absurd hb
intersect_terminal-IsIntersect n intersect ih (suc k) lddmc_true (node w e s) lt ne ha hb =
    absurd ha
intersect_terminal-IsIntersect n intersect ih zero (node v d r) lddmc_true lt ne ha hb = absurd ha
intersect_terminal-IsIntersect n intersect ih (suc k) (node v d r) lddmc_true lt ne ha hb =
    absurd hb
intersect_terminal-IsIntersect n intersect ih zero (node v d r) (node w e s) lt ne ha hb = absurd ha
intersect_terminal-IsIntersect n intersect ih (suc k) (node v d r) (node w e s) lt ne ha hb =
    intersect_nodes-IsIntersect n intersect ih k (node v d r) (node w e s) _ lt
      (skip-Skips k _ (node v d r) (node w e s) (omega arith) tt tt ha hb)

module _ (index : Ldd → ℕ) (ok : IsIndex index) where
  intersect_fuel-IsIntersect : (n : ℕ) → Intersects n (intersect_fuel index n)
  unfolding intersect_fuel
  intersect_fuel-IsIntersect zero k a b lt ha hb = elim lt [ ]
  intersect_fuel-IsIntersect (suc n) k a b lt ha hb = elim (Bool-cases (index a == index b)) [
    | inl e ↦ rw e (
        subst (λ c. IsIntersect k a c a) (ok.injective a b ((==_iff _ _).0 e))
          (IsIntersect-self k a ha))
    | inr e ↦ rw e (
        intersect_terminal-IsIntersect n (intersect_fuel index n) (intersect_fuel-IsIntersect n) k a
          b lt (λ p. cc ((==_iff (index a) (index b)).1 (ap index p))) ha hb)
  ]

  -- `lddmc_intersect` of two well-formed trees over k places is a well-formed tree over k places,
  -- and its markings are those of both trees.
  pub lddmc_intersect-IsIntersect :
      (k : ℕ) (a b : Ldd) → IsLdd k a → IsLdd k b → IsIntersect k a b (lddmc_intersect index a b)
  unfolding lddmc_intersect
  lddmc_intersect-IsIntersect k a b ha hb =
      intersect_fuel-IsIntersect (suc (size a + size b)) k a b (omega arith) ha hb
