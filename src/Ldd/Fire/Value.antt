-- ===== src/Ldd/Fire/Value.antt =====
-- One round of the loop of lddmc_firing_mono (src/SylvanWrapper.cpp).
use mc_sog.Ldd.Fire.{fire_add, fire_value, u32}
use mc_sog.Ldd.Tree.{
  IsIndex, IsLdd, Ldd, lddmc_false, lddmc_makenode, lddmc_true, makenode-IsLdd, mem, mem-makenode,
  node,
}
use mc_sog.Ldd.Union.Correct.{lddmc_union_mono-IsUnion}
use mc_sog.Prelude.{
  ==_iff, ==_self, Bool, Bool-cases, List, [], ap, arith, false, inl, inr, leb, leb→le, refl, suc,
  sym, true, ℕ, ◌+◌, ◌-◌, ◌||◌, ◌∙◌, ◌∷◌, ◌≡◌, ◌≤◌, ◌⊎◌,
}

or_split : (a b : Bool) → (a || b) ≡ true → (a ≡ true) ⊎ (b ≡ true)
or_split true b h = inl refl
or_split false b h = inr h

or_left : (a b : Bool) → a ≡ true → (a || b) ≡ true
or_left a b h = rw h

or_right : (a b : Bool) → b ≡ true → (a || b) ≡ true
or_right true b h = refl
or_right false b h = h

-- One value of the chain adds the markings that start with the new value.
pub record IsAdded (k v p q : ℕ) (down result u : Ldd) : Type 0 where
  pub formed : IsLdd (suc k) u
  pub only :
      (m : List ℕ)
      → mem u m ≡ true
      → (mem result m ≡ true)
        ⊎ ((p ≤ v) × (xs : List ℕ) × (m ≡ u32 (v - p + q) ∷ xs) × (mem down xs ≡ true))
  pub keeps : (m : List ℕ) → mem result m ≡ true → mem u m ≡ true
  pub adds : p ≤ v → (xs : List ℕ) → mem down xs ≡ true → mem u (u32 (v - p + q) ∷ xs) ≡ true

record IsJoined (k : ℕ) (a b u : Ldd) : Type 0 where
  formed : IsLdd k u
  members : (m : List ℕ) → mem u m ≡ (mem a m || mem b m)

module _ (index : Ldd → ℕ) (ok : IsIndex index) where
  fire_add-IsJoined :
      (k : ℕ) (result b : Ldd)
      → IsLdd k result
      → IsLdd k b
      → IsJoined k result b (fire_add index result b)
  unfolding fire_add
  fire_add-IsJoined k result lddmc_false hr hb = record { formed = hr; members = λ m. ground arith }
  fire_add-IsJoined k result lddmc_true hr hb =
      let u = lddmc_union_mono-IsUnion index ok k result lddmc_true hr hb in
      record { formed = u.formed; members = u.members }
  fire_add-IsJoined k result (node w d r) hr hb =
      let u = lddmc_union_mono-IsUnion index ok k result (node w d r) hr hb in
      record { formed = u.formed; members = u.members }

  single_members :
      (w : ℕ) (down : Ldd) (m : List ℕ)
      → mem (lddmc_makenode w down lddmc_false) m ≡ true
      → (xs : List ℕ) × (m ≡ w ∷ xs) × (mem down xs ≡ true)
  unfolding lddmc_makenode
  single_members w lddmc_false m h = cc
  single_members w lddmc_true [] h = cc
  single_members w lddmc_true (x ∷ xs) h =
      (xs, ap (λ y. y ∷ xs) ((==_iff x w).0 (ground arith)), ground arith)
  single_members w (node v d r) [] h = cc
  single_members w (node v d r) (x ∷ xs) h =
      (xs, ap (λ y. y ∷ xs) ((==_iff x w).0 (ground arith)), ground arith)

  single_head :
      (w : ℕ) (down : Ldd) (xs : List ℕ)
      → mem down xs ≡ true
      → mem (lddmc_makenode w down lddmc_false) (w ∷ xs) ≡ true
  single_head w down xs h = rw (mem-makenode w down lddmc_false w xs, ==_self w, h)

  pub fire_value-IsAdded :
      (k v p q : ℕ) (down result : Ldd)
      → IsLdd k down
      → IsLdd (suc k) result
      → IsAdded k v p q down result (fire_value index v p q down result)
  unfolding fire_value
  fire_value-IsAdded k v p q down result hd hr = elim (Bool-cases (leb p v)) [
    | inl e ↦ rw e (record {
      formed = joined.formed;
      only = λ m h. elim (or_split (mem result m) (mem single m) (sym (joined.members m) ∙ h)) [
        | inl old ↦ inl old
        | inr new ↦
            let (xs, at, inside) = single_members (u32 (v - p + q)) down m new in
            inr (leb→le p v e, xs, at, inside)
      ];
      keeps = λ m h. joined.members m ∙ or_left (mem result m) (mem single m) h;
      adds = λ le xs h.
          joined.members (u32 (v - p + q) ∷ xs)
          ∙ or_right (mem result (u32 (v - p + q) ∷ xs)) (mem single (u32 (v - p + q) ∷ xs))
              (single_head (u32 (v - p + q)) down xs h);
    })
    | inr e ↦ rw e (record {
      formed = hr;
      only = λ m h. inl h;
      keeps = λ m h. h;
      adds = λ le. absurd (not_le le e);
    })
  ]
    where
      single : Ldd
      single = lddmc_makenode (u32 (v - p + q)) down lddmc_false

      joined : IsJoined (suc k) result single (fire_add index result single)
      joined =
          fire_add-IsJoined (suc k) result single hr
            (makenode-IsLdd k (u32 (v - p + q)) down lddmc_false hd tt tt)

      not_le : p ≤ v → leb p v ≡ false → ⊥
      not_le le e = ground arith
