-- ===== src/Sog/Finite.antt =====
-- Sets of markings inside a finite list of markings: how many of the list a tree lacks.
use mc_sog.Ldd.Canonical.{canonical, some_member}
use mc_sog.Ldd.Minus.{ldd_minus}
use mc_sog.Ldd.Minus.Correct.{IsMinus, ldd_minus-IsMinus}
use mc_sog.Ldd.Tree.{IsIndex, IsLdd, IsNonempty, Ldd, lddmc_false, lddmc_true, mem, node}
use mc_sog.Prelude.{
  Bool, List, [], arith, false, if◌then◌else◌, inl, inr, length, not, suc, sym, true, ℕ, ◌&&◌, ◌<◌,
  ◌∙◌, ◌∷◌, ◌≡◌, ◌≢◌, ◌≤◌, ◌⊎◌,
}

abbrev pub InMarks : List ℕ → List (List ℕ) → Type 0
InMarks m [] = ⊥
InMarks m (u ∷ us) = (m ≡ u) ⊎ InMarks m us

abbrev pub missing : Ldd → List (List ℕ) → ℕ
missing a [] = 0
missing a (u ∷ us) = if mem a u then missing a us else suc (missing a us)

abbrev pub Within : Ldd → Ldd → Type 0
Within a b = (m : List ℕ) → mem a m ≡ true → mem b m ≡ true

pub missing-le-length : (a : Ldd) (us : List (List ℕ)) → missing a us ≤ length us
missing-le-length a [] = omega arith
missing-le-length a (u ∷ us) = ground (arith, missing-le-length a us)

pub missing_mono : (a b : Ldd) (us : List (List ℕ)) → Within a b → missing b us ≤ missing a us
missing_mono a b [] h = omega arith
missing_mono a b (u ∷ us) h = ground (arith, missing_mono a b us h, h u)

pub missing-lt :
    (a b : Ldd) (us : List (List ℕ)) (m : List ℕ)
    → Within a b
    → InMarks m us
    → mem a m ≡ false
    → mem b m ≡ true
    → missing b us < missing a us
missing-lt a b [] m h i ha hb = absurd i
missing-lt a b (u ∷ us) m h (inl e) ha hb =
    let ha' = rw e at ha in let hb' = rw e at hb in ground (arith, missing_mono a b us h)
missing-lt a b (u ∷ us) m h (inr i) ha hb = ground (arith, missing-lt a b us m h i ha hb, h u)

-- Between two trees that differ, one inside the other, there is a marking.
pub new_member :
    (index : Ldd → ℕ) (ok : IsIndex index) (k : ℕ) (a b : Ldd)
    → IsLdd k a
    → IsLdd k b
    → Within a b
    → a ≢ b
    → (m : List ℕ) × (mem a m ≡ false) × (mem b m ≡ true)
new_member index ok k a b ha hb within ne =
    witness (ldd_minus index b a) (ldd_minus-IsMinus index ok k b a hb ha)
  where
    both : (m : List ℕ) → mem lddmc_false m ≡ (mem b m && not (mem a m)) → mem a m ≡ mem b m
    both m e = ground (arith, within m)

    part : (x y : Bool) → true ≡ (y && not x) → (x ≡ false) × (y ≡ true)
    part x y e = ground arith

    found :
        (d : Ldd)
        → IsNonempty d
        → IsMinus k b a d
        → (m : List ℕ) × (mem a m ≡ false) × (mem b m ≡ true)
    found d n h =
        let (m, inside) = some_member k d h.formed n in
        let p = part (mem a m) (mem b m) (sym inside ∙ h.members m) in (m, p.0, p.1)

    witness : (d : Ldd) → IsMinus k b a d → (m : List ℕ) × (mem a m ≡ false) × (mem b m ≡ true)
    witness lddmc_false h = absurd (ne (canonical k a b ha hb (λ m. both m (h.members m))))
    witness lddmc_true h = found lddmc_true tt h
    witness (node v d r) h = found (node v d r) tt h
