-- ===== src/Ldd/Fire/Image.antt =====
-- What firing means: the markings that a transition leads to.
use mc_sog.Ldd.Fire.{u32}
use mc_sog.Ldd.Tree.{
  IsLdd, IsNonempty, Ldd, lddmc_cube, lddmc_false, lddmc_makenode, mem, mem-nil, node,
}
use mc_sog.Prelude.{
  ==_self, Bool, List, [], arith, false, refl, suc, true, ℕ, ◌&&◌, ◌+◌, ◌-◌, ◌==◌, ◌||◌, ◌∷◌, ◌≡◌,
  ◌≤◌, ◌⊎◌,
}

-- From the marking `m` the transition that takes `pre` and gives `post` leads to `m'`.
abbrev pub Fires : List ℕ → List ℕ → List ℕ → List ℕ → Type 0
Fires [] [] [] [] = Unit {0}
Fires (p ∷ pre) (q ∷ post) (x ∷ m) (y ∷ m') = (p ≤ x) × (y ≡ u32 (x - p + q)) × Fires pre post m m'
Fires _ _ _ _ = ⊥

-- The marking `m'` follows a marking of the tree.
abbrev pub Image : Ldd → List ℕ → List ℕ → List ℕ → Type 0
Image c pre post m' = (m : List ℕ) × (mem c m ≡ true) × Fires pre post m m'

pub cube-node : (v : ℕ) (vs : List ℕ) → lddmc_cube (v ∷ vs) ≡ node v (lddmc_cube vs) lddmc_false
unfolding lddmc_cube lddmc_makenode
cube-node v [] = refl
cube-node v (w ∷ vs) = rw (cube-node w vs, lddmc_makenode)

pub cube-IsNonempty : (vs : List ℕ) → IsNonempty (lddmc_cube vs)
cube-IsNonempty [] = unfold lddmc_cube in tt
cube-IsNonempty (v ∷ vs) = rw (cube-node v vs) tt

pub mem-node :
    (v : ℕ) (d r : Ldd) (x : ℕ) (xs : List ℕ)
    → mem (node v d r) (x ∷ xs) ≡ true
    → ((x ≡ v) × (mem d xs ≡ true)) ⊎ (mem r (x ∷ xs) ≡ true)
mem-node v d r x xs h = ground arith

pub node-mem_down :
    (v : ℕ) (d r : Ldd) (xs : List ℕ) → mem d xs ≡ true → mem (node v d r) (v ∷ xs) ≡ true
node-mem_down v d r xs h = rw (==_self v, h)

pub node-mem_right :
    (k v : ℕ) (d r : Ldd) (m : List ℕ)
    → IsLdd (suc k) r
    → mem r m ≡ true
    → mem (node v d r) m ≡ true
node-mem_right k v d r [] hr h = cc (mem-nil k r hr)
node-mem_right k v d r (x ∷ xs) hr h = rw h (or_true (x == v && mem d xs))
  where
    or_true : (b : Bool) → (b || true) ≡ true
    or_true true = refl
    or_true false = refl

-- `u` is a well-formed tree for the image of `c`.
pub record IsImage (k : ℕ) (c : Ldd) (pre post : List ℕ) (u : Ldd) : Type 0 where
  pub formed : IsLdd k u
  pub only : (m : List ℕ) → mem u m ≡ true → Image c pre post m
  pub all : (m : List ℕ) → Image c pre post m → mem u m ≡ true
