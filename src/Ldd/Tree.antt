-- ===== src/Ldd/Tree.antt =====
-- The nodes of src/SylvanWrapper.h as trees, and the functions that build and read one node. The
-- unique table gives one index to each tree, so an MDD is its tree, and where the code compares two
-- MDDs, as equal or by order, the definitions compare their indices.
use mc_sog.Prelude.{
  ℕ, zero, suc, ◌+◌, ◌≤◌, ◌<◌, ◌≡◌, refl, Bool, true, false, ◌&&◌, ◌||◌, List, [], ◌∷◌, arith, ◌==◌,
}

pub data Ldd : Type 0 where
  lddmc_false : Ldd
  lddmc_true : Ldd
  node : (value : ℕ) (down right : Ldd) → Ldd

-- The two terminals own the first two slots of the data array, which hold zeros.
abbrev pub mddnode_getvalue : Ldd → ℕ
mddnode_getvalue (node v d r) = v
mddnode_getvalue _ = 0

abbrev pub mddnode_getdown : Ldd → Ldd
mddnode_getdown (node v d r) = d
mddnode_getdown _ = lddmc_false

abbrev pub mddnode_getright : Ldd → Ldd
mddnode_getright (node v d r) = r
mddnode_getright _ = lddmc_false

-- The number of nodes, counted once for each path.
abbrev pub size : Ldd → ℕ
size (node v d r) = suc (size d + size r)
size _ = 0

-- What the unique table promises of its indices.
pub record IsIndex (index : Ldd → ℕ) : Type 0 where
  pub at_false : index lddmc_false ≡ 0
  pub at_true : index lddmc_true ≡ 1
  pub injective : (a b : Ldd) → index a ≡ index b → a ≡ b

-- Whether a tree is the terminal `lddmc_false`, as a type.
abbrev pub IsNonempty : Ldd → Type 0
IsNonempty lddmc_false = ⊥
IsNonempty _ = Unit {0}

-- The marking `m`, a value for each place, is a path of the tree.
abbrev pub mem : Ldd → List ℕ → Bool
mem lddmc_false m = false
mem lddmc_true [] = true
mem lddmc_true (x ∷ xs) = false
mem (node v d r) [] = false
mem (node v d r) (x ∷ xs) = (x == v && mem d xs) || mem r (x ∷ xs)

-- The chain at a level goes on above `v`.
abbrev pub Follows : ℕ → Ldd → Type 0
Follows v lddmc_false = Unit {0}
Follows v lddmc_true = ⊥
Follows v (node w d r) = v < w

-- A well-formed tree over `k` places: values rise along each level, no branch is empty, and each
-- path has one value for each place.
abbrev pub IsLdd : ℕ → Ldd → Type 0
IsLdd k lddmc_false = Unit {0}
IsLdd zero lddmc_true = Unit {0}
IsLdd (suc k) lddmc_true = ⊥
IsLdd zero (node v d r) = ⊥
IsLdd (suc k) (node v d r) = IsNonempty d × IsLdd k d × IsLdd (suc k) r × Follows v r

unfoldable pub lddmc_makenode : ℕ → Ldd → Ldd → Ldd
lddmc_makenode value lddmc_false ifneq = ifneq
lddmc_makenode value lddmc_true ifneq = node value lddmc_true ifneq
lddmc_makenode value (node v d r) ifneq = node value (node v d r) ifneq

unfoldable pub lddmc_cube : List ℕ → Ldd
lddmc_cube [] = lddmc_true
lddmc_cube (value ∷ values) = lddmc_makenode value (lddmc_cube values) lddmc_false

pub mem-makenode :
    (v : ℕ) (d r : Ldd) (x : ℕ) (xs : List ℕ)
    → mem (lddmc_makenode v d r) (x ∷ xs) ≡ ((x == v && mem d xs) || mem r (x ∷ xs))
unfolding lddmc_makenode
mem-makenode v lddmc_false r x xs = ground arith
mem-makenode v _ r x xs = refl

pub makenode-IsLdd :
    (k v : ℕ) (d r : Ldd)
    → IsLdd k d
    → IsLdd (suc k) r
    → Follows v r
    → IsLdd (suc k) (lddmc_makenode v d r)
unfolding lddmc_makenode
makenode-IsLdd k v lddmc_false r hd hr f = hr
makenode-IsLdd k v lddmc_true r hd hr f = (tt, hd, hr, f)
makenode-IsLdd k v (node w d e) r hd hr f = (tt, hd, hr, f)

pub mem-nil : (k : ℕ) (d : Ldd) → IsLdd (suc k) d → mem d [] ≡ false
mem-nil k lddmc_false h = refl
mem-nil k lddmc_true h = absurd h
mem-nil k (node v d r) h = refl

pub makenode-IsNonempty : (v : ℕ) (d r : Ldd) → IsNonempty d → IsNonempty (lddmc_makenode v d r)
unfolding lddmc_makenode
makenode-IsNonempty v lddmc_false r h = absurd h
makenode-IsNonempty v lddmc_true r h = tt
makenode-IsNonempty v (node w d e) r h = tt

pub makenode-Follows :
    (w v : ℕ) (d r : Ldd) → w < v → IsNonempty d → Follows w (lddmc_makenode v d r)
unfolding lddmc_makenode
makenode-Follows w v lddmc_false r h n = absurd n
makenode-Follows w v lddmc_true r h n = h
makenode-Follows w v (node x d e) r h n = h

-- A chain that starts above `v` has no marking that starts at or below `v`.
pub mem-below :
    (k v : ℕ) (d : Ldd) (x : ℕ) (xs : List ℕ)
    → IsLdd (suc k) d
    → Follows v d
    → x ≤ v
    → mem d (x ∷ xs) ≡ false
mem-below k v lddmc_false x xs h f le = refl
mem-below k v lddmc_true x xs h f le = refl
mem-below k v (node w d r) x xs h f le = ground (arith, mem-below k w r x xs h.2 h.3)

pub Follows-mono : (v w : ℕ) (d : Ldd) → v ≤ w → Follows w d → Follows v d
Follows-mono v w lddmc_false le f = tt
Follows-mono v w lddmc_true le f = absurd f
Follows-mono v w (node x d r) le f = omega arith

pub makenode-Follows_right :
    (w v : ℕ) (d r : Ldd) → w < v → Follows w r → Follows w (lddmc_makenode v d r)
unfolding lddmc_makenode
makenode-Follows_right w v lddmc_false r h n = n
makenode-Follows_right w v lddmc_true r h n = h
makenode-Follows_right w v (node x d e) r h n = h
