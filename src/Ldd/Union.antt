-- ===== src/Ldd/Union.antt =====
-- lddmc_union_mono (src/SylvanWrapper.cpp).
pub mod Correct
use mc_sog.Ldd.Tree.{
  Ldd, lddmc_false, lddmc_makenode, mddnode_getdown, mddnode_getright, mddnode_getvalue, size,
}
use mc_sog.Prelude.{if◌then◌else◌, ltb, suc, zero, ℕ, ◌+◌, ◌==◌}

-- The recursive calculation, at the two nodes; `union` makes the recursive calls.
unfoldable pub union_nodes : (Ldd → Ldd → Ldd) → Ldd → Ldd → Ldd
union_nodes union a b =
    if ltb (mddnode_getvalue a) (mddnode_getvalue b)
    then lddmc_makenode (mddnode_getvalue a) (mddnode_getdown a) (union (mddnode_getright a) b)
    else if mddnode_getvalue a == mddnode_getvalue b
    then lddmc_makenode (mddnode_getvalue a) (union (mddnode_getdown a) (mddnode_getdown b))
        (union (mddnode_getright a) (mddnode_getright b))
    else lddmc_makenode (mddnode_getvalue b) (mddnode_getdown b) (union a (mddnode_getright b))

module _ (index : Ldd → ℕ) where
  -- The larger index first.
  unfoldable pub union_swapped : (Ldd → Ldd → Ldd) → Ldd → Ldd → Ldd
  union_swapped union a b =
      if ltb (index a) (index b) then union_nodes union b a else union_nodes union a b

  -- The terminal cases behind `a == b`.
  unfoldable pub union_terminal : (Ldd → Ldd → Ldd) → Ldd → Ldd → Ldd
  union_terminal union lddmc_false b = b
  union_terminal union a lddmc_false = a
  union_terminal union a b = union_swapped union a b

  unfoldable pub union_fuel : ℕ → Ldd → Ldd → Ldd
  union_fuel zero a b = lddmc_false
  union_fuel (suc fuel) a b = if index a == index b then a else union_terminal (union_fuel fuel) a b

  unfoldable pub lddmc_union_mono : Ldd → Ldd → Ldd
  lddmc_union_mono a b = union_fuel (suc (size a + size b)) a b
