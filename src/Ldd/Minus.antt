-- ===== src/Ldd/Minus.antt =====
-- ldd_minus (src/SylvanWrapper.cpp).
pub mod Correct
use mc_sog.Ldd.Tree.{
  Ldd, lddmc_false, lddmc_makenode, mddnode_getdown, mddnode_getright, mddnode_getvalue, size,
}
use mc_sog.Prelude.{if◌then◌else◌, ltb, suc, zero, ℕ, ◌+◌, ◌==◌}

-- The recursive calculation, at the two nodes; `minus` makes the recursive calls.
unfoldable pub minus_nodes : (Ldd → Ldd → Ldd) → Ldd → Ldd → Ldd
minus_nodes minus a b =
    if ltb (mddnode_getvalue a) (mddnode_getvalue b)
    then lddmc_makenode (mddnode_getvalue a) (mddnode_getdown a) (minus (mddnode_getright a) b)
    else if mddnode_getvalue a == mddnode_getvalue b
    then lddmc_makenode (mddnode_getvalue a) (minus (mddnode_getdown a) (mddnode_getdown b))
        (minus (mddnode_getright a) (mddnode_getright b))
    else minus a (mddnode_getright b)

-- The terminal cases behind `a == b`.
unfoldable pub minus_terminal : (Ldd → Ldd → Ldd) → Ldd → Ldd → Ldd
minus_terminal minus lddmc_false b = lddmc_false
minus_terminal minus a lddmc_false = a
minus_terminal minus a b = minus_nodes minus a b

module _ (index : Ldd → ℕ) where
  unfoldable pub minus_fuel : ℕ → Ldd → Ldd → Ldd
  minus_fuel zero a b = lddmc_false
  minus_fuel (suc fuel) a b =
      if index a == index b then lddmc_false else minus_terminal (minus_fuel fuel) a b

  unfoldable pub ldd_minus : Ldd → Ldd → Ldd
  ldd_minus a b = minus_fuel (suc (size a + size b)) a b
