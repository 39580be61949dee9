-- ===== src/Ldd/Intersect.antt =====
-- lddmc_intersect (src/SylvanWrapper.cpp).
pub mod Skip
pub mod Correct
use mc_sog.Ldd.Tree.{
  Ldd, lddmc_false, lddmc_makenode, mddnode_getdown, mddnode_getright, mddnode_getvalue, size,
}
use mc_sog.Prelude.{Option, if◌then◌else◌, ltb, none, some, suc, zero, ℕ, ◌+◌, ◌==◌}

-- `a = mddnode_getright(na); if (a == lddmc_false) return lddmc_false;`, where `none` is the return.
unfoldable pub advance : Ldd → Option Ldd
advance a = elim (mddnode_getright a) [ lddmc_false ↦ none | _ ↦ some (mddnode_getright a) ]

-- The test `na_value < nb_value` of the loop, with what its branch does.
unfoldable pub advance_below : Ldd → Ldd → Option Ldd
unfolding advance
advance_below a b = if ltb (mddnode_getvalue a) (mddnode_getvalue b) then advance a else some a

-- The second test of a round, and the next round; `none` is a return of `lddmc_false`.
unfoldable pub skip_right : (Ldd → Ldd → Option (Ldd × Ldd)) → Ldd → Option Ldd → Option (Ldd × Ldd)
skip_right next a none = none
skip_right next a (some b) = next a b

unfoldable pub skip_left : (Ldd → Ldd → Option (Ldd × Ldd)) → Option Ldd → Ldd → Option (Ldd × Ldd)
unfolding skip_right advance_below
skip_left next none b = none
skip_left next (some a) b = skip_right next a (advance_below b a)

-- The loop `while (na_value != nb_value)`: the two nodes of equal value that it stops at.
unfoldable pub skip : ℕ → Ldd → Ldd → Option (Ldd × Ldd)
unfolding skip_left
skip zero a b = none
skip (suc fuel) a b =
    if mddnode_getvalue a == mddnode_getvalue b
    then some (a, b)
    else skip_left (skip fuel) (advance_below a b) b

-- The recursive calculation at the two nodes; `intersect` makes the recursive calls.
unfoldable pub intersect_nodes : (Ldd → Ldd → Ldd) → Option (Ldd × Ldd) → Ldd
intersect_nodes intersect none = lddmc_false
intersect_nodes intersect (some (a, b)) =
    lddmc_makenode (mddnode_getvalue a) (intersect (mddnode_getdown a) (mddnode_getdown b))
      (intersect (mddnode_getright a) (mddnode_getright b))

-- The terminal cases behind `a == b`.
unfoldable pub intersect_terminal : (Ldd → Ldd → Ldd) → Ldd → Ldd → Ldd
intersect_terminal intersect lddmc_false b = lddmc_false
intersect_terminal intersect a lddmc_false = lddmc_false
intersect_terminal intersect a b = intersect_nodes intersect (skip (suc (size a + size b)) a b)

module _ (index : Ldd → ℕ) where
  unfoldable pub intersect_fuel : ℕ → Ldd → Ldd → Ldd
  intersect_fuel zero a b = lddmc_false
  intersect_fuel (suc fuel) a b =
      if index a == index b then a else intersect_terminal (intersect_fuel fuel) a b

  unfoldable pub lddmc_intersect : Ldd → Ldd → Ldd
  lddmc_intersect a b = intersect_fuel (suc (size a + size b)) a b
