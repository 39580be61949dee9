-- ===== src/Ldd/Fire.antt =====
-- lddmc_firing_mono (src/SylvanWrapper.cpp): firing one transition at every marking of a tree.
pub mod Image
pub mod Value
pub mod Chain
pub mod Correct
use mc_sog.Ldd.Tree.{
  Ldd, lddmc_false, lddmc_makenode, lddmc_true, mddnode_getdown, mddnode_getvalue, node,
}
use mc_sog.Ldd.Union.{lddmc_union_mono}
use mc_sog.Prelude.{if◌then◌else◌, leb, ℕ, ◌%◌, ◌+◌, ◌-◌, ◌^◌}

-- uint32_t arithmetic.
abbrev pub u32 : ℕ → ℕ
u32 n = n % 2 ^ 32

-- The terminal cases; `chain` is the loop's result.
unfoldable pub fire_entry : Ldd → Ldd → Ldd → Ldd → Ldd
fire_entry lddmc_true minus plus chain = lddmc_true
fire_entry lddmc_false minus plus chain = lddmc_false
fire_entry (node v d r) lddmc_false plus chain = lddmc_false
fire_entry (node v d r) minus lddmc_false chain = lddmc_false
fire_entry (node v d r) minus plus chain = chain

module _ (index : Ldd → ℕ) where
  -- `if (result2 != lddmc_false) result = lddmc_union_mono(result, result2);`
  unfoldable pub fire_add : Ldd → Ldd → Ldd
  fire_add result lddmc_false = result
  fire_add result result2 = lddmc_union_mono index result result2

  -- The body of the loop at one value, where `down` is the recursive call's result.
  unfoldable pub fire_value : ℕ → ℕ → ℕ → Ldd → Ldd → Ldd
  unfolding fire_add
  fire_value value value_minus value_plus down result =
      if leb value_minus value
      then fire_add result
          (lddmc_makenode (u32 (value - value_minus + value_plus)) down lddmc_false)
      else result

  -- The loop over the nodes of one level.
  unfoldable pub fire_chain : Ldd → Ldd → Ldd → Ldd → Ldd
  unfolding fire_entry fire_value
  fire_chain (node v d r) minus plus result = fire_chain r minus plus (
      fire_value v (mddnode_getvalue minus) (mddnode_getvalue plus)
        (fire_entry d (mddnode_getdown minus) (mddnode_getdown plus)
          (fire_chain d (mddnode_getdown minus) (mddnode_getdown plus) lddmc_false))
        result)
  fire_chain _ minus plus result = result

  unfoldable pub lddmc_firing_mono : Ldd → Ldd → Ldd → Ldd
  lddmc_firing_mono cmark minus plus =
      fire_entry cmark minus plus (fire_chain cmark minus plus lddmc_false)
