-- ===== src/Ldd/Divide.antt =====
-- isSingleMDD, get_mddnbr and ldd_divide_rec (src/SylvanWrapper.cpp): whether a tree has one path,
-- the nodes at a level, and the part of a tree below the first node of a level.
pub mod Correct
use mc_sog.Ldd.Tree.{Ldd, lddmc_false, lddmc_makenode, lddmc_true, mddnode_getdown, node}
use mc_sog.Prelude.{Bool, false, if◌then◌else◌, leb, suc, true, zero, ℕ, ◌+◌}

unfoldable pub is_single_mdd : Ldd → Bool
is_single_mdd (node v d lddmc_false) = is_single_mdd d
is_single_mdd (node v d r) = false
is_single_mdd _ = true

-- The second loop of get_mddnbr.
unfoldable pub chain_length : Ldd → ℕ
chain_length lddmc_false = 0
chain_length lddmc_true = 1
chain_length (node v d r) = suc (chain_length r)

-- `level` nodes down along the first branches.
unfoldable pub get_mddnbr : Ldd → ℕ → ℕ
unfolding chain_length
get_mddnbr mdd zero = chain_length mdd
get_mddnbr mdd (suc level) = get_mddnbr (mddnode_getdown mdd) level

unfoldable pub ldd_divide_internal : Ldd → ℕ → ℕ → Ldd
ldd_divide_internal lddmc_false current_level level = lddmc_false
ldd_divide_internal lddmc_true current_level level = lddmc_true
ldd_divide_internal (node v d r) current_level level =
    let down = ldd_divide_internal d (current_level + 1) level in
    let right = ldd_divide_internal r current_level level in
    if leb current_level level
    then lddmc_makenode v down lddmc_false
    else lddmc_makenode v down right

unfoldable pub ldd_divide_rec : Ldd → ℕ → Ldd
unfolding ldd_divide_internal
ldd_divide_rec a level = ldd_divide_internal a 0 level
