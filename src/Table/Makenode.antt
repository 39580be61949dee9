-- ===== src/Table/Makenode.antt =====
-- lddmc_makenode (src/SylvanWrapper.cpp) on the unique table.
pub mod Correct
use mc_sog.Net.{answer}
use mc_sog.Prelude.{Bool, Option, if◌then◌else◌, none, some, ℕ, ◌==◌, ◌>>=◌}
use mc_sog.Table.{Llmsset}
use mc_sog.Table.Lookup.{llmsset_lookup}
use mc_sog.Table.Words.{mddnode_make}

-- The table and the region of the thread afterwards, with the index; `none` for `exit(1)`.
abbrev pub Made : Type 0
Made = Llmsset × Option ℕ × Option ℕ

abbrev pub answered_index : Option (ℕ × Bool) → Option ℕ
answered_index none = none
answered_index (some (index, created)) = some index

-- The second lookup, where the first has answered 0; `none` when the fuel of a lookup runs out.
unfoldable pub second_try : ℕ → ℕ → Llmsset × Option ℕ × Option (ℕ × Bool) → Option Made
unfolding llmsset_lookup
second_try a b (s, region, some (index, created)) = some (s, region, some index)
second_try a b (s, region, none) = do
  (s', region', answer) ← llmsset_lookup s region a b
  some (s', region', answered_index answer)

unfoldable pub makenode_in : Llmsset → Option ℕ → (value ifeq ifneq : ℕ) → Option Made
unfolding second_try mddnode_make llmsset_lookup
makenode_in s region value ifeq ifneq =
    if ifeq == 0
    then some (s, region, some ifneq)
    else llmsset_lookup s region (mddnode_make value ifneq ifeq).0 (mddnode_make value ifneq ifeq).1
      >>= second_try (mddnode_make value ifneq ifeq).0 (mddnode_make value ifneq ifeq).1
