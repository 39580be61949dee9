-- ===== src/Ldd/Count.antt =====
-- getMarksCount (src/SylvanWrapper.cpp), with its stack of branches still to be counted.
pub mod Correct
use mc_sog.Ldd.Tree.{Ldd, lddmc_false, node}
use mc_sog.Prelude.{List, Option, [], none, some, suc, zero, ℕ, ◌%◌, ◌+◌, ◌^◌, ◌∷◌}

-- `if (mddnode_getright(n_val) != lddmc_false) local_stack.push(...)`
unfoldable pub push_right : Ldd → List Ldd → List Ldd
push_right lddmc_false local_stack = local_stack
push_right right local_stack = right ∷ local_stack

-- The `while` loop, down to a terminal.
unfoldable pub descend : Ldd → List Ldd → List Ldd
unfolding push_right
descend (node v down right) local_stack = descend down (push_right right local_stack)
descend _ local_stack = local_stack

-- The `do` loop, where `compteur` is a uint64_t; `none` when the fuel runs out.
unfoldable pub count_loop : ℕ → List Ldd → ℕ → Option ℕ
unfolding descend
count_loop fuel [] compteur = some compteur
count_loop zero (m ∷ local_stack) compteur = none
count_loop (suc fuel) (m ∷ local_stack) compteur =
    count_loop fuel (descend m local_stack) ((compteur + 1) % 2 ^ 64)

unfoldable pub get_marks_count : ℕ → Ldd → Option ℕ
unfolding count_loop
get_marks_count fuel cmark = count_loop fuel (cmark ∷ []) 0
