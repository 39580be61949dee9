-- ===== src/Ldd/Firable.antt =====
-- isFirable (src/SylvanWrapper.cpp).
pub mod Correct
use mc_sog.Ldd.Tree.{Ldd, lddmc_false, lddmc_true, mddnode_getdown, mddnode_getvalue, node}
use mc_sog.Prelude.{Bool, Option, false, if◌then◌else◌, leb, none, some, true, ℕ, ◌==◌, ◌>>=◌}

-- The function at a terminal, whose slot holds zeros; `none` is a call that does not return.
unfoldable pub firable_terminal : Ldd → Option Bool
firable_terminal (node value_minus down right) =
    if value_minus == 0 then firable_terminal down else some false
firable_terminal _ = none

-- `value >= value_minus` and the recursive call, whose result is `down`.
unfoldable pub firable_value : ℕ → ℕ → Option Bool → Option Bool
firable_value value value_minus down = if leb value_minus value then down else some false

-- The end of a round: `right` is the next node, and `next` the rest of the loop.
unfoldable pub firable_next : Ldd → Bool → Option Bool → Option Bool → Option Bool
firable_next lddmc_false result terminal next = some result
firable_next _ true terminal next = some true
firable_next lddmc_true false terminal next = terminal
firable_next (node v d r) false terminal next = next

unfoldable pub is_firable : Ldd → Ldd → Option Bool
unfolding firable_terminal firable_value firable_next
is_firable lddmc_true minus = some true
is_firable lddmc_false minus = firable_terminal minus
is_firable (node v d r) minus =
    let down = is_firable d (mddnode_getdown minus) in
    let next = is_firable r minus in
    firable_value v (mddnode_getvalue minus) down
    >>= (λ result. firable_next r result (firable_terminal minus) next)
