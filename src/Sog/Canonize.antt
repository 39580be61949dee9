-- ===== src/Sog/Canonize.antt =====
-- Canonize (src/CommonSOG.cpp): a part of an aggregate that stands for the whole of it.
pub mod Reduce
pub mod Split
pub mod Correct
pub mod Recovers
use mc_sog.Ldd.Divide.{get_mddnbr, is_single_mdd, ldd_divide_rec}
use mc_sog.Ldd.Minus.{ldd_minus}
use mc_sog.Ldd.Tree.{Ldd, lddmc_false}
use mc_sog.Ldd.Union.{lddmc_union_mono}
use mc_sog.Prelude.{
  Bool, Option, false, if◌then◌else◌, ltb, none, some, suc, true, zero, ℕ, ◌&&◌, ◌+◌, ◌>>=◌, ◌||◌,
}
use mc_sog.Sog.{CommonSog, image_forward}

-- `s == lddmc_false`
abbrev pub is_false : Ldd → Bool
is_false lddmc_false = true
is_false _ = false

-- `isSingleMDD(s) ? s : Canonize(s, level)`
unfoldable pub canonize_part : (Ldd → ℕ → Option Ldd) → Ldd → ℕ → Option Ldd
canonize_part canonize s level = if is_single_mdd s then some s else canonize s level

module _ (index : Ldd → ℕ) where
  -- The `do` loop that looks for a level with two nodes, with the two parts and the level; the fuel
  -- is one more than there are places.
  unfoldable pub find_level : (nb_places : ℕ) → ℕ → Ldd → ℕ → Ldd × Ldd × ℕ
  find_level nb_places zero s level = (lddmc_false, lddmc_false, level)
  find_level nb_places (suc fuel) s level =
      let s0 = ldd_divide_rec s level in
      let rest = find_level nb_places fuel s (level + 1) in
      if ltb 1 (get_mddnbr s level)
      then (s0, ldd_minus index s s0, level)
      else if ltb (level + 1) nb_places
      then rest
      else (lddmc_false, lddmc_false, level + 1)

module _ (index : Ldd → ℕ) (g : CommonSog) where
  -- The two inner loops: `s` without what unobservable transitions reach from `front`; `none` when
  -- the fuel runs out.
  unfoldable pub reduce_loop : ℕ → (front reach_set s : Ldd) → Option Ldd
  reduce_loop zero front reach_set s = none
  reduce_loop (suc fuel) front reach_set s =
      let front' = ldd_minus index (image_forward index g front) reach_set in
      let reach_set' = lddmc_union_mono index reach_set front' in
      let s' = ldd_minus index s front' in
      let rest = reduce_loop fuel front' reach_set' s' in
      if is_false front' || is_false s' then some s' else rest

  -- `if (s0 != lddmc_false && s1 != lddmc_false) { Front = s1; Reach = s1; do ... }`
  unfoldable pub reduce : ℕ → (s from : Ldd) → Option Ldd
  unfolding reduce_loop
  reduce fuel s from = if is_false s || is_false from then some s else reduce_loop fuel from from s

  -- The rest of the function from the two parts on; `rounds` is the fuel of its loops.
  unfoldable pub canonize_split : ℕ → (Ldd → ℕ → Option Ldd) → Ldd × Ldd × ℕ → Option Ldd
  unfolding reduce canonize_part
  canonize_split rounds canonize (s0, s1, level) =
      if is_false s0 && is_false s1 then some lddmc_false else do
        t0 ← reduce rounds s0 s1
        t1 ← reduce rounds s1 t0
        r0 ← canonize_part canonize t0 level
        r1 ← canonize_part canonize t1 level
        some (lddmc_union_mono index r0 r1)

  unfoldable pub canonize : (nb_places rounds : ℕ) → ℕ → Ldd → ℕ → Option Ldd
  unfolding find_level canonize_split
  canonize nb_places rounds zero s level = none
  canonize nb_places rounds (suc fuel) s level =
      let parts =
        canonize_split rounds (canonize nb_places rounds fuel)
          (find_level index nb_places (suc nb_places) s level) in
      if ltb nb_places level || is_false s
      then some lddmc_false
      else if is_single_mdd s
      then some s
      else parts
