-- ===== src/Tests/LddTests.antt =====
-- The operations of src/SylvanWrapper.cpp on small trees over two places.
use mc_sog.Ldd.Count.{get_marks_count}
use mc_sog.Ldd.Count.Correct.{Distinct, get_marks_count-markings, markings}
use mc_sog.Ldd.Firable.{is_firable}
use mc_sog.Ldd.Firable.Correct.{Tells, is_firable-Tells}
use mc_sog.Ldd.Fire.{fire_chain, lddmc_firing_mono}
use mc_sog.Ldd.Fire.Correct.{lddmc_firing_mono-IsImage}
use mc_sog.Ldd.Fire.Image.{IsImage}
use mc_sog.Ldd.Index.{tree_index, tree_index-IsIndex}
use mc_sog.Ldd.Intersect.{
  intersect_fuel, intersect_nodes, intersect_terminal, lddmc_intersect, skip,
}
use mc_sog.Ldd.Intersect.Correct.{IsIntersect, lddmc_intersect-IsIntersect}
use mc_sog.Ldd.Minus.{ldd_minus, minus_fuel, minus_nodes, minus_terminal}
use mc_sog.Ldd.Minus.Correct.{IsMinus, ldd_minus-IsMinus}
use mc_sog.Ldd.Tree.{IsLdd, Ldd, lddmc_cube, lddmc_false, lddmc_makenode, lddmc_true, mem, node}
use mc_sog.Ldd.Union.{lddmc_union_mono, union_fuel, union_nodes, union_swapped, union_terminal}
use mc_sog.Ldd.Union.Correct.{IsUnion, lddmc_union_mono-IsUnion}
use mc_sog.Prelude.{List, [], arith, length, refl, some, true, ℕ, ◌%◌, ◌^◌, ◌↔◌, ◌∷◌, ◌≡◌}
use mc_sog.Sog.Finite.{InMarks}

-- The markings 0 1, 0 4 and 2 0.
abbrev three : Ldd
three =
    node 0 (node 1 lddmc_true (node 4 lddmc_true lddmc_false))
      (node 2 (node 0 lddmc_true lddmc_false) lddmc_false)

-- The markings 0 4 and 1 1.
abbrev two : Ldd
two = node 0 (node 4 lddmc_true lddmc_false) (node 1 (node 1 lddmc_true lddmc_false) lddmc_false)

three-IsLdd : IsLdd 2 three
three-IsLdd = omega arith

two-IsLdd : IsLdd 2 two
two-IsLdd = omega arith

union_runs :
    lddmc_union_mono tree_index three two
    ≡ node 0 (node 1 lddmc_true (node 4 lddmc_true lddmc_false)) (
        node 1 (node 1 lddmc_true lddmc_false) (node 2 (node 0 lddmc_true lddmc_false) lddmc_false))
unfolding lddmc_union_mono union_fuel union_terminal union_swapped union_nodes lddmc_makenode
    tree_index
union_runs = refl

lddmc_union_mono-IsUnion_example : IsUnion 2 three two (lddmc_union_mono tree_index three two)
lddmc_union_mono-IsUnion_example =
    lddmc_union_mono-IsUnion tree_index tree_index-IsIndex 2 three two three-IsLdd two-IsLdd

ldd_minus-IsMinus_example : IsMinus 2 three two (ldd_minus tree_index three two)
ldd_minus-IsMinus_example =
    ldd_minus-IsMinus tree_index tree_index-IsIndex 2 three two three-IsLdd two-IsLdd

lddmc_intersect-IsIntersect_example : IsIntersect 2 three two (lddmc_intersect tree_index three two)
lddmc_intersect-IsIntersect_example =
    lddmc_intersect-IsIntersect tree_index tree_index-IsIndex 2 three two three-IsLdd two-IsLdd

minus_runs :
    ldd_minus tree_index three two
    ≡ node 0 (node 1 lddmc_true lddmc_false) (node 2 (node 0 lddmc_true lddmc_false) lddmc_false)
unfolding ldd_minus minus_fuel minus_terminal minus_nodes lddmc_makenode tree_index
minus_runs = refl

intersect_runs :
    lddmc_intersect tree_index three two ≡ node 0 (node 4 lddmc_true lddmc_false) lddmc_false
unfolding lddmc_intersect intersect_fuel intersect_terminal intersect_nodes skip lddmc_makenode
    tree_index
intersect_runs = refl

-- The transition takes a token of the second place and gives two to the first.
firing_runs :
    lddmc_firing_mono tree_index three (lddmc_cube (0 ∷ 1 ∷ [])) (lddmc_cube (2 ∷ 0 ∷ []))
    ≡ node 2 (node 0 lddmc_true (node 3 lddmc_true lddmc_false)) lddmc_false
unfolding lddmc_firing_mono fire_chain lddmc_union_mono union_fuel union_terminal union_swapped
    union_nodes lddmc_makenode lddmc_cube tree_index
firing_runs = refl

lddmc_firing_mono-IsImage_example :
    IsImage 2 three
      (0 ∷ 1 ∷ [])
      (2 ∷ 0 ∷ [])
      (lddmc_firing_mono tree_index three (lddmc_cube (0 ∷ 1 ∷ [])) (lddmc_cube (2 ∷ 0 ∷ [])))
lddmc_firing_mono-IsImage_example =
    lddmc_firing_mono-IsImage tree_index tree_index-IsIndex 2 three (0 ∷ 1 ∷ []) (2 ∷ 0 ∷ []) refl
      refl three-IsLdd

is_firable-Tells_example : Tells three (0 ∷ 3 ∷ []) (is_firable three (lddmc_cube (0 ∷ 3 ∷ [])))
is_firable-Tells_example = is_firable-Tells 2 three (0 ∷ 3 ∷ []) three-IsLdd tt refl

get_marks_count-markings_example :
    (get_marks_count 3 three ≡ some (length (markings three) % 2 ^ 64))
    × Distinct (markings three)
    × ((m : List ℕ) → InMarks m (markings three) ↔ (mem three m ≡ true))
get_marks_count-markings_example = get_marks_count-markings 2 three 3 three-IsLdd tt (omega arith)
