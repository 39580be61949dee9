-- ===== src/Tests/CanonizeTests.antt =====
-- Canonize (src/CommonSOG.cpp) on the aggregate of two tokens that move from place to place.
use mc_sog.Ldd.Divide.{get_mddnbr, is_single_mdd, ldd_divide_rec}
use mc_sog.Ldd.Fire.{fire_chain, lddmc_firing_mono}
use mc_sog.Ldd.Index.{tree_index, tree_index-IsIndex}
use mc_sog.Ldd.Minus.{ldd_minus, minus_fuel, minus_nodes, minus_terminal}
use mc_sog.Ldd.Tree.{IsLdd, Ldd, lddmc_cube, lddmc_false, lddmc_makenode, lddmc_true, mem, node}
use mc_sog.Ldd.Union.{lddmc_union_mono, union_fuel, union_nodes, union_swapped, union_terminal}
use mc_sog.Prelude.{List, [], arith, inl, inr, refl, some, true, ℕ, ◌∷◌, ◌≡◌}
use mc_sog.Sog.{accessible_epsilon, get_successor, image_among, image_forward}
use mc_sog.Sog.Canonize.{canonize}
use mc_sog.Sog.Canonize.Correct.{IsRepresentative, canonize-IsRepresentative}
use mc_sog.Sog.Canonize.Recovers.{StaysIn, accessible_epsilon-canonize}
use mc_sog.Sog.Finite.{InMarks}
use mc_sog.Sog.System.{here, loaded, relation_of, then_by}
use mc_sog.Tests.SogTests.{bounded-Run, reachable, weights}

abbrev aggregate : Ldd
aggregate =
    node 0 (node 2 lddmc_true lddmc_false)
      (node 1 (node 1 lddmc_true lddmc_false) (node 2 (node 0 lddmc_true lddmc_false) lddmc_false))

aggregate-IsLdd : IsLdd 2 aggregate
aggregate-IsLdd = omega arith

-- One marking stands for the aggregate: both tokens in the first place.
canonize_runs :
    canonize tree_index (loaded weights (0 ∷ []) (1 ∷ [])) 2 4 4 aggregate 0
    ≡ some (node 2 (node 0 lddmc_true lddmc_false) lddmc_false)
unfolding canonize is_single_mdd get_mddnbr ldd_divide_rec ldd_minus minus_fuel minus_terminal
    minus_nodes image_forward image_among get_successor lddmc_firing_mono fire_chain
    lddmc_union_mono union_fuel union_terminal union_swapped union_nodes lddmc_makenode lddmc_cube
    tree_index relation_of
canonize_runs = refl

aggregate_member : (m : List ℕ) → mem aggregate m ≡ true → InMarks m reachable
aggregate_member [] h = cc
aggregate_member (x ∷ []) h = absurd (ground arith)
aggregate_member (x ∷ y ∷ []) h = ground arith
aggregate_member (x ∷ y ∷ z ∷ m) h = absurd (ground arith)

member_aggregate : (m : List ℕ) → InMarks m reachable → mem aggregate m ≡ true
member_aggregate m (inl e) = rw e
member_aggregate m (inr (inl e)) = rw e
member_aggregate m (inr (inr (inl e))) = rw e
member_aggregate m (inr (inr (inr h))) = absurd h

aggregate-StaysIn :
    StaysIn tree_index tree_index-IsIndex 2 weights
      (0 ∷ [])
      (1 ∷ [])
      (omega arith)
      (omega arith)
      aggregate
aggregate-StaysIn m m' inside step =
    member_aggregate m' (bounded-Run m (aggregate_member m inside) (then_by here step))

canonize-IsRepresentative_example :
    (r : Ldd) × (canonize tree_index (loaded weights (0 ∷ []) (1 ∷ [])) 2 4 4 aggregate 0 ≡ some r)
    × IsRepresentative 2 weights (0 ∷ []) aggregate r
canonize-IsRepresentative_example =
    canonize-IsRepresentative tree_index tree_index-IsIndex 2 weights (0 ∷ []) (1 ∷ [])
      (omega arith) (omega arith) reachable 4 (omega arith) 4 aggregate aggregate-IsLdd
      (λ m (m0, n, inside, run). bounded-Run m0 (aggregate_member m0 inside) run) (omega arith)

accessible_epsilon-canonize_example :
    (r : Ldd) × (canonize tree_index (loaded weights (0 ∷ []) (1 ∷ [])) 2 4 4 aggregate 0 ≡ some r)
    × (accessible_epsilon tree_index (loaded weights (0 ∷ []) (1 ∷ [])) 4 r ≡ some aggregate)
accessible_epsilon-canonize_example =
    accessible_epsilon-canonize tree_index tree_index-IsIndex 2 weights (0 ∷ []) (1 ∷ [])
      (omega arith) (omega arith) reachable 4 aggregate aggregate-IsLdd aggregate-StaysIn
      aggregate_member (omega arith)
