-- ===== src/Tests/TableTests.antt =====
-- Concrete runs of the unique table (src/SylvanWrapper.cpp), and its theorems at them.
use mc_sog.Prelude.{Bool, Option, arith, false, ltb, none, refl, some, true, ℕ, ◌↔◌, ◌≡◌}
use mc_sog.Table.{Llmsset}
use mc_sog.Table.Lookup.{After, first_bucket, llmsset_lookup, looking, lookup_step}
use mc_sog.Table.Lookup.Alone.{llmsset_lookup_returns}
use mc_sog.Table.Lookup.Callers.{IsCleared}
use mc_sog.Table.Lookup.Sequential.{llmsset_lookup_canonical, no_call}
use mc_sog.Table.Makenode.{makenode_in}
use mc_sog.Table.Makenode.Correct.{makenode_in-IsNode}
use mc_sog.Table.Words.{IsNode, mddnode_make, mddnode_make-IsNode}

-- A table of two regions.
abbrev small_table : Llmsset
small_table = record {
  table = λ i. 0;
  data_words = λ i. (0, 0);
  bitmap1 = λ i. false;
  bitmap2 = λ i. ltb i 2;
  table_size = 1024;
  threshold = 86;
  g_created = 0;
}

small_table-IsCleared : IsCleared small_table
small_table-IsCleared = record { no_bucket = λ idx. refl; reserved = refl; small = omega arith }

-- The table and the region after a call for the key, when it starts at an empty bucket.
abbrev claimed_by : Llmsset → Option ℕ → ℕ → ℕ → After
claimed_by s region a b = lookup_step s region (looking (first_bucket s.table_size a b) 0)

abbrev swapped : After → After
swapped (s, region, caller) = lookup_step s region caller

abbrev key_put : After
key_put = swapped (claimed_by small_table none 7 9)

first_lookup : llmsset_lookup small_table none 7 9 ≡ some (key_put.0, key_put.1, some (2, true))
unfolding llmsset_lookup lookup_step first_bucket
first_lookup = refl

second_lookup :
    llmsset_lookup key_put.0 key_put.1 7 9 ≡ some (key_put.0, key_put.1, some (2, false))
unfolding llmsset_lookup lookup_step first_bucket
second_lookup = refl

llmsset_lookup_canonical_example :
    ((◌≡◌ {A = ℕ} 2 2) ↔ (◌≡◌ {A = ℕ × ℕ} (7, 9) (7, 9))) × (key_put.0.data_words 2 ≡ (7, 9))
llmsset_lookup_canonical_example =
    llmsset_lookup_canonical small_table small_table key_put.0 key_put.0 key_put.0 none key_put.1
      key_put.1 key_put.1 7 9 2 7 9 2 true false small_table-IsCleared no_call first_lookup no_call
      second_lookup

llmsset_lookup_returns_example :
    (s' : Llmsset) × (region' : Option ℕ) × (answer : Option (ℕ × Bool)) × (llmsset_lookup
        small_table none 7 9
      ≡ some (s', region', answer))
llmsset_lookup_returns_example = llmsset_lookup_returns small_table none 7 9 (omega arith) tt

-- The node with value 3, the down branch 1 and no right branch.
abbrev node_made : After
node_made = swapped (claimed_by small_table none (mddnode_make 3 0 1).0 (mddnode_make 3 0 1).1)

makenode_runs : makenode_in small_table none 3 1 0 ≡ some (node_made.0, node_made.1, some 2)
unfolding makenode_in lookup_step first_bucket
makenode_runs = refl

makenode_in-IsNode_example : IsNode (node_made.0.data_words 2) 3 0 1 0 0
makenode_in-IsNode_example =
    makenode_in-IsNode small_table small_table-IsCleared small_table node_made.0 none node_made.1 3
      1 0 2 no_call (omega arith) (omega arith) (omega arith) (omega arith) makenode_runs

mddnode_make-IsNode_example : IsNode (mddnode_make 70000 5 6) 70000 5 6 0 0
mddnode_make-IsNode_example =
    mddnode_make-IsNode 70000 5 6 (omega arith) (omega arith) (omega arith)
