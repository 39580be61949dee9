-- ===== src/Table.antt =====
-- The unique table of nodes: llmsset2 in src/SylvanWrapper.h and its operations in
-- src/SylvanWrapper.cpp. An array is a function of the position, and a bitmap the function of its
-- bits, counted as the code counts them: bit `i` is the one under the mask
-- `0x8000000000000000 >> (i & 63)` in the word `i / 64`.
pub mod Claim
pub mod Lookup
pub mod Words
pub mod Makenode
use mc_sog.Prelude.{Bool, ℕ, ◌%◌, ◌*◌, ◌/◌, ◌^◌}

pub record Llmsset : Type 0 where
  pub table : ℕ → ℕ
  pub data_words : ℕ → ℕ × ℕ
  pub bitmap1 : ℕ → Bool
  pub bitmap2 : ℕ → Bool
  pub table_size : ℕ
  pub threshold : ℕ
  pub g_created : ℕ

-- `v & MASK_INDEX` and `v & MASK_HASH`.
abbrev pub index_of : ℕ → ℕ
index_of v = v % 2 ^ 40

abbrev pub hash_of : ℕ → ℕ
hash_of v = v / 2 ^ 40 * 2 ^ 40
