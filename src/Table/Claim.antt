-- ===== src/Table/Claim.antt =====
-- claim_data_bucket (src/SylvanWrapper.cpp): a free slot of the data array, from the region of 512
-- slots that the calling thread owns, or from the next region that no thread owns.
pub mod Correct
use mc_sog.Prelude.{
  Bool, Option, false, if◌then◌else◌, leb, none, some, suc, true, update, zero, ℕ, ◌*◌, ◌+◌, ◌/◌,
}
use mc_sog.Table.{Llmsset}

-- `__builtin_clzll(~v)`, for the word whose first bit is `base`.
unfoldable pub first_zero : (ℕ → Bool) → ℕ → ℕ → Option ℕ
first_zero bits base zero = none
first_zero bits base (suc n) = if bits base then first_zero bits (base + 1) n else some base

-- The loop over the words of the region, `i` of them left.
unfoldable pub free_word : (ℕ → Bool) → ℕ → ℕ → Option ℕ
unfolding first_zero
free_word bits base zero = none
free_word bits base (suc i) = elim (first_zero bits base 64) [
  | some d ↦ some d
  | none ↦ free_word bits (base + 64) i
]

-- `my_region` is `none` for -1.
unfoldable pub free_in : (ℕ → Bool) → Option ℕ → Option ℕ
unfolding free_word
free_in bits none = none
free_in bits (some region) = free_word bits (8 * region * 64) 8

-- `my_region += 1`, from the first region again behind the last.
unfoldable pub bump : ℕ → Option ℕ → ℕ
bump regions none = 0
bump regions (some region) = if leb regions (region + 1) then 0 else region + 1

-- The inner loop, `count` rounds left: the region, and whether it is claimed.
unfoldable pub next_region : (ℕ → Bool) → ℕ → ℕ → Option ℕ → Option ℕ × Bool
unfolding bump
next_region taken regions zero region = (region, false)
next_region taken regions (suc count) region =
    let next = bump regions region in
    let rest = next_region taken regions count (some next) in
    if taken next then rest else (some next, true)

-- The answer -1, or a slot, with the table and the region of the thread afterwards.
pub data Claimed : Type 0 where
  table_full : Llmsset → Option ℕ → Claimed
  bucket : (d : ℕ) → Llmsset → Option ℕ → Claimed

abbrev pub regions_of : Llmsset → ℕ
regions_of s = s.table_size / (64 * 8)

-- The outer loop, from where the region is full; `retry` is its next round.
unfoldable pub claim_region :
    (Llmsset → Option ℕ → Option Claimed) → Llmsset → Option ℕ × Bool → Option Claimed
claim_region retry s (some region, true) =
    retry (record s { bitmap1 = update s.bitmap1 region true }) (some region)
claim_region retry s (region, _) = some (table_full s region)

-- `none` when the fuel runs out.
unfoldable pub claim_loop : ℕ → Llmsset → Option ℕ → Option Claimed
unfolding free_in next_region claim_region
claim_loop zero s region = none
claim_loop (suc fuel) s region = elim (free_in s.bitmap2 region) [
  | some d ↦ some (bucket d (record s { bitmap2 = update s.bitmap2 d true }) region)
  | none ↦
      claim_region (claim_loop fuel) s (next_region s.bitmap1 (regions_of s) (regions_of s) region)
]

-- A round more than there are regions.
unfoldable pub claim_data_bucket : Llmsset → Option ℕ → Option Claimed
unfolding claim_loop
claim_data_bucket s region = claim_loop (suc (regions_of s)) s region

unfoldable pub release_data_bucket : Llmsset → ℕ → Llmsset
release_data_bucket s index = record s { bitmap2 = update s.bitmap2 index false }
