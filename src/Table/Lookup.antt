-- ===== src/Table/Lookup.antt =====
-- llmsset_lookup (src/SylvanWrapper.cpp) as one call. Its steps are the accesses to the hash array:
-- reading the bucket, with what follows up to the compare-and-swap or to the next bucket, and the
-- compare-and-swap.
pub mod Callers
pub mod Probe
pub mod Moves
pub mod Changes
pub mod Steps
pub mod Unique
pub mod Alone
pub mod Refines
pub mod Sequential
use Prim.Native.Nat.{bit_or, bit_xor}
use mc_sog.Net.{answer}
use mc_sog.Prelude.{
  Bool, Option, false, if◌then◌else◌, none, some, suc, true, update, zero, ℕ, ◌%◌, ◌&&◌, ◌*◌, ◌+◌,
  ◌/◌, ◌==◌, ◌^◌,
}
use mc_sog.Table.{Llmsset, hash_of, index_of}
use mc_sog.Table.Claim.{Claimed, bucket, claim_data_bucket, release_data_bucket, table_full}

-- The FNV-1a hash for 64 bits.
unfoldable pub llmsset_hash : ℕ → ℕ → ℕ → ℕ
llmsset_hash a b seed =
    let prime : ℕ = 1099511628211 in
    let first = bit_xor seed a * prime % 2 ^ 64 in
    let hash = bit_xor first b * prime % 2 ^ 64 in bit_xor hash (hash / 2 ^ 32)

-- The local variables of a call.
pub record Cursor : Type 0 where
  pub a : ℕ
  pub b : ℕ
  pub step : ℕ
  pub hash : ℕ
  pub hash_rehash : ℕ
  pub idx : ℕ
  pub last : ℕ
  pub i : ℕ

-- The variables before the loop.
unfoldable pub first_bucket : ℕ → ℕ → ℕ → Cursor
unfolding llmsset_hash
first_bucket table_size a b =
    let hash_rehash = llmsset_hash a b 14695981039346656037 in
    record {
      a = a;
      b = b;
      step = bit_or (hash_rehash / 2 ^ 20) 1 * 2 ^ 3 % 2 ^ 64;
      hash = hash_of hash_rehash;
      hash_rehash = hash_rehash;
      idx = hash_rehash % table_size;
      last = hash_rehash % table_size;
      i = 0;
    }

-- `(idx & CL_MASK) | ((idx + 1) & CL_MASK_R)`: the next bucket of the cache line.
abbrev pub next_in_line : ℕ → ℕ
next_in_line idx = idx / 8 * 8 + (idx + 1) % 8

-- The next cache line.
abbrev pub next_line : ℕ → Cursor → Cursor
next_line table_size c = record c {
  i = c.i + 1;
  hash_rehash = (c.hash_rehash + c.step) % 2 ^ 64;
  idx = (c.hash_rehash + c.step) % 2 ^ 64 % table_size;
  last = (c.hash_rehash + c.step) % 2 ^ 64 % table_size;
}

-- The end of a round: the next bucket of the probe sequence, if there is one.
unfoldable pub next_bucket : (table_size threshold : ℕ) → Cursor → Option Cursor
next_bucket table_size threshold c =
    if next_in_line c.idx == c.last
    then if c.i + 1 == threshold then none else some (next_line table_size c)
    else some (record c { idx = next_in_line c.idx })

-- A thread: outside a call; at the top of the loop, with the claimed slot or 0; in a
-- claim_data_bucket that does not end; before the compare-and-swap; or behind a call with its
-- arguments, with the slot and with `*created`, or with `none` for the answer 0.
pub data Caller : Type 0 where
  outside : Caller
  looking : Cursor → (cidx : ℕ) → Caller
  claiming : Caller
  swapping : Cursor → (cidx : ℕ) → Caller
  returned : (a b : ℕ) → Option (ℕ × Bool) → Caller

-- What one step leaves: the table, the thread's region, and the thread.
abbrev pub After : Type 0
After = Llmsset × Option ℕ × Caller

-- `if (cidx != 0) release_data_bucket(dbs, cidx);`
unfoldable pub release_claimed : Llmsset → ℕ → Llmsset
unfolding release_data_bucket
release_claimed s cidx = if cidx == 0 then s else release_data_bucket s cidx

-- `if (++i == dbs->threshold) return 0;`, or the next round.
unfoldable pub go_on : Cursor → ℕ → Option Cursor → Caller
go_on c cidx none = returned c.a c.b none
go_on c cidx (some c') = looking c' cidx

-- Whether the bucket's word `v` is for the key.
unfoldable pub is_hit : Llmsset → Cursor → ℕ → Bool
is_hit s c v =
    c.hash == hash_of v
    && ((s.data_words (index_of v)).0 == c.a && (s.data_words (index_of v)).1 == c.b)

-- The rest of a round at a bucket that is not empty.
unfoldable pub compare_bucket : Llmsset → Option ℕ → Cursor → ℕ → ℕ → After
unfolding is_hit release_claimed go_on next_bucket
compare_bucket s region c cidx v =
    if is_hit s c v
    then (release_claimed s cidx, region, returned c.a c.b (some (index_of v, false)))
    else (s, region, go_on c cidx (next_bucket s.table_size s.threshold c))

-- `cidx = claim_data_bucket(dbs)` and the writing of the data.
unfoldable pub claim_bucket : Llmsset → Cursor → Option Claimed → After
claim_bucket s c (some (bucket d s' region)) =
    (record s' { data_words = update s'.data_words d (c.a, c.b) }, region, swapping c d)
claim_bucket s c (some (table_full s' region)) = (s', region, returned c.a c.b none)
claim_bucket s c none = (s, none, claiming)

-- The top of the loop.
unfoldable pub read_bucket : Llmsset → Option ℕ → Cursor → ℕ → After
unfolding compare_bucket claim_bucket claim_data_bucket
read_bucket s region c cidx =
    if s.table c.idx == 0
    then if cidx == 0
      then claim_bucket s c (claim_data_bucket s region)
      else (s, region, swapping c cidx)
    else compare_bucket s region c cidx (s.table c.idx)

-- `cas(bucket, 0, hash | cidx)`; the bits of the two numbers do not overlap.
unfoldable pub swap_bucket : Llmsset → Option ℕ → Cursor → ℕ → After
unfolding compare_bucket
swap_bucket s region c cidx =
    if s.table c.idx == 0
    then (
      record s {
        table = update s.table c.idx (c.hash + cidx);
        g_created = (s.g_created + 1) % 2 ^ 32;
      },
      region,
      returned c.a c.b (some (cidx, true)),
    )
    else compare_bucket s region c cidx (s.table c.idx)

unfoldable pub lookup_step : Llmsset → Option ℕ → Caller → After
unfolding read_bucket swap_bucket
lookup_step s region (looking c cidx) = read_bucket s region c cidx
lookup_step s region (swapping c cidx) = swap_bucket s region c cidx
lookup_step s region caller = (s, region, caller)

-- The steps, until the call returns; `none` when the fuel runs out.
unfoldable pub lookup_loop : ℕ → After → Option (Llmsset × Option ℕ × Option (ℕ × Bool))
unfolding lookup_step
lookup_loop zero at = none
lookup_loop (suc fuel) (s, region, returned a b answer) = some (s, region, answer)
lookup_loop (suc fuel) (s, region, looking c cidx) = lookup_loop fuel (read_bucket s region c cidx)
lookup_loop (suc fuel) (s, region, swapping c cidx) = lookup_loop fuel (swap_bucket s region c cidx)
lookup_loop (suc fuel) (s, region, claiming) = none
lookup_loop (suc fuel) (s, region, outside) = none

-- Two steps for each bucket of the probe sequence, and the last round.
unfoldable pub llmsset_lookup :
    Llmsset → Option ℕ → ℕ → ℕ → Option (Llmsset × Option ℕ × Option (ℕ × Bool))
unfolding lookup_loop first_bucket
llmsset_lookup s region a b =
    lookup_loop (16 * s.threshold + 1) (s, region, looking (first_bucket s.table_size a b) 0)
