-- ===== src/Cache.antt =====
-- The operation cache: src/SylvanCacheWrapper.cpp, as one thread uses it.
pub mod Stored
use Prim.Native.Nat.{bit_and, bit_or, bit_xor}
use mc_sog.Prelude.{
  Bool, List, Option, false, get_or, if◌then◌else◌, none, set, some, true, ℕ, ◌%◌, ◌&&◌, ◌*◌, ◌+◌,
  ◌/◌, ◌==◌, ◌^◌,
}

-- struct cache_entry
pub record CacheEntry : Type 0 where
  pub a : ℕ
  pub b : ℕ
  pub c : ℕ
  pub res : ℕ

-- The buckets, with their status words.
pub record Cache : Type 0 where
  pub cache_size : ℕ
  pub cache_table : List CacheEntry
  pub cache_status : List ℕ

abbrev pub empty_entry : CacheEntry
empty_entry = record { a = 0; b = 0; c = 0; res = 0 }

unfoldable pub cache_hash : ℕ → ℕ → ℕ → ℕ
cache_hash a b c =
    let prime : ℕ = 1099511628211 in
    let hash1 = bit_xor 14695981039346656037 (a / 2 ^ 32) in
    let hash2 = bit_xor hash1 a * prime % 2 ^ 64 in
    let hash3 = bit_xor hash2 b * prime % 2 ^ 64 in bit_xor hash3 c * prime % 2 ^ 64

-- The three tests of cache_get; `hash` is that of the key.
unfoldable pub matches : ℕ → ℕ → CacheEntry → ℕ → ℕ → ℕ → Bool
matches hash s bucket a b c =
    (bit_and s 3221225472 == 0)
    && ((bit_and (bit_xor s (hash / 2 ^ 32)) 1073676288 == 0)
        && ((bucket.a == a) && ((bucket.b == b) && (bucket.c == c))))

-- `none` is the result 0.
unfoldable pub cache_get : Cache → ℕ → ℕ → ℕ → Option ℕ
unfolding cache_hash matches
cache_get cache a b c =
    let hash = cache_hash a b c in
    let at = hash % cache.cache_size in
    let bucket = get_or cache.cache_table at empty_entry in
    if matches hash (get_or cache.cache_status at 0) bucket a b c then some bucket.res else none

-- The write into a bucket with the status `s`, which is not locked.
unfoldable pub cache_write : Cache → ℕ → ℕ → ℕ → CacheEntry → Cache
cache_write cache hash at s entry = record cache {
  cache_table = set cache.cache_table at entry;
  cache_status =
      set cache.cache_status at
        (bit_or (bit_and (s + 1) 65535) (bit_and (hash / 2 ^ 32) 1073676288));
}

-- The compare-and-swap succeeds where no other thread writes.
unfoldable pub cache_put : Cache → ℕ → ℕ → ℕ → ℕ → Bool × Cache
unfolding cache_hash cache_write
cache_put cache a b c res =
    let hash = cache_hash a b c in
    let at = hash % cache.cache_size in
    let s = get_or cache.cache_status at 0 in
    if bit_and s 2147483648 == 0
    then (true, cache_write cache hash at s (record { a = a; b = b; c = c; res = res }))
    else (false, cache)

unfoldable pub cache_get3 : Cache → ℕ → ℕ → ℕ → ℕ → Option ℕ
unfolding cache_get
cache_get3 cache opid dd d2 d3 = cache_get cache (bit_or dd opid) d2 d3

unfoldable pub cache_put3 : Cache → ℕ → ℕ → ℕ → ℕ → ℕ → Bool × Cache
unfolding cache_put
cache_put3 cache opid dd d2 d3 res = cache_put cache (bit_or dd opid) d2 d3 res
