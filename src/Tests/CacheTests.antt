-- ===== src/Tests/CacheTests.antt =====
-- The operation cache (src/SylvanCacheWrapper.cpp) with two buckets.
use Prim.Native.Nat.{bit_or}
use mc_sog.Cache.{
  Cache, cache_get, cache_get3, cache_hash, cache_put, cache_put3, cache_write, empty_entry,
  matches,
}
use mc_sog.Cache.Stored.{cache_get3-last_put, entry_at, last_put, no_put, put_done}
use mc_sog.Prelude.{==_iff, [], false, refl, some, suc, true, zero, ℕ, ◌%◌, ◌==◌, ◌∷◌, ◌≡◌, ◌≢◌}

abbrev two_buckets : Cache
two_buckets = record {
  cache_size = 2;
  cache_table = empty_entry ∷ empty_entry ∷ [];
  cache_status = 0 ∷ 0 ∷ [];
}

two_buckets-IsEmpty : (i : ℕ) → entry_at two_buckets i ≡ empty_entry
two_buckets-IsEmpty zero = refl
two_buckets-IsEmpty (suc zero) = refl
two_buckets-IsEmpty (suc (suc i)) = refl

-- A put, and a get of the same key.
get_put_runs : cache_get3 (cache_put3 two_buckets 7 0 5 6 9).1 7 0 5 6 ≡ some 9
unfolding cache_get3 cache_put3 cache_get cache_put cache_write cache_hash matches
get_put_runs = refl

key_runs : (bit_or 0 7 == 0) ≡ false
key_runs = refl

key_not_zero : bit_or 0 7 ≢ 0
key_not_zero e = let k = (==_iff (bit_or 0 7) 0).1 e in let r = key_runs in cc

-- The bucket that the put goes to.
abbrev put_once : Cache
put_once =
    cache_write two_buckets (cache_hash (bit_or 0 7) 5 6) (cache_hash (bit_or 0 7) 5 6 % 2) 0
      (record { a = bit_or 0 7; b = 5; c = 6; res = 9 })

put_runs : cache_put3 two_buckets 7 0 5 6 9 ≡ (true, put_once)
unfolding cache_put3 cache_put
put_runs = refl

-- A second put of the key, with another result.
abbrev put_twice : Cache
put_twice = (cache_put3 put_once 7 0 5 6 8).1

put_again : cache_put3 put_once 7 0 5 6 8 ≡ (true, put_twice)
unfolding cache_put3 cache_put cache_write cache_hash
put_again = refl

get_runs : cache_get3 put_twice 7 0 5 6 ≡ some 8
unfolding cache_get3 cache_put3 cache_get cache_put cache_write cache_hash matches
get_runs = refl

cache_get3-last_put_example :
    last_put
      (record { a = bit_or 0 7; b = 5; c = 6; res = 8 }
        ∷ record { a = bit_or 0 7; b = 5; c = 6; res = 9 }
        ∷ [])
      (bit_or 0 7)
      5
      6
    ≡ some 8
cache_get3-last_put_example =
    cache_get3-last_put two_buckets put_twice
      (record { a = bit_or 0 7; b = 5; c = 6; res = 8 }
        ∷ record { a = bit_or 0 7; b = 5; c = 6; res = 9 }
        ∷ [])
      7 0 5 6 8 two_buckets-IsEmpty
      (put_done 7 0 5 6 8 (put_done 7 0 5 6 9 no_put put_runs) put_again) key_not_zero get_runs
