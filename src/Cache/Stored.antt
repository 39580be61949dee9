-- ===== src/Cache/Stored.antt =====
-- What cache_get3 finds among the results that cache_put3 has stored (src/SylvanCacheWrapper.cpp).
use Prim.Native.Nat.{bit_and, bit_or, bit_xor}
use mc_sog.Cache.{
  Cache, CacheEntry, cache_get, cache_get3, cache_hash, cache_put, cache_put3, cache_write,
  empty_entry, matches,
}
use mc_sog.Prelude.{
  ==_iff, ==_self, Bool, Bool-cases, List, Option, [], ap, arith, false, get_or, if◌then◌else◌, inl,
  inr, none, refl, set, some, subst, suc, sym, true, zero, ℕ, ◌%◌, ◌&&◌, ◌/◌, ◌==◌, ◌^◌, ◌∙◌, ◌∷◌,
  ◌≡◌, ◌≢◌, ◌⊎◌,
}

-- The calls of cache_put3 that lead from one cache to another, with the entries of the calls that
-- return 1, the last first.
pub data Puts (cache : Cache) : List CacheEntry → Cache → Type 0 where
  no_put : Puts cache [] cache
  put_done :
      {puts : List CacheEntry} {before after : Cache} (opid dd d2 d3 res : ℕ)
      → Puts cache puts before
      → cache_put3 before opid dd d2 d3 res ≡ (true, after)
      → Puts cache (record { a = bit_or dd opid; b = d2; c = d3; res = res } ∷ puts) after
  put_refused :
      {puts : List CacheEntry} {before after : Cache} (opid dd d2 d3 res : ℕ)
      → Puts cache puts before
      → cache_put3 before opid dd d2 d3 res ≡ (false, after)
      → Puts cache puts after

abbrev pub has_key : CacheEntry → ℕ → ℕ → ℕ → Bool
has_key e a b c = (e.a == a) && ((e.b == b) && (e.c == c))

-- The result of the last entry with the key.
abbrev pub last_put : List CacheEntry → ℕ → ℕ → ℕ → Option ℕ
last_put [] a b c = none
last_put (e ∷ es) a b c = if has_key e a b c then some e.res else last_put es a b c

abbrev pub entry_at : Cache → ℕ → CacheEntry
entry_at cache i = get_or cache.cache_table i empty_entry

-- An entry that has been written stands in the bucket of its key, with the last result for it.
abbrev IsStored : List CacheEntry → Cache → ℕ → CacheEntry → Type 0
IsStored puts cache i e =
    e.a ≢ 0
    → (i ≡ cache_hash e.a e.b e.c % cache.cache_size) × (last_put puts e.a e.b e.c ≡ some e.res)

abbrev AreStored : List CacheEntry → Cache → Type 0
AreStored puts cache = (i : ℕ) → IsStored puts cache i (entry_at cache i)

has_key-keys :
    (e : CacheEntry) (a b c : ℕ) → has_key e a b c ≡ true → (e.a ≡ a) × (e.b ≡ b) × (e.c ≡ c)
has_key-keys e a b c h =
    let (ka, kb, kc) = parts (e.a == a) (e.b == b) (e.c == c) h in
    ((==_iff e.a a).0 ka, (==_iff e.b b).0 kb, (==_iff e.c c).0 kc)
  where
    parts : (x y z : Bool) → (x && (y && z)) ≡ true → (x ≡ true) × (y ≡ true) × (z ≡ true)
    parts x y z k = ground arith

-- Position `j` after a write to position `i`.
abbrev IsWritten : List CacheEntry → ℕ → CacheEntry → ℕ → Type 0
IsWritten xs i e j =
    ((j ≡ i) × (get_or (set xs i e) j empty_entry ≡ e))
    ⊎ ((get_or (set xs i e) j empty_entry ≡ get_or xs j empty_entry)
        × ((j ≢ i) ⊎ (get_or xs j empty_entry ≡ empty_entry)))

set-IsWritten : (xs : List CacheEntry) (i : ℕ) (e : CacheEntry) (j : ℕ) → IsWritten xs i e j
set-IsWritten [] i e j = inr (refl, inr refl)
set-IsWritten (x ∷ xs) zero e zero = inl (refl, refl)
set-IsWritten (x ∷ xs) zero e (suc j) = inr (refl, inl (λ z. omega (arith, z)))
set-IsWritten (x ∷ xs) (suc i) e zero = inr (refl, inl (λ z. omega (arith, z)))
set-IsWritten (x ∷ xs) (suc i) e (suc j) = elim (set-IsWritten xs i e j) [
  | inl (at, same) ↦ inl (ap suc at, same)
  | inr (same, inl other) ↦ inr (same, inl (λ z. other (omega (arith, z))))
  | inr (same, inr fresh) ↦ inr (same, inr fresh)
]

module _ (puts : List CacheEntry) (cache : Cache) (h : AreStored puts cache) (e : CacheEntry) where
  abbrev at : ℕ
  at = cache_hash e.a e.b e.c % cache.cache_size

  last_put_self : last_put (e ∷ puts) e.a e.b e.c ≡ some e.res
  last_put_self = rw (==_self e.a, ==_self e.b, ==_self e.c) refl

  -- Another bucket has no entry with the key.
  last_put_other :
      (j : ℕ) (x : CacheEntry)
      → (j ≢ at) ⊎ (x ≡ empty_entry)
      → IsStored puts cache j x
      → IsStored (e ∷ puts) cache j x
  last_put_other j x apart stored ne = elim (Bool-cases (has_key e x.a x.b x.c)) [
    | inl same ↦
        let (ka, kb, kc) = has_key-keys e x.a x.b x.c same in
        absurd (elim apart [
          | inl other ↦ other (
              (stored ne).0 ∙ (λ i. cache_hash (sym ka i) (sym kb i) (sym kc i) % cache.cache_size))
          | inr fresh ↦ ne (ap (λ y. y.a) fresh)
        ])
    | inr differs ↦ ((stored ne).0, rw differs (stored ne).1)
  ]

  cache_write-AreStored :
      (s : ℕ) → AreStored (e ∷ puts) (cache_write cache (cache_hash e.a e.b e.c) at s e)
  unfolding cache_write
  cache_write-AreStored s j = elim (set-IsWritten cache.cache_table at e j) [
    | inl (now, same) ↦ subst (IsStored (e ∷ puts) cache j) (sym same) (λ ne. (now, last_put_self))
    | inr (same, apart) ↦
        subst (IsStored (e ∷ puts) cache j) (sym same)
          (last_put_other j (entry_at cache j) apart (h j))
  ]

Puts-AreStored :
    (empty cache : Cache) (puts : List CacheEntry)
    → ((i : ℕ) → entry_at empty i ≡ empty_entry)
    → Puts empty puts cache
    → AreStored puts cache
unfolding cache_put3 cache_put
Puts-AreStored empty cache puts fresh no_put = λ i ne. absurd (ne (ap (λ e. e.a) (fresh i)))
Puts-AreStored empty cache puts fresh
      (put_done {puts = earlier} {before = before} opid dd d2 d3 res p put) =
    elim (Bool-cases (bit_and s 2147483648 == 0)) [
      | inl free ↦
          subst (AreStored (e ∷ earlier)) (ap (λ r. r.1) (rw free at put))
            (cache_write-AreStored earlier before (Puts-AreStored empty before earlier fresh p) e s)
      | inr locked ↦ cc (ap (λ r. r.0) (rw locked at put))
    ]
  where
    e : CacheEntry
    e = record { a = bit_or dd opid; b = d2; c = d3; res = res }

    s : ℕ
    s = get_or before.cache_status (cache_hash (bit_or dd opid) d2 d3 % before.cache_size) 0
Puts-AreStored empty cache puts fresh (put_refused {before = before} opid dd d2 d3 res p refused) =
    elim (Bool-cases (bit_and s 2147483648 == 0)) [
      | inl free ↦ cc (ap (λ r. r.0) (rw free at refused))
      | inr locked ↦
          subst (AreStored puts) (ap (λ r. r.1) (rw locked at refused))
            (Puts-AreStored empty before puts fresh p)
    ]
  where
    s : ℕ
    s = get_or before.cache_status (cache_hash (bit_or dd opid) d2 d3 % before.cache_size) 0

-- From a cache with empty entries, after any calls of cache_put3 by one thread, when cache_get3 with
-- a key whose first word is not zero finds a result, it is the one that the last successful call of
-- cache_put3 with this key has stored.
pub cache_get3-last_put :
    (empty cache : Cache) (puts : List CacheEntry) (opid dd d2 d3 r : ℕ)
    → ((i : ℕ) → entry_at empty i ≡ empty_entry)
    → Puts empty puts cache
    → bit_or dd opid ≢ 0
    → cache_get3 cache opid dd d2 d3 ≡ some r
    → last_put puts (bit_or dd opid) d2 d3 ≡ some r
unfolding cache_get3 cache_get matches
cache_get3-last_put empty cache puts opid dd d2 d3 r fresh p ne found =
    elim (Bool-cases (matches hash s bucket a d2 d3)) [
      | inl hit ↦
          let (ka, kb, kc) = has_key-keys bucket a d2 d3 (keys hit) in
          let stored =
            Puts-AreStored empty cache puts fresh p (hash % cache.cache_size)
              (λ zero_a. ne (sym ka ∙ zero_a)) in
          (λ i. last_put puts (sym ka i) (sym kb i) (sym kc i)) ∙ stored.1 ∙ rw hit at found
      | inr miss ↦ cc (rw miss at found)
    ]
  where
    a : ℕ
    a = bit_or dd opid

    hash : ℕ
    hash = cache_hash a d2 d3

    s : ℕ
    s = get_or cache.cache_status (hash % cache.cache_size) 0

    bucket : CacheEntry
    bucket = entry_at cache (hash % cache.cache_size)

    parts : (x y z : Bool) → (x && (y && z)) ≡ true → z ≡ true
    parts x y z e = ground arith

    keys : matches hash s bucket a d2 d3 ≡ true → has_key bucket a d2 d3 ≡ true
    keys k =
        parts (bit_and s 3221225472 == 0) (bit_and (bit_xor s (hash / 2 ^ 32)) 1073676288 == 0)
          (has_key bucket a d2 d3) k
