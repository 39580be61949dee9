-- ===== src/Table/Claim/Correct.antt =====
-- claim_data_bucket (src/SylvanWrapper.cpp) ends, and what it hands out.
use mc_sog.Ldd.Tree.{size}
use mc_sog.Prelude.{
  Bool, Bool-cases, Option, Option-cases, ap, arith, false, if◌then◌else◌, inl, inr, lt_cases, none,
  refl, some, some_eq, subst, suc, true, update, zero, ℕ, ◌*◌, ◌+◌, ◌/◌, ◌<◌, ◌≡◌, ◌≤◌,
}
use mc_sog.Table.{Llmsset}
use mc_sog.Table.Claim.{
  Claimed, bucket, bump, claim_data_bucket, claim_loop, claim_region, first_zero, free_in,
  free_word, next_region, regions_of, table_full,
}

-- How many of the first `n` bits are not set.
abbrev unclaimed : (ℕ → Bool) → ℕ → ℕ
unclaimed taken zero = 0
unclaimed taken (suc n) = if taken n then unclaimed taken n else suc (unclaimed taken n)

unclaimed-le : (taken : ℕ → Bool) (n : ℕ) → unclaimed taken n ≤ n
unclaimed-le taken zero = omega arith
unclaimed-le taken (suc n) = ground (arith, unclaimed-le taken n)

unclaimed_above :
    (taken : ℕ → Bool) (r n : ℕ) → n ≤ r → unclaimed (update taken r true) n ≡ unclaimed taken n
unclaimed_above taken r zero h = refl
unclaimed_above taken r (suc n) h = ground (arith, unclaimed_above taken r n)

unclaimed-update :
    (taken : ℕ → Bool) (r n : ℕ)
    → r < n
    → taken r ≡ false
    → unclaimed (update taken r true) n < unclaimed taken n
unclaimed-update taken r zero h e = absurd (omega arith)
unclaimed-update taken r (suc n) h e = elim (lt_cases r n) [
  | inl lt ↦ ground (arith, unclaimed-update taken r n)
  | inr (inl at) ↦
      let e' = subst (λ k. taken k ≡ false) at e in ground (arith, unclaimed_above taken r n)
  | inr (inr gt) ↦ absurd (omega arith)
]

bump-lt : (regions : ℕ) (region : Option ℕ) → 0 < regions → bump regions region < regions
unfolding bump
bump-lt regions none h = h
bump-lt regions (some r) h = ground arith

next_region-claims :
    (taken : ℕ → Bool) (regions count : ℕ) (region : Option ℕ) (r : ℕ)
    → count ≤ regions
    → next_region taken regions count region ≡ (some r, true)
    → (r < regions) × (taken r ≡ false)
unfolding next_region
next_region-claims taken regions zero region r h e = cc
next_region-claims taken regions (suc count) region r h e =
    elim (Bool-cases (taken (bump regions region))) [
      | inl owned ↦
          next_region-claims taken regions count (some (bump regions region)) r (omega arith)
            (rw owned at e)
      | inr free ↦
          let same : bump regions region ≡ r = some_eq (ap (λ p. p.0) (rw free at e)) in
          (
            subst (λ k. k < regions) same (bump-lt regions region (omega arith)),
            subst (λ k. taken k ≡ false) same free,
          )
    ]

first_zero-free :
    (bits : ℕ → Bool) (base n d : ℕ)
    → first_zero bits base n ≡ some d
    → (bits d ≡ false) × (base ≤ d) × (d < base + n)
unfolding first_zero
first_zero-free bits base zero d e = cc
first_zero-free bits base (suc n) d e = elim (Bool-cases (bits base)) [
  | inl used ↦
      let h = first_zero-free bits (base + 1) n d (rw used at e) in (h.0, omega arith, omega arith)
  | inr free ↦
      let same : base ≡ d = some_eq (rw free at e) in
      (subst (λ k. bits k ≡ false) same free, omega arith, omega arith)
]

free_word-free :
    (bits : ℕ → Bool) (base i d : ℕ)
    → free_word bits base i ≡ some d
    → (bits d ≡ false) × (base ≤ d) × (d < base + 64 * i)
unfolding free_word
free_word-free bits base zero d e = cc
free_word-free bits base (suc i) d e = elim (Option-cases (first_zero bits base 64)) [
  | inl full ↦
      let h = free_word-free bits (base + 64) i d (rw (full, free_word) at e) in
      (h.0, omega arith, omega arith)
  | inr (j, found) ↦
      let h = first_zero-free bits base 64 j found in
      let same : j ≡ d = some_eq (rw (found, free_word) at e) in
      (subst (λ k. bits k ≡ false) same h.0, omega arith, omega arith)
]

-- A thread owns a region of the table, or none.
abbrev pub IsRegion : ℕ → Option ℕ → Type 0
IsRegion table_size none = Unit {0}
IsRegion table_size (some region) = 8 * region * 64 + 512 ≤ table_size

-- The slot was free and is taken; nothing else of the slots, and nothing of the table, changes.
pub record IsClaim (s : Llmsset) (d : ℕ) (s' : Llmsset) (region : Option ℕ) : Type 0 where
  pub free : s.bitmap2 d ≡ false
  pub taken : s'.bitmap2 ≡ update s.bitmap2 d true
  pub within : d < s.table_size
  pub owned : IsRegion s.table_size region
  pub same_table : s'.table ≡ s.table
  pub same_data : s'.data_words ≡ s.data_words
  pub same_size : s'.table_size ≡ s.table_size
  pub same_threshold : s'.threshold ≡ s.threshold

abbrev pub Claims : Llmsset → Claimed → Type 0
Claims s (table_full s' region) =
    IsRegion s.table_size region × (s' ≡ record s { bitmap1 = s'.bitmap1 })
Claims s (bucket d s' region) = IsClaim s d s' region

free_in-free :
    (bits : ℕ → Bool) (size d : ℕ) (region : Option ℕ)
    → IsRegion size region
    → free_in bits region ≡ some d
    → (bits d ≡ false) × (d < size)
unfolding free_in
free_in-free bits size d none h e = cc
free_in-free bits size d (some r) h e =
    let f = free_word-free bits (8 * r * 64) 8 d e in (f.0, omega (arith, f.2))

claim_region-Claims :
    (s : Llmsset) (answer : Option ℕ × Bool) (c : Claimed)
    (retry : Llmsset → Option ℕ → Option Claimed)
    → IsRegion s.table_size answer.0
    → ((b1 : ℕ → Bool) (r : Option ℕ)
        → IsRegion s.table_size r
        → retry (record s { bitmap1 = b1 }) r ≡ some c
        → Claims s c)
    → claim_region retry s answer ≡ some c
    → Claims s c
unfolding claim_region
claim_region-Claims s (none, true) c retry h next e = subst (Claims s) (some_eq e) (h, refl)
claim_region-Claims s (none, false) c retry h next e = subst (Claims s) (some_eq e) (h, refl)
claim_region-Claims s (some r, false) c retry h next e = subst (Claims s) (some_eq e) (h, refl)
claim_region-Claims s (some r, true) c retry h next e = next _ (some r) h e

region-fits : (size r : ℕ) → r < size / (64 * 8) → IsRegion size (some r)
region-fits size r h = omega arith

next_region-IsRegion :
    (s : Llmsset) (taken : ℕ → Bool) (count : ℕ) (region : Option ℕ)
    → count ≤ regions_of s
    → IsRegion s.table_size region
    → IsRegion s.table_size (next_region taken (regions_of s) count region).0
unfolding next_region
next_region-IsRegion s taken zero region h ok = ok
next_region-IsRegion s taken (suc count) region h ok =
    let fits = region-fits s.table_size _ (bump-lt (regions_of s) region (omega arith)) in
    elim (Bool-cases (taken (bump (regions_of s) region))) [
      | inl owned ↦ rw owned (next_region-IsRegion s taken count _ (omega arith) fits)
      | inr free ↦ rw free fits
    ]

bitmap1-Claims :
    (s : Llmsset) (b1 : ℕ → Bool) (c : Claimed) → Claims (record s { bitmap1 = b1 }) c → Claims s c
bitmap1-Claims s b1 (table_full s' r) h = h
bitmap1-Claims s b1 (bucket d s' r) h = record {
  free = h.free;
  taken = h.taken;
  within = h.within;
  owned = h.owned;
  same_table = h.same_table;
  same_data = h.same_data;
  same_size = h.same_size;
  same_threshold = h.same_threshold;
}

claim_loop-Claims :
    (fuel : ℕ) (s : Llmsset) (region : Option ℕ) (c : Claimed)
    → IsRegion s.table_size region
    → claim_loop fuel s region ≡ some c
    → Claims s c
unfolding claim_loop
claim_loop-Claims zero s region c h e = cc
claim_loop-Claims (suc fuel) s region c h e = elim (Option-cases (free_in s.bitmap2 region)) [
  | inr (d, found) ↦
      let (free, within) = free_in-free s.bitmap2 s.table_size d region h found in
      subst (Claims s) (some_eq (rw (found, claim_loop) at e)) (record {
        free = free;
        taken = refl;
        within = within;
        owned = h;
        same_table = refl;
        same_data = refl;
        same_size = refl;
        same_threshold = refl;
      })
  | inl full ↦
      claim_region-Claims s _ c (claim_loop fuel)
        (next_region-IsRegion s s.bitmap1 (regions_of s) region (omega arith) h)
        (λ b1 r ok e'.
          bitmap1-Claims s b1 c (claim_loop-Claims fuel (record s { bitmap1 = b1 }) r c ok e'))
        (rw (full, claim_loop) at e)
]

-- What claim_data_bucket returns: a slot of the data array that was free and is now taken, or -1;
-- and it leaves the hash array, the data and the other slots as they are.
pub claim_data_bucket-Claims :
    (s : Llmsset) (region : Option ℕ) (c : Claimed)
    → IsRegion s.table_size region
    → claim_data_bucket s region ≡ some c
    → Claims s c
unfolding claim_data_bucket
claim_data_bucket-Claims s region c h e = claim_loop-Claims (suc (regions_of s)) s region c h e

next_region-ends :
    (s : Llmsset) (retry : Llmsset → Option ℕ → Option Claimed) (answer : Option ℕ × Bool)
    → ((r : ℕ)
        → answer ≡ (some r, true)
        → (c : Claimed) × (retry (record s { bitmap1 = update s.bitmap1 r true }) (some r)
            ≡ some c))
    → (c : Claimed) × (claim_region retry s answer ≡ some c)
unfolding claim_region
next_region-ends s retry (none, true) h = (_, refl)
next_region-ends s retry (none, false) h = (_, refl)
next_region-ends s retry (some r, false) h = (_, refl)
next_region-ends s retry (some r, true) h = h r refl

claim_loop-ends :
    (fuel : ℕ) (s : Llmsset) (region : Option ℕ)
    → unclaimed s.bitmap1 (regions_of s) < fuel
    → (c : Claimed) × (claim_loop fuel s region ≡ some c)
unfolding claim_loop
claim_loop-ends zero s region h = absurd (omega arith)
claim_loop-ends (suc fuel) s region h = elim (Option-cases (free_in s.bitmap2 region)) [
  | inr (d, found) ↦
      (bucket d (record s { bitmap2 = update s.bitmap2 d true }) region, rw (found, claim_loop))
  | inl full ↦
      rw (full, claim_loop)
        (next_region-ends s (claim_loop fuel)
          (next_region s.bitmap1 (regions_of s) (regions_of s) region)
          (λ r at.
            let (lt, free) =
              next_region-claims s.bitmap1 (regions_of s) (regions_of s) region r (omega arith)
                at in
            claim_loop-ends fuel (record s { bitmap1 = update s.bitmap1 r true }) (some r)
              (omega (arith, unclaimed-update s.bitmap1 r (regions_of s) lt free))))
]

-- claim_data_bucket returns: each round of its outer loop claims one more region.
pub claim_data_bucket_returns :
    (s : Llmsset) (region : Option ℕ) → (c : Claimed) × (claim_data_bucket s region ≡ some c)
unfolding claim_data_bucket
claim_data_bucket_returns s region =
    claim_loop-ends (suc (regions_of s)) s region
      (omega (arith, unclaimed-le s.bitmap1 (regions_of s)))
