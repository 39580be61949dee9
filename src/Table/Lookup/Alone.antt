-- ===== src/Table/Lookup/Alone.antt =====
-- A call of llmsset_lookup (src/SylvanWrapper.cpp) while no other thread makes a step.
use mc_sog.Ldd.Tree.{size}
use mc_sog.Net.{answer}
use mc_sog.Prelude.{
  ==_iff, Bool, Bool-cases, Option, ap, arith, false, inl, inr, none, refl, some, some_eq, subst,
  suc, sym, zero, ℕ, ◌%◌, ◌*◌, ◌+◌, ◌-◌, ◌/◌, ◌<◌, ◌==◌, ◌^◌, ◌∙◌, ◌≡◌, ◌≢◌, ◌≤◌,
}
use mc_sog.Table.{Llmsset}
use mc_sog.Table.Claim.{Claimed, bucket, claim_data_bucket, release_data_bucket, table_full}
use mc_sog.Table.Claim.Correct.{
  Claims, IsRegion, claim_data_bucket-Claims, claim_data_bucket_returns,
}
use mc_sog.Table.Lookup.{
  After, Caller, Cursor, claim_bucket, claiming, compare_bucket, first_bucket, go_on, is_hit,
  llmsset_lookup, looking, lookup_loop, next_bucket, next_in_line, outside, read_bucket,
  release_claimed, returned, swap_bucket, swapping,
}

-- The buckets that a call can still come to: those of the lines after this one, and the rest of
-- this line.
abbrev rounds : ℕ → Cursor → ℕ
rounds threshold c = 8 * (threshold - c.i - 1) + ((c.last % 8 + 7 - c.idx % 8) % 8 + 1)

abbrev IsInLine : ℕ → Cursor → Type 0
IsInLine threshold c = (c.i < threshold) × (c.idx / 8 ≡ c.last / 8)

last_of_line :
    (threshold i idx last : ℕ)
    → i < threshold
    → idx / 8 ≡ last / 8
    → idx / 8 * 8 + (idx + 1) % 8 ≡ last
    → (last % 8 + 7 - idx % 8) % 8 ≡ 0
last_of_line threshold i idx last lt line e = omega arith

within_line :
    (idx last : ℕ)
    → idx / 8 ≡ last / 8
    → idx / 8 * 8 + (idx + 1) % 8 ≢ last
    → ((idx / 8 * 8 + (idx + 1) % 8) / 8 ≡ last / 8)
      × ((last % 8 + 7 - (idx / 8 * 8 + (idx + 1) % 8) % 8) % 8 + 1 ≡ (last % 8 + 7 - idx % 8) % 8)
within_line idx last line ne = (omega arith, omega arith)

next_bucket-rounds :
    (size threshold : ℕ) (c c' : Cursor)
    → IsInLine threshold c
    → next_bucket size threshold c ≡ some c'
    → IsInLine threshold c' × (rounds threshold c' + 1 ≡ rounds threshold c)
unfolding next_bucket
next_bucket-rounds size threshold c c' (lt, line) e =
    elim (Bool-cases (next_in_line c.idx == c.last)) [
      | inl wraps ↦ elim (Bool-cases (c.i + 1 == threshold)) [
        | inl over ↦ absurd (cc (rw over at (rw wraps at e)))
        | inr more ↦
            subst (λ x. IsInLine threshold x × (rounds threshold x + 1 ≡ rounds threshold c))
              (some_eq (rw more at (rw wraps at e)))
              (
                (below more, refl),
                new_line (below more)
                    (last_of_line threshold c.i c.idx c.last lt line ((==_iff _ _).0 wraps))
                    ((c.hash_rehash + c.step) % 2 ^ 64 % size),
              )
      ]
      | inr stays ↦
          let (line', w) = within_line c.idx c.last line (ne stays) in
          subst (λ x. IsInLine threshold x × (rounds threshold x + 1 ≡ rounds threshold c))
            (some_eq (rw stays at e)) ((lt, line'), omega (arith, w))
    ]
  where
    below : (c.i + 1 == threshold) ≡ false → c.i + 1 < threshold
    below more = ground arith

    ne : (next_in_line c.idx == c.last) ≡ false → next_in_line c.idx ≢ c.last
    ne e z = ground arith

    new_line :
        c.i + 1 < threshold
        → (c.last % 8 + 7 - c.idx % 8) % 8 ≡ 0
        → (z : ℕ)
        → 8 * (threshold - (c.i + 1) - 1) + ((z % 8 + 7 - z % 8) % 8 + 1) + 1 ≡ rounds threshold c
    new_line lt w z = omega (arith, w)

-- The steps that a call needs at most, with the last round of the loop of the model.
abbrev needs : ℕ → Caller → ℕ
needs threshold (looking c d) = 2 * rounds threshold c + 1
needs threshold (swapping c d) = 2 * rounds threshold c
needs threshold _ = 1

abbrev IsCalling : ℕ → Caller → Type 0
IsCalling threshold outside = ⊥
IsCalling threshold claiming = ⊥
IsCalling threshold (looking c d) = IsInLine threshold c
IsCalling threshold (swapping c d) = IsInLine threshold c
IsCalling threshold (returned a b answer) = Unit {0}

-- After a step the call needs at most `n` more.
record IsNearer (threshold n : ℕ) (at : After) : Type 0 where
  limited : at.0.threshold ≡ threshold
  owner : IsRegion at.0.table_size at.1
  calling : IsCalling threshold at.2
  fewer : needs threshold at.2 ≤ n

weaken :
    {at : After} (a threshold n m : ℕ)
    → a ≡ threshold
    → n ≤ m
    → IsNearer a n at
    → IsNearer threshold m at
weaken {at = at} a threshold n m e le h =
    subst (λ z. IsNearer z m at) e
      (record {
        limited = h.limited;
        owner = h.owner;
        calling = h.calling;
        fewer = omega (arith, h.fewer);
      })

module _ (s : Llmsset) (region : Option ℕ) (owner : IsRegion s.table_size region) (c : Cursor)
    (lt : IsInLine s.threshold c) where
  release_claimed-IsNearer :
      (d n a b : ℕ) (answer : Option (ℕ × Bool))
      → 1 ≤ n
      → IsNearer s.threshold n (release_claimed s d, region, returned a b answer)
  unfolding release_claimed release_data_bucket
  release_claimed-IsNearer d n a b answer le = elim (Bool-cases (d == 0)) [
    | inl e ↦ rw e (record { limited = refl; owner = owner; calling = tt; fewer = le })
    | inr e ↦ rw e (record { limited = refl; owner = owner; calling = tt; fewer = le })
  ]

  compare_bucket-IsNearer :
      (d v : ℕ)
      → IsNearer s.threshold (2 * rounds s.threshold c - 1) (compare_bucket s region c d v)
  unfolding compare_bucket
  compare_bucket-IsNearer d v = elim (Bool-cases (is_hit s c v)) [
    | inl hit ↦ rw hit (release_claimed-IsNearer d _ c.a c.b _ (omega arith))
    | inr miss ↦ rw miss (passes_on (next_bucket s.table_size s.threshold c) refl)
  ]
    where
      passes_on :
          (r : Option Cursor)
          → next_bucket s.table_size s.threshold c ≡ r
          → IsNearer s.threshold (2 * rounds s.threshold c - 1) (s, region, go_on c d r)
      passes_on none e = record { limited = refl; owner = owner; calling = tt; fewer = omega arith }
      passes_on (some c') e =
          let (line, r) = next_bucket-rounds s.table_size s.threshold c c' lt e in
          record { limited = refl; owner = owner; calling = line; fewer = omega (arith, r) }

  claim_bucket-IsNearer :
      (r : Option Claimed)
      → claim_data_bucket s region ≡ r
      → IsNearer s.threshold (2 * rounds s.threshold c) (claim_bucket s c r)
  unfolding claim_bucket
  claim_bucket-IsNearer none e =
      let (k, returns) = claim_data_bucket_returns s region in absurd (cc (sym e ∙ returns))
  claim_bucket-IsNearer (some k) e = by_answer k (claim_data_bucket-Claims s region k owner e)
    where
      by_answer :
          (k : Claimed)
          → Claims s k
          → IsNearer s.threshold (2 * rounds s.threshold c) (claim_bucket s c (some k))
      by_answer (bucket d s' region) k = record {
        limited = k.same_threshold;
        owner = subst (λ n. IsRegion n region) (sym k.same_size) k.owned;
        calling = lt;
        fewer = omega arith;
      }
      by_answer (table_full s' region) (ok, same) = record {
        limited = ap (λ x. x.threshold) same;
        owner = subst (λ n. IsRegion n region) (sym (ap (λ x. x.table_size) same)) ok;
        calling = tt;
        fewer = omega arith;
      }

  read_bucket-IsNearer :
      (d : ℕ) → IsNearer s.threshold (2 * rounds s.threshold c) (read_bucket s region c d)
  unfolding read_bucket
  read_bucket-IsNearer d = elim (Bool-cases (s.table c.idx == 0)) [
    | inr busy ↦
        rw busy (weaken _ _ _ _ refl (omega arith) (compare_bucket-IsNearer d (s.table c.idx)))
    | inl empty ↦ elim (Bool-cases (d == 0)) [
      | inl unclaimed ↦ rw (empty, unclaimed) (claim_bucket-IsNearer _ refl)
      | inr claimed ↦
          rw (empty, claimed)
            (record { limited = refl; owner = owner; calling = lt; fewer = omega arith })
    ]
  ]

  swap_bucket-IsNearer :
      (d : ℕ) → IsNearer s.threshold (2 * rounds s.threshold c - 1) (swap_bucket s region c d)
  unfolding swap_bucket
  swap_bucket-IsNearer d = elim (Bool-cases (s.table c.idx == 0)) [
    | inl empty ↦
        rw empty (record { limited = refl; owner = owner; calling = tt; fewer = omega arith })
    | inr busy ↦ rw busy (compare_bucket-IsNearer d (s.table c.idx))
  ]

abbrev Ends : ℕ → After → Type 0
Ends fuel at =
    (s : Llmsset) × (region : Option ℕ) × (answer : Option (ℕ × Bool)) × (lookup_loop fuel at
      ≡ some (s, region, answer))

lookup_loop-Ends : (fuel threshold : ℕ) (at : After) → IsNearer threshold fuel at → Ends fuel at
unfolding lookup_loop
lookup_loop-Ends zero threshold (s, region, outside) h = absurd h.calling
lookup_loop-Ends zero threshold (s, region, claiming) h = absurd h.calling
lookup_loop-Ends zero threshold (s, region, looking c d) h = absurd (omega (arith, h.fewer))
lookup_loop-Ends zero threshold (s, region, swapping c d) h = absurd (omega (arith, h.fewer))
lookup_loop-Ends zero threshold (s, region, returned a b answer) h = absurd (omega (arith, h.fewer))
lookup_loop-Ends (suc fuel) threshold (s, region, outside) h = absurd h.calling
lookup_loop-Ends (suc fuel) threshold (s, region, claiming) h = absurd h.calling
lookup_loop-Ends (suc fuel) threshold (s, region, returned a b answer) h = (s, region, answer, refl)
lookup_loop-Ends (suc fuel) threshold (s, region, looking c d) h =
    lookup_loop-Ends fuel threshold (read_bucket s region c d) (
      weaken s.threshold threshold (2 * rounds s.threshold c) fuel h.limited
        (enough (2 * rounds threshold c) (rw h.limited refl) (omega (arith, h.fewer)))
        (read_bucket-IsNearer s region h.owner c
          (subst (λ z. IsInLine z c) (sym h.limited) h.calling) d))
  where
    enough : {n : ℕ} (m : ℕ) → n ≡ m → m ≤ fuel → n ≤ fuel
    enough m e le = omega (arith, e)
lookup_loop-Ends (suc fuel) threshold (s, region, swapping c d) h =
    lookup_loop-Ends fuel threshold (swap_bucket s region c d) (
      weaken s.threshold threshold (2 * rounds s.threshold c - 1) fuel h.limited
        (enough (2 * rounds threshold c - 1) (rw h.limited refl) (omega (arith, h.fewer)))
        (swap_bucket-IsNearer s region h.owner c
          (subst (λ z. IsInLine z c) (sym h.limited) h.calling) d))
  where
    enough : {n : ℕ} (m : ℕ) → n ≡ m → m ≤ fuel → n ≤ fuel
    enough m e le = omega (arith, e)

-- For a positive threshold and a region of the table, llmsset_lookup, with claim_data_bucket in it,
-- returns.
pub llmsset_lookup_returns :
    (s : Llmsset) (region : Option ℕ) (a b : ℕ)
    → 0 < s.threshold
    → IsRegion s.table_size region
    → (s' : Llmsset) × (region' : Option ℕ) × (answer : Option (ℕ × Bool)) × (llmsset_lookup s
          region a b
        ≡ some (s', region', answer))
unfolding llmsset_lookup
llmsset_lookup_returns s region a b lt owner =
    lookup_loop-Ends (16 * s.threshold + 1) s.threshold
      (s, region, looking (first_bucket s.table_size a b) 0)
      (record { limited = refl; owner = owner; calling = (lt, refl); fewer = omega arith })
