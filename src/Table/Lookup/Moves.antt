-- ===== src/Table/Lookup/Moves.antt =====
-- What holds of the table before and after each step of llmsset_lookup (src/SylvanWrapper.cpp).
use mc_sog.Net.{answer}
use mc_sog.Prelude.{
  ==_iff, Bool-cases, Option, ap, arith, every_update, false, inl, inr, none, refl, some, subst,
  sym, true, update, ℕ, ◌<◌, ◌==◌, ◌^◌, ◌∙◌, ◌≡◌, ◌≢◌, ◌⊎◌,
}
use mc_sog.Table.{Llmsset, hash_of, index_of}
use mc_sog.Table.Claim.Correct.{IsRegion}
use mc_sog.Table.Lookup.{
  Caller, Cursor, claiming, first_bucket, looking, outside, returned, swapping,
}
use mc_sog.Table.Lookup.Callers.{Callers, moved}
use mc_sog.Table.Lookup.Probe.{AreUsed, Grows, ProbePath, ProbePath-Grows}

-- The slot that a call has claimed and not put into a bucket, or 0.
abbrev pub owned : Caller → ℕ
owned (looking c cidx) = cidx
owned (swapping c cidx) = cidx
owned _ = 0

-- A bucket gives the slot `d` to the key.
abbrev pub HasNode : Llmsset → ℕ → ℕ → ℕ → Type 0
HasNode s a b d =
    (idx : ℕ) × (s.table idx ≢ 0) × (index_of (s.table idx) ≡ d) × (s.data_words d ≡ (a, b))

-- The claimed slot holds the key, and no bucket names it.
pub record Owns (s : Llmsset) (c : Cursor) (d : ℕ) : Type 0 where
  pub real : d ≢ 0
  pub used : s.bitmap2 d ≡ true
  pub small : d < 2 ^ 40
  pub holds : s.data_words d ≡ (c.a, c.b)
  pub private : (idx : ℕ) → s.table idx ≢ 0 → index_of (s.table idx) ≢ d

module _ (size threshold : ℕ) where
  abbrev pub start_of : Llmsset → ℕ → Cursor
  start_of s d = first_bucket size (s.data_words d).0 (s.data_words d).1

  -- The call for the key of a used bucket comes to that bucket.
  abbrev pub IsPlaced : Llmsset → ℕ → Type 0
  IsPlaced s idx =
      (n : ℕ) × (c : Cursor) × ProbePath size threshold s (start_of s (index_of (s.table idx))) n c
      × (c.idx ≡ idx)
      × (c.hash ≡ hash_of (s.table idx))

  abbrev pub IsUnderway : Llmsset → Cursor → Type 0
  IsUnderway s c = (n : ℕ) × ProbePath size threshold s (first_bucket size c.a c.b) n c

  abbrev pub IsCaller : Llmsset → Caller → Type 0
  IsCaller s outside = Unit {0}
  IsCaller s claiming = Unit {0}
  IsCaller s (looking c cidx) = IsUnderway s c × (cidx ≢ 0 → Owns s c cidx)
  IsCaller s (swapping c cidx) = IsUnderway s c × Owns s c cidx
  IsCaller s (returned a b none) = Unit {0}
  IsCaller s (returned a b (some (d, created))) = HasNode s a b d

  pub record IsUniqueTable (s : Callers) : Type 0 where
    pub sized : s.dbs.table_size ≡ size
    pub limited : s.dbs.threshold ≡ threshold
    pub reserved : s.dbs.bitmap2 0 ≡ true
    pub in_region : (i : ℕ) → IsRegion size (s.regions i)
    pub used : AreUsed s.dbs
    pub placed : (idx : ℕ) → s.dbs.table idx ≢ 0 → IsPlaced s.dbs idx
    pub calls : (i : ℕ) → IsCaller s.dbs (s.callers i)
    pub apart :
        (i j : ℕ) → i ≢ j → owned (s.callers j) ≢ 0 → owned (s.callers j) ≢ owned (s.callers i)

  pub HasNode-Grows :
      (s s' : Llmsset) (a b d : ℕ) → AreUsed s → Grows s s' → HasNode s a b d → HasNode s' a b d
  HasNode-Grows s s' a b d used g (idx, busy, at, holds) =
      let same = g.buckets idx busy in
      (
        idx,
        (λ e. busy (sym same ∙ e)),
        ap index_of same ∙ at,
        g.slots d (subst (λ k. s.bitmap2 k ≡ true) at (used idx busy)) ∙ holds,
      )

  pub IsUnderway-Grows :
      (s s' : Llmsset) (c : Cursor) → AreUsed s → Grows s s' → IsUnderway s c → IsUnderway s' c
  IsUnderway-Grows s s' c used g (n, p) = (n, ProbePath-Grows size threshold s s' _ used g p)

  -- What one step of thread `i` does to the table.
  pub record IsMove (s : Callers) (i : ℕ) (t : Llmsset) (region : Option ℕ) (x : Caller)
      : Type 0 where
    pub sized : t.table_size ≡ size
    pub limited : t.threshold ≡ threshold
    pub reserved : t.bitmap2 0 ≡ true
    pub grows : Grows s.dbs t
    pub bits : (d : ℕ) → s.dbs.bitmap2 d ≡ true → d ≢ owned (s.callers i) → t.bitmap2 d ≡ true
    pub fresh :
        (idx : ℕ)
        → t.table idx ≢ 0
        → (s.dbs.table idx ≢ 0) ⊎ (index_of (t.table idx) ≡ owned (s.callers i))
    pub used : AreUsed t
    pub placed : (idx : ℕ) → t.table idx ≢ 0 → IsPlaced t idx
    pub owner : IsRegion size region
    pub caller : IsCaller t x
    pub keeps : (owned x ≡ owned (s.callers i)) ⊎ (owned x ≡ 0) ⊎ (s.dbs.bitmap2 (owned x) ≡ false)

  module _ (s : Callers) (i : ℕ) (t : Llmsset) (region : Option ℕ) (x : Caller)
      (h : IsUniqueTable s) (mv : IsMove s i t region x) where
    other_Owns : (c : Cursor) (d : ℕ) → d ≢ owned (s.callers i) → Owns s.dbs c d → Owns t c d
    other_Owns c d apart o = record {
      real = o.real;
      used = mv.bits d o.used apart;
      small = o.small;
      holds = mv.grows.slots d o.used ∙ o.holds;
      private = λ idx busy e. elim (mv.fresh idx busy) [
        | inl old ↦ o.private idx old (sym (ap index_of (mv.grows.buckets idx old)) ∙ e)
        | inr mine ↦ apart (sym e ∙ mine)
      ];
    }

    other_IsCaller :
        (y : Caller)
        → (owned y ≢ 0 → owned y ≢ owned (s.callers i))
        → IsCaller s.dbs y
        → IsCaller t y
    other_IsCaller outside apart k = tt
    other_IsCaller claiming apart k = tt
    other_IsCaller (looking c d) apart (under, o) =
        (IsUnderway-Grows s.dbs t c h.used mv.grows under, λ ne. other_Owns c d (apart ne) (o ne))
    other_IsCaller (swapping c d) apart (under, o) =
        (IsUnderway-Grows s.dbs t c h.used mv.grows under, other_Owns c d (apart o.real) o)
    other_IsCaller (returned a b none) apart k = tt
    other_IsCaller (returned a b (some (d, created))) apart k =
        HasNode-Grows s.dbs t a b d h.used mv.grows k

    -- A step keeps what holds of the table.
    IsMove-IsUniqueTable : IsUniqueTable (moved s i (t, region, x))
    IsMove-IsUniqueTable = record {
      sized = mv.sized;
      limited = mv.limited;
      reserved = mv.reserved;
      in_region = every_update s.regions i region (IsRegion size) h.in_region mv.owner;
      used = mv.used;
      placed = mv.placed;
      calls = calls;
      apart = apart;
    }
      where
        ne_of : (j : ℕ) → (j == i) ≡ false → i ≢ j
        ne_of j e p = ground arith

        calls : (j : ℕ) → IsCaller t (update s.callers i x j)
        calls j = elim (Bool-cases (j == i)) [
          | inl same ↦ rw same mv.caller
          | inr other ↦
              rw other (other_IsCaller (s.callers j) (h.apart i j (ne_of j other)) (h.calls j))
        ]

        mine : (j : ℕ) → i ≢ j → owned (s.callers j) ≢ 0 → owned (s.callers j) ≢ owned x
        mine j ne real e = elim mv.keeps [
          | inl same ↦ h.apart i j ne real (e ∙ same)
          | inr (inl zero_now) ↦ real (e ∙ zero_now)
          | inr (inr free) ↦
              clash (s.callers j) (h.calls j) real
                (subst (λ k. s.dbs.bitmap2 k ≡ false) (sym e) free)
        ]
          where
            clash :
                (y : Caller) → IsCaller s.dbs y → owned y ≢ 0 → s.dbs.bitmap2 (owned y) ≡ false → ⊥
            clash outside k real free = real refl
            clash claiming k real free = real refl
            clash (looking c d) k real free = cc ((k.1 real).used)
            clash (swapping c d) k real free = cc (k.1.used)
            clash (returned a b answer) k real free = real refl

        apart :
            (j k : ℕ)
            → j ≢ k
            → owned (update s.callers i x k) ≢ 0
            → owned (update s.callers i x k) ≢ owned (update s.callers i x j)
        apart j k ne = elim (Bool-cases (k == i)) [
          | inl now ↦ elim (Bool-cases (j == i)) [
            | inl too ↦ absurd (ne ((==_iff j i).0 too ∙ sym ((==_iff k i).0 now)))
            | inr other ↦
                rw (now, other) (λ real e. mine j (ne_of j other) (λ z. real (e ∙ z)) (sym e))
          ]
          | inr other ↦ elim (Bool-cases (j == i)) [
            | inl now ↦ rw (now, other) (mine k (ne_of k other))
            | inr too ↦ rw (other, too) (h.apart j k ne)
          ]
        ]

    pub IsMove-Keeps : IsUniqueTable (moved s i (t, region, x)) × Grows s.dbs t
    IsMove-Keeps = (IsMove-IsUniqueTable, mv.grows)
