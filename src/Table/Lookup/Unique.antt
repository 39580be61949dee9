-- ===== src/Table/Lookup/Unique.antt =====
-- What the answers of llmsset_lookup (src/SylvanWrapper.cpp) say, by its steps.
use mc_sog.Prelude.{
  Bool, ap, arith, inl, inr, lt_cases, refl, some, subst, sym, true, ℕ, ◌↔◌, ◌∙◌, ◌≡◌, ◌≢◌,
}
use mc_sog.Table.{Llmsset, hash_of, index_of}
use mc_sog.Table.Lookup.{Cursor, first_bucket, is_hit, returned}
use mc_sog.Table.Lookup.Callers.{Callers, IsCleared, Lookups, no_callers}
use mc_sog.Table.Lookup.Changes.{first_bucket-key}
use mc_sog.Table.Lookup.Moves.{HasNode, IsCaller, IsPlaced, IsUniqueTable, start_of}
use mc_sog.Table.Lookup.Probe.{ProbePath, ProbePath-before, ProbePath-key, ProbePath-unique}
use mc_sog.Table.Lookup.Steps.{Lookups-Keeps}

module _ (size threshold : ℕ) where
  -- Two buckets for one key are one.
  module _ (s : Llmsset)
      (placed : (idx : ℕ) → s.table idx ≢ 0 → IsPlaced size threshold s idx) where
    key_at : ℕ → ℕ × ℕ
    key_at idx = s.data_words (index_of (s.table idx))

    hits :
        (idx : ℕ) (c : Cursor)
        → c.idx ≡ idx
        → c.hash ≡ hash_of (s.table idx)
        → (c.a, c.b) ≡ s.data_words (index_of (s.table idx))
        → is_hit s c (s.table c.idx) ≡ true
    unfolding is_hit
    hits idx c at hash key = rw at (ground arith)

    first_bucket-of :
        (idx : ℕ) (n : ℕ) (c : Cursor)
        → ProbePath size threshold s (start_of size threshold s (index_of (s.table idx))) n c
        → (c.a, c.b) ≡ s.data_words (index_of (s.table idx))
    first_bucket-of idx n c p =
        let d = index_of (s.table idx) in
        let (a, b, hash) = ProbePath-key size threshold s _ p in
        let (a', b', hash') = first_bucket-key size (s.data_words d).0 (s.data_words d).1 in
        λ j. ((a ∙ a') j, (b ∙ b') j)

    -- A path ends at the first hit.
    first_hit :
        (c0 : Cursor) (n m : ℕ) (c c' : Cursor)
        → ProbePath size threshold s c0 n c
        → ProbePath size threshold s c0 m c'
        → is_hit s c (s.table c.idx) ≡ true
        → is_hit s c' (s.table c'.idx) ≡ true
        → c ≡ c'
    first_hit c0 n m c c' p p' hit hit' = elim (lt_cases n m) [
      | inl lt ↦ absurd (cc ((ProbePath-before size threshold s c0 p' lt p).1, hit))
      | inr (inl e) ↦
          ProbePath-unique size threshold s c0 p
            (subst (λ k. ProbePath size threshold s c0 k c') (sym e) p')
      | inr (inr gt) ↦ absurd (cc ((ProbePath-before size threshold s c0 p gt p').1, hit'))
    ]

    pub unique_bucket :
        (idx idx' : ℕ)
        → s.table idx ≢ 0
        → s.table idx' ≢ 0
        → s.data_words (index_of (s.table idx)) ≡ s.data_words (index_of (s.table idx'))
        → idx ≡ idx'
    unique_bucket idx idx' busy busy' same =
        let (n, c, p, at, hash) = placed idx busy in
        let (m, c', p', at', hash') = placed idx' busy' in
        sym at
        ∙ ap (λ x. x.idx)
            (first_hit (start_of size threshold s (index_of (s.table idx))) n m c c' p
              (subst (λ (k : ℕ × ℕ). ProbePath size threshold s (first_bucket size k.0 k.1) m c')
                (sym same) p')
              (hits idx c at hash (first_bucket-of idx n c p))
              (hits idx' c' at' hash' (first_bucket-of idx' m c' p')))
        ∙ at'

  HasNode-iff :
      (s : Llmsset) (a b a' b' d d' : ℕ)
      → ((idx : ℕ) → s.table idx ≢ 0 → IsPlaced size threshold s idx)
      → HasNode s a b d
      → HasNode s a' b' d'
      → (d ≡ d') ↔ (◌≡◌ {A = ℕ × ℕ} (a, b) (a', b'))
  HasNode-iff s a b a' b' d d' placed (idx, busy, at, holds) (idx', busy', at', holds') = (
    λ same. sym holds ∙ ap s.data_words same ∙ holds',
    λ same.
        sym at
        ∙ ap (λ k. index_of (s.table k))
            (unique_bucket s placed idx idx' busy busy'
              (ap s.data_words at ∙ holds ∙ same ∙ sym holds' ∙ ap s.data_words (sym at')))
        ∙ at',
  )

IsCleared-IsUniqueTable :
    (dbs : Llmsset) → IsCleared dbs → IsUniqueTable dbs.table_size dbs.threshold (no_callers dbs)
IsCleared-IsUniqueTable dbs k = record {
  sized = refl;
  limited = refl;
  reserved = k.reserved;
  in_region = λ i. tt;
  used = λ idx busy. absurd (busy (k.no_bucket idx));
  placed = λ idx busy. absurd (busy (k.no_bucket idx));
  calls = λ i. tt;
  apart = λ i j ne real. absurd (real refl);
}

pub steps_canonical :
    (dbs : Llmsset) (s s' : Callers) (i j a b d a' b' d' : ℕ) (created created' : Bool)
    → IsCleared dbs
    → Lookups (no_callers dbs) s
    → Lookups s s'
    → s.callers i ≡ returned a b (some (d, created))
    → s'.callers j ≡ returned a' b' (some (d', created'))
    → ((d ≡ d') ↔ (◌≡◌ {A = ℕ × ℕ} (a, b) (a', b'))) × (s'.dbs.data_words d ≡ (a, b))
steps_canonical dbs s s' i j a b d a' b' d' created created' k r r' at at' =
    let (h, kept) =
      Lookups-Keeps _ _ k.small (no_callers dbs) s (IsCleared-IsUniqueTable dbs k) r in
    let (h', later) = Lookups-Keeps _ _ k.small s s' h r' in
    let has = later a b d (subst (IsCaller dbs.table_size dbs.threshold s.dbs) at (h.calls i)) in
    let has' = subst (IsCaller dbs.table_size dbs.threshold s'.dbs) at' (h'.calls j) in
    (HasNode-iff _ _ s'.dbs a b a' b' d d' h'.placed has has', has.3)
