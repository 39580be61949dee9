-- ===== src/Table/Lookup/Steps.antt =====
-- Every step of llmsset_lookup (src/SylvanWrapper.cpp) keeps what holds of the table.
use mc_sog.Net.{answer}
use mc_sog.Prelude.{
  ==_iff, Bool, Bool-cases, Option, ap, arith, false, inl, inr, none, refl, some, subst, suc, sym,
  true, zero, ℕ, ◌==◌, ◌^◌, ◌∙◌, ◌≡◌, ◌≢◌, ◌≤◌, ◌⊎◌,
}
use mc_sog.Table.{Llmsset, index_of}
use mc_sog.Table.Claim.{Claimed, bucket, claim_data_bucket, release_data_bucket, table_full}
use mc_sog.Table.Claim.Correct.{Claims, claim_data_bucket-Claims, claim_data_bucket_returns}
use mc_sog.Table.Lookup.{
  After, Caller, Cursor, claim_bucket, claiming, compare_bucket, first_bucket, go_on, is_hit,
  looking, lookup_step, next_bucket, outside, read_bucket, release_claimed, returned, swap_bucket,
  swapping,
}
use mc_sog.Table.Lookup.Callers.{
  Callers, LookupStep, Lookups, call, move, moved, none_yet, one_step,
}
use mc_sog.Table.Lookup.Changes.{
  first_bucket-key, freed-IsMove, full-IsMove, published-IsMove, same-IsMove, written-IsMove,
}
use mc_sog.Table.Lookup.Moves.{
  HasNode, HasNode-Grows, IsCaller, IsMove-Keeps, IsUnderway, IsUniqueTable, Owns, owned,
}
use mc_sog.Table.Lookup.Probe.{Grows, ProbePath, begins, next_bucket-key, passes}

module _ (size threshold : ℕ) (small : size ≤ 2 ^ 40) where
  module _ (s : Callers) (i : ℕ) (h : IsUniqueTable size threshold s) where
    -- The thread's next state is the given one, and what holds of the table still holds.
    abbrev Keeps : After → Type 0
    Keeps r = IsUniqueTable size threshold (moved s i r) × Grows s.dbs r.0

    Keeps-same :
        (x : Caller)
        → IsCaller size threshold s.dbs x
        → (owned x ≡ owned (s.callers i)) ⊎ (owned x ≡ 0) ⊎ (s.dbs.bitmap2 (owned x) ≡ false)
        → Keeps (s.dbs, s.regions i, x)
    Keeps-same x caller keeps =
        IsMove-Keeps size threshold s i s.dbs (s.regions i) x h
          (same-IsMove size threshold s i h (s.regions i) x (h.in_region i) caller keeps)

    release_claimed-Keeps :
        (c : Cursor) (d a b e : ℕ) (created : Bool)
        → d ≡ owned (s.callers i)
        → (d ≢ 0 → Owns s.dbs c d)
        → HasNode s.dbs a b e
        → Keeps (release_claimed s.dbs d, s.regions i, returned a b (some (e, created)))
    unfolding release_claimed release_data_bucket
    release_claimed-Keeps c d a b e created mine o has = elim (Bool-cases (d == 0)) [
      | inl unclaimed ↦ rw unclaimed (Keeps-same _ has (inr (inl refl)))
      | inr claimed ↦ rw claimed (
          IsMove-Keeps size threshold s i _ (s.regions i) _ h (
            freed-IsMove size threshold s i h c d mine (o (ne claimed)) (s.regions i) a b e created
              (h.in_region i) has))
    ]
      where
        ne : (d == 0) ≡ false → d ≢ 0
        ne e z = ground arith

    hit_data :
        (c : Cursor) (v : ℕ) → is_hit s.dbs c v ≡ true → s.dbs.data_words (index_of v) ≡ (c.a, c.b)
    unfolding is_hit
    hit_data c v e = ground arith

    Owns-key :
        (t : Llmsset) (c c' : Cursor) (d : ℕ) → c'.a ≡ c.a → c'.b ≡ c.b → Owns t c d → Owns t c' d
    Owns-key t c c' d a b o = record {
      real = o.real;
      used = o.used;
      small = o.small;
      holds = o.holds ∙ (λ j. (sym a j, sym b j));
      private = o.private;
    }

    compare_bucket-Keeps :
        (c : Cursor) (d : ℕ)
        → d ≡ owned (s.callers i)
        → IsUnderway size threshold s.dbs c
        → (d ≢ 0 → Owns s.dbs c d)
        → s.dbs.table c.idx ≢ 0
        → Keeps (compare_bucket s.dbs (s.regions i) c d (s.dbs.table c.idx))
    unfolding compare_bucket
    compare_bucket-Keeps c d mine under o busy =
        elim (Bool-cases (is_hit s.dbs c (s.dbs.table c.idx))) [
          | inl hit ↦ rw hit (
              release_claimed-Keeps c d c.a c.b _ false mine o
                (c.idx, busy, refl, hit_data c (s.dbs.table c.idx) hit))
          | inr miss ↦ rw miss (passes_on miss _ refl)
        ]
      where
        same_next : next_bucket s.dbs.table_size s.dbs.threshold c ≡ next_bucket size threshold c
        same_next = λ j. next_bucket (h.sized j) (h.limited j) c

        passes_on :
            is_hit s.dbs c (s.dbs.table c.idx) ≡ false
            → (r : Option Cursor) → next_bucket s.dbs.table_size s.dbs.threshold c ≡ r
            → Keeps (s.dbs, s.regions i, go_on c d r)
        passes_on miss none e = Keeps-same (returned c.a c.b none) tt (inr (inl refl))
        passes_on miss (some c') e =
            let next = sym same_next ∙ e in
            let (a, b, hash) = next_bucket-key size threshold c c' next in
            let (n, path) = under in
            Keeps-same (looking c' d)
              (
                (
                  suc n,
                  subst (λ z. ProbePath size threshold s.dbs z (suc n) c')
                      (λ j. first_bucket size (sym a j) (sym b j)) (passes path (busy, miss) next),
                ),
                λ ne. Owns-key s.dbs c c' d a b (o ne),
              )
              (inl mine)

    claim_bucket-Keeps :
        (c : Cursor) (r : Option Claimed)
        → IsUnderway size threshold s.dbs c
        → claim_data_bucket s.dbs (s.regions i) ≡ r
        → Keeps (claim_bucket s.dbs c r)
    unfolding claim_bucket
    claim_bucket-Keeps c none under e =
        let (k, returns) = claim_data_bucket_returns s.dbs (s.regions i) in
        absurd (cc (sym e ∙ returns))
    claim_bucket-Keeps c (some k) under e =
        by_answer k (claim_data_bucket-Claims s.dbs (s.regions i) k (rw h.sized (h.in_region i)) e)
      where
        by_answer : (k : Claimed) → Claims s.dbs k → Keeps (claim_bucket s.dbs c (some k))
        by_answer (bucket d s' region) k =
            IsMove-Keeps size threshold s i _ region _ h
              (written-IsMove size threshold s i h small c d s' region k under)
        by_answer (table_full s' region) (owner, same) =
            IsMove-Keeps size threshold s i s' region _ h
              (full-IsMove size threshold s i h s' region c.a c.b same (rw h.sized at owner))

    read_bucket-Keeps :
        (c : Cursor) (d : ℕ)
        → s.callers i ≡ looking c d
        → IsCaller size threshold s.dbs (looking c d)
        → Keeps (read_bucket s.dbs (s.regions i) c d)
    unfolding read_bucket
    read_bucket-Keeps c d at (under, o) = elim (Bool-cases (s.dbs.table c.idx == 0)) [
      | inr busy ↦ rw busy (compare_bucket-Keeps c d (sym (ap owned at)) under o (ne busy))
      | inl empty ↦ elim (Bool-cases (d == 0)) [
        | inl unclaimed ↦ rw (empty, unclaimed) (claim_bucket-Keeps c _ under refl)
        | inr claimed ↦
            rw (empty, claimed)
              (Keeps-same (swapping c d) (under, o (ne claimed)) (inl (sym (ap owned at))))
      ]
    ]
      where
        ne : {n : ℕ} → (n == 0) ≡ false → n ≢ 0
        ne {n} e z = ground arith

    swap_bucket-Keeps :
        (c : Cursor) (d : ℕ)
        → s.callers i ≡ swapping c d
        → IsCaller size threshold s.dbs (swapping c d)
        → Keeps (swap_bucket s.dbs (s.regions i) c d)
    unfolding swap_bucket
    swap_bucket-Keeps c d at (under, o) = elim (Bool-cases (s.dbs.table c.idx == 0)) [
      | inl empty ↦ rw empty (
          IsMove-Keeps size threshold s i _ (s.regions i) _ h (
            published-IsMove size threshold s i h c d (sym (ap owned at)) o under
              ((==_iff _ _).0 empty) (s.regions i) (h.in_region i)))
      | inr busy ↦ rw busy (compare_bucket-Keeps c d (sym (ap owned at)) under (λ ne. o) (ne busy))
    ]
      where
        ne : {n : ℕ} → (n == 0) ≡ false → n ≢ 0
        ne {n} e z = ground arith

    lookup_step-Keeps :
        (x : Caller)
        → s.callers i ≡ x
        → IsCaller size threshold s.dbs x
        → Keeps (lookup_step s.dbs (s.regions i) x)
    unfolding lookup_step
    lookup_step-Keeps outside at k = Keeps-same outside k (inr (inl refl))
    lookup_step-Keeps claiming at k = Keeps-same claiming k (inr (inl refl))
    lookup_step-Keeps (looking c d) at k = read_bucket-Keeps c d at k
    lookup_step-Keeps (swapping c d) at k = swap_bucket-Keeps c d at k
    lookup_step-Keeps (returned a b answer) at k =
        Keeps-same (returned a b answer) k (inr (inl refl))

    call-Keeps :
        (a b : ℕ) → Keeps (s.dbs, s.regions i, looking (first_bucket s.dbs.table_size a b) 0)
    call-Keeps a b =
        Keeps-same (looking (first_bucket s.dbs.table_size a b) 0)
          ((zero, starts), λ ne. absurd (ne refl)) (inr (inl refl))
      where
        key : ((first_bucket size a b).a ≡ a) × ((first_bucket size a b).b ≡ b)
        key = let k = first_bucket-key size a b in (k.0, k.1)

        begun :
            ProbePath size threshold s.dbs
              (first_bucket size (first_bucket size a b).a (first_bucket size a b).b)
              zero
              (first_bucket size a b)
        begun =
            subst (λ z. ProbePath size threshold s.dbs z zero (first_bucket size a b))
              (λ j. first_bucket size (sym key.0 j) (sym key.1 j)) begins

        starts :
            ProbePath size threshold s.dbs
              (first_bucket size
                (first_bucket s.dbs.table_size a b).a
                (first_bucket s.dbs.table_size a b).b)
              zero
              (first_bucket s.dbs.table_size a b)
        starts =
            subst
              (λ n.
                ProbePath size threshold s.dbs
                  (first_bucket size (first_bucket n a b).a (first_bucket n a b).b) zero
                  (first_bucket n a b))
              (sym h.sized) begun

  LookupStep-Keeps :
      (s : Callers) (i : ℕ) (s' : Callers)
      → IsUniqueTable size threshold s
      → LookupStep s i s'
      → IsUniqueTable size threshold s' × Grows s.dbs s'.dbs
  LookupStep-Keeps s i s' h (call a b rests) = call-Keeps s i h a b
  LookupStep-Keeps s i s' h move = lookup_step-Keeps s i h (s.callers i) refl (h.calls i)

  -- The steps keep what holds of the table, and what has been answered.
  pub Lookups-Keeps :
      (s s' : Callers)
      → IsUniqueTable size threshold s
      → Lookups s s'
      → IsUniqueTable size threshold s' × ((a b d : ℕ) → HasNode s.dbs a b d → HasNode s'.dbs a b d)
  Lookups-Keeps s s' h none_yet = (h, λ a b d has. has)
  Lookups-Keeps s s' h (one_step i r step) =
      let (k, kept) = Lookups-Keeps s _ h r in
      let (k', g) = LookupStep-Keeps _ i _ k step in
      (k', λ a b d has. HasNode-Grows size threshold _ s'.dbs a b d k.used g (kept a b d has))
