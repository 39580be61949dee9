-- ===== src/Table/Lookup/Refines.antt =====
-- A call of llmsset_lookup (src/SylvanWrapper.cpp) is a sequence of steps of its thread.
use mc_sog.Net.{answer}
use mc_sog.Prelude.{
  Bool, Bool-cases, Option, ap, inl, inr, none, refl, some, some_eq, subst, suc, update_self, zero,
  ℕ, ◌*◌, ◌+◌, ◌==◌, ◌∙◌, ◌≡◌,
}
use mc_sog.Table.{Llmsset}
use mc_sog.Table.Claim.{Claimed, bucket, claim_data_bucket, table_full}
use mc_sog.Table.Lookup.{
  After, Caller, Cursor, claim_bucket, claiming, compare_bucket, first_bucket, go_on, is_hit,
  llmsset_lookup, looking, lookup_loop, lookup_step, next_bucket, outside, read_bucket, returned,
  swap_bucket, swapping,
}
use mc_sog.Table.Lookup.Callers.{
  Callers, LookupStep, Lookups, Rests, call, move, moved, none_yet, one_step,
}
use mc_sog.Table.Lookup.Changes.{first_bucket-key}
use mc_sog.Table.Lookup.Probe.{next_bucket-key}

-- The key that a call is for.
abbrev HasKey : ℕ → ℕ → Caller → Type 0
HasKey a b outside = ⊥
HasKey a b claiming = Unit {0}
HasKey a b (looking c d) = (c.a ≡ a) × (c.b ≡ b)
HasKey a b (swapping c d) = (c.a ≡ a) × (c.b ≡ b)
HasKey a b (returned a' b' answer) = (a' ≡ a) × (b' ≡ b)

module _ (a b : ℕ) (s : Llmsset) (region : Option ℕ) (c : Cursor) (d : ℕ)
    (key : (c.a ≡ a) × (c.b ≡ b)) where
  compare_bucket-HasKey : (v : ℕ) → HasKey a b (compare_bucket s region c d v).2
  unfolding compare_bucket
  compare_bucket-HasKey v = elim (Bool-cases (is_hit s c v)) [
    | inl hit ↦ rw hit key
    | inr miss ↦ rw miss (goes_on (next_bucket s.table_size s.threshold c) refl)
  ]
    where
      goes_on :
          (r : Option Cursor)
          → next_bucket s.table_size s.threshold c ≡ r
          → HasKey a b (go_on c d r)
      goes_on none e = key
      goes_on (some c') e =
          let k = next_bucket-key s.table_size s.threshold c c' e in (k.0 ∙ key.0, k.1 ∙ key.1)

  claim_bucket-HasKey : (r : Option Claimed) → HasKey a b (claim_bucket s c r).2
  unfolding claim_bucket
  claim_bucket-HasKey none = tt
  claim_bucket-HasKey (some (table_full s' region')) = key
  claim_bucket-HasKey (some (bucket d' s' region')) = key

  read_bucket-HasKey : HasKey a b (read_bucket s region c d).2
  unfolding read_bucket
  read_bucket-HasKey = elim (Bool-cases (s.table c.idx == 0)) [
    | inr busy ↦ rw busy (compare_bucket-HasKey (s.table c.idx))
    | inl empty ↦ elim (Bool-cases (d == 0)) [
      | inl unclaimed ↦ rw (empty, unclaimed) (claim_bucket-HasKey (claim_data_bucket s region))
      | inr claimed ↦ rw (empty, claimed) key
    ]
  ]

  swap_bucket-HasKey : HasKey a b (swap_bucket s region c d).2
  unfolding swap_bucket
  swap_bucket-HasKey = elim (Bool-cases (s.table c.idx == 0)) [
    | inr busy ↦ rw busy (compare_bucket-HasKey (s.table c.idx))
    | inl empty ↦ rw empty key
  ]

-- Thread `i` has gone through its call, and left the table, its region and the answer.
pub record IsAfter (st : Callers) (i a b : ℕ) (s : Llmsset) (region : Option ℕ)
    (answer : Option (ℕ × Bool)) (st' : Callers) : Type 0 where
  pub steps : Lookups st st'
  pub dbs : st'.dbs ≡ s
  pub in_region : st'.regions i ≡ region
  pub caller : st'.callers i ≡ returned a b answer

pub Lookups-trans : {s s' s'' : Callers} → Lookups s s' → Lookups s' s'' → Lookups s s''
Lookups-trans r none_yet = r
Lookups-trans r (one_step i q step) = one_step i (Lookups-trans r q) step

module _ (i a b : ℕ) (s : Llmsset) (region : Option ℕ) (answer : Option (ℕ × Bool)) where
  abbrev pub ComesTo : Callers → Type 0
  ComesTo st = (st' : Callers) × IsAfter st i a b s region answer st'

  after_step : (st st' : Callers) → LookupStep st i st' → ComesTo st' → ComesTo st
  after_step st st' step (st'', h) = (
    st'',
    record {
      steps = Lookups-trans (one_step i none_yet step) h.steps;
      dbs = h.dbs;
      in_region = h.in_region;
      caller = h.caller;
    },
  )

  -- The next step of a thread that is in a call.
  moves :
      (st : Callers) (x : Caller) (r : After)
      → st.callers i ≡ x
      → lookup_step st.dbs (st.regions i) x ≡ r
      → LookupStep st i (moved st i r)
  moves st x r at e =
      subst (λ r. LookupStep st i (moved st i r)) (ap (lookup_step st.dbs (st.regions i)) at ∙ e)
        move

  lookup_loop-ComesTo :
      (fuel : ℕ) (st : Callers) (x : Caller)
      → st.callers i ≡ x
      → HasKey a b x
      → lookup_loop fuel (st.dbs, st.regions i, x) ≡ some (s, region, answer)
      → ComesTo st
  unfolding lookup_loop
  lookup_loop-ComesTo zero st x at key e = cc
  lookup_loop-ComesTo (suc fuel) st outside at key e = absurd key
  lookup_loop-ComesTo (suc fuel) st claiming at key e = cc
  lookup_loop-ComesTo (suc fuel) st (returned a' b' r) at key e =
      let same = some_eq e in
      (
        st,
        record {
          steps = none_yet;
          dbs = ap (λ x. x.0) same;
          in_region = ap (λ x. x.1) same;
          caller = at ∙ (λ j. returned (key.0 j) (key.1 j) (same j).2);
        },
      )
  lookup_loop-ComesTo (suc fuel) st (looking c d) at key e =
      let r = read_bucket st.dbs (st.regions i) c d in
      after_step st (moved st i r) (moves st (looking c d) r at refl) (
        lookup_loop-ComesTo fuel (moved st i r) r.2 (update_self st.callers i r.2)
          (read_bucket-HasKey a b st.dbs (st.regions i) c d key)
          (rw (update_self st.regions i r.1) e))
  lookup_loop-ComesTo (suc fuel) st (swapping c d) at key e =
      let r = swap_bucket st.dbs (st.regions i) c d in
      after_step st (moved st i r) (moves st (swapping c d) r at refl) (
        lookup_loop-ComesTo fuel (moved st i r) r.2 (update_self st.callers i r.2)
          (swap_bucket-HasKey a b st.dbs (st.regions i) c d key)
          (rw (update_self st.regions i r.1) e))

  pub llmsset_lookup_refines :
      (st : Callers)
      → Rests (st.callers i)
      → llmsset_lookup st.dbs (st.regions i) a b ≡ some (s, region, answer)
      → ComesTo st
  unfolding llmsset_lookup
  llmsset_lookup_refines st rests e =
      let x = looking (first_bucket st.dbs.table_size a b) 0 in
      let key = first_bucket-key st.dbs.table_size a b in
      after_step st (moved st i (st.dbs, st.regions i, x)) (call a b rests) (
        lookup_loop-ComesTo (16 * st.dbs.threshold + 1) (moved st i (st.dbs, st.regions i, x)) x
          (update_self st.callers i x) (key.0, key.1)
          (rw (update_self st.regions i (st.regions i)) e))
