-- ===== src/Table/Lookup/Probe.antt =====
-- The buckets that a call of llmsset_lookup (src/SylvanWrapper.cpp) passes.
use mc_sog.Ldd.Tree.{size}
use mc_sog.Prelude.{
  Bool-cases, ap, arith, false, inl, inr, lt_cases, refl, some, some_eq, subst, suc, sym, true,
  zero, ℕ, ◌+◌, ◌<◌, ◌==◌, ◌∙◌, ◌≡◌, ◌≢◌,
}
use mc_sog.Table.{Llmsset, index_of}
use mc_sog.Table.Lookup.{Cursor, is_hit, next_bucket, next_in_line}

-- The bucket is in use, and not for the key.
abbrev pub Misses : Llmsset → Cursor → Type 0
Misses s c = (s.table c.idx ≢ 0) × (is_hit s c (s.table c.idx) ≡ false)

-- The call with the variables `c0` before its loop comes to `c` after `n` buckets that are for
-- other keys.
pub data ProbePath (size threshold : ℕ) (s : Llmsset) (c0 : Cursor) : ℕ → Cursor → Type 0 where
  begins : ProbePath size threshold s c0 zero c0
  passes :
      {n : ℕ} {c c' : Cursor}
      → ProbePath size threshold s c0 n c
      → Misses s c
      → next_bucket size threshold c ≡ some c'
      → ProbePath size threshold s c0 (suc n) c'

pub next_bucket-key :
    (size threshold : ℕ) (c c' : Cursor)
    → next_bucket size threshold c ≡ some c'
    → (c'.a ≡ c.a) × (c'.b ≡ c.b) × (c'.hash ≡ c.hash)
unfolding next_bucket
next_bucket-key size threshold c c' e = elim (Bool-cases (next_in_line c.idx == c.last)) [
  | inl wraps ↦ elim (Bool-cases (c.i + 1 == threshold)) [
    | inl over ↦ cc (rw over at (rw wraps at e))
    | inr more ↦
        let e0 = some_eq (rw more at (rw wraps at e)) in
        (sym (ap (λ x. x.a) e0), sym (ap (λ x. x.b) e0), sym (ap (λ x. x.hash) e0))
  ]
  | inr same ↦
      let e' = some_eq (rw same at e) in
      (sym (ap (λ x. x.a) e'), sym (ap (λ x. x.b) e'), sym (ap (λ x. x.hash) e'))
]

-- `s'` has the used buckets of `s`, and the data of its used slots.
pub record Grows (s s' : Llmsset) : Type 0 where
  pub buckets : (idx : ℕ) → s.table idx ≢ 0 → s'.table idx ≡ s.table idx
  pub slots : (d : ℕ) → s.bitmap2 d ≡ true → s'.data_words d ≡ s.data_words d

-- The slots that the buckets name are used.
abbrev pub AreUsed : Llmsset → Type 0
AreUsed s = (idx : ℕ) → s.table idx ≢ 0 → s.bitmap2 (index_of (s.table idx)) ≡ true

pub Misses-Grows : (s s' : Llmsset) (c : Cursor) → AreUsed s → Grows s s' → Misses s c → Misses s' c
unfolding is_hit
Misses-Grows s s' c used g (busy, miss) =
    let same = g.buckets c.idx busy in
    let data_same = g.slots (index_of (s.table c.idx)) (used c.idx busy) in
    (λ e. busy (sym same ∙ e), rw (same, data_same) miss)

module _ (size threshold : ℕ) where
  pub ProbePath-Grows :
      (s s' : Llmsset) (c0 : Cursor) {n : ℕ} {c : Cursor}
      → AreUsed s
      → Grows s s'
      → ProbePath size threshold s c0 n c
      → ProbePath size threshold s' c0 n c
  ProbePath-Grows s s' c0 used g begins = begins
  ProbePath-Grows s s' c0 used g (passes p miss e) =
      passes (ProbePath-Grows s s' c0 used g p) (Misses-Grows s s' _ used g miss) e

  pub ProbePath-key :
      (s : Llmsset) (c0 : Cursor) {n : ℕ} {c : Cursor}
      → ProbePath size threshold s c0 n c
      → (c.a ≡ c0.a) × (c.b ≡ c0.b) × (c.hash ≡ c0.hash)
  ProbePath-key s c0 begins = (refl, refl, refl)
  ProbePath-key s c0 (passes p miss e) =
      let (a, b, h) = ProbePath-key s c0 p in
      let (a', b', h') = next_bucket-key size threshold _ _ e in (a' ∙ a, b' ∙ b, h' ∙ h)

  pub ProbePath-unique :
      (s : Llmsset) (c0 : Cursor) {n : ℕ} {c c' : Cursor}
      → ProbePath size threshold s c0 n c
      → ProbePath size threshold s c0 n c'
      → c ≡ c'
  ProbePath-unique s c0 begins begins = refl
  ProbePath-unique s c0 (passes p miss e) (passes p' miss' e') =
      let same = ProbePath-unique s c0 p p' in
      some_eq (sym e ∙ ap (next_bucket size threshold) same ∙ e')

  -- What comes before the end of a path is a miss.
  pub ProbePath-before :
      (s : Llmsset) (c0 : Cursor) {n m : ℕ} {c c' : Cursor}
      → ProbePath size threshold s c0 m c'
      → n < m
      → ProbePath size threshold s c0 n c
      → Misses s c
  ProbePath-before s c0 begins lt q = absurd (omega arith)
  ProbePath-before s c0 {n = n} {m = suc m} {c = c} (passes p miss e) lt q = elim (lt_cases n m) [
    | inl before ↦ ProbePath-before s c0 p before q
    | inr (inl at) ↦
        subst (Misses s)
          (ProbePath-unique s c0 p (subst (λ k. ProbePath size threshold s c0 k c) at q)) miss
    | inr (inr after) ↦ absurd (omega arith)
  ]
