-- ===== src/Table/Lookup/Changes.antt =====
-- The changes that a step of llmsset_lookup (src/SylvanWrapper.cpp) makes to the table.
use mc_sog.Ldd.Tree.{size}
use mc_sog.Prelude.{
  ==_iff, Bool, Bool-cases, Option, ap, arith, false, inl, inr, none, refl, some, subst, sym, true,
  update, update_self, ℕ, ◌%◌, ◌+◌, ◌<◌, ◌==◌, ◌^◌, ◌∙◌, ◌≡◌, ◌≢◌, ◌≤◌, ◌⊎◌,
}
use mc_sog.Table.{Llmsset, hash_of, index_of}
use mc_sog.Table.Claim.Correct.{IsClaim, IsRegion}
use mc_sog.Table.Lookup.{Caller, Cursor, first_bucket, llmsset_hash, returned, swapping}
use mc_sog.Table.Lookup.Callers.{Callers}
use mc_sog.Table.Lookup.Moves.{
  HasNode, IsCaller, IsMove, IsPlaced, IsUnderway, IsUnderway-Grows, IsUniqueTable, Owns, owned,
}
use mc_sog.Table.Lookup.Probe.{Grows, ProbePath-Grows, ProbePath-key}

index_of-add : (h d : ℕ) → d < 2 ^ 40 → index_of (hash_of h + d) ≡ d
index_of-add h d lt = omega arith

hash_of-add : (h d : ℕ) → d < 2 ^ 40 → hash_of (hash_of h + d) ≡ hash_of h
hash_of-add h d lt = omega arith

pub first_bucket-key :
    (size a b : ℕ)
    → ((first_bucket size a b).a ≡ a)
      × ((first_bucket size a b).b ≡ b)
      × ((h : ℕ) × ((first_bucket size a b).hash ≡ hash_of h))
unfolding first_bucket
first_bucket-key size a b = (refl, refl, (llmsset_hash a b 14695981039346656037, refl))

module _ (size threshold : ℕ) (s : Callers) (i : ℕ) (h : IsUniqueTable size threshold s) where
  -- No change of the table.
  pub same-IsMove :
      (region : Option ℕ) (x : Caller)
      → IsRegion size region
      → IsCaller size threshold s.dbs x
      → (owned x ≡ owned (s.callers i)) ⊎ (owned x ≡ 0) ⊎ (s.dbs.bitmap2 (owned x) ≡ false)
      → IsMove size threshold s i s.dbs region x
  same-IsMove region x owner caller keeps = record {
    sized = h.sized;
    limited = h.limited;
    reserved = h.reserved;
    grows = record { buckets = λ idx busy. refl; slots = λ d u. refl };
    bits = λ d u ne. u;
    fresh = λ idx busy. inl busy;
    used = h.used;
    placed = h.placed;
    owner = owner;
    caller = caller;
    keeps = keeps;
  }

  -- A region is claimed in vain.
  pub full-IsMove :
      (t : Llmsset) (region : Option ℕ) (a b : ℕ)
      → t ≡ record s.dbs { bitmap1 = t.bitmap1 }
      → IsRegion size region
      → IsMove size threshold s i t region (returned a b none)
  full-IsMove t region a b e owner =
      subst (λ u. IsMove size threshold s i u region (returned a b none)) (sym e)
        (record {
          sized = h.sized;
          limited = h.limited;
          reserved = h.reserved;
          grows = g;
          bits = λ d u ne. u;
          fresh = λ idx busy. inl busy;
          used = h.used;
          placed = λ idx busy.
              let (n, p, path, at, hash) = h.placed idx busy in
              (n, p, ProbePath-Grows size threshold s.dbs _ _ h.used g path, at, hash);
          owner = owner;
          caller = tt;
          keeps = inr (inl refl);
        })
    where
      g : Grows s.dbs (record s.dbs { bitmap1 = t.bitmap1 })
      g = record { buckets = λ idx busy. refl; slots = λ d u. refl }

  -- The claimed slot is given back.
  module _ (c : Cursor) (d : ℕ) (mine : d ≡ owned (s.callers i)) (o : Owns s.dbs c d) where
    abbrev freed : Llmsset
    freed = record s.dbs { bitmap2 = update s.dbs.bitmap2 d false }

    freed_bit : (e : ℕ) → e ≢ d → freed.bitmap2 e ≡ s.dbs.bitmap2 e
    freed_bit e ne = ground arith

    freed-Grows : Grows s.dbs freed
    freed-Grows = record { buckets = λ idx busy. refl; slots = λ e u. refl }

    pub freed-IsMove :
        (region : Option ℕ) (a b e : ℕ) (created : Bool)
        → IsRegion size region
        → HasNode s.dbs a b e
        → IsMove size threshold s i freed region (returned a b (some (e, created)))
    freed-IsMove region a b e created owner has = record {
      sized = h.sized;
      limited = h.limited;
      reserved = freed_bit 0 (λ z. o.real (sym z)) ∙ h.reserved;
      grows = freed-Grows;
      bits = λ f u ne. freed_bit f (λ z. ne (z ∙ mine)) ∙ u;
      fresh = λ idx busy. inl busy;
      used = λ idx busy. freed_bit _ (o.private idx busy) ∙ h.used idx busy;
      placed = λ idx busy.
          let (n, p, path, at, hash) = h.placed idx busy in
          (n, p, ProbePath-Grows size threshold s.dbs freed _ h.used freed-Grows path, at, hash);
      owner = owner;
      caller = has;
      keeps = inr (inl refl);
    }

  -- A free slot is claimed, and the key is written to it.
  module _ (small : size ≤ 2 ^ 40) (c : Cursor) (d : ℕ) (s' : Llmsset) (region : Option ℕ)
      (k : IsClaim s.dbs d s' region) (under : IsUnderway size threshold s.dbs c) where
    abbrev written : Llmsset
    written = record s' { data_words = update s'.data_words d (c.a, c.b) }

    table_same : (idx : ℕ) → written.table idx ≡ s.dbs.table idx
    table_same idx = ap (λ f. f idx) k.same_table

    bit_same : (e : ℕ) → s.dbs.bitmap2 e ≡ true → written.bitmap2 e ≡ true
    bit_same e u = ap (λ f. f e) k.taken ∙ ground arith

    written-Grows : Grows s.dbs written
    written-Grows = record {
      buckets = λ idx busy. table_same idx;
      slots = λ e u. other e (λ z. cc (k.free, subst (λ j. s.dbs.bitmap2 j ≡ true) z u));
    }
      where
        other : (e : ℕ) → e ≢ d → written.data_words e ≡ s.dbs.data_words e
        other e ne =
            let unlike : (e == d) ≡ false = ground arith in rw unlike (ap (λ f. f e) k.same_data)

    busy_before : (idx : ℕ) → written.table idx ≢ 0 → s.dbs.table idx ≢ 0
    busy_before idx busy z = busy (table_same idx ∙ z)

    used_slot :
        (idx : ℕ) → s.dbs.table idx ≢ 0 → s.dbs.bitmap2 (index_of (written.table idx)) ≡ true
    used_slot idx busy =
        subst (λ v. s.dbs.bitmap2 (index_of v) ≡ true) (sym (table_same idx)) (h.used idx busy)

    written-IsPlaced : (idx : ℕ) → s.dbs.table idx ≢ 0 → IsPlaced size threshold written idx
    written-IsPlaced idx busy =
        let (n, p, path, at, hash) = h.placed idx busy in
        let data_same = written-Grows.slots _ (h.used idx busy) in
        (
          n,
          p,
          rw (table_same idx, data_same)
              (ProbePath-Grows size threshold s.dbs written _ h.used written-Grows path),
          at,
          rw (table_same idx) hash,
        )

    pub written-IsMove : IsMove size threshold s i written region (swapping c d)
    written-IsMove = record {
      sized = k.same_size ∙ h.sized;
      limited = k.same_threshold ∙ h.limited;
      reserved = bit_same 0 h.reserved;
      grows = written-Grows;
      bits = λ e u ne. bit_same e u;
      fresh = λ idx busy. inl (busy_before idx busy);
      used = λ idx busy. bit_same _ (used_slot idx (busy_before idx busy));
      placed = λ idx busy. written-IsPlaced idx (busy_before idx busy);
      owner = subst (λ z. IsRegion z region) h.sized k.owned;
      caller = (
        IsUnderway-Grows size threshold s.dbs written c h.used written-Grows under,
        record {
          real = λ z. cc (h.reserved, subst (λ j. s.dbs.bitmap2 j ≡ false) z k.free);
          used = ap (λ f. f d) k.taken ∙ update_self s.dbs.bitmap2 d true;
          small = omega (arith, k.within, h.sized);
          holds = update_self s'.data_words d (c.a, c.b);
          private = λ idx busy e. cc (
            k.free,
            subst (λ j. s.dbs.bitmap2 j ≡ true) e (used_slot idx (busy_before idx busy)),
          );
        },
      );
      keeps = inr (inr k.free);
    }

  -- The claimed slot is put into the empty bucket.
  module _ (c : Cursor) (d : ℕ) (mine : d ≡ owned (s.callers i)) (o : Owns s.dbs c d)
      (under : IsUnderway size threshold s.dbs c) (empty : s.dbs.table c.idx ≡ 0) where
    abbrev published : Llmsset
    published = record s.dbs {
      table = update s.dbs.table c.idx (c.hash + d);
      g_created = (s.dbs.g_created + 1) % 2 ^ 32;
    }

    word : (index_of (c.hash + d) ≡ d) × (hash_of (c.hash + d) ≡ c.hash)
    word =
        let (n, path) = under in
        let (a, b, (w, at)) = first_bucket-key size c.a c.b in
        let is_hash : c.hash ≡ hash_of w = (ProbePath-key size threshold s.dbs _ path).2 ∙ at in
        (rw is_hash (index_of-add w d o.small), rw is_hash (hash_of-add w d o.small))

    published_at : published.table c.idx ≡ c.hash + d
    published_at = update_self s.dbs.table c.idx (c.hash + d)

    published_other : (idx : ℕ) → (idx == c.idx) ≡ false → published.table idx ≡ s.dbs.table idx
    published_other idx ne = rw ne

    published-Grows : Grows s.dbs published
    published-Grows = record {
      buckets = λ idx busy. published_other idx (not_empty idx busy);
      slots = λ e u. refl;
    }
      where
        not_empty : (idx : ℕ) → s.dbs.table idx ≢ 0 → (idx == c.idx) ≡ false
        not_empty idx busy = elim (Bool-cases (idx == c.idx)) [
          | inl same ↦
              absurd (busy (subst (λ j. s.dbs.table j ≡ 0) (sym ((==_iff idx c.idx).0 same)) empty))
          | inr other ↦ other
        ]

    abbrev IsShown : ℕ → Type 0
    IsShown idx =
        ((s.dbs.table idx ≢ 0) ⊎ (index_of (published.table idx) ≡ owned (s.callers i)))
        × (s.dbs.bitmap2 (index_of (published.table idx)) ≡ true)
        × IsPlaced size threshold published idx

    shows_old : (idx : ℕ) → (idx == c.idx) ≡ false → published.table idx ≢ 0 → IsShown idx
    shows_old idx ne busy =
        let same = published_other idx ne in
        let busy' : s.dbs.table idx ≢ 0 = λ z. busy (same ∙ z) in
        let (n, p, path, at, hash) = h.placed idx busy' in
        (
          inl busy',
          rw same (h.used idx busy'),
          (
            n,
            p,
            rw same (ProbePath-Grows size threshold s.dbs published _ h.used published-Grows path),
            at,
            rw same hash,
          ),
        )

    shows_new : IsShown c.idx
    shows_new =
        let (n, path) = under in
        (
          inr (rw published_at (word.0 ∙ mine)),
          rw (published_at, word.0) o.used,
          (
            n,
            c,
            rw (published_at, word.0, o.holds)
                (ProbePath-Grows size threshold s.dbs published _ h.used published-Grows path),
            refl,
            rw published_at (sym word.1),
          ),
        )

    shows : (idx : ℕ) → published.table idx ≢ 0 → IsShown idx
    shows idx busy = elim (Bool-cases (idx == c.idx)) [
      | inl same ↦ subst IsShown (sym ((==_iff idx c.idx).0 same)) shows_new
      | inr other ↦ shows_old idx other busy
    ]

    pub published-IsMove :
        (region : Option ℕ)
        → IsRegion size region
        → IsMove size threshold s i published region (returned c.a c.b (some (d, true)))
    published-IsMove region owner = record {
      sized = h.sized;
      limited = h.limited;
      reserved = h.reserved;
      grows = published-Grows;
      bits = λ e u ne. u;
      fresh = λ idx busy. (shows idx busy).0;
      used = λ idx busy. (shows idx busy).1;
      placed = λ idx busy. (shows idx busy).2;
      owner = owner;
      caller = (
        c.idx,
        (λ z. o.real (sym word.0 ∙ ap index_of (sym published_at ∙ z))),
        rw published_at word.0,
        o.holds,
      );
      keeps = inr (inl refl);
    }
