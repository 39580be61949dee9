-- ===== src/Ldd/Fire/Correct.antt =====
-- lddmc_firing_mono (src/SylvanWrapper.cpp) and the image of a set of markings.
use mc_sog.Ldd.Fire.{fire_chain, fire_entry, fire_value, lddmc_firing_mono}
use mc_sog.Ldd.Fire.Chain.{IsFired, IsFired-done, chain-IsFired}
use mc_sog.Ldd.Fire.Image.{Fires, IsImage, cube-node}
use mc_sog.Ldd.Fire.Value.{fire_value-IsAdded}
use mc_sog.Ldd.Tree.{IsIndex, IsLdd, Ldd, lddmc_cube, lddmc_false, lddmc_true, mem, node}
use mc_sog.Prelude.{
  List, [], arith, inl, inr, length, refl, subst, suc, true, zero, ℕ, ◌∷◌, ◌≡◌, ◌≢◌,
}

module _ (index : Ldd → ℕ) (ok : IsIndex index) where
  IsFired-IsImage :
      (k : ℕ) (c : Ldd) (pre post : List ℕ) (u : Ldd)
      → IsFired k c pre post lddmc_false u
      → IsImage k c pre post u
  IsFired-IsImage k c pre post u h = record {
    formed = h.formed;
    only = λ m inside. elim (h.only m inside) [ inl old ↦ cc | inr image ↦ image ];
    all = h.adds;
  }

  IsImage-none : (k : ℕ) (pre post : List ℕ) → IsImage k lddmc_false pre post lddmc_false
  IsImage-none k pre post = record {
    formed = tt;
    only = λ m inside. cc;
    all = λ m (m', nowhere, f). nowhere;
  }

  -- The two cubes of a transition, at the terminal tests of the code.
  entry_cubes :
      (v : ℕ) (d r : Ldd) (pre post : List ℕ) (chain : Ldd)
      → fire_entry (node v d r) (lddmc_cube pre) (lddmc_cube post) chain ≡ chain
  unfolding fire_entry
  entry_cubes v d r [] [] chain = unfold lddmc_cube in refl
  entry_cubes v d r [] (q ∷ post) chain = rw (cube-node q post) (unfold lddmc_cube in refl)
  entry_cubes v d r (p ∷ pre) [] chain = rw (cube-node p pre) (unfold lddmc_cube in refl)
  entry_cubes v d r (p ∷ pre) (q ∷ post) chain = rw (cube-node p pre, cube-node q post)

  entry_true-IsImage :
      (pre post : List ℕ)
      → length pre ≡ 0
      → length post ≡ 0
      → IsImage 0 lddmc_true pre post lddmc_true
  entry_true-IsImage [] [] hp hq = record {
    formed = tt;
    only = λ m inside. ([], refl, nowhere m inside);
    all = λ m' (m, inside, f). full m m' inside f;
  }
    where
      nowhere : (m : List ℕ) → mem lddmc_true m ≡ true → Fires [] [] [] m
      nowhere [] h = tt
      nowhere (x ∷ m) h = cc

      full : (m m' : List ℕ) → mem lddmc_true m ≡ true → Fires [] [] m m' → mem lddmc_true m' ≡ true
      full m [] h f = refl
      full [] (y ∷ m') h f = absurd f
      full (x ∷ m) (y ∷ m') h f = cc
  entry_true-IsImage (p ∷ pre) post hp hq = absurd (omega arith)
  entry_true-IsImage [] (q ∷ post) hp hq = absurd (omega arith)

  entry-IsImage :
      (k : ℕ) (c : Ldd) (pre post : List ℕ) (chain : Ldd)
      → length pre ≡ k
      → length post ≡ k
      → IsLdd k c
      → (c ≢ lddmc_true → IsFired k c pre post lddmc_false chain)
      → IsImage k c pre post (fire_entry c (lddmc_cube pre) (lddmc_cube post) chain)
  entry-IsImage k lddmc_false pre post chain hp hq hc h =
      unfold fire_entry in IsImage-none k pre post
  entry-IsImage zero lddmc_true pre post chain hp hq hc h =
      unfold fire_entry in entry_true-IsImage pre post hp hq
  entry-IsImage (suc k) lddmc_true pre post chain hp hq hc h = absurd hc
  entry-IsImage k (node v d r) pre post chain hp hq hc h =
      rw (entry_cubes v d r pre post chain)
        (IsFired-IsImage k (node v d r) pre post chain (h (λ e. cc)))

  chain_cubes :
      (v p q : ℕ) (d r : Ldd) (ps qs : List ℕ) (result : Ldd)
      → fire_chain index (node v d r) (lddmc_cube (p ∷ ps)) (lddmc_cube (q ∷ qs)) result
        ≡ fire_chain index r (lddmc_cube (p ∷ ps)) (lddmc_cube (q ∷ qs)) (
            fire_value index v p q
              (fire_entry d
                (lddmc_cube ps)
                (lddmc_cube qs)
                (fire_chain index d (lddmc_cube ps) (lddmc_cube qs) lddmc_false))
              result)
  unfolding fire_chain
  chain_cubes v p q d r ps qs result = rw (cube-node p ps, cube-node q qs)

  fire_chain_node :
      (k v p q : ℕ) (ps qs : List ℕ) (d r result : Ldd)
      → length ps ≡ k
      → length qs ≡ k
      → IsLdd (suc k) (node v d r)
      → IsLdd (suc k) result
      → (d ≢ lddmc_true
          → IsFired k d ps qs lddmc_false
              (fire_chain index d (lddmc_cube ps) (lddmc_cube qs) lddmc_false))
      → ((next : Ldd)
          → IsLdd (suc k) next
          → IsFired
              (suc k)
              r
              (p ∷ ps)
              (q ∷ qs)
              next
              (fire_chain index r (lddmc_cube (p ∷ ps)) (lddmc_cube (q ∷ qs)) next))
      → IsFired
          (suc k)
          (node v d r)
          (p ∷ ps)
          (q ∷ qs)
          result
          (fire_chain index (node v d r) (lddmc_cube (p ∷ ps)) (lddmc_cube (q ∷ qs)) result)
  fire_chain_node k v p q ps qs d r result hp hq hc hr below later =
      let image = entry-IsImage k d ps qs _ hp hq hc.1 below in
      let added = fire_value-IsAdded index ok k v p q _ result image.formed hr in
      rw (chain_cubes v p q d r ps qs result)
        (chain-IsFired k v p q ps qs d r _ result _ _ hc.2 image added (later _ added.formed))

  fire_chain-IsFired :
      (k : ℕ) (c : Ldd) (pre post : List ℕ) (result : Ldd)
      → length pre ≡ k
      → length post ≡ k
      → IsLdd k c
      → IsLdd k result
      → c ≢ lddmc_true
      → IsFired k c pre post result (fire_chain index c (lddmc_cube pre) (lddmc_cube post) result)
  unfolding fire_chain
  fire_chain-IsFired k lddmc_false pre post result hp hq hc hr nt =
      IsFired-done k pre post result hr
  fire_chain-IsFired k lddmc_true pre post result hp hq hc hr nt = absurd (nt refl)
  fire_chain-IsFired zero (node v d r) pre post result hp hq hc hr nt = absurd hc
  fire_chain-IsFired (suc k) (node v d r) [] post result hp hq hc hr nt = absurd (omega arith)
  fire_chain-IsFired (suc k) (node v d r) (p ∷ pre) [] result hp hq hc hr nt = absurd (omega arith)
  fire_chain-IsFired (suc k) (node v d r) (p ∷ pre) (q ∷ post) result hp hq hc hr nt =
      fire_chain_node k v p q pre post d r result (omega arith) (omega arith) hc hr
        (fire_chain-IsFired k d pre post lddmc_false (omega arith) (omega arith) hc.1 tt)
        (λ next hn.
          fire_chain-IsFired (suc k) r (p ∷ pre) (q ∷ post) next hp hq hc.2 hn
            (λ e. subst (IsLdd (suc k)) e hc.2))

  -- `lddmc_firing_mono` of a well-formed tree over k places and the cubes of a transition's k
  -- input and k output weights is a well-formed tree over k places, and its markings are exactly
  -- those to which the transition leads from a marking of the tree.
  pub lddmc_firing_mono-IsImage :
      (k : ℕ) (c : Ldd) (pre post : List ℕ)
      → length pre ≡ k
      → length post ≡ k
      → IsLdd k c
      → IsImage k c pre post (lddmc_firing_mono index c (lddmc_cube pre) (lddmc_cube post))
  unfolding lddmc_firing_mono
  lddmc_firing_mono-IsImage k c pre post hp hq hc =
      entry-IsImage k c pre post _ hp hq hc
        (fire_chain-IsFired k c pre post lddmc_false hp hq hc tt)
