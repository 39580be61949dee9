-- ===== src/Sog/Ample/Reverse.antt =====
-- The images under the transitions of a net with the two sides exchanged, and where no value
-- wraps around.
use Prim.Native.Nat.{◌^◌}
use mc_sog.Ldd.Fire.{u32}
use mc_sog.Ldd.Fire.Image.{Fires}
use mc_sog.Ldd.Tree.{Ldd}
use mc_sog.Prelude.{
  List, [], ap, arith, length, refl, subst, suc, sym, zero, ℕ, ◌+◌, ◌-◌, ◌<◌, ◌^◌, ◌∙◌, ◌∷◌, ◌≡◌,
}
use mc_sog.Sog.{get_pred, get_successor, image_among, relation_at}
use mc_sog.Sog.Ample.{preimage_among}
use mc_sog.Sog.System.{AreSized, Step, Weights, by, loaded, relation_of, weights_at}

abbrev pub swapped : List Weights → List Weights
swapped [] = []
swapped (w ∷ ws) = record { pre = w.post; post = w.pre } ∷ swapped ws

pub length-swapped : (ws : List Weights) → length (swapped ws) ≡ length ws
length-swapped [] = refl
length-swapped (w ∷ ws) = ap suc (length-swapped ws)

pub swapped-AreSized : (k : ℕ) (ws : List Weights) → AreSized k ws → AreSized k (swapped ws)
swapped-AreSized k [] h = tt
swapped-AreSized k (w ∷ ws) h = (h.1, h.0, swapped-AreSized k ws h.2)

weights_at-swapped :
    (ws : List Weights) (i : ℕ)
    → (weights_at (swapped ws) i
        ≡ record { pre = (weights_at ws i).post; post = (weights_at ws i).pre })
weights_at-swapped [] i = refl
weights_at-swapped (w ∷ ws) zero = refl
weights_at-swapped (w ∷ ws) (suc i) = weights_at-swapped ws i

relation_at-swapped :
    (ws : List Weights) (eps obs : List ℕ) (i : ℕ)
    → (relation_at (loaded (swapped ws) eps obs) i).minus ≡ (relation_at (loaded ws eps obs) i).plus
relation_at-swapped [] eps obs i = refl
relation_at-swapped (w ∷ ws) eps obs zero = unfold relation_of in refl
relation_at-swapped (w ∷ ws) eps obs (suc i) = relation_at-swapped ws eps obs i

swapped-relation_at :
    (ws : List Weights) (eps obs : List ℕ) (i : ℕ)
    → (relation_at (loaded (swapped ws) eps obs) i).plus ≡ (relation_at (loaded ws eps obs) i).minus
swapped-relation_at [] eps obs i = refl
swapped-relation_at (w ∷ ws) eps obs zero = unfold relation_of in refl
swapped-relation_at (w ∷ ws) eps obs (suc i) = swapped-relation_at ws eps obs i

module _ (index : Ldd → ℕ) (ws : List Weights) (eps obs : List ℕ) where
  get_pred-swapped :
      (c : Ldd) (i : ℕ)
      → get_pred index (loaded ws eps obs) c i
        ≡ get_successor index (loaded (swapped ws) eps obs) c i
  unfolding get_pred get_successor
  get_pred-swapped c i =
      rw (relation_at-swapped ws eps obs i, swapped-relation_at ws eps obs i) refl

  pub preimage_among-swapped :
      (is : List ℕ) (img pre : Ldd)
      → preimage_among index (loaded ws eps obs) img pre is
        ≡ image_among index (loaded (swapped ws) eps obs) img pre is
  unfolding preimage_among image_among
  preimage_among-swapped [] img pre = refl
  preimage_among-swapped (i ∷ is) img pre =
      rw (get_pred-swapped img i) (preimage_among-swapped is img _)

-- Numbers for which adding two and taking one away does not wrap around.
abbrev pub AreSmall : ℕ → List ℕ → Type 0
AreSmall n [] = Unit {0}
AreSmall n (x ∷ xs) = (x < n) × AreSmall n xs

u32_small : (n : ℕ) → n < 2 ^ 32 → u32 n ≡ n
u32_small n lt = omega arith

Fires-AreSmall :
    (pre post m m' : List ℕ)
    → AreSmall (2 ^ 30) post
    → AreSmall (2 ^ 30) m
    → Fires pre post m m'
    → AreSmall (2 ^ 31) m'
Fires-AreSmall pre post m [] hq hm f = tt
Fires-AreSmall [] post m (y ∷ m') hq hm f = absurd (no_place post m f)
  where
    no_place : (post m : List ℕ) → Fires [] post m (y ∷ m') → ⊥
    no_place [] [] f = f
    no_place [] (x ∷ m) f = f
    no_place (q ∷ post) m f = f
Fires-AreSmall (p ∷ pre) [] m (y ∷ m') hq hm f = absurd f
Fires-AreSmall (p ∷ pre) (q ∷ post) [] (y ∷ m') hq hm f = absurd f
Fires-AreSmall (p ∷ pre) (q ∷ post) (x ∷ m) (y ∷ m') hq hm f = (
  subst (λ z. z < 2 ^ 31) (sym (f.1 ∙ u32_small (x - p + q) (omega (arith, hq.0, hm.0))))
      (omega (arith, hq.0, hm.0)),
  Fires-AreSmall pre post m m' hq.1 hm.1 f.2,
)

-- The reverse of a transition leads to markings that enable it.
Fires-back :
    (pre post m m' : List ℕ)
    → AreSmall (2 ^ 30) pre
    → AreSmall (2 ^ 31) m'
    → Fires post pre m' m
    → (m'' : List ℕ) × Fires pre post m m''
Fires-back [] [] [] [] hp hm f = ([], tt)
Fires-back (p ∷ pre) (q ∷ post) (x ∷ m) (y ∷ m') hp hm f =
    let (m'', rest) = Fires-back pre post m m' hp.1 hm.1 f.2 in
    let e = f.1 ∙ u32_small (y - q + p) (omega (arith, hp.0, hm.0)) in
    (u32 (x - p + q) ∷ m'', (omega (arith, e), refl, rest))
Fires-back [] [] [] (y ∷ m') hp hm f = absurd f
Fires-back [] [] (x ∷ m) [] hp hm f = absurd f
Fires-back [] [] (x ∷ m) (y ∷ m') hp hm f = absurd f
Fires-back [] (q ∷ post) m m' hp hm f = absurd f
Fires-back (p ∷ pre) [] m m' hp hm f = absurd f
Fires-back (p ∷ pre) (q ∷ post) [] [] hp hm f = absurd f
Fires-back (p ∷ pre) (q ∷ post) [] (y ∷ m') hp hm f = absurd f
Fires-back (p ∷ pre) (q ∷ post) (x ∷ m) [] hp hm f = absurd f

-- The reverse takes a step back.
Fires-reverse :
    (pre post m m' : List ℕ)
    → AreSmall (2 ^ 30) post
    → AreSmall (2 ^ 30) m
    → Fires pre post m m'
    → Fires post pre m' m
Fires-reverse [] [] [] [] hq hm f = tt
Fires-reverse (p ∷ pre) (q ∷ post) (x ∷ m) (y ∷ m') hq hm f =
    let e = f.1 ∙ u32_small (x - p + q) (omega (arith, hq.0, hm.0)) in
    (
      omega (arith, e),
      sym (
          ap (λ z. u32 (z - q + p)) e
          ∙ u32_small (x - p + q - q + p) (omega (arith, hq.0, hm.0))
          ∙ omega (arith, f.0)),
      Fires-reverse pre post m m' hq.1 hm.1 f.2,
    )
Fires-reverse [] [] [] (y ∷ m') hq hm f = absurd f
Fires-reverse [] [] (x ∷ m) m' hq hm f = absurd f
Fires-reverse [] (q ∷ post) m m' hq hm f = absurd f
Fires-reverse (p ∷ pre) [] m m' hq hm f = absurd f
Fires-reverse (p ∷ pre) (q ∷ post) [] m' hq hm f = absurd f
Fires-reverse (p ∷ pre) (q ∷ post) (x ∷ m) [] hq hm f = absurd f

-- All weights are small.
abbrev pub AreLight : List Weights → Type 0
AreLight [] = Unit {0}
AreLight (w ∷ ws) = AreSmall (2 ^ 30) w.pre × AreSmall (2 ^ 30) w.post × AreLight ws

weights_at-AreSmall :
    (ws : List Weights) (i : ℕ)
    → AreLight ws
    → AreSmall (2 ^ 30) (weights_at ws i).pre × AreSmall (2 ^ 30) (weights_at ws i).post
weights_at-AreSmall [] i h = (tt, tt)
weights_at-AreSmall (w ∷ ws) zero h = (h.0, h.1)
weights_at-AreSmall (w ∷ ws) (suc i) h = weights_at-AreSmall ws i h.2

pub Step-AreSmall :
    (ws : List Weights) (is m m' : List ℕ)
    → AreLight ws
    → AreSmall (2 ^ 30) m
    → Step ws is m m'
    → AreSmall (2 ^ 31) m'
Step-AreSmall ws is m m' light hm (by i member f) =
    Fires-AreSmall _ _ m m' (weights_at-AreSmall ws i light).1 hm f

pub Step-back :
    (ws : List Weights) (is m m' : List ℕ)
    → AreLight ws
    → AreSmall (2 ^ 31) m'
    → Step (swapped ws) is m' m
    → (m'' : List ℕ) × Step ws is m m''
Step-back ws is m m' light hm (by i member f) =
    let f' = subst (λ w. Fires w.pre w.post m' m) (weights_at-swapped ws i) f in
    let (m'', g) = Fires-back _ _ m m' (weights_at-AreSmall ws i light).0 hm f' in
    (m'', by i member g)

pub Step-reverse :
    (ws : List Weights) (is m m' : List ℕ)
    → AreLight ws
    → AreSmall (2 ^ 30) m
    → Step ws is m m'
    → Step (swapped ws) is m' m
Step-reverse ws is m m' light hm (by i member f) = by i member (
    subst (λ w. Fires w.pre w.post m' m) (sym (weights_at-swapped ws i))
      (Fires-reverse _ _ m m' (weights_at-AreSmall ws i light).1 hm f))
