-- ===== src/Ldd/Fire/Chain.antt =====
-- The rounds of the loop of lddmc_firing_mono (src/SylvanWrapper.cpp) together.
use mc_sog.Ldd.Fire.{u32}
use mc_sog.Ldd.Fire.Image.{Fires, Image, IsImage, mem-node, node-mem_down, node-mem_right}
use mc_sog.Ldd.Fire.Value.{IsAdded}
use mc_sog.Ldd.Tree.{IsLdd, Ldd, lddmc_false, mem, node}
use mc_sog.Prelude.{
  List, [], inl, inr, refl, subst, suc, sym, true, ℕ, ◌+◌, ◌-◌, ◌∷◌, ◌≡◌, ◌≤◌, ◌⊎◌,
}

-- What the loop makes of the `result` that it starts with.
pub record IsFired (k : ℕ) (c : Ldd) (pre post : List ℕ) (result u : Ldd) : Type 0 where
  pub formed : IsLdd k u
  pub only : (m : List ℕ) → mem u m ≡ true → (mem result m ≡ true) ⊎ Image c pre post m
  pub keeps : (m : List ℕ) → mem result m ≡ true → mem u m ≡ true
  pub adds : (m : List ℕ) → Image c pre post m → mem u m ≡ true

Image-down :
    (v p q : ℕ) (ps qs : List ℕ) (d r : Ldd) (xs : List ℕ)
    → p ≤ v
    → Image d ps qs xs
    → Image (node v d r) (p ∷ ps) (q ∷ qs) (u32 (v - p + q) ∷ xs)
Image-down v p q ps qs d r xs le (m, inside, f) =
    (v ∷ m, node-mem_down v d r m inside, (le, refl, f))

Image-right :
    (k v : ℕ) (pre post : List ℕ) (d r : Ldd) (m' : List ℕ)
    → IsLdd (suc k) r
    → Image r pre post m'
    → Image (node v d r) pre post m'
Image-right k v pre post d r m' hr (m, inside, f) = (m, node-mem_right k v d r m hr inside, f)

chain_adds :
    (k v p q : ℕ) (ps qs : List ℕ) (d r down result next u : Ldd)
    → IsImage k d ps qs down
    → IsAdded k v p q down result next
    → IsFired (suc k) r (p ∷ ps) (q ∷ qs) next u
    → (y : ℕ) (m' : List ℕ) (x : ℕ) (m : List ℕ) → mem (node v d r) (x ∷ m) ≡ true
    → Fires (p ∷ ps) (q ∷ qs) (x ∷ m) (y ∷ m')
    → mem u (y ∷ m') ≡ true
chain_adds k v p q ps qs d r down result next u hd ha hu y m' x m inside f =
    elim (mem-node v d r x m inside) [
      | inl (at, below) ↦
          hu.keeps (y ∷ m') (rw (f.1, at) (ha.adds (rw at at f.0) m' (hd.all m' (m, below, f.2))))
      | inr right ↦ hu.adds (y ∷ m') (x ∷ m, right, f)
    ]

chain_adds_all :
    (k v p q : ℕ) (ps qs : List ℕ) (d r down result next u : Ldd)
    → IsImage k d ps qs down
    → IsAdded k v p q down result next
    → IsFired (suc k) r (p ∷ ps) (q ∷ qs) next u
    → (m' m : List ℕ) → mem (node v d r) m ≡ true
    → Fires (p ∷ ps) (q ∷ qs) m m'
    → mem u m' ≡ true
chain_adds_all k v p q ps qs d r down result next u hd ha hu m' [] inside f = cc
chain_adds_all k v p q ps qs d r down result next u hd ha hu [] (x ∷ m) inside f = absurd f
chain_adds_all k v p q ps qs d r down result next u hd ha hu (y ∷ m') (x ∷ m) inside f =
    chain_adds k v p q ps qs d r down result next u hd ha hu y m' x m inside f

pub chain-IsFired :
    (k v p q : ℕ) (ps qs : List ℕ) (d r down result next u : Ldd)
    → IsLdd (suc k) r
    → IsImage k d ps qs down
    → IsAdded k v p q down result next
    → IsFired (suc k) r (p ∷ ps) (q ∷ qs) next u
    → IsFired (suc k) (node v d r) (p ∷ ps) (q ∷ qs) result u
chain-IsFired k v p q ps qs d r down result next u hr hd ha hu = record {
  formed = hu.formed;
  only = λ m h. elim (hu.only m h) [
    | inr later ↦ inr (Image-right k v (p ∷ ps) (q ∷ qs) d r m hr later)
    | inl before ↦ elim (ha.only m before) [
      | inl old ↦ inl old
      | inr (le, xs, at, inside) ↦ inr (
          subst (Image (node v d r) (p ∷ ps) (q ∷ qs)) (sym at)
            (Image-down v p q ps qs d r xs le (hd.only xs inside)))
    ]
  ];
  keeps = λ m h. hu.keeps m (ha.keeps m h);
  adds = λ m' (m, inside, f).
      chain_adds_all k v p q ps qs d r down result next u hd ha hu m' m inside f;
}

pub IsFired-done :
    (k : ℕ) (pre post : List ℕ) (result : Ldd)
    → IsLdd k result
    → IsFired k lddmc_false pre post result result
IsFired-done k pre post result h = record {
  formed = h;
  only = λ m inside. inl inside;
  keeps = λ m inside. inside;
  adds = λ m (m', nowhere, f). cc;
}
