-- ===== src/Ldd/Firable/Correct.antt =====
-- isFirable (src/SylvanWrapper.cpp) and the markings that enable a transition.
use mc_sog.Ldd.Firable.{firable_next, firable_value, is_firable}
use mc_sog.Ldd.Fire.Image.{cube-node, mem-node, node-mem_down, node-mem_right}
use mc_sog.Ldd.Tree.{
  IsLdd, IsNonempty, Ldd, lddmc_cube, lddmc_false, lddmc_true, mddnode_getdown, mddnode_getvalue,
  mem, node,
}
use mc_sog.Prelude.{
  Bool, Bool-cases, List, Option, [], ap, arith, false, inl, inr, leb, leb→le, length, refl, some,
  subst, suc, true, zero, ℕ, ◌↔◌, ◌∷◌, ◌≡◌, ◌≤◌, ◌⊎◌,
}

-- The marking has what the transition takes.
abbrev pub Enables : List ℕ → List ℕ → Type 0
Enables [] [] = Unit {0}
Enables (p ∷ pre) (x ∷ m) = (p ≤ x) × Enables pre m
Enables _ _ = ⊥

abbrev pub EnabledIn : Ldd → List ℕ → Type 0
EnabledIn c pre = (m : List ℕ) × (mem c m ≡ true) × Enables pre m

-- The answer `o` is right.
abbrev pub Tells : Ldd → List ℕ → Option Bool → Type 0
Tells c pre o = (b : Bool) × (o ≡ some b) × ((b ≡ true) ↔ EnabledIn c pre)

enabled_node :
    (k v p : ℕ) (d r : Ldd) (pre : List ℕ)
    → IsLdd (suc k) r
    → EnabledIn (node v d r) (p ∷ pre) ↔ (((p ≤ v) × EnabledIn d pre) ⊎ EnabledIn r (p ∷ pre))
enabled_node k v p d r pre hr = (
  to,
  λ h. elim h [
    | inl (le, (m, inside, ok)) ↦ (v ∷ m, node-mem_down v d r m inside, (le, ok))
    | inr (m, inside, ok) ↦ (m, node-mem_right k v d r m hr inside, ok)
  ],
)
  where
    to : EnabledIn (node v d r) (p ∷ pre) → ((p ≤ v) × EnabledIn d pre) ⊎ EnabledIn r (p ∷ pre)
    to ([], inside, ok) = absurd ok
    to (x ∷ m, inside, ok) = elim (mem-node v d r x m inside) [
      | inl (e, down) ↦ inl (subst (λ y. p ≤ y) e ok.0, (m, down, ok.1))
      | inr right ↦ inr (x ∷ m, right, ok)
    ]

pub firable_next-Tells :
    (k v p : ℕ) (d r : Ldd) (pre : List ℕ) (result : Bool) (terminal next : Option Bool)
    → IsLdd (suc k) r
    → ((result ≡ true) ↔ ((p ≤ v) × EnabledIn d pre))
    → (IsNonempty r → Tells r (p ∷ pre) next)
    → Tells (node v d r) (p ∷ pre) (firable_next r result terminal next)
unfolding firable_next
firable_next-Tells k v p d lddmc_false pre result terminal next hr h rest = (
  result,
  refl,
  (
    λ e. (enabled_node k v p d lddmc_false pre hr).1 (inl (h.0 e)),
    λ en. elim ((enabled_node k v p d lddmc_false pre hr).0 en) [
      | inl now ↦ h.1 now
      | inr (m, inside, ok) ↦ cc
    ],
  ),
)
firable_next-Tells k v p d lddmc_true pre result terminal next hr h rest = absurd hr
firable_next-Tells k v p d (node w c r) pre true terminal next hr h rest =
    (true, refl, (λ e. (enabled_node k v p d (node w c r) pre hr).1 (inl (h.0 e)), λ en. refl))
firable_next-Tells k v p d (node w c r) pre false terminal next hr h rest =
    let (b, e, iff) = rest tt in
    (
      b,
      e,
      (
        λ is. (enabled_node k v p d (node w c r) pre hr).1 (inr (iff.0 is)),
        λ en. elim ((enabled_node k v p d (node w c r) pre hr).0 en) [
          | inl now ↦ cc (h.1 now)
          | inr later ↦ iff.1 later
        ],
      ),
    )

-- The recursive call's answer counts where the guard lets it be made.
firable_value-Tells :
    (v p : ℕ) (d : Ldd) (pre : List ℕ) (down : Option Bool)
    → Tells d pre down
    → (b : Bool) × (firable_value v p down ≡ some b) × ((b ≡ true) ↔ ((p ≤ v) × EnabledIn d pre))
unfolding firable_value
firable_value-Tells v p d pre down (b, e, iff) = elim (Bool-cases (leb p v)) [
  | inl fits ↦ rw fits (b, e, (λ is. (leb→le p v fits, iff.0 is), λ en. iff.1 en.1))
  | inr lacks ↦ rw lacks (false, refl, (λ is. cc, λ en. absurd (no_le en.0 lacks)))
]
  where
    no_le : p ≤ v → leb p v ≡ false → ⊥
    no_le le h = ground arith

-- On a well-formed tree with a marking, isFirable returns, and it returns true exactly when some
-- marking of the tree has what the transition takes.
pub is_firable-Tells :
    (k : ℕ) (c : Ldd) (pre : List ℕ)
    → IsLdd k c
    → IsNonempty c
    → length pre ≡ k
    → Tells c pre (is_firable c (lddmc_cube pre))
unfolding is_firable firable_value
is_firable-Tells k lddmc_false pre hc ne sized = absurd ne
is_firable-Tells zero lddmc_true [] hc ne sized = (true, refl, (λ e. ([], refl, tt), λ en. refl))
is_firable-Tells zero lddmc_true (p ∷ pre) hc ne sized = absurd (omega arith)
is_firable-Tells (suc k) lddmc_true pre hc ne sized = absurd hc
is_firable-Tells zero (node v d r) pre hc ne sized = absurd hc
is_firable-Tells (suc k) (node v d r) [] hc ne sized = absurd (omega arith)
is_firable-Tells (suc k) (node v d r) (p ∷ pre) hc ne sized =
    let (b, e, iff) =
      firable_value-Tells v p d pre (is_firable d (lddmc_cube pre))
        (is_firable-Tells k d pre hc.1 hc.0 (omega arith)) in
    rw (ap mddnode_getvalue (cube-node p pre), ap mddnode_getdown (cube-node p pre), e)
      (firable_next-Tells k v p d r pre b _ _ hc.2 iff
        (λ n. is_firable-Tells (suc k) r (p ∷ pre) hc.2 n sized))
