-- ===== src/Graph/Places.antt =====
-- getMarkedPlaces and getUnmarkedPlaces of class LDDState (src/LDDState.cpp).
use mc_sog.Graph.{LddState}
use mc_sog.Ldd.Fire.Image.{node-mem_down}
use mc_sog.Ldd.Tree.{
  IsLdd, IsNonempty, Ldd, lddmc_false, lddmc_true, mddnode_getdown, mddnode_getvalue, mem, node,
}
use mc_sog.Prelude.{
  ==_iff, Bool, List, [], ap, arith, false, get_or, if◌then◌else◌, inl, inr, not, refl, subst, suc,
  sym, true, zero, ℕ, ◌%◌, ◌+◌, ◌-◌, ◌<◌, ◌==◌, ◌^◌, ◌↔◌, ◌∙◌, ◌∷◌, ◌≡◌, ◌≢◌, ◌≤◌,
}
use mc_sog.Sog.System.{In}

-- The loop `for (; depth < iter; ++depth)`, by the number of its rounds.
unfoldable pub go_down : ℕ → Ldd → Ldd
go_down zero mdd = mdd
go_down (suc n) mdd = go_down n (mddnode_getdown mdd)

-- The loop over the places; `keep` is the test on the value. The results are uint16_t.
unfoldable pub places_from : (ℕ → Bool) → Ldd → ℕ → List ℕ → List ℕ
unfolding go_down
places_from keep mdd depth [] = []
places_from keep mdd depth (iter ∷ iters) =
    let below = go_down (iter - depth) mdd in
    let deeper = depth + (iter - depth) in
    let rest = places_from keep below deeper iters in
    if keep (mddnode_getvalue below) then deeper % 2 ^ 16 ∷ rest else rest

unfoldable pub get_marked_places : LddState → List ℕ → List ℕ
unfolding places_from
get_marked_places s lplaces = places_from (λ v. not (v == 0)) s.lddstate 0 lplaces

unfoldable pub get_unmarked_places : LddState → List ℕ → List ℕ
unfolding places_from
get_unmarked_places s lplaces = places_from (λ v. v == 0) s.lddstate 0 lplaces

-- The least marking of a tree: its first path.
abbrev pub least_marking : Ldd → List ℕ
least_marking (node v d r) = v ∷ least_marking d
least_marking _ = []

-- Rising positions from `d` on, below `n`.
abbrev pub AreRising : ℕ → ℕ → List ℕ → Type 0
AreRising d n [] = Unit {0}
AreRising d n (i ∷ is) = (d ≤ i) × (i < n) × AreRising i n is

pub least_marking-member :
    (k : ℕ) (c : Ldd) → IsLdd k c → IsNonempty c → mem c (least_marking c) ≡ true
least_marking-member k lddmc_false hc ne = absurd ne
least_marking-member k lddmc_true hc ne = refl
least_marking-member zero (node v d r) hc ne = absurd hc
least_marking-member (suc k) (node v d r) hc ne =
    node-mem_down v d r (least_marking d) (least_marking-member k d hc.1 hc.0)

getvalue-go_down : (n : ℕ) (c : Ldd) → mddnode_getvalue (go_down n c) ≡ get_or (least_marking c) n 0
unfolding go_down
getvalue-go_down zero lddmc_false = refl
getvalue-go_down zero lddmc_true = refl
getvalue-go_down zero (node v d r) = refl
getvalue-go_down (suc n) lddmc_false = getvalue-go_down n lddmc_false
getvalue-go_down (suc n) lddmc_true = getvalue-go_down n lddmc_false
getvalue-go_down (suc n) (node v d r) = getvalue-go_down n d

zero_add : (m : ℕ) → m ≡ 0 + m
zero_add m = omega arith

go_down-add : (m n : ℕ) (c : Ldd) → go_down m (go_down n c) ≡ go_down (n + m) c
unfolding go_down
go_down-add m zero c = ap (λ x. go_down x c) (zero_add m)
go_down-add m (suc n) c = go_down-add m n (mddnode_getdown c) ∙ ap (λ x. go_down x c) (suc_add n m)
  where
    suc_add : (n m : ℕ) → suc (n + m) ≡ suc n + m
    suc_add n m = omega arith

-- One place of the loop, whose test gives `b`.
kept_place :
    (keep : ℕ → Bool) (m : List ℕ) (p i : ℕ) (is rest : List ℕ) (b : Bool)
    → keep (get_or m i 0) ≡ b
    → In p rest ↔ (In p is × (keep (get_or m p 0) ≡ true))
    → In p (if b then i ∷ rest else rest) ↔ (In p (i ∷ is) × (keep (get_or m p 0) ≡ true))
kept_place keep m p i is rest true e h = (
  λ c. elim c [
    | inl same ↦ (inl same, subst (λ x. keep (get_or m x 0) ≡ true) (sym same) e)
    | inr c ↦ (inr (h.0 c).0, (h.0 c).1)
  ],
  λ (c, k). elim c [ inl same ↦ inl same | inr c ↦ inr (h.1 (c, k)) ],
)
kept_place keep m p i is rest false e h = (
  λ c. (inr (h.0 c).0, (h.0 c).1),
  λ (c, k). elim c [
    | inl same ↦ absurd (clash (subst (λ x. keep (get_or m x 0) ≡ true) same k))
    | inr c ↦ h.1 (c, k)
  ],
)
  where
    clash : keep (get_or m i 0) ≡ true → ⊥
    clash k = cc

places_from-In :
    (keep : ℕ → Bool) (c : Ldd) (depth p : ℕ) (iters : List ℕ)
    → AreRising depth (2 ^ 16) iters
    → In p (places_from keep (go_down depth c) depth iters)
      ↔ (In p iters × (keep (get_or (least_marking c) p 0) ≡ true))
unfolding places_from
places_from-In keep c depth p [] h = (λ i. absurd i, λ i. absurd i.0)
places_from-In keep c depth p (iter ∷ iters) h =
    let e2 : depth + (iter - depth) ≡ iter = omega (arith, h.0) in
    let e1 : go_down (iter - depth) (go_down depth c) ≡ go_down iter c =
      go_down-add (iter - depth) depth c ∙ ap (λ x. go_down x c) e2 in
    let e3 : iter % 2 ^ 16 ≡ iter = omega (arith, h.1) in
    rw (e1, e2, e3, getvalue-go_down iter c)
      (kept_place keep (least_marking c) p iter iters _ _ refl
        (places_from-In keep c iter p iters h.2))

-- For rising places that fit in 16 bits, getMarkedPlaces returns those that have a token in the
-- least marking of the aggregate, and getUnmarkedPlaces those that have none.
pub get_marked_places-In :
    (s : LddState) (lplaces : List ℕ) (p : ℕ)
    → AreRising 0 (2 ^ 16) lplaces
    → (In p (get_marked_places s lplaces)
        ↔ (In p lplaces × (get_or (least_marking s.lddstate) p 0 ≢ 0)))
      × (In p (get_unmarked_places s lplaces)
          ↔ (In p lplaces × (get_or (least_marking s.lddstate) p 0 ≡ 0)))
unfolding get_marked_places get_unmarked_places
get_marked_places-In s lplaces p h =
    let marked = places_from-In (λ v. not (v == 0)) s.lddstate 0 p lplaces h in
    let unmarked = places_from-In (λ v. v == 0) s.lddstate 0 p lplaces h in
    let v = get_or (least_marking s.lddstate) p 0 in
    (
      (
        λ i. ((marked.0 i).0, λ e. not_zero v (marked.0 i).1 e),
        λ (i, ne). marked.1 (i, is_not v ne),
      ),
      (
        λ i. ((unmarked.0 i).0, (==_iff v 0).0 (unmarked.0 i).1),
        λ (i, e). unmarked.1 (i, (==_iff v 0).1 e),
      ),
    )
  where
    not_zero : (v : ℕ) → not (v == 0) ≡ true → v ≡ 0 → ⊥
    not_zero v k e = ground arith

    is_not : (v : ℕ) → v ≢ 0 → not (v == 0) ≡ true
    is_not v ne = ground arith
