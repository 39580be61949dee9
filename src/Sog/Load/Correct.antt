-- ===== src/Sog/Load/Correct.antt =====
-- The weights and the initial marking that loadNetFromFile (src/CommonSOG.cpp) computes.
use mc_sog.Ldd.Fire.{u32}
use mc_sog.Ldd.Fire.Image.{cube-IsNonempty, cube-node}
use mc_sog.Ldd.Tree.{IsLdd, lddmc_cube}
use mc_sog.Net.{NewNet, Place, Transition}
use mc_sog.Net.Arcs.{transition_node}
use mc_sog.Prelude.{
  Bool, List, [], ap, arith, false, get_or, if◌then◌else◌, length, length-modify, modify, refl,
  subst, suc, sym, to_u32, true, zero, ℕ, ℤ, ◌+◌, ◌<◌, ◌==◌, ◌^◌, ◌∙◌, ◌∷◌, ◌≡◌,
}
use mc_sog.Sog.Load.{accumulate, all_weights, initial_marking, marques, weights_of, zeros}
use mc_sog.Sog.System.{AreSized, weights_at}

length-zeros : (k : ℕ) → length (zeros k) ≡ k
length-zeros zero = refl
length-zeros (suc k) = ap suc (length-zeros k)

length-accumulate :
    (prec : List ℕ) (arcs : List (ℕ × ℤ)) → length (accumulate prec arcs) ≡ length prec
unfolding accumulate
length-accumulate prec [] = refl
length-accumulate prec ((p, v) ∷ arcs) =
    length-accumulate (modify prec p (λ x. u32 (x + to_u32 v))) arcs
    ∙ length-modify prec p (λ x. u32 (x + to_u32 v))

-- The sum of the valuations of the arcs with place `p`.
abbrev pub valuations : ℕ → List (ℕ × ℤ) → ℕ
valuations p [] = 0
valuations p ((q, v) ∷ arcs) = (if p == q then to_u32 v else 0) + valuations p arcs

get_or-modify :
    (xs : List ℕ) (i j d : ℕ) (f : ℕ → ℕ)
    → j < length xs
    → get_or (modify xs i f) j d ≡ (if j == i then f (get_or xs j d) else get_or xs j d)
get_or-modify [] i j d f h = absurd (omega arith)
get_or-modify (x ∷ xs) zero zero d f h = refl
get_or-modify (x ∷ xs) zero (suc j) d f h = ground arith
get_or-modify (x ∷ xs) (suc i) zero d f h = ground arith
get_or-modify (x ∷ xs) (suc i) (suc j) d f h = get_or-modify xs i j d f (omega arith) ∙ ground arith

small_if : (b : Bool) (x w : ℕ) → x < 2 ^ 32 → (if b then u32 (x + w) else x) < 2 ^ 32
small_if true x w h = omega arith
small_if false x w h = h

sum_if :
    (b : Bool) (x w s : ℕ)
    → u32 ((if b then u32 (x + w) else x) + s) ≡ u32 (x + ((if b then w else 0) + s))
sum_if true x w s = omega arith
sum_if false x w s = omega arith

accumulate-valuations :
    (prec : List ℕ) (arcs : List (ℕ × ℤ)) (p : ℕ)
    → p < length prec
    → get_or prec p 0 < 2 ^ 32
    → get_or (accumulate prec arcs) p 0 ≡ u32 (get_or prec p 0 + valuations p arcs)
unfolding accumulate
accumulate-valuations prec [] p h small = omega (arith, small)
accumulate-valuations prec ((q, v) ∷ arcs) p h small =
    let next = modify prec q (λ x. u32 (x + to_u32 v)) in
    let step = get_or-modify prec q p 0 (λ x. u32 (x + to_u32 v)) h in
    accumulate-valuations next arcs p
      (omega (arith, h, length-modify prec q (λ x. u32 (x + to_u32 v))))
      (subst (λ x. x < 2 ^ 32) (sym step) (small_if (p == q) (get_or prec p 0) (to_u32 v) small))
    ∙ ap (λ x. u32 (x + valuations p arcs)) step
    ∙ sum_if (p == q) (get_or prec p 0) (to_u32 v) (valuations p arcs)

get_or-zeros : (k p : ℕ) → get_or (zeros k) p 0 ≡ 0
get_or-zeros zero p = refl
get_or-zeros (suc k) zero = refl
get_or-zeros (suc k) (suc p) = get_or-zeros k p

weights_at-all_weights :
    (k : ℕ) (ts : List Transition) (t : ℕ)
    → t < length ts
    → (weights_at (all_weights k ts) t).pre ≡ accumulate (zeros k) (transition_node ts t).pre
      × ((weights_at (all_weights k ts) t).post ≡ accumulate (zeros k) (transition_node ts t).post)
unfolding all_weights weights_of
weights_at-all_weights k [] t h = absurd (omega arith)
weights_at-all_weights k (u ∷ ts) zero h = (refl, refl)
weights_at-all_weights k (u ∷ ts) (suc t) h = weights_at-all_weights k ts t (omega arith)

-- The weight of a place in a loaded transition is the sum, as a uint32_t, of the valuations of
-- the transition's arcs with the place.
pub all_weights-valuations :
    (k : ℕ) (ts : List Transition) (t p : ℕ)
    → t < length ts
    → p < k
    → (get_or (weights_at (all_weights k ts) t).pre p 0
        ≡ u32 (valuations p (transition_node ts t).pre))
      × (get_or (weights_at (all_weights k ts) t).post p 0
          ≡ u32 (valuations p (transition_node ts t).post))
all_weights-valuations k ts t p ht hp =
    let (pre, post) = weights_at-all_weights k ts t ht in
    (rw pre (sum (transition_node ts t).pre), rw post (sum (transition_node ts t).post))
  where
    sum : (arcs : List (ℕ × ℤ)) → get_or (accumulate (zeros k) arcs) p 0 ≡ u32 (valuations p arcs)
    sum arcs =
        accumulate-valuations (zeros k) arcs p (omega (arith, hp, length-zeros k))
          (omega (arith, get_or-zeros k p))
        ∙ ap (λ x. u32 (x + valuations p arcs)) (get_or-zeros k p)
        ∙ omega arith

pub all_weights-AreSized : (k : ℕ) (ts : List Transition) → AreSized k (all_weights k ts)
unfolding all_weights weights_of
all_weights-AreSized k [] = tt
all_weights-AreSized k (t ∷ ts) = (
  length-accumulate (zeros k) t.arcs.pre ∙ length-zeros k,
  length-accumulate (zeros k) t.arcs.post ∙ length-zeros k,
  all_weights-AreSized k ts,
)

pub length-all_weights : (k : ℕ) (ts : List Transition) → length (all_weights k ts) ≡ length ts
unfolding all_weights
length-all_weights k [] = refl
length-all_weights k (t ∷ ts) = ap suc (length-all_weights k ts)

pub length-marques : (ps : List Place) → length (marques ps) ≡ length ps
unfolding marques
length-marques [] = refl
length-marques (p ∷ ps) = ap suc (length-marques ps)

cube-IsLdd : (vs : List ℕ) → IsLdd (length vs) (lddmc_cube vs)
cube-IsLdd [] = unfold lddmc_cube in tt
cube-IsLdd (v ∷ vs) = rw (cube-node v vs) (cube-IsNonempty vs, cube-IsLdd vs, tt, tt)

pub initial_marking-IsLdd : (net : NewNet) → IsLdd (length net.places) (initial_marking net)
unfolding initial_marking
initial_marking-IsLdd net =
    subst (λ k. IsLdd k (lddmc_cube (marques net.places))) (length-marques net.places)
      (cube-IsLdd (marques net.places))
