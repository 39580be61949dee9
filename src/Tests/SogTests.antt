-- ===== src/Tests/SogTests.antt =====
-- The operations of src/CommonSOG.cpp on a net of two places.
use mc_sog.Ldd.Fire.{fire_chain, lddmc_firing_mono}
use mc_sog.Ldd.Fire.Image.{Fires}
use mc_sog.Ldd.Index.{tree_index, tree_index-IsIndex}
use mc_sog.Ldd.Tree.{IsLdd, Ldd, lddmc_cube, lddmc_false, lddmc_makenode, lddmc_true, mem, node}
use mc_sog.Ldd.Union.{lddmc_union_mono, union_fuel, union_nodes, union_swapped, union_terminal}
use mc_sog.Prelude.{Bool, List, [], arith, inl, inr, refl, some, subst, true, ℕ, ◌↔◌, ◌∷◌, ◌≡◌}
use mc_sog.Sog.{
  accessible_epsilon, epsilon_loop, epsilon_round, firable_obs, get_successor, image_forward,
  set_div,
}
use mc_sog.Sog.Divergence.{HasRun}
use mc_sog.Sog.Divergence.Decides.{IsClosed, set_div_decides}
use mc_sog.Sog.Epsilon.Ends.{IsBounded, accessible_epsilon_closure}
use mc_sog.Sog.Finite.{InMarks}
use mc_sog.Sog.Image.{IsFirable, IsStepImage, firable_obs-In, image_forward-IsStepImage}
use mc_sog.Sog.System.{
  In, Reached, Run, Weights, by, here, loaded, relation_of, then_by, weights_at,
}

-- Transition 0 moves a token from the first place to the second, and transition 1 takes one from
-- the second.
abbrev pub weights : List Weights
weights =
    record { pre = 1 ∷ 0 ∷ []; post = 0 ∷ 1 ∷ [] }
    ∷ record { pre = 0 ∷ 1 ∷ []; post = 0 ∷ 0 ∷ [] }
    ∷ []

-- The marking with two tokens in the first place.
abbrev start : Ldd
start = node 2 (node 0 lddmc_true lddmc_false) lddmc_false

start-IsLdd : IsLdd 2 start
start-IsLdd = omega arith

abbrev pub reachable : List (List ℕ)
reachable = (2 ∷ 0 ∷ []) ∷ (1 ∷ 1 ∷ []) ∷ (0 ∷ 2 ∷ []) ∷ []

epsilon_runs :
    accessible_epsilon tree_index (loaded weights (0 ∷ []) (1 ∷ [])) 4 start
    ≡ some (
        node 0 (node 2 lddmc_true lddmc_false) (
          node 1
            (node 1 lddmc_true lddmc_false)
            (node 2 (node 0 lddmc_true lddmc_false) lddmc_false)))
unfolding accessible_epsilon epsilon_loop epsilon_round get_successor lddmc_firing_mono fire_chain
    lddmc_union_mono union_fuel union_terminal union_swapped union_nodes lddmc_makenode lddmc_cube
    tree_index relation_of
epsilon_runs = refl

-- One step of transition 0 from a marking of the list.
pub bounded_step :
    (u m' : List ℕ)
    → InMarks u reachable
    → Fires (1 ∷ 0 ∷ []) (0 ∷ 1 ∷ []) u m'
    → InMarks m' reachable
bounded_step u m' (inl e) f = go m' (subst (λ m. Fires (1 ∷ 0 ∷ []) (0 ∷ 1 ∷ []) m m') e f)
  where
    go : (m' : List ℕ) → Fires (1 ∷ 0 ∷ []) (0 ∷ 1 ∷ []) (2 ∷ 0 ∷ []) m' → InMarks m' reachable
    go [] f = absurd f
    go (y ∷ []) f = absurd f.2
    go (y ∷ z ∷ []) f = inr (inl (rw (f.1, f.2.1)))
    go (y ∷ z ∷ x ∷ m) f = absurd f.2.2
bounded_step u m' (inr (inl e)) f = go m' (subst (λ m. Fires (1 ∷ 0 ∷ []) (0 ∷ 1 ∷ []) m m') e f)
  where
    go : (m' : List ℕ) → Fires (1 ∷ 0 ∷ []) (0 ∷ 1 ∷ []) (1 ∷ 1 ∷ []) m' → InMarks m' reachable
    go [] f = absurd f
    go (y ∷ []) f = absurd f.2
    go (y ∷ z ∷ []) f = inr (inr (inl (rw (f.1, f.2.1))))
    go (y ∷ z ∷ x ∷ m) f = absurd f.2.2
bounded_step u m' (inr (inr (inl e))) f =
    absurd (none m' (subst (λ m. Fires (1 ∷ 0 ∷ []) (0 ∷ 1 ∷ []) m m') e f))
  where
    none : (m' : List ℕ) → Fires (1 ∷ 0 ∷ []) (0 ∷ 1 ∷ []) (0 ∷ 2 ∷ []) m' → ⊥
    none [] f = f
    none (y ∷ m') f = absurd (omega arith)
bounded_step u m' (inr (inr (inr h))) f = absurd h

pub bounded-Run :
    (m : List ℕ) {n : ℕ} {m' : List ℕ}
    → InMarks m reachable
    → Run weights (0 ∷ []) m n m'
    → InMarks m' reachable
bounded-Run m i here = i
bounded-Run m i (then_by {m' = u} {m'' = v} r (by j (inl e) f)) =
    bounded_step u v (bounded-Run m i r)
      (subst (λ t. Fires (weights_at weights t).pre (weights_at weights t).post u v) e f)
bounded-Run m i (then_by r (by j (inr h) f)) = absurd h

start_member : (m : List ℕ) → mem start m ≡ true → m ≡ 2 ∷ 0 ∷ []
start_member [] h = cc
start_member (x ∷ []) h = ground arith
start_member (x ∷ y ∷ []) h = ground arith
start_member (x ∷ y ∷ z ∷ m) h = ground arith

start-IsBounded : IsBounded weights (0 ∷ []) start reachable
start-IsBounded m (m0, n, inside, run) = bounded-Run m0 (inl (start_member m0 inside)) run

accessible_epsilon_closure_example :
    (to : Ldd) × (accessible_epsilon tree_index (loaded weights (0 ∷ []) (1 ∷ [])) 4 start
      ≡ some to)
    × IsLdd 2 to
    × ((m : List ℕ) → (mem to m ≡ true) ↔ Reached weights (0 ∷ []) start m)
accessible_epsilon_closure_example =
    accessible_epsilon_closure tree_index tree_index-IsIndex 2 weights (0 ∷ []) (1 ∷ [])
      (omega arith) (omega arith) reachable 4 start start-IsLdd start-IsBounded (omega arith)

-- One transition that changes nothing, on one place.
abbrev idle : List Weights
idle = record { pre = 0 ∷ []; post = 0 ∷ [] } ∷ []

abbrev empty_place : Ldd
empty_place = node 0 lddmc_true lddmc_false

empty_place_member : (m : List ℕ) → mem empty_place m ≡ true → m ≡ 0 ∷ []
empty_place_member [] h = cc
empty_place_member (x ∷ []) h = ground arith
empty_place_member (x ∷ y ∷ m) h = ground arith

idle_step : (m m' : List ℕ) → m ≡ 0 ∷ [] → Fires (0 ∷ []) (0 ∷ []) m m' → m' ≡ 0 ∷ []
idle_step m m' e f = go m' (subst (λ x. Fires (0 ∷ []) (0 ∷ []) x m') e f)
  where
    go : (m' : List ℕ) → Fires (0 ∷ []) (0 ∷ []) (0 ∷ []) m' → m' ≡ 0 ∷ []
    go [] f = absurd f
    go (y ∷ []) f = rw f.1
    go (y ∷ x ∷ m) f = absurd f.2

empty_place-IsClosed : IsClosed idle (0 ∷ []) empty_place
empty_place-IsClosed m m' inside (by i (inl e) f) =
    rw
      (idle_step m m' (empty_place_member m inside)
        (subst (λ t. Fires (weights_at idle t).pre (weights_at idle t).post m m') e f))
      refl
empty_place-IsClosed m m' inside (by i (inr h) f) = absurd h

set_div_decides_example :
    (r : Bool) × (set_div tree_index (loaded idle (0 ∷ []) []) 2 empty_place ≡ some r)
    × ((r ≡ true) ↔ ((n : ℕ) → HasRun idle (0 ∷ []) n empty_place))
set_div_decides_example =
    set_div_decides tree_index tree_index-IsIndex 1 idle [] (omega arith) (0 ∷ []) (omega arith)
      ((0 ∷ []) ∷ []) 2 empty_place (omega arith) empty_place-IsClosed
      (λ m inside. inl (empty_place_member m inside)) (omega arith)

firable_obs-In_example : In 0 (firable_obs tree_index (loaded weights (1 ∷ []) (0 ∷ [])) start) ↔ (
    In 0 (0 ∷ [])
    × IsFirable tree_index tree_index-IsIndex 2 weights (1 ∷ []) (0 ∷ []) (omega arith) start 0)
firable_obs-In_example =
    firable_obs-In tree_index tree_index-IsIndex 2 weights (1 ∷ []) (0 ∷ []) (omega arith) start 0
      (omega arith) start-IsLdd

image_forward-IsStepImage_example :
    IsStepImage 2 weights
      (0 ∷ [])
      start
      (image_forward tree_index (loaded weights (0 ∷ []) (1 ∷ [])) start)
image_forward-IsStepImage_example =
    image_forward-IsStepImage tree_index tree_index-IsIndex 2 weights (0 ∷ []) (1 ∷ [])
      (omega arith) start (omega arith) start-IsLdd
