-- ===== src/Sog/Conflict/Adds.antt =====
-- What AddConflict (src/CommonSOG.cpp) adds to a set of transitions.
use mc_sog.Ldd.Firable.Correct.{EnabledIn, is_firable-Tells}
use mc_sog.Ldd.Tree.{IsLdd, IsNonempty, Ldd}
use mc_sog.Net.{Node, Transition}
use mc_sog.Net.Observable.{contains}
use mc_sog.Prelude.{
  Bool, List, [], arith, false, inl, inr, length, refl, some, subst, suc, sym, true, zero, ℕ, ◌+◌,
  ◌<◌, ◌↔◌, ◌∙◌, ◌∷◌, ◌≡◌, ◌≢◌, ◌⊎◌,
}
use mc_sog.Sog.{CommonSog, relation_at}
use mc_sog.Sog.Conflict.{add_by, add_conflict, add_from, arcs_at, have_common_pre}
use mc_sog.Sog.Conflict.Correct.{AreSorted, Passes, Share, add_from-contains, have_common_pre-Share}
use mc_sog.Sog.System.{Weights, relation_of}

abbrev Position : (Node → Bool) → ℕ → List Transition → ℕ → ℕ → Type 0
Position test transition ts i j =
    (n : ℕ) × (j ≡ i + n) × (n < length ts) × (j ≢ transition) × (test (arcs_at ts n) ≡ true)

Passes-at :
    (test : Node → Bool) (transition : ℕ) (ts : List Transition) (i j : ℕ)
    → Passes test transition ts i j
    → Position test transition ts i j
Passes-at test transition [] i j h = absurd h
Passes-at test transition (t ∷ ts) i j (inl (e, ne, ok)) =
    (0, omega (arith, e), omega arith, ne, ok)
Passes-at test transition (t ∷ ts) i j (inr later) =
    let (n, e, lt, ne, ok) = Passes-at test transition ts (suc i) j later in
    (suc n, omega (arith, e), omega (arith, lt), ne, ok)

at-Passes :
    (test : Node → Bool) (transition : ℕ) (ts : List Transition) (i j : ℕ)
    → Position test transition ts i j
    → Passes test transition ts i j
at-Passes test transition [] i j (n, e, lt, ne, ok) = absurd (omega (arith, lt))
at-Passes test transition (t ∷ ts) i j (zero, e, lt, ne, ok) = inl (omega (arith, e), ne, ok)
at-Passes test transition (t ∷ ts) i j (suc n, e, lt, ne, ok) =
    inr (at-Passes test transition ts (suc i) j (n, omega (arith, e), omega (arith, lt), ne, ok))

-- What the loop adds from the first position on.
add_from-all :
    (test : Node → Bool) (transition : ℕ) (ts : List Transition) (ample : List ℕ) (j : ℕ)
    → (contains j (add_from test transition ts 0 ample) ≡ true) ↔ (
        (contains j ample ≡ true)
        ⊎ ((j < length ts) × (j ≢ transition) × (test (arcs_at ts j) ≡ true)))
add_from-all test transition ts ample j =
    let all = add_from-contains test transition ts 0 j ample in
    (
      λ c. elim (all.0 c) [
        | inl old ↦ inl old
        | inr p ↦
            let (n, e, lt, ne, ok) = Passes-at test transition ts 0 j p in
            inr (
              omega (arith, e, lt),
              ne,
              subst (λ x. test (arcs_at ts x) ≡ true) (sym (e ∙ zero_add n)) ok,
            )
      ],
      λ c. elim c [
        | inl old ↦ all.1 (inl old)
        | inr (lt, ne, ok) ↦
            all.1 (inr (at-Passes test transition ts 0 j (j, omega arith, lt, ne, ok)))
      ],
    )
  where
    zero_add : (n : ℕ) → 0 + n ≡ n
    zero_add n = omega arith

-- The arcs into the places after a transition are sorted.
abbrev pub ArePostSorted : List Transition → Type 0
ArePostSorted ts = (i : ℕ) → AreSorted 0 (arcs_at ts i).post

-- Transition `j` is another one, and shares a place to take from with an enabled `transition`, or
-- gives to a place that a `transition` that is not enabled takes from.
abbrev pub Conflicts : Ldd → List ℕ → List Transition → ℕ → ℕ → Type 0
Conflicts s pre ts transition j =
    (j < length ts)
    × (j ≢ transition)
    × ((EnabledIn s pre × Share (arcs_at ts j).pre (arcs_at ts transition).pre)
        ⊎ ((EnabledIn s pre → ⊥) × Share (arcs_at ts transition).pre (arcs_at ts j).post))

add_by-contains :
    (s : Ldd) (pre : List ℕ) (ts : List Transition) (transition : ℕ) (ample : List ℕ) (b : Bool)
    → ((b ≡ true) ↔ EnabledIn s pre)
    → AreSorted 0 (arcs_at ts transition).pre
    → ArePostSorted ts
    → (j : ℕ)
    → (contains j (add_by ts transition ample b) ≡ true)
      ↔ ((contains j ample ≡ true) ⊎ Conflicts s pre ts transition j)
unfolding add_by
add_by-contains s pre ts transition ample true enabled sorted posts j =
    let all =
      add_from-all (λ n. have_common_pre n.pre (arcs_at ts transition).pre) transition ts ample j in
    let share = have_common_pre-Share 0 (arcs_at ts j).pre (arcs_at ts transition).pre sorted in
    (
      λ c. elim (all.0 c) [
        | inl old ↦ inl old
        | inr (lt, ne, ok) ↦ inr (lt, ne, inl (enabled.0 refl, share.0 ok))
      ],
      λ c. elim c [
        | inl old ↦ all.1 (inl old)
        | inr (lt, ne, inl (en, both)) ↦ all.1 (inr (lt, ne, share.1 both))
        | inr (lt, ne, inr (none_enabled, both)) ↦ absurd (none_enabled (enabled.0 refl))
      ],
    )
add_by-contains s pre ts transition ample false enabled sorted posts j =
    let all =
      add_from-all (λ n. have_common_pre (arcs_at ts transition).pre n.post) transition ts ample
        j in
    let share = have_common_pre-Share 0 (arcs_at ts transition).pre (arcs_at ts j).post (posts j) in
    (
      λ c. elim (all.0 c) [
        | inl old ↦ inl old
        | inr (lt, ne, ok) ↦ inr (lt, ne, inr ((λ en. not_enabled en), share.0 ok))
      ],
      λ c. elim c [
        | inl old ↦ all.1 (inl old)
        | inr (lt, ne, inl (en, both)) ↦ absurd (not_enabled en)
        | inr (lt, ne, inr (none_enabled, both)) ↦ all.1 (inr (lt, ne, share.1 both))
      ],
    )
  where
    not_enabled : EnabledIn s pre → ⊥
    not_enabled en = let e = enabled.1 en in cc

-- On a well-formed tree with a marking, and with sorted arcs, AddConflict returns, and it adds
-- exactly the other transitions that share a place to take from with the given one when that is
-- enabled in the tree, and those that give to a place it takes from when it is not.
pub add_conflict-contains :
    (k : ℕ) (g : CommonSog) (w : Weights) (ts : List Transition) (s : Ldd) (transition : ℕ)
    (ample : List ℕ)
    → IsLdd k s
    → IsNonempty s
    → relation_at g transition ≡ relation_of w
    → length w.pre ≡ k
    → AreSorted 0 (arcs_at ts transition).pre
    → ArePostSorted ts
    → (r : List ℕ) × (add_conflict g ts s transition ample ≡ some r)
      × ((j : ℕ)
          → (contains j r ≡ true) ↔ ((contains j ample ≡ true) ⊎ Conflicts s w.pre ts transition j))
unfolding add_conflict relation_of
add_conflict-contains k g w ts s transition ample hs ne at sized sorted posts =
    let (b, e, enabled) = is_firable-Tells k s w.pre hs ne sized in
    (
      add_by ts transition ample b,
      rw (at, e) refl,
      λ j. add_by-contains s w.pre ts transition ample b enabled sorted posts j,
    )
