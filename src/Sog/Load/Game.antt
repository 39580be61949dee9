-- ===== src/Sog/Load/Game.antt =====
-- The token game on a parsed net (src/NewNet.cpp), and that the relations and the initial marking of
-- loadNetFromFile (src/CommonSOG.cpp) play it. The tokens are of type uint32_t.
use mc_sog.Ldd.Fire.{u32}
use mc_sog.Ldd.Fire.Image.{Fires, cube-node}
use mc_sog.Ldd.Tree.{lddmc_cube, mem, size}
use mc_sog.Net.{NewNet, Place, place_at}
use mc_sog.Net.Arcs.{transition_node}
use mc_sog.Prelude.{
  ==_iff, Bool, List, [], ap, arith, false, get_or, length, refl, subst, suc, sym, to_u32, true,
  zero, ℕ, ℤ, ◌&&◌, ◌+◌, ◌-◌, ◌<◌, ◌==◌, ◌||◌, ◌↔◌, ◌∙◌, ◌∷◌, ◌≡◌, ◌≤◌,
}
use mc_sog.Sog.Load.{all_weights, initial_marking, marques}
use mc_sog.Sog.Load.Correct.{
  all_weights-AreSized, all_weights-valuations, length-all_weights, length-marques, valuations,
}
use mc_sog.Sog.System.{Weights, weights_at, weights_at-sized}

-- The weight of a list of arcs for the place, the sum of the valuations of its arcs there.
abbrev pub weight : ℕ → List (ℕ × ℤ) → ℕ
weight p arcs = u32 (valuations p arcs)

-- Transition `t` of the net leads from `m` to `m'`: each place has the tokens that it takes, and
-- loses and gets its weights.
pub record Moves (net : NewNet) (t : ℕ) (m m' : List ℕ) : Type 0 where
  pub known : t < length net.transitions
  pub sized : length m ≡ length net.places
  pub sized' : length m' ≡ length net.places
  pub enabled :
      (p : ℕ)
      → p < length net.places
      → weight p (transition_node net.transitions t).pre ≤ get_or m p 0
  pub moves :
      (p : ℕ)
      → p < length net.places
      → get_or m' p 0
        ≡ u32 (
            get_or m p 0
            - weight p (transition_node net.transitions t).pre
            + weight p (transition_node net.transitions t).post)

-- The tokens that the file gives to each place.
pub record IsInitial (net : NewNet) (m : List ℕ) : Type 0 where
  pub sized : length m ≡ length net.places
  pub tokens : (p : ℕ) → p < length net.places → get_or m p 0 ≡ to_u32 (place_at net p).marking

-- The firing sequences from `m`, with the transitions fired so far that `Shown` holds of, the last
-- first.
pub data Plays (net : NewNet) (Shown : ℕ → Type 0) (m : List ℕ) : List ℕ → List ℕ → Type 0 where
  begin : Plays net Shown m [] m
  hidden_move :
      {σ : List ℕ} {m' m'' : List ℕ} (t : ℕ)
      → Plays net Shown m σ m'
      → ¬ Shown t
      → Moves net t m' m''
      → Plays net Shown m σ m''
  shown_move :
      {σ : List ℕ} {m' m'' : List ℕ} (t : ℕ)
      → Plays net Shown m σ m'
      → Shown t
      → Moves net t m' m''
      → Plays net Shown m (t ∷ σ) m''

-- Firing, place by place.
abbrev FiresAt : List ℕ → List ℕ → List ℕ → List ℕ → ℕ → Type 0
FiresAt pre post m m' p =
    (get_or pre p 0 ≤ get_or m p 0)
    × (get_or m' p 0 ≡ u32 (get_or m p 0 - get_or pre p 0 + get_or post p 0))

Fires-at :
    (pre post m m' : List ℕ)
    → Fires pre post m m'
    → (length m ≡ length pre)
      × (length m' ≡ length pre)
      × ((p : ℕ) → p < length pre → FiresAt pre post m m' p)
Fires-at [] [] [] [] f = (refl, refl, λ p lt. absurd (omega (arith, lt)))
Fires-at [] (q ∷ post) m m' f = absurd f
Fires-at [] [] (x ∷ m) m' f = absurd f
Fires-at [] [] [] (y ∷ m') f = absurd f
Fires-at (p ∷ pre) [] m m' f = absurd f
Fires-at (p ∷ pre) (q ∷ post) [] m' f = absurd f
Fires-at (p ∷ pre) (q ∷ post) (x ∷ m) [] f = absurd f
Fires-at (p ∷ pre) (q ∷ post) (x ∷ m) (y ∷ m') (le, e, f) =
    let (size, size', each) = Fires-at pre post m m' f in (ap suc size, ap suc size', at each)
  where
    at :
        ((i : ℕ) → i < length pre → FiresAt pre post m m' i)
        → (i : ℕ) → i < length (p ∷ pre)
        → FiresAt (p ∷ pre) (q ∷ post) (x ∷ m) (y ∷ m') i
    at each zero lt = (le, e)
    at each (suc i) lt = each i (omega (arith, lt))

at-Fires :
    (pre post m m' : List ℕ)
    → length post ≡ length pre
    → length m ≡ length pre
    → length m' ≡ length pre
    → ((p : ℕ) → p < length pre → FiresAt pre post m m' p)
    → Fires pre post m m'
at-Fires [] [] [] [] a b c each = tt
at-Fires [] (q ∷ post) m m' a b c each = absurd (omega (arith, a))
at-Fires [] [] (x ∷ m) m' a b c each = absurd (omega (arith, b))
at-Fires [] [] [] (y ∷ m') a b c each = absurd (omega (arith, c))
at-Fires (p ∷ pre) [] m m' a b c each = absurd (omega (arith, a))
at-Fires (p ∷ pre) (q ∷ post) [] m' a b c each = absurd (omega (arith, b))
at-Fires (p ∷ pre) (q ∷ post) (x ∷ m) [] a b c each = absurd (omega (arith, c))
at-Fires (p ∷ pre) (q ∷ post) (x ∷ m) (y ∷ m') a b c each =
    let now = each 0 (omega arith) in
    (
      now.0,
      now.1,
      at-Fires pre post m m' (omega (arith, a)) (omega (arith, b)) (omega (arith, c))
          (λ i lt. each (suc i) (omega (arith, lt))),
    )

module _ (net : NewNet) where
  abbrev pub net_weights : List Weights
  net_weights = all_weights (length net.places) net.transitions

  -- A loaded transition fires as the net's transition moves the tokens.
  pub Fires-Moves :
      (t : ℕ) (m m' : List ℕ)
      → t < length net.transitions
      → Fires (weights_at net_weights t).pre (weights_at net_weights t).post m m' ↔ Moves net t m m'
  Fires-Moves t m m' lt = (to, from)
    where
      sizes :
          (length (weights_at net_weights t).pre ≡ length net.places)
          × (length (weights_at net_weights t).post ≡ length net.places)
      sizes =
          weights_at-sized (length net.places) net_weights t
            (all_weights-AreSized (length net.places) net.transitions)
            (omega (arith, lt, length-all_weights (length net.places) net.transitions))

      to :
          Fires (weights_at net_weights t).pre (weights_at net_weights t).post m m'
          → Moves net t m m'
      to f =
          let (size, size', each) = Fires-at _ _ m m' f in
          record {
            known = lt;
            sized = size ∙ sizes.0;
            sized' = size' ∙ sizes.0;
            enabled = λ p in_net.
                let (pre, post) =
                  all_weights-valuations (length net.places) net.transitions t p lt in_net in
                subst (λ w. w ≤ get_or m p 0) pre (each p (omega (arith, in_net, sizes.0))).0;
            moves = λ p in_net.
                let (pre, post) =
                  all_weights-valuations (length net.places) net.transitions t p lt in_net in
                (each p (omega (arith, in_net, sizes.0))).1
                ∙ (λ j. u32 (get_or m p 0 - pre j + post j));
          }

      from :
          Moves net t m m'
          → Fires (weights_at net_weights t).pre (weights_at net_weights t).post m m'
      from mv =
          at-Fires _ _ m m' (sizes.1 ∙ sym sizes.0) (mv.sized ∙ sym sizes.0)
            (mv.sized' ∙ sym sizes.0)
            (λ p below.
              let in_net : p < length net.places = omega (arith, below, sizes.0) in
              let (pre, post) =
                all_weights-valuations (length net.places) net.transitions t p lt in_net in
              (
                subst (λ w. w ≤ get_or m p 0) (sym pre) (mv.enabled p in_net),
                mv.moves p in_net ∙ (λ j. u32 (get_or m p 0 - sym pre j + sym post j)),
              ))

marques-tokens :
    (ps : List Place) (d : Place) (p : ℕ)
    → p < length ps
    → get_or (marques ps) p 0 ≡ to_u32 (get_or ps p d).marking
unfolding marques
marques-tokens [] d p lt = absurd (omega (arith, lt))
marques-tokens (q ∷ ps) d zero lt = refl
marques-tokens (q ∷ ps) d (suc p) lt = marques-tokens ps d p (omega (arith, lt))

lists_equal :
    (xs ys : List ℕ)
    → length xs ≡ length ys
    → ((p : ℕ) → p < length xs → get_or xs p 0 ≡ get_or ys p 0)
    → xs ≡ ys
lists_equal [] [] size each = refl
lists_equal [] (y ∷ ys) size each = absurd (omega (arith, size))
lists_equal (x ∷ xs) [] size each = absurd (omega (arith, size))
lists_equal (x ∷ xs) (y ∷ ys) size each =
    let now : x ≡ y = each 0 (omega arith) in
    let later =
      lists_equal xs ys (omega (arith, size)) (λ p lt. each (suc p) (omega (arith, lt))) in
    λ j. now j ∷ later j

cube-mem : (vs m : List ℕ) → (mem (lddmc_cube vs) m ≡ true) ↔ (m ≡ vs)
cube-mem [] [] = unfold lddmc_cube in (λ e. refl, λ e. refl)
cube-mem [] (x ∷ m) = unfold lddmc_cube in (λ e. cc, λ e. cc)
cube-mem (v ∷ vs) [] = rw (cube-node v vs) (λ e. cc, λ e. cc)
cube-mem (v ∷ vs) (x ∷ m) =
    let h = cube-mem vs m in
    rw (cube-node v vs) (
      λ e.
          let (head, tail) = split (x == v) (mem (lddmc_cube vs) m) e in
          λ j. (==_iff x v).0 head j ∷ h.0 tail j,
      λ e. join (x == v) (mem (lddmc_cube vs) m) ((==_iff x v).1 (cc e)) (h.1 (cc e)),
    )
  where
    split : (a b : Bool) → ((a && b) || false) ≡ true → (a ≡ true) × (b ≡ true)
    split a b e = ground arith

    join : (a b : Bool) → a ≡ true → b ≡ true → ((a && b) || false) ≡ true
    join a b e e' = ground arith

-- The loaded initial tree has the net's initial marking and no other.
pub initial_marking-IsInitial :
    (net : NewNet) (m : List ℕ) → (mem (initial_marking net) m ≡ true) ↔ IsInitial net m
unfolding initial_marking
initial_marking-IsInitial net m =
    let h = cube-mem (marques net.places) m in
    (
      λ e. subst (IsInitial net) (sym (h.0 e)) (record {
        sized = length-marques net.places;
        tokens = λ p lt. marques-tokens net.places _ p lt;
      }),
      λ i. h.1 (
          lists_equal m (marques net.places) (i.sized ∙ sym (length-marques net.places)) (λ p lt.
            let in_net : p < length net.places = omega (arith, lt, i.sized) in
            i.tokens p in_net ∙ sym (marques-tokens net.places _ p in_net))),
    )
