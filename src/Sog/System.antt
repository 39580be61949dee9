-- ===== src/Sog/System.antt =====
-- What the operations are about: the markings of a net and its unobservable steps.
use mc_sog.Ldd.Fire.Correct.{lddmc_firing_mono-IsImage}
use mc_sog.Ldd.Fire.Image.{Fires, IsImage}
use mc_sog.Ldd.Tree.{IsIndex, IsLdd, Ldd, lddmc_cube, mem}
use mc_sog.Prelude.{
  List, [], arith, get_or, inl, inr, length, refl, suc, true, zero, ℕ, ◌<◌, ◌∷◌, ◌≡◌, ◌⊎◌,
}
use mc_sog.Sog.{CommonSog, TransSylvan, get_successor, relation_at}

-- The weights of a transition's arcs, one for each place.
pub record Weights : Type 0 where
  pub pre : List ℕ
  pub post : List ℕ

-- The last lines of the loop over the transitions in loadNetFromFile.
unfoldable pub relation_of : Weights → TransSylvan
relation_of w = record { minus = lddmc_cube w.pre; plus = lddmc_cube w.post }

abbrev pub relations : List Weights → List TransSylvan
relations [] = []
relations (w ∷ ws) = relation_of w ∷ relations ws

abbrev pub weights_at : List Weights → ℕ → Weights
weights_at ws t = get_or ws t (record { pre = []; post = [] })

-- A net over `k` places: each transition has a weight for each place, and the sets name
-- transitions.
abbrev pub AreSized : ℕ → List Weights → Type 0
AreSized k [] = Unit {0}
AreSized k (w ∷ ws) = (length w.pre ≡ k) × (length w.post ≡ k) × AreSized k ws

abbrev pub AreBelow : ℕ → List ℕ → Type 0
AreBelow n [] = Unit {0}
AreBelow n (i ∷ is) = (i < n) × AreBelow n is

abbrev pub loaded : List Weights → List ℕ → List ℕ → CommonSog
loaded ws eps obs = record { tb_relation = relations ws; non_observable = eps; observable = obs }

-- `i` is one of the list.
abbrev pub In : ℕ → List ℕ → Type 0
In i [] = ⊥
In i (j ∷ js) = (i ≡ j) ⊎ In i js

pub In-below : (n t : ℕ) (is : List ℕ) → AreBelow n is → In t is → t < n
In-below n t [] h p = absurd p
In-below n t (i ∷ is) h (inl e) = omega (arith, h.0)
In-below n t (i ∷ is) h (inr p) = In-below n t is h.1 p

-- One step of a transition of the list `is`.
pub data Step (ws : List Weights) (is : List ℕ) (m m' : List ℕ) : Type 0 where
  by : (i : ℕ) → In i is → Fires (weights_at ws i).pre (weights_at ws i).post m m' → Step ws is m m'

-- A run of `n` steps from `m`.
pub data Run (ws : List Weights) (is : List ℕ) (m : List ℕ) : ℕ → List ℕ → Type 0 where
  here : Run ws is m zero m
  then_by :
      {n : ℕ} {m' m'' : List ℕ} → Run ws is m n m' → Step ws is m' m'' → Run ws is m (suc n) m''

-- The marking `m'` is reached from a marking of `c` by transitions of `is`.
abbrev pub Reached : List Weights → List ℕ → Ldd → List ℕ → Type 0
Reached ws is c m' = (m : List ℕ) × (n : ℕ) × (mem c m ≡ true) × Run ws is m n m'

relation_at-relations :
    (ws : List Weights) (eps obs : List ℕ) (i : ℕ)
    → i < length ws
    → relation_at (loaded ws eps obs) i ≡ relation_of (weights_at ws i)
relation_at-relations [] eps obs i h = absurd (omega arith)
relation_at-relations (w ∷ ws) eps obs zero h = refl
relation_at-relations (w ∷ ws) eps obs (suc i) h = relation_at-relations ws eps obs i (omega arith)

pub weights_at-sized :
    (k : ℕ) (ws : List Weights) (i : ℕ)
    → AreSized k ws
    → i < length ws
    → (length (weights_at ws i).pre ≡ k) × (length (weights_at ws i).post ≡ k)
weights_at-sized k [] i s h = absurd (omega arith)
weights_at-sized k (w ∷ ws) zero s h = (s.0, s.1)
weights_at-sized k (w ∷ ws) (suc i) s h = weights_at-sized k ws i s.2 (omega arith)

-- `get_successor` by a transition of the net is the image under its weights.
pub get_successor-IsImage :
    (index : Ldd → ℕ) (ok : IsIndex index) (k : ℕ) (ws : List Weights) (eps obs : List ℕ) (c : Ldd)
    (i : ℕ)
    → AreSized k ws
    → i < length ws
    → IsLdd k c
    → IsImage k c
        (weights_at ws i).pre
        (weights_at ws i).post
        (get_successor index (loaded ws eps obs) c i)
unfolding get_successor relation_of
get_successor-IsImage index ok k ws eps obs c i s h hc =
    let sized = weights_at-sized k ws i s h in
    rw (relation_at-relations ws eps obs i h)
      (lddmc_firing_mono-IsImage index ok k c _ _ sized.0 sized.1 hc)

pub Run-trans :
    (ws : List Weights) (is : List ℕ) {m m' m'' : List ℕ} {n p : ℕ}
    → Run ws is m n m'
    → Run ws is m' p m''
    → (q : ℕ) × Run ws is m q m''
Run-trans ws is {n = n} r here = (n, r)
Run-trans ws is r (then_by s step) = let (q, t) = Run-trans ws is r s in (suc q, then_by t step)
