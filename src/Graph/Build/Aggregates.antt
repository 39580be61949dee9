-- ===== src/Graph/Build/Aggregates.antt =====
-- The aggregates of a net with finitely many reachable markings, for computeSeqSOG
-- (src/threadSOG.cpp).
use mc_sog.Graph.{LddGraph, insert, new_state, set_initial_state}
use mc_sog.Graph.Build.{compute_seq_sog, empty_graph, explorer, first_search}
use mc_sog.Graph.Build.Correct.{IsPartial-first}
use mc_sog.Graph.Build.Ends.{IsExplored, build_loop_returns}
use mc_sog.Graph.Build.Measure.{keys, unseen, unseen-le}
use mc_sog.Ldd.Canonical.{canonical}
use mc_sog.Ldd.Fire.Image.{Fires, IsImage}
use mc_sog.Ldd.Tree.{IsIndex, IsLdd, Ldd, mem}
use mc_sog.Prelude.{
  Bool-cases, List, [], arith, if◌then◌else◌, inl, inr, length, some, suc, sym, true, zero, ℕ, ◌*◌,
  ◌+◌, ◌<◌, ◌^◌, ◌↔◌, ◌∙◌, ◌∷◌, ◌≡◌,
}
use mc_sog.Sog.{accessible_epsilon, get_successor}
use mc_sog.Sog.Divergence.Decides.{IsClosed, set_div_decides}
use mc_sog.Sog.Epsilon.Ends.{accessible_epsilon_closure}
use mc_sog.Sog.Finite.{InMarks}
use mc_sog.Sog.Image.{firable_obs-In}
use mc_sog.Sog.System.{
  AreBelow, AreSized, In, In-below, Reached, Run, Step, Weights, get_successor-IsImage, here,
  loaded, then_by, weights_at,
}

-- such a net.

-- The firing sequences from `m`, with the observable transitions fired so far, the last first.
pub data Observed (ws : List Weights) (eps obs : List ℕ) (m : List ℕ)
    : List ℕ → List ℕ → Type 0 where
  start : Observed ws eps obs m [] m
  silent :
      {σ : List ℕ} {m' m'' : List ℕ}
      → Observed ws eps obs m σ m'
      → Step ws eps m' m''
      → Observed ws eps obs m σ m''
  observed :
      {σ : List ℕ} {m' m'' : List ℕ} (t : ℕ)
      → Observed ws eps obs m σ m'
      → In t obs
      → Fires (weights_at ws t).pre (weights_at ws t).post m' m''
      → Observed ws eps obs m (t ∷ σ) m''

-- `m'` is reached from a marking of the tree by a sequence with the observable transitions `σ`.
abbrev pub Reaches : List Weights → List ℕ → List ℕ → Ldd → List ℕ → List ℕ → Type 0
Reaches ws eps obs from σ m' = (m : List ℕ) × (mem from m ≡ true) × Observed ws eps obs m σ m'

pub Observed-Run :
    (ws : List Weights) (eps obs : List ℕ) {m m' m'' : List ℕ} {σ : List ℕ} {n : ℕ}
    → Observed ws eps obs m σ m'
    → Run ws eps m' n m''
    → Observed ws eps obs m σ m''
Observed-Run ws eps obs o here = o
Observed-Run ws eps obs o (then_by r s) = silent (Observed-Run ws eps obs o r) s

-- Which markings of a list a tree has, as a number.
abbrev pub marks_key : List (List ℕ) → Ldd → ℕ
marks_key [] a = 0
marks_key (u ∷ us) a = (if mem a u then 1 else 0) + 2 * marks_key us a

marks_key-lt : (us : List (List ℕ)) (a : Ldd) → marks_key us a < 2 ^ length us
marks_key-lt [] a = omega arith
marks_key-lt (u ∷ us) a = ground (arith, marks_key-lt us a)

marks_key_injective :
    (us : List (List ℕ)) (a b : Ldd) (m : List ℕ)
    → marks_key us a ≡ marks_key us b
    → InMarks m us
    → mem a m ≡ mem b m
marks_key_injective [] a b m e h = absurd h
marks_key_injective (u ∷ us) a b m e (inl at) = rw at (ground arith)
marks_key_injective (u ∷ us) a b m e (inr h) = marks_key_injective us a b m (ground arith) h

pub lt_power : (n : ℕ) → n < 2 ^ n
lt_power zero = omega arith
lt_power (suc n) = omega (arith, lt_power n)

module _ (index : Ldd → ℕ) (ok : IsIndex index) (k : ℕ) (ws : List Weights) (eps obs : List ℕ)
    (sized : AreSized k ws) (below : AreBelow (length ws) eps)
    (below_obs : AreBelow (length ws) obs) (from : Ldd) where
  -- The marking is reached from the initial ones.
  abbrev pub Reachable : List ℕ → Type 0
  Reachable m = (σ : List ℕ) × Reaches ws eps obs from σ m

  pub record IsAggregate (a : Ldd) : Type 0 where
    pub formed : IsLdd k a
    pub closed : IsClosed ws eps a
    pub reached : (m : List ℕ) → mem a m ≡ true → Reachable m

  closure_IsClosed :
      (c to : Ldd) → ((m : List ℕ) → (mem to m ≡ true) ↔ Reached ws eps c m) → IsClosed ws eps to
  closure_IsClosed c to members m m' inside step =
      let (m0, n, start_in, run) = (members m).0 inside in
      (members m').1 (m0, suc n, start_in, then_by run step)

  -- What Accessible_epsilon returns from a set of reachable markings.
  pub closure_IsAggregate :
      (us : List (List ℕ)) (fuel : ℕ) (c : Ldd)
      → ((m : List ℕ) → Reachable m → InMarks m us)
      → length us < fuel
      → IsLdd k c
      → ((m : List ℕ) → mem c m ≡ true → Reachable m)
      → (to : Ldd) × (accessible_epsilon index (loaded ws eps obs) fuel c ≡ some to)
        × IsAggregate to
        × ((m : List ℕ) → (mem to m ≡ true) ↔ Reached ws eps c m)
  closure_IsAggregate us fuel c finite lt hc reached =
      let (to, e, formed, members) =
        accessible_epsilon_closure index ok k ws eps obs sized below us fuel c hc
          (λ m r. finite m (further m r)) lt in
      (
        to,
        e,
        record {
          formed = formed;
          closed = closure_IsClosed c to members;
          reached = λ m inside. further m ((members m).0 inside);
        },
        members,
      )
    where
      further : (m : List ℕ) → Reached ws eps c m → Reachable m
      further m (m0, n, inside, run) =
          let (σ, (m1, first, o)) = reached m0 inside in
          (σ, (m1, first, Observed-Run ws eps obs o run))

  successor_Reachable :
      (a : Ldd) (t : ℕ)
      → IsAggregate a
      → In t obs
      → IsImage k a
          (weights_at ws t).pre
          (weights_at ws t).post
          (get_successor index (loaded ws eps obs) a t)
      → (m : List ℕ) → mem (get_successor index (loaded ws eps obs) a t) m ≡ true
      → Reachable m
  successor_Reachable a t agg here_t image m inside =
      let (m0, start_in, fires) = image.only m inside in
      let (σ, (m1, first, o)) = agg.reached m0 start_in in
      (t ∷ σ, (m1, first, observed t o here_t fires))

  pub net_IsExplored :
      (us : List (List ℕ)) (fuel : ℕ)
      → ((m : List ℕ) → Reachable m → InMarks m us)
      → length us < fuel
      → IsExplored
          (explorer index (loaded ws eps obs) fuel)
          IsAggregate
          (marks_key us)
          (2 ^ length us)
  net_IsExplored us fuel finite lt = record {
    next_returns = λ a t agg fire.
        let member =
          ((firable_obs-In index ok k ws eps obs sized a t below_obs agg.formed).0 fire).0 in
        let image =
          get_successor-IsImage index ok k ws eps obs a t sized
            (In-below (length ws) t obs below_obs member) agg.formed in
        let (b, e, agg_b, members) =
          closure_IsAggregate us fuel _ finite lt image.formed
            (successor_Reachable a t agg member image) in
        (b, e, agg_b);
    div_returns = λ a agg.
        let (r, e, iff) =
          set_div_decides index ok k ws obs sized eps below us fuel a agg.formed agg.closed
            (λ m inside. finite m (agg.reached m inside)) lt in
        (r, e);
    bounded = λ a agg. marks_key-lt us a;
    injective = λ a b agg_a agg_b e.
        canonical k a b agg_a.formed agg_b.formed (λ m. same a b agg_a agg_b e m);
  }
    where
      same :
          (a b : Ldd)
          → IsAggregate a
          → IsAggregate b
          → marks_key us a ≡ marks_key us b
          → (m : List ℕ) → mem a m ≡ mem b m
      same a b agg_a agg_b e m = elim (Bool-cases (mem a m)) [
        | inl in_a ↦ marks_key_injective us a b m e (finite m (agg_a.reached m in_a))
        | inr out_a ↦ elim (Bool-cases (mem b m)) [
          | inl in_b ↦ marks_key_injective us a b m e (finite m (agg_b.reached m in_b))
          | inr out_b ↦ out_a ∙ sym out_b
        ]
      ]

  -- On a net with finitely many reachable markings, with a well-formed initial tree and more fuel
  -- than there are sets of these markings, computeSeqSOG returns a graph.
  pub compute_seq_sog_returns :
      (us : List (List ℕ)) (fuel : ℕ)
      → ((m : List ℕ) → Reachable m → InMarks m us)
      → 2 ^ length us < fuel
      → IsLdd k from
      → (g : LddGraph) × (compute_seq_sog index (loaded ws eps obs) fuel from ≡ some g)
  unfolding compute_seq_sog first_search insert set_initial_state
  compute_seq_sog_returns us fuel finite lt hf =
      let lt' : length us < fuel = omega (arith, lt_power (length us)) in
      let (a0, e, agg, members) =
        closure_IsAggregate us fuel from finite lt' hf (λ m inside. ([], (m, inside, start))) in
      let ex = explorer index (loaded ws eps obs) fuel in
      let (g, e') =
        build_loop_returns index ok ex a0 IsAggregate (marks_key us) (2 ^ length us)
          (net_IsExplored us fuel finite lt') agg fuel (first_search index ex empty_graph a0).graph
          (first_search index ex empty_graph a0).stack (IsPartial-first ex a0) (first_measure a0) in
      (g, rw e e')
    where
      first_measure :
          (a0 : Ldd)
          → unseen (keys (marks_key us) (new_state a0 ∷ [])) (2 ^ length us) + 1 < suc fuel
      first_measure a0 =
          omega (arith, unseen-le (keys (marks_key us) (new_state a0 ∷ [])) (2 ^ length us), lt)
