-- ===== src/Graph/Threads/Invariant.antt =====
-- The invariant of the graph, the stacks and the phases in doCompute (src/threadSOG.cpp).
use mc_sog.Graph.{LddState}
use mc_sog.Graph.Build.{Explorer, Task}
use mc_sog.Graph.Build.Correct.{IsSog}
use mc_sog.Graph.Build.Invariant.{IsEdge, Walk}
use mc_sog.Graph.Edges.{HasEdge}
use mc_sog.Graph.Nodes.{ldd_at}
use mc_sog.Graph.Threads.{IsFinished, Phase, Shared, firing, idle, linking, pushing}
use mc_sog.Ldd.Tree.{Ldd}
use mc_sog.Prelude.{List, Option, [], inl, inr, none, some, subst, ℕ, ◌∷◌, ◌≡◌, ◌⊎◌}
use mc_sog.Sog.System.{In}

abbrev pub InTasks : Task → List Task → Type 0
InTasks e [] = ⊥
InTasks e (f ∷ st) = (e ≡ f) ⊎ InTasks e st

-- An entry still has `t` to fire at `p`.
abbrev pub OwesTask : Task → ℕ → ℕ → Type 0
OwesTask e p t = (p ≡ e.aggregate) × In t e.fire

abbrev pub OwesStack : List Task → ℕ → ℕ → Type 0
OwesStack st p t = (e : Task) × InTasks e st × OwesTask e p t

module _ (ex : Explorer) (a0 : Ldd) where
  abbrev pub OwesFresh : ℕ → Option Ldd → ℕ → ℕ → Type 0
  OwesFresh q none p t = ⊥
  OwesFresh q (some b) p t = (p ≡ q) × In t (ex.fire b)

  abbrev pub OwesPhase : Phase → ℕ → ℕ → Type 0
  OwesPhase idle p t = ⊥
  OwesPhase (firing e) p t = OwesTask e p t
  OwesPhase (linking e u q fresh) p t =
      ((p ≡ e.aggregate) × ((t ≡ u) ⊎ In t e.fire)) ⊎ OwesFresh q fresh p t
  OwesPhase (pushing e q b) p t = OwesTask e p t ⊎ ((p ≡ q) × In t (ex.fire b))

  -- Some thread still has `t` to fire at `p`.
  abbrev pub Owes : (ℕ → List Task) → (ℕ → Phase) → ℕ → ℕ → Type 0
  Owes stacks phases p t =
      ((i : ℕ) × OwesStack (stacks i) p t) ⊎ ((i : ℕ) × OwesPhase (phases i) p t)

  -- A thread is about to record the first edge to the aggregate at `q`.
  abbrev pub Fresh : Phase → ℕ → Type 0
  Fresh (linking e u r (some b)) q = q ≡ r
  Fresh _ q = ⊥

  -- An aggregate that an entry is for has been reached.
  abbrev pub IsTask : List LddState → Task → Type 0
  IsTask ns e =
      (ldd_at ns e.aggregate ≡ some e.mdd)
      × ((t : ℕ) → In t e.fire → In t (ex.fire e.mdd))
      × Walk ns 0 e.aggregate

  abbrev pub IsFresh : Ldd → Option Ldd → Type 0
  IsFresh b none = Unit {0}
  IsFresh b (some c) = b ≡ c

  abbrev pub IsPhase : List LddState → Phase → Type 0
  IsPhase ns idle = Unit {0}
  IsPhase ns (firing e) = IsTask ns e
  IsPhase ns (linking e u q fresh) =
      IsTask ns e
      × In u (ex.fire e.mdd)
      × ((b : Ldd) × (ex.next e.mdd u ≡ some b) × (ldd_at ns q ≡ some b) × IsFresh b fresh)
  IsPhase ns (pushing e q b) = IsTask ns e × (ldd_at ns q ≡ some b) × Walk ns 0 q

  pub record IsShared (s : Shared) : Type 0 where
    pub first : ldd_at s.graph.go_nodes 0 ≡ some a0
    pub distinct :
        (i j : ℕ) (d : Ldd)
        → ldd_at s.graph.go_nodes i ≡ some d
        → ldd_at s.graph.go_nodes j ≡ some d
        → i ≡ j
    pub tasks : (i : ℕ) (e : Task) → InTasks e (s.stacks i) → IsTask s.graph.go_nodes e
    pub in_phase : (i : ℕ) → IsPhase s.graph.go_nodes (s.phases i)
    pub todo :
        (p : ℕ) (a : Ldd) (t : ℕ)
        → ldd_at s.graph.go_nodes p ≡ some a
        → In t (ex.fire a)
        → ((q : ℕ) × HasEdge s.graph.go_nodes p t q) ⊎ Owes s.stacks s.phases p t
    pub sound : (p t q : ℕ) → HasEdge s.graph.go_nodes p t q → IsEdge ex a0 s.graph.go_nodes p t q
    pub rooted :
        (q : ℕ) (a : Ldd)
        → ldd_at s.graph.go_nodes q ≡ some a
        → Walk s.graph.go_nodes 0 q ⊎ ((i : ℕ) × Fresh (s.phases i) q)

  -- Where no thread has anything left to do, the graph is complete.
  pub IsShared-IsSog : (s : Shared) → IsShared s → IsFinished s → IsSog ex a0 s.graph.go_nodes
  IsShared-IsSog s h over = record {
    first = h.first;
    distinct = h.distinct;
    complete = λ p a t at fired. elim (h.todo p a t at fired) [
      | inl e ↦ e
      | inr (inl (i, (e, inside, owes))) ↦ absurd (subst (InTasks e) (over i).0 inside)
      | inr (inr (i, owes)) ↦ absurd (subst (λ x. OwesPhase x p t) (over i).1 owes)
    ];
    sound = h.sound;
    rooted = λ q a at. elim (h.rooted q a at) [
      | inl w ↦ w
      | inr (i, is_new) ↦ absurd (subst (λ x. Fresh x q) (over i).1 is_new)
    ];
  }
