-- ===== src/Graph/Build/Invariant.antt =====
-- The invariant of the graph and the stack in computeSeqSOG (src/threadSOG.cpp).
use mc_sog.Graph.{LddState}
use mc_sog.Graph.Build.{Explorer, Task}
use mc_sog.Graph.Edges.{HasEdge, InEdge, IsLinked}
use mc_sog.Graph.Nodes.{ldd_at, ldd_at-append, ldd_at-lt, successors_at-append}
use mc_sog.Ldd.Tree.{Ldd}
use mc_sog.Prelude.{
  ==_iff, ==_self, Bool-cases, List, [], ap, arith, false, inl, inr, length, refl, some, some_eq,
  subst, sym, ℕ, ◌++◌, ◌<◌, ◌==◌, ◌∙◌, ◌∷◌, ◌≡◌, ◌≢◌, ◌⊎◌,
}
use mc_sog.Sog.System.{In}

-- The walks along the edges from `i`.
pub data Walk (ns : List LddState) (i : ℕ) : ℕ → Type 0 where
  stay : Walk ns i i
  along : {j q : ℕ} (t : ℕ) → Walk ns i j → HasEdge ns j t q → Walk ns i q

-- Some entry of the stack has `t` still to be fired at `p`.
abbrev pub Waiting : List Task → ℕ → ℕ → Type 0
Waiting [] p t = ⊥
Waiting (e ∷ st) p t = ((p ≡ e.aggregate) × In t e.fire) ⊎ Waiting st p t

module _ (ex : Explorer) (a0 : Ldd) where
  abbrev pub AreTasks : List LddState → List Task → Type 0
  AreTasks ns [] = Unit {0}
  AreTasks ns (e ∷ st) =
      (ldd_at ns e.aggregate ≡ some e.mdd)
      × ((t : ℕ) → In t e.fire → In t (ex.fire e.mdd))
      × AreTasks ns st

  -- The edge from `p` to `q` by `t` is a step between their aggregates.
  abbrev pub IsEdge : List LddState → ℕ → ℕ → ℕ → Type 0
  IsEdge ns p t q =
      (a b : Ldd) × (ldd_at ns p ≡ some a)
      × In t (ex.fire a)
      × (ex.next a t ≡ some b)
      × (ldd_at ns q ≡ some b)

  pub record IsPartial (ns : List LddState) (st : List Task) : Type 0 where
    pub first : ldd_at ns 0 ≡ some a0
    pub distinct : (i j : ℕ) (d : Ldd) → ldd_at ns i ≡ some d → ldd_at ns j ≡ some d → i ≡ j
    pub tasks : AreTasks ns st
    pub todo :
        (p : ℕ) (a : Ldd) (t : ℕ)
        → ldd_at ns p ≡ some a
        → In t (ex.fire a)
        → ((q : ℕ) × HasEdge ns p t q) ⊎ Waiting st p t
    pub sound : (p t q : ℕ) → HasEdge ns p t q → IsEdge ns p t q
    pub rooted : (p : ℕ) (a : Ldd) → ldd_at ns p ≡ some a → Walk ns 0 p

  -- `ns'` has what `ns` has.
  pub record Extends (ns ns' : List LddState) : Type 0 where
    pub ldds : (i : ℕ) (d : Ldd) → ldd_at ns i ≡ some d → ldd_at ns' i ≡ some d
    pub edges : (i u j : ℕ) → HasEdge ns i u j → HasEdge ns' i u j

  AreTasks-Extends :
      (ns ns' : List LddState) (st : List Task) → Extends ns ns' → AreTasks ns st → AreTasks ns' st
  AreTasks-Extends ns ns' [] h ok = tt
  AreTasks-Extends ns ns' (e ∷ st) h ok =
      (h.ldds e.aggregate e.mdd ok.0, ok.1, AreTasks-Extends ns ns' st h ok.2)

  pub Walk-Extends :
      (ns ns' : List LddState) (i : ℕ) {j : ℕ} → Extends ns ns' → Walk ns i j → Walk ns' i j
  Walk-Extends ns ns' i h stay = stay
  Walk-Extends ns ns' i h (along {j} {q} t w e) =
      along t (Walk-Extends ns ns' i h w) (h.edges j t q e)

  pub IsEdge-Extends :
      (ns ns' : List LddState) (p t q : ℕ) → Extends ns ns' → IsEdge ns p t q → IsEdge ns' p t q
  IsEdge-Extends ns ns' p t q h (a, b, at_p, fire, next, at_q) =
      (a, b, h.ldds p a at_p, fire, next, h.ldds q b at_q)

  -- The entry at the top has `t` done.
  abbrev with_fire : ℕ → Ldd → List ℕ → Task
  with_fire p a ts = record { aggregate = p; mdd = a; fire = ts }

  todo_linked :
      (ns ns' : List LddState) (p : ℕ) (a : Ldd) (t : ℕ) (ts : List ℕ) (st : List Task) (q : ℕ)
      → Extends ns ns'
      → HasEdge ns' p t q
      → (i u : ℕ) → ((j : ℕ) × HasEdge ns i u j) ⊎ Waiting (with_fire p a (t ∷ ts) ∷ st) i u
      → ((j : ℕ) × HasEdge ns' i u j) ⊎ Waiting (with_fire p a ts ∷ st) i u
  todo_linked ns ns' p a t ts st q h new i u (inl (j, e)) = inl (j, h.edges i u j e)
  todo_linked ns ns' p a t ts st q h new i u (inr (inr w)) = inr (inr w)
  todo_linked ns ns' p a t ts st q h new i u (inr (inl (at, inr later))) = inr (inl (at, later))
  todo_linked ns ns' p a t ts st q h new i u (inr (inl (at, inl now))) = inl (q, rw (at, now) new)

  pub Extends-linked :
      (ns : List LddState) (p q t : ℕ) (ns' : List LddState)
      → IsLinked ns p q t ns'
      → Extends ns ns'
  Extends-linked ns p q t ns' l = record { ldds = λ i d e. l.ldds i ∙ e; edges = l.old }

  -- The branch where the aggregate `b` is at `q`.
  pub IsPartial-found :
      (ns ns' : List LddState) (p q t : ℕ) (a b : Ldd) (ts : List ℕ) (st : List Task)
      → IsLinked ns p q t ns'
      → ldd_at ns q ≡ some b
      → ex.next a t ≡ some b
      → IsPartial ns (with_fire p a (t ∷ ts) ∷ st)
      → IsPartial ns' (with_fire p a ts ∷ st)
  IsPartial-found ns ns' p q t a b ts st l at_q next h = record {
    first = l.ldds 0 ∙ h.first;
    distinct = λ i j d ei ej. h.distinct i j d (sym (l.ldds i) ∙ ei) (sym (l.ldds j) ∙ ej);
    tasks = (
      l.ldds p ∙ h.tasks.0,
      λ u later. h.tasks.1 u (inr later),
      AreTasks-Extends ns ns' st ext h.tasks.2,
    );
    todo = λ i c u at fire.
        todo_linked ns ns' p a t ts st q ext l.new i u (h.todo i c u (sym (l.ldds i) ∙ at) fire);
    sound = λ i u j e. elim (l.only i u j e) [
      | inl old ↦ IsEdge-Extends ns ns' i u j ext (h.sound i u j old)
      | inr (ei, eu, ej) ↦ rw (ei, eu, ej) new_edge
    ];
    rooted = λ i c at. Walk-Extends ns ns' 0 ext (h.rooted i c (sym (l.ldds i) ∙ at));
  }
    where
      ext : Extends ns ns'
      ext = Extends-linked ns p q t ns' l

      new_edge : IsEdge ns' p t q
      new_edge = (a, b, l.ldds p ∙ h.tasks.0, h.tasks.1 t (inl refl), next, l.ldds q ∙ at_q)

module _ (ex : Explorer) (a0 : Ldd) (ns : List LddState) (c : LddState) (p t : ℕ) (a : Ldd)
    (ts : List ℕ) (st : List Task) (ns' : List LddState) (bare : c.successors ≡ [])
    (l : IsLinked (ns ++ c ∷ []) p (length ns) t ns')
    (absent : (i : ℕ) → ldd_at ns i ≢ some c.lddstate) (next : ex.next a t ≡ some c.lddstate)
    (h : IsPartial ex a0 ns (record { aggregate = p; mdd = a; fire = t ∷ ts } ∷ st)) where
  ldd_at-new : ldd_at ns' (length ns) ≡ some c.lddstate
  ldd_at-new = l.ldds (length ns) ∙ ldd_at-append ns c (length ns) ∙ rw (==_self (length ns))

  ldd_at-old : (i : ℕ) (d : Ldd) → ldd_at ns i ≡ some d → ldd_at ns' i ≡ some d
  ldd_at-old i d e = l.ldds i ∙ ldd_at-append ns c i ∙ rw (not_last (ldd_at-lt ns i d e)) e
    where
      not_last : i < length ns → (i == length ns) ≡ false
      not_last lt = ground arith

  at_new :
      (i : ℕ) (d : Ldd)
      → ldd_at ns' i ≡ some d
      → ((i ≡ length ns) × (c.lddstate ≡ d)) ⊎ (ldd_at ns i ≡ some d)
  at_new i d e = elim (Bool-cases (i == length ns)) [
    | inl last ↦ inl (
      (==_iff i (length ns)).0 last,
      some_eq (rw last at (sym (ldd_at-append ns c i) ∙ sym (l.ldds i) ∙ e)),
    )
    | inr other ↦ inr (rw other at (sym (ldd_at-append ns c i) ∙ sym (l.ldds i) ∙ e))
  ]

  ext : Extends ex a0 ns ns'
  ext = record {
    ldds = ldd_at-old;
    edges = λ i u j e. l.old i u j (subst (InEdge j u) (sym (successors_at-append ns c i bare)) e);
  }

  new_distinct : (i j : ℕ) (d : Ldd) → ldd_at ns' i ≡ some d → ldd_at ns' j ≡ some d → i ≡ j
  new_distinct i j d ei ej = elim (at_new i d ei) [
    | inl (at_i, is_i) ↦ elim (at_new j d ej) [
      | inl (at_j, is_j) ↦ at_i ∙ sym at_j
      | inr old ↦ absurd (absent j (old ∙ ap some (sym is_i)))
    ]
    | inr old_i ↦ elim (at_new j d ej) [
      | inl (at_j, is_j) ↦ absurd (absent i (old_i ∙ ap some (sym is_j)))
      | inr old_j ↦ h.distinct i j d old_i old_j
    ]
  ]

  abbrev tasks_after : List Task
  tasks_after =
      record { aggregate = p; mdd = a; fire = ts }
      ∷ record { aggregate = length ns; mdd = c.lddstate; fire = ex.fire c.lddstate }
      ∷ st

  waits_on :
      (i u : ℕ)
      → ((j : ℕ) × HasEdge ns' i u j)
        ⊎ Waiting (record { aggregate = p; mdd = a; fire = ts } ∷ st) i u
      → ((j : ℕ) × HasEdge ns' i u j) ⊎ Waiting tasks_after i u
  waits_on i u (inl e) = inl e
  waits_on i u (inr (inl w)) = inr (inl w)
  waits_on i u (inr (inr w)) = inr (inr (inr w))

  new_todo :
      (i : ℕ) (d : Ldd) (u : ℕ)
      → ldd_at ns' i ≡ some d
      → In u (ex.fire d)
      → ((j : ℕ) × HasEdge ns' i u j) ⊎ Waiting tasks_after i u
  new_todo i d u at fire = elim (at_new i d at) [
    | inl (last, same) ↦ inr (inr (inl (last, rw same fire)))
    | inr old ↦
        waits_on i u
          (todo_linked ex a0 ns ns' p a t ts st (length ns) ext l.new i u (h.todo i d u old fire))
  ]

  new_rooted : (i : ℕ) (d : Ldd) → ldd_at ns' i ≡ some d → Walk ns' 0 i
  new_rooted i d at = elim (at_new i d at) [
    | inl (last, same) ↦
        rw last (along t (Walk-Extends ex a0 ns ns' 0 ext (h.rooted p a h.tasks.0)) l.new)
    | inr old ↦ Walk-Extends ex a0 ns ns' 0 ext (h.rooted i d old)
  ]

  -- The branch where the aggregate is new.
  pub IsPartial-new : IsPartial ex a0 ns' tasks_after
  IsPartial-new = record {
    first = ldd_at-old 0 a0 h.first;
    distinct = new_distinct;
    tasks = (
      ldd_at-old p a h.tasks.0,
      λ u later. h.tasks.1 u (inr later),
      (ldd_at-new, λ u fire. fire, AreTasks-Extends ex a0 ns ns' st ext h.tasks.2),
    );
    todo = new_todo;
    sound = λ i u j e. elim (l.only i u j e) [
      | inl old ↦
          IsEdge-Extends ex a0 ns ns' i u j ext
            (h.sound i u j (subst (InEdge j u) (successors_at-append ns c i bare) old))
      | inr (ei, eu, ej) ↦
          rw (ei, eu, ej)
            (a, c.lddstate, ldd_at-old p a h.tasks.0, h.tasks.1 t (inl refl), next, ldd_at-new)
    ];
    rooted = new_rooted;
  }
