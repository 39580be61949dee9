-- ===== src/Graph/Threads/Edges.antt =====
-- The steps of a thread of doCompute (src/threadSOG.cpp) that record an edge or push an entry.
use mc_sog.Graph.{LddState, link}
use mc_sog.Graph.Build.{Explorer, Task, task}
use mc_sog.Graph.Build.Invariant.{
  Extends, Extends-linked, IsEdge, IsEdge-Extends, Walk, Walk-Extends, along,
}
use mc_sog.Graph.Edges.{IsLinked, link-IsLinked}
use mc_sog.Graph.Nodes.{ldd_at-lt}
use mc_sog.Graph.Threads.{Phase, Shared, after_link, firing, linking, pushing}
use mc_sog.Graph.Threads.Invariant.{
  Fresh, InTasks, IsPhase, IsShared, IsTask, OwesFresh, OwesPhase, OwesStack, OwesTask,
}
use mc_sog.Graph.Threads.Kept.{IsPhase-Extends, IsTask-Extends}
use mc_sog.Ldd.Tree.{IsIndex, Ldd}
use mc_sog.Prelude.{
  List, Option, ap, every_update, inl, inr, none, refl, some, some_update, subst, sym, update,
  update_self, ℕ, ◌∙◌, ◌∷◌, ◌≡◌, ◌⊎◌,
}
use mc_sog.Sog.System.{In}

module _ (index : Ldd → ℕ) (ok : IsIndex index) (ex : Explorer) (a0 : Ldd) where
  pub push_entry-IsShared :
      (s : Shared) (i j : ℕ) (e : Task) (q : ℕ) (b : Ldd)
      → s.phases i ≡ pushing e q b
      → IsShared ex a0 s
      → IsShared ex a0 (record s {
        stacks = update s.stacks j (task q b (ex.fire b) ∷ s.stacks j);
        phases = update s.phases i (firing e);
      })
  push_entry-IsShared s i j e q b at_i h = record {
    first = h.first;
    distinct = h.distinct;
    tasks =
        every_update s.stacks j (k ∷ s.stacks j)
          (λ x. (f : Task) → InTasks f x → IsTask ex a0 s.graph.go_nodes f) h.tasks
          (λ f inside. elim inside [
            | inl same ↦
                subst (IsTask ex a0 s.graph.go_nodes) (sym same)
                  (here_phase.1, λ t fires. fires, here_phase.2)
            | inr later ↦ h.tasks j f later
          ]);
    in_phase =
        every_update s.phases i (firing e) (IsPhase ex a0 s.graph.go_nodes) h.in_phase here_phase.0;
    todo = λ p d t at fires. elim (h.todo p d t at fires) [
      | inl edge ↦ inl edge
      | inr (inl owed) ↦ inr (inl (stacked p t owed))
      | inr (inr owed) ↦
          elim (some_update s.phases i (firing e) (λ ph. OwesPhase ex a0 ph p t)
            (OwesTask e p t ⊎ ((p ≡ q) × In t (ex.fire b)))
            (λ o. subst (λ ph. OwesPhase ex a0 ph p t) at_i o) owed) [
              | inl o ↦ inr (inr o)
              | inr (inl o) ↦ inr (
                  inr (
                    i,
                    subst (λ ph. OwesPhase ex a0 ph p t) (sym (update_self s.phases i (firing e)))
                        o,
                  ))
              | inr (inr o) ↦ inr (
                  inl (
                    j,
                    subst (λ x. OwesStack x p t) (sym (update_self s.stacks j (k ∷ s.stacks j)))
                        (k, inl refl, o),
                  ))
            ]
    ];
    sound = h.sound;
    rooted = λ p d at. elim (h.rooted p d at) [
      | inl w ↦ inl w
      | inr is_new ↦
          elim (some_update s.phases i (firing e) (λ ph. Fresh ex a0 ph p) ⊥
            (λ o. subst (λ ph. Fresh ex a0 ph p) at_i o) is_new) [
              | inl o ↦ inr o
              | inr none_left ↦ absurd none_left
            ]
    ];
  }
    where
      k : Task
      k = task q b (ex.fire b)

      here_phase : IsPhase ex a0 s.graph.go_nodes (pushing e q b)
      here_phase = subst (IsPhase ex a0 s.graph.go_nodes) at_i (h.in_phase i)

      stacked :
          (p t : ℕ)
          → ((m : ℕ) × OwesStack (s.stacks m) p t)
          → (m : ℕ) × OwesStack (update s.stacks j (k ∷ s.stacks j) m) p t
      stacked p t owed =
          elim (some_update s.stacks j (k ∷ s.stacks j) (λ x. OwesStack x p t)
            (OwesStack (s.stacks j) p t) (λ o. o) owed) [
              | inl o ↦ o
              | inr (f, inside, owes) ↦ (
                j,
                subst (λ x. OwesStack x p t) (sym (update_self s.stacks j (k ∷ s.stacks j)))
                    (f, inr inside, owes),
              )
            ]

  pub record_edge-IsShared :
      (s : Shared) (i p : ℕ) (a : Ldd) (ts : List ℕ) (t q : ℕ) (fresh : Option Ldd)
      → s.phases i ≡ linking (task p a ts) t q fresh
      → IsShared ex a0 s
      → IsShared ex a0 (record s {
        graph = link s.graph p q t;
        phases = update s.phases i (after_link (task p a ts) q fresh);
      })
  record_edge-IsShared s i p a ts t q fresh at_i h = record {
    first = l.ldds 0 ∙ h.first;
    distinct = λ m n d em en. h.distinct m n d (sym (l.ldds m) ∙ em) (sym (l.ldds n) ∙ en);
    tasks = λ j e inside. IsTask-Extends index ok ex a0 ns ns' e ext (h.tasks j e inside);
    in_phase =
        every_update s.phases i next_phase (IsPhase ex a0 ns')
          (λ j. IsPhase-Extends index ok ex a0 ns ns' (s.phases j) ext (h.in_phase j))
          (new_phase fresh now);
    todo = λ r d u at fires. elim (h.todo r d u (sym (l.ldds r) ∙ at) fires) [
      | inl (v, edge) ↦ inl (v, l.old r u v edge)
      | inr (inl owed) ↦ inr (inl owed)
      | inr (inr owed) ↦
          elim (some_update s.phases i next_phase (λ ph. OwesPhase ex a0 ph r u)
            (OwesPhase ex a0 (linking (task p a ts) t q fresh) r u)
            (λ o. subst (λ ph. OwesPhase ex a0 ph r u) at_i o) owed) [
              | inl o ↦ inr (inr o)
              | inr (inl (at_r, inl at_u)) ↦ inl (q, rw (at_r, at_u) l.new)
              | inr (inl (at_r, inr later)) ↦ inr (
                  inr (
                    i,
                    subst (λ ph. OwesPhase ex a0 ph r u) (sym (update_self s.phases i next_phase))
                        (still fresh r u at_r later),
                  ))
              | inr (inr o) ↦ inr (
                  inr (
                    i,
                    subst (λ ph. OwesPhase ex a0 ph r u) (sym (update_self s.phases i next_phase))
                        (still_fresh fresh r u o),
                  ))
            ]
    ];
    sound = λ m u n edge. elim (l.only m u n edge) [
      | inl old ↦ IsEdge-Extends ex a0 ns ns' m u n ext (h.sound m u n old)
      | inr (em, eu, en) ↦ rw (em, eu, en) new_edge
    ];
    rooted = λ r d at. elim (h.rooted r d (sym (l.ldds r) ∙ at)) [
      | inl w ↦ inl (Walk-Extends ex a0 ns ns' 0 ext w)
      | inr is_new ↦
          elim (some_update s.phases i next_phase (λ ph. Fresh ex a0 ph r) (r ≡ q)
            (λ o. fresh_at fresh r (subst (λ ph. Fresh ex a0 ph r) at_i o)) is_new) [
              | inl o ↦ inr o
              | inr at_q ↦ inl (rw at_q walk_q)
            ]
    ];
  }
    where
      ns : List LddState
      ns = s.graph.go_nodes

      ns' : List LddState
      ns' = (link s.graph p q t).go_nodes

      next_phase : Phase
      next_phase = after_link (task p a ts) q fresh

      now : IsPhase ex a0 ns (linking (task p a ts) t q fresh)
      now = subst (IsPhase ex a0 ns) at_i (h.in_phase i)

      l : IsLinked ns p q t ns'
      l = link-IsLinked s.graph p q t (ldd_at-lt ns p a now.0.0)

      ext : Extends ex a0 ns ns'
      ext = Extends-linked ex a0 ns p q t ns' l

      new_edge : IsEdge ex a0 ns' p t q
      new_edge =
          let (b, next, at_q, _) = now.2 in
          (a, b, ext.ldds p a now.0.0, now.1, next, ext.ldds q b at_q)

      walk_q : Walk ns' 0 q
      walk_q = along t (Walk-Extends ex a0 ns ns' 0 ext now.0.2) l.new

      new_phase :
          (fresh : Option Ldd)
          → IsPhase ex a0 ns (linking (task p a ts) t q fresh)
          → IsPhase ex a0 ns' (after_link (task p a ts) q fresh)
      new_phase none now = IsTask-Extends index ok ex a0 ns ns' (task p a ts) ext now.0
      new_phase (some c) now =
          let (b, next, at_q, same) = now.2 in
          (
            IsTask-Extends index ok ex a0 ns ns' (task p a ts) ext now.0,
            ext.ldds q c (at_q ∙ ap some same),
            walk_q,
          )

      still :
          (fresh : Option Ldd) (r u : ℕ)
          → r ≡ p
          → In u ts
          → OwesPhase ex a0 (after_link (task p a ts) q fresh) r u
      still none r u at later = (at, later)
      still (some c) r u at later = inl (at, later)

      still_fresh :
          (fresh : Option Ldd) (r u : ℕ)
          → OwesFresh ex a0 q fresh r u
          → OwesPhase ex a0 (after_link (task p a ts) q fresh) r u
      still_fresh none r u o = absurd o
      still_fresh (some c) r u o = inr o

      fresh_at :
          (fresh : Option Ldd) (r : ℕ) → Fresh ex a0 (linking (task p a ts) t q fresh) r → r ≡ q
      fresh_at none r o = absurd o
      fresh_at (some c) r o = o
