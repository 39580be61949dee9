-- ===== src/Graph/Threads/Kept.antt =====
-- The steps of a thread of doCompute (src/threadSOG.cpp) that leave the graph as it is.
use mc_sog.Graph.{LddState}
use mc_sog.Graph.Build.{Explorer, Task, task}
use mc_sog.Graph.Build.Invariant.{Extends, Walk-Extends}
use mc_sog.Graph.Edges.{InEdge}
use mc_sog.Graph.Nodes.{ldd_at, ldd_at-append, ldd_at-lt, successors_at-append}
use mc_sog.Graph.Threads.{Phase, Shared, firing, idle, linking, pushing}
use mc_sog.Graph.Threads.Invariant.{
  Fresh, InTasks, IsPhase, IsShared, IsTask, OwesPhase, OwesStack, OwesTask,
}
use mc_sog.Ldd.Tree.{IsIndex, Ldd}
use mc_sog.Prelude.{
  ==_iff, Bool-cases, List, [], arith, every_update, false, inl, inr, length, refl, some, some_eq,
  some_update, subst, sym, update, update_self, ℕ, ◌++◌, ◌<◌, ◌==◌, ◌∙◌, ◌∷◌, ◌≡◌, ◌⊎◌,
}

pub append_cases :
    (ns : List LddState) (c : LddState) (i : ℕ) (d : Ldd)
    → ldd_at (ns ++ c ∷ []) i ≡ some d
    → ((i ≡ length ns) × (c.lddstate ≡ d)) ⊎ (ldd_at ns i ≡ some d)
append_cases ns c i d e = elim (Bool-cases (i == length ns)) [
  | inl last ↦
      inl ((==_iff i (length ns)).0 last, some_eq (rw last at (sym (ldd_at-append ns c i) ∙ e)))
  | inr other ↦ inr (rw other at (sym (ldd_at-append ns c i) ∙ e))
]

module _ (index : Ldd → ℕ) (ok : IsIndex index) (ex : Explorer) (a0 : Ldd) where
  pub Extends-append :
      (ns : List LddState) (c : LddState) → c.successors ≡ [] → Extends ex a0 ns (ns ++ c ∷ [])
  Extends-append ns c bare = record {
    ldds = λ i d e. ldd_at-append ns c i ∙ rw (not_last i (ldd_at-lt ns i d e)) e;
    edges = λ i u j e. subst (InEdge j u) (sym (successors_at-append ns c i bare)) e;
  }
    where
      not_last : (i : ℕ) → i < length ns → (i == length ns) ≡ false
      not_last i lt = ground arith

  pub IsTask-Extends :
      (ns ns' : List LddState) (e : Task)
      → Extends ex a0 ns ns'
      → IsTask ex a0 ns e
      → IsTask ex a0 ns' e
  IsTask-Extends ns ns' e h (at, fires, w) = (h.ldds _ _ at, fires, Walk-Extends ex a0 ns ns' 0 h w)

  pub IsPhase-Extends :
      (ns ns' : List LddState) (ph : Phase)
      → Extends ex a0 ns ns'
      → IsPhase ex a0 ns ph
      → IsPhase ex a0 ns' ph
  IsPhase-Extends ns ns' idle h p = tt
  IsPhase-Extends ns ns' (firing e) h p = IsTask-Extends ns ns' e h p
  IsPhase-Extends ns ns' (linking e u q fresh) h (k, m, (b, next, at, is_new)) =
      (IsTask-Extends ns ns' e h k, m, (b, next, h.ldds q b at, is_new))
  IsPhase-Extends ns ns' (pushing e q b) h (k, at, w) =
      (IsTask-Extends ns ns' e h k, h.ldds q b at, Walk-Extends ex a0 ns ns' 0 h w)

  pub end_entry-IsShared :
      (s : Shared) (i p : ℕ) (a : Ldd)
      → s.phases i ≡ firing (task p a [])
      → IsShared ex a0 s
      → IsShared ex a0 (record s { phases = update s.phases i idle })
  end_entry-IsShared s i p a e h = record {
    first = h.first;
    distinct = h.distinct;
    tasks = h.tasks;
    in_phase = every_update s.phases i idle (IsPhase ex a0 s.graph.go_nodes) h.in_phase tt;
    todo = λ q d t at fires. elim (h.todo q d t at fires) [
      | inl edge ↦ inl edge
      | inr (inl owed) ↦ inr (inl owed)
      | inr (inr owed) ↦
          elim (some_update s.phases i idle (λ ph. OwesPhase ex a0 ph q t) ⊥
            (λ o. (subst (λ ph. OwesPhase ex a0 ph q t) e o).1) owed) [
              | inl o ↦ inr (inr o)
              | inr none_left ↦ absurd none_left
            ]
    ];
    sound = h.sound;
    rooted = λ q d at. elim (h.rooted q d at) [
      | inl w ↦ inl w
      | inr is_new ↦
          elim (some_update s.phases i idle (λ ph. Fresh ex a0 ph q) ⊥
            (λ o. subst (λ ph. Fresh ex a0 ph q) e o) is_new) [
              | inl o ↦ inr o
              | inr none_left ↦ absurd none_left
            ]
    ];
  }

  pub take_entry-IsShared :
      (s : Shared) (i : ℕ) (k : Task) (st : List Task)
      → s.phases i ≡ idle
      → s.stacks i ≡ k ∷ st
      → IsShared ex a0 s
      → IsShared ex a0
          (record s { stacks = update s.stacks i st; phases = update s.phases i (firing k) })
  take_entry-IsShared s i k st e es h = record {
    first = h.first;
    distinct = h.distinct;
    tasks =
        every_update s.stacks i st (λ x. (f : Task) → InTasks f x → IsTask ex a0 s.graph.go_nodes f)
          h.tasks (λ f inside. h.tasks i f (subst (InTasks f) (sym es) (inr inside)));
    in_phase =
        every_update s.phases i (firing k) (IsPhase ex a0 s.graph.go_nodes) h.in_phase
          (h.tasks i k (subst (InTasks k) (sym es) (inl refl)));
    todo = λ q d t at fires. elim (h.todo q d t at fires) [
      | inl edge ↦ inl edge
      | inr (inl owed) ↦
          inr
            (elim (some_update s.stacks i st (λ x. OwesStack x q t)
              (OwesStack st q t ⊎ OwesTask k q t) (split q t) owed) [
                | inl o ↦ inl o
                | inr (inl o) ↦
                    inl (i, subst (λ x. OwesStack x q t) (sym (update_self s.stacks i st)) o)
                | inr (inr o) ↦ inr (
                  i,
                  subst (λ ph. OwesPhase ex a0 ph q t) (sym (update_self s.phases i (firing k))) o,
                )
              ])
      | inr (inr owed) ↦
          elim (some_update s.phases i (firing k) (λ ph. OwesPhase ex a0 ph q t) ⊥
            (λ o. subst (λ ph. OwesPhase ex a0 ph q t) e o) owed) [
              | inl o ↦ inr (inr o)
              | inr none_left ↦ absurd none_left
            ]
    ];
    sound = h.sound;
    rooted = λ q d at. elim (h.rooted q d at) [
      | inl w ↦ inl w
      | inr is_new ↦
          elim (some_update s.phases i (firing k) (λ ph. Fresh ex a0 ph q) ⊥
            (λ o. subst (λ ph. Fresh ex a0 ph q) e o) is_new) [
              | inl o ↦ inr o
              | inr none_left ↦ absurd none_left
            ]
    ];
  }
    where
      split : (q t : ℕ) → OwesStack (s.stacks i) q t → OwesStack st q t ⊎ OwesTask k q t
      split q t (f, inside, owes) = elim (subst (InTasks f) es inside) [
        | inl same ↦ inr (subst (λ x. OwesTask x q t) same owes)
        | inr later ↦ inl (f, later, owes)
      ]
