-- ===== src/Graph/Threads/Reached.antt =====
-- The critical section of doCompute (src/threadSOG.cpp), and the states that all steps reach.
use mc_sog.Graph.{LddState, add_arc, find, find_from, insert, new_state, set_initial_state}
use mc_sog.Graph.Build.{Explorer, Task, task}
use mc_sog.Graph.Build.Correct.{IsPartial-first, IsSog}
use mc_sog.Graph.Build.Invariant.{Extends, IsEdge, IsEdge-Extends, Walk-Extends, stay}
use mc_sog.Graph.Edges.{HasEdge, InEdge}
use mc_sog.Graph.Nodes.{Finds, find_from-Finds, ldd_at, ldd_at-append, successors_at-append}
use mc_sog.Graph.Threads.{
  IsFinished, Phase, Shared, Steps, ThreadStep, end_entry, fire_transition, firing, first_shared,
  linking, look_up, no_step, one_more, push_entry, record_edge, take_entry,
}
use mc_sog.Graph.Threads.Edges.{push_entry-IsShared, record_edge-IsShared}
use mc_sog.Graph.Threads.Invariant.{
  Fresh, InTasks, IsPhase, IsShared, IsShared-IsSog, IsTask, OwesPhase, OwesTask,
}
use mc_sog.Graph.Threads.Kept.{
  Extends-append, IsPhase-Extends, IsTask-Extends, append_cases, end_entry-IsShared,
  take_entry-IsShared,
}
use mc_sog.Ldd.Tree.{IsIndex, Ldd}
use mc_sog.Prelude.{
  ==_self, List, Option, [], ap, arith, every_update, inl, inr, length, none, refl, some,
  some_update, subst, sym, update, update_self, ℕ, ◌++◌, ◌+◌, ◌∙◌, ◌∷◌, ◌≡◌, ◌≢◌,
}
use mc_sog.Sog.System.{In}

module _ (index : Ldd → ℕ) (ok : IsIndex index) (ex : Explorer) (a0 : Ldd) (s : Shared) (i p : ℕ)
    (a b : Ldd) (t : ℕ) (ts : List ℕ) (at_i : s.phases i ≡ firing (task p a (t ∷ ts)))
    (next : ex.next a t ≡ some b) (h : IsShared ex a0 s) where
  now : IsTask ex a0 s.graph.go_nodes (task p a (t ∷ ts))
  now = subst (IsPhase ex a0 s.graph.go_nodes) at_i (h.in_phase i)

  -- What thread `i` owes before it owes after.
  moved :
      (q : ℕ) (fresh : Option Ldd) (r u : ℕ)
      → ((j : ℕ) × OwesPhase ex a0 (s.phases j) r u)
      → (j : ℕ) × OwesPhase ex a0 (update s.phases i (linking (task p a ts) t q fresh) j) r u
  moved q fresh r u owed =
      elim (some_update s.phases i (linking (task p a ts) t q fresh) (λ ph. OwesPhase ex a0 ph r u)
        (OwesTask (task p a (t ∷ ts)) r u) (λ o. subst (λ ph. OwesPhase ex a0 ph r u) at_i o)
        owed) [
          | inl o ↦ o
          | inr o ↦ (
            i,
            subst (λ ph. OwesPhase ex a0 ph r u)
                (sym (update_self s.phases i (linking (task p a ts) t q fresh))) (inl o),
          )
        ]

  still_new :
      (q : ℕ) (fresh : Option Ldd) (r : ℕ)
      → ((j : ℕ) × Fresh ex a0 (s.phases j) r)
      → (j : ℕ) × Fresh ex a0 (update s.phases i (linking (task p a ts) t q fresh) j) r
  still_new q fresh r is_new =
      elim (some_update s.phases i (linking (task p a ts) t q fresh) (λ ph. Fresh ex a0 ph r) ⊥
        (λ o. subst (λ ph. Fresh ex a0 ph r) at_i o) is_new) [
          | inl o ↦ o
          | inr none_left ↦ absurd none_left
        ]

  abbrev after_look : Option ℕ → Shared
  after_look r = record s {
    graph = (look_up s.graph b r).0;
    phases =
        update s.phases i (linking (task p a ts) t (look_up s.graph b r).1 (look_up s.graph b r).2);
  }

  found-IsShared :
      (q : ℕ) → ldd_at s.graph.go_nodes q ≡ some b → IsShared ex a0 (after_look (some q))
  unfolding look_up add_arc
  found-IsShared q at_q = record {
    first = h.first;
    distinct = h.distinct;
    tasks = h.tasks;
    in_phase =
        every_update s.phases i (linking (task p a ts) t q none) (IsPhase ex a0 s.graph.go_nodes)
          h.in_phase
          (
            (now.0, (λ u later. now.1 u (inr later)), now.2),
            now.1 t (inl refl),
            (b, next, at_q, tt),
          );
    todo = λ r d u at fires. elim (h.todo r d u at fires) [
      | inl edge ↦ inl edge
      | inr (inl owed) ↦ inr (inl owed)
      | inr (inr owed) ↦ inr (inr (moved q none r u owed))
    ];
    sound = h.sound;
    rooted = λ r d at. elim (h.rooted r d at) [
      | inl w ↦ inl w
      | inr is_new ↦ inr (still_new q none r is_new)
    ];
  }

  absent-IsShared :
      ((j : ℕ) → ldd_at s.graph.go_nodes j ≢ some b) → IsShared ex a0 (after_look none)
  unfolding look_up add_arc insert
  absent-IsShared absent = record {
    first = ext.ldds 0 a0 h.first;
    distinct = distinct;
    tasks = λ j e inside. IsTask-Extends index ok ex a0 ns ns' e ext (h.tasks j e inside);
    in_phase =
        every_update s.phases i next_phase (IsPhase ex a0 ns')
          (λ j. IsPhase-Extends index ok ex a0 ns ns' (s.phases j) ext (h.in_phase j))
          (
            IsTask-Extends index ok ex a0 ns ns' (task p a ts) ext
                (now.0, (λ u later. now.1 u (inr later)), now.2),
            now.1 t (inl refl),
            (b, next, at_new, refl),
          );
    todo = λ r d u at fires. elim (append_cases ns (new_state b) r d at) [
      | inl (last, same) ↦ inr (
          inr (
            i,
            subst (λ ph. OwesPhase ex a0 ph r u) (sym (update_self s.phases i next_phase))
                (inr (last, subst (λ x. In u (ex.fire x)) (sym same) fires)),
          ))
      | inr old ↦ elim (h.todo r d u old fires) [
        | inl (v, edge) ↦ inl (v, ext.edges r u v edge)
        | inr (inl owed) ↦ inr (inl owed)
        | inr (inr owed) ↦ inr (inr (moved (length ns) (some b) r u owed))
      ]
    ];
    sound = λ m u n edge.
        IsEdge-Extends ex a0 ns ns' m u n ext
          (h.sound m u n (subst (InEdge n u) (successors_at-append ns (new_state b) m refl) edge));
    rooted = λ r d at. elim (append_cases ns (new_state b) r d at) [
      | inl (last, same) ↦
          inr (i, subst (λ ph. Fresh ex a0 ph r) (sym (update_self s.phases i next_phase)) last)
      | inr old ↦ elim (h.rooted r d old) [
        | inl w ↦ inl (Walk-Extends ex a0 ns ns' 0 ext w)
        | inr is_new ↦ inr (still_new (length ns) (some b) r is_new)
      ]
    ];
  }
    where
      ns : List LddState
      ns = s.graph.go_nodes

      ns' : List LddState
      ns' = ns ++ new_state b ∷ []

      next_phase : Phase
      next_phase = linking (task p a ts) t (length ns) (some b)

      ext : Extends ex a0 ns ns'
      ext = Extends-append index ok ex a0 ns (new_state b) refl

      at_new : ldd_at ns' (length ns) ≡ some b
      at_new = ldd_at-append ns (new_state b) (length ns) ∙ rw (==_self (length ns)) refl

      distinct : (m n : ℕ) (d : Ldd) → ldd_at ns' m ≡ some d → ldd_at ns' n ≡ some d → m ≡ n
      distinct m n d em en = elim (append_cases ns (new_state b) m d em) [
        | inl (at_m, is_m) ↦ elim (append_cases ns (new_state b) n d en) [
          | inl (at_n, is_n) ↦ at_m ∙ sym at_n
          | inr old ↦ absurd (absent n (old ∙ ap some (sym is_m)))
        ]
        | inr old_m ↦ elim (append_cases ns (new_state b) n d en) [
          | inl (at_n, is_n) ↦ absurd (absent m (old_m ∙ ap some (sym is_n)))
          | inr old_n ↦ h.distinct m n d old_m old_n
        ]
      ]

  look-IsShared : (r : Option ℕ) → Finds s.graph.go_nodes b 0 r → IsShared ex a0 (after_look r)
  look-IsShared none absent = absent-IsShared absent
  look-IsShared (some q) (j, e, at) =
      found-IsShared q (subst (λ x. ldd_at s.graph.go_nodes x ≡ some b) (sym (e ∙ zero_add j)) at)
    where
      zero_add : (j : ℕ) → 0 + j ≡ j
      zero_add j = omega arith

  pub fire_transition-IsShared : IsShared ex a0 (after_look (find index s.graph b))
  unfolding find
  fire_transition-IsShared =
      look-IsShared (find_from index b s.graph.go_nodes 0)
        (find_from-Finds index ok b s.graph.go_nodes 0)

module _ (index : Ldd → ℕ) (ok : IsIndex index) (ex : Explorer) (a0 : Ldd) where
  ThreadStep-IsShared :
      (s : Shared) (i : ℕ) (s' : Shared)
      → ThreadStep index ex s i s'
      → IsShared ex a0 s
      → IsShared ex a0 s'
  ThreadStep-IsShared s i s' (take_entry e st at_i es) h =
      take_entry-IsShared index ok ex a0 s i e st at_i es h
  ThreadStep-IsShared s i s' (fire_transition p a b t ts at_i next) h =
      fire_transition-IsShared index ok ex a0 s i p a b t ts at_i next h
  ThreadStep-IsShared s i s' (record_edge p a ts t q fresh at_i) h =
      record_edge-IsShared index ok ex a0 s i p a ts t q fresh at_i h
  ThreadStep-IsShared s i s' (push_entry e q b j at_i) h =
      push_entry-IsShared index ok ex a0 s i j e q b at_i h
  ThreadStep-IsShared s i s' (end_entry p a at_i) h =
      end_entry-IsShared index ok ex a0 s i p a at_i h

  pub first_shared-IsShared : IsShared ex a0 (first_shared index ex a0)
  unfolding insert set_initial_state
  first_shared-IsShared =
      let h = IsPartial-first ex a0 in
      record {
        first = h.first;
        distinct = h.distinct;
        tasks =
            every_update (λ j. []) 0 (task 0 a0 (ex.fire a0) ∷ [])
              (λ x. (f : Task) → InTasks f x → IsTask ex a0 (new_state a0 ∷ []) f)
              (λ j f inside. absurd inside)
              (λ f inside. elim inside [
                | inl same ↦
                    subst (IsTask ex a0 (new_state a0 ∷ [])) (sym same)
                      (refl, (λ t fires. fires), stay)
                | inr nowhere ↦ absurd nowhere
              ]);
        in_phase = λ j. tt;
        todo = λ p d t at fires. elim (h.todo p d t at fires) [
          | inl edge ↦ inl edge
          | inr (inl owes) ↦ inr (inl (0, (task 0 a0 (ex.fire a0), inl refl, owes)))
          | inr (inr nowhere) ↦ absurd nowhere
        ];
        sound = h.sound;
        rooted = λ q d at. inl (h.rooted q d at);
      }

  pub Steps-IsShared : (s s' : Shared) → Steps index ex s s' → IsShared ex a0 s → IsShared ex a0 s'
  Steps-IsShared s s' no_step h = h
  Steps-IsShared s s' (one_more {s' = u} {s'' = v} i steps step) h =
      ThreadStep-IsShared u i v step (Steps-IsShared s u steps h)

  -- In every order of the threads' steps no aggregate comes to occur twice and each edge is a step
  -- between aggregates, and when no thread has anything left to do the graph is a symbolic
  -- observation graph from the initial aggregate.
  pub do_compute-IsSog :
      (s : Shared)
      → Steps index ex (first_shared index ex a0) s
      → ((i j : ℕ) (d : Ldd)
          → ldd_at s.graph.go_nodes i ≡ some d
          → ldd_at s.graph.go_nodes j ≡ some d
          → i ≡ j)
        × ((p t q : ℕ) → HasEdge s.graph.go_nodes p t q → IsEdge ex a0 s.graph.go_nodes p t q)
        × (IsFinished s → IsSog ex a0 s.graph.go_nodes)
  do_compute-IsSog s steps =
      let h = Steps-IsShared (first_shared index ex a0) s steps first_shared-IsShared in
      (h.distinct, h.sound, IsShared-IsSog ex a0 s h)
