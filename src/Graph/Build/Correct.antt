-- ===== src/Graph/Build/Correct.antt =====
-- The finished graph of computeSeqSOG (src/threadSOG.cpp), and the branches of its inner loop.
use mc_sog.Graph.{LddState, add_arc, insert, new_state}
use mc_sog.Graph.Build.{Explorer, Search, Task, reach, reach_found, reach_new, task}
use mc_sog.Graph.Build.Invariant.{
  IsEdge, IsPartial, IsPartial-found, IsPartial-new, Waiting, Walk, stay,
}
use mc_sog.Graph.Edges.{HasEdge, link-IsLinked}
use mc_sog.Graph.Nodes.{Finds, ldd_at, ldd_at-lt}
use mc_sog.Ldd.Tree.{IsIndex, Ldd}
use mc_sog.Prelude.{
  >>=-eq-some, Bool, List, Option, [], arith, inl, inr, length, length-append, none, refl, some,
  some_eq, subst, suc, sym, zero, ℕ, ◌++◌, ◌+◌, ◌<◌, ◌∙◌, ◌∷◌, ◌≡◌, ◌⊎◌,
}
use mc_sog.Sog.System.{In}

-- A symbolic observation graph for the operations `ex`, from the aggregate `a0` at position 0.
pub record IsSog (ex : Explorer) (a0 : Ldd) (ns : List LddState) : Type 0 where
  pub first : ldd_at ns 0 ≡ some a0
  pub distinct : (i j : ℕ) (d : Ldd) → ldd_at ns i ≡ some d → ldd_at ns j ≡ some d → i ≡ j
  pub complete :
      (p : ℕ) (a : Ldd) (t : ℕ)
      → ldd_at ns p ≡ some a
      → In t (ex.fire a)
      → (q : ℕ) × HasEdge ns p t q
  pub sound : (p t q : ℕ) → HasEdge ns p t q → IsEdge ex a0 ns p t q
  pub rooted : (p : ℕ) (a : Ldd) → ldd_at ns p ≡ some a → Walk ns 0 p

pub IsPartial-IsSog :
    (ex : Explorer) (a0 : Ldd) (ns : List LddState) → IsPartial ex a0 ns [] → IsSog ex a0 ns
IsPartial-IsSog ex a0 ns h = record {
  first = h.first;
  distinct = h.distinct;
  complete = λ p a t at fire. elim (h.todo p a t at fire) [ inl e ↦ e | inr w ↦ absurd w ];
  sound = h.sound;
  rooted = h.rooted;
}

pub IsPartial-drop :
    (ex : Explorer) (a0 : Ldd) (ns : List LddState) (p : ℕ) (a : Ldd) (st : List Task)
    → IsPartial ex a0 ns (task p a [] ∷ st)
    → IsPartial ex a0 ns st
IsPartial-drop ex a0 ns p a st h = record {
  first = h.first;
  distinct = h.distinct;
  tasks = h.tasks.2;
  todo = λ i c u at fire. rest i u (h.todo i c u at fire);
  sound = h.sound;
  rooted = h.rooted;
}
  where
    rest :
        (i u : ℕ)
        → ((j : ℕ) × HasEdge ns i u j) ⊎ Waiting (task p a [] ∷ st) i u
        → ((j : ℕ) × HasEdge ns i u j) ⊎ Waiting st i u
    rest i u (inl e) = inl e
    rest i u (inr (inl w)) = absurd w.1
    rest i u (inr (inr w)) = inr w

-- The graph before the loop.
pub IsPartial-first :
    (ex : Explorer) (a : Ldd) → IsPartial ex a (new_state a ∷ []) (task 0 a (ex.fire a) ∷ [])
IsPartial-first ex a = record {
  first = refl;
  distinct = distinct;
  tasks = (refl, λ t h. h, tt);
  todo = todo;
  sound = sound;
  rooted = rooted;
}
  where
    distinct :
        (i j : ℕ) (d : Ldd)
        → ldd_at (new_state a ∷ []) i ≡ some d
        → ldd_at (new_state a ∷ []) j ≡ some d
        → i ≡ j
    distinct zero zero d ei ej = refl
    distinct zero (suc j) d ei ej = cc
    distinct (suc i) j d ei ej = cc

    todo :
        (p : ℕ) (d : Ldd) (t : ℕ)
        → ldd_at (new_state a ∷ []) p ≡ some d
        → In t (ex.fire d)
        → ((q : ℕ) × HasEdge (new_state a ∷ []) p t q) ⊎ Waiting (task 0 a (ex.fire a) ∷ []) p t
    todo zero d t e h = inr (inl (refl, subst (λ x. In t (ex.fire x)) (sym (some_eq e)) h))
    todo (suc p) d t e h = cc

    sound : (p t q : ℕ) → HasEdge (new_state a ∷ []) p t q → IsEdge ex a (new_state a ∷ []) p t q
    sound zero t q e = absurd e
    sound (suc p) t q e = absurd e

    rooted : (p : ℕ) (d : Ldd) → ldd_at (new_state a ∷ []) p ≡ some d → Walk (new_state a ∷ []) 0 p
    rooted zero d e = stay
    rooted (suc p) d e = cc

module _ (index : Ldd → ℕ) (ok : IsIndex index) (ex : Explorer) (a0 : Ldd) where
  abbrev pub Holds : Search → ℕ → Ldd → List ℕ → Type 0
  Holds s p a ts = IsPartial ex a0 s.graph.go_nodes (task p a ts ∷ s.stack)

  pub reach-Holds :
      (s s' : Search) (p t : ℕ) (a b : Ldd) (ts : List ℕ) (r : Option ℕ)
      → Finds s.graph.go_nodes b 0 r
      → ex.next a t ≡ some b
      → Holds s p a (t ∷ ts)
      → reach index ex s p t b r ≡ some s'
      → Holds s' p a ts
  unfolding reach reach_new reach_found insert add_arc
  reach-Holds s s' p t a b ts (some q) (i, at, found) next h e =
      subst (λ x. Holds x p a ts) (some_eq e)
        (IsPartial-found ex a0 s.graph.go_nodes _ p q t a b ts s.stack
          (link-IsLinked s.graph p q t (ldd_at-lt _ p a h.tasks.0))
          (subst (λ x. ldd_at s.graph.go_nodes x ≡ some b) (sym (at ∙ zero_add i)) found) next h)
    where
      zero_add : (i : ℕ) → 0 + i ≡ i
      zero_add i = omega arith
  reach-Holds s s' p t a b ts none absent next h e =
      let (boucle, _, last) = >>=-eq-some (ex.div b) (λ c. some (reach_new index ex s p t b c)) e in
      subst (λ x. Holds x p a ts) (some_eq last)
        (IsPartial-new ex a0 s.graph.go_nodes (record (new_state b) { boucle = boucle }) p t a ts
          s.stack _ refl
          (link-IsLinked (insert s.graph (record (new_state b) { boucle = boucle })) p
            (length s.graph.go_nodes) t (in_range boucle))
          absent next h)
    where
      in_range :
          (c : Bool) → p < length (s.graph.go_nodes ++ record (new_state b) { boucle = c } ∷ [])
      in_range c = omega (
        arith,
        length-append s.graph.go_nodes (record (new_state b) { boucle = c } ∷ []),
        ldd_at-lt _ p a h.tasks.0,
      )
