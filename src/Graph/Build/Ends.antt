-- ===== src/Graph/Build/Ends.antt =====
-- The fuel of the loop of computeSeqSOG (src/threadSOG.cpp), for aggregates with finitely many keys.
use mc_sog.Graph.{LddGraph, LddState, add_arc, find, insert, link, new_state}
use mc_sog.Graph.Build.{Explorer, Search, Task, build_loop, reach, reach_found, reach_new, scan}
use mc_sog.Graph.Build.Correct.{Holds, reach-Holds}
use mc_sog.Graph.Build.Invariant.{IsPartial, Walk, along, stay}
use mc_sog.Graph.Build.Loop.{HoldsBetween, scan-HoldsBetween}
use mc_sog.Graph.Build.Measure.{
  keys, keys-append, keys-link, seen, seen-keys, unseen, unseen-append-lt,
}
use mc_sog.Graph.Nodes.{Finds, find_from-Finds, ldd_at}
use mc_sog.Ldd.Tree.{IsIndex, Ldd}
use mc_sog.Prelude.{
  Bool, Bool-cases, List, Option, [], ap, arith, false, inl, inr, length, none, refl, some, some_eq,
  subst, suc, sym, zero, ℕ, ◌++◌, ◌+◌, ◌<◌, ◌∙◌, ◌∷◌, ◌≡◌, ◌≢◌, ◌≤◌,
}
use mc_sog.Sog.System.{In}

-- `Good` is kept by the steps between aggregates, and the steps from such aggregates return.
pub record IsExplored (ex : Explorer) (Good : Ldd → Type 0) (key : Ldd → ℕ) (n : ℕ) : Type 0 where
  pub next_returns :
      (a : Ldd) (t : ℕ) → Good a → In t (ex.fire a) → (b : Ldd) × (ex.next a t ≡ some b) × Good b
  pub div_returns : (a : Ldd) → Good a → (r : Bool) × (ex.div a ≡ some r)
  pub bounded : (a : Ldd) → Good a → key a < n
  pub injective : (a b : Ldd) → Good a → Good b → key a ≡ key b → a ≡ b

module _ (index : Ldd → ℕ) (ok : IsIndex index) (ex : Explorer) (a0 : Ldd) (Good : Ldd → Type 0)
    (key : Ldd → ℕ) (n : ℕ) (good : IsExplored ex Good key n) (good0 : Good a0) where
  Walk-Good :
      (ns : List LddState) (st : List Task) {q : ℕ} (d : Ldd)
      → IsPartial ex a0 ns st
      → Walk ns 0 q
      → ldd_at ns q ≡ some d
      → Good d
  Walk-Good ns st d h stay at = subst Good (some_eq (sym h.first ∙ at)) good0
  Walk-Good ns st d h (along {j} {q} t w e) at =
      let (a, b, at_a, fire, next, at_b) = h.sound j t q e in
      let (b', next', good_b) = good.next_returns a t (Walk-Good ns st a h w at_a) fire in
      subst Good (some_eq (sym next' ∙ next) ∙ some_eq (sym at_b ∙ at)) good_b

  pub IsPartial-Good :
      (ns : List LddState) (st : List Task) (p : ℕ) (d : Ldd)
      → IsPartial ex a0 ns st
      → ldd_at ns p ≡ some d
      → Good d
  IsPartial-Good ns st p d h at = Walk-Good ns st d h (h.rooted p d at) at

  abbrev measure : Search → ℕ
  measure s = unseen (keys key s.graph.go_nodes) n + length s.stack

  -- An aggregate that `find` does not find has a key that is not seen.
  absent_key :
      (ns : List LddState) (st : List Task) (b : Ldd)
      → IsPartial ex a0 ns st
      → Good b
      → ((i : ℕ) → ldd_at ns i ≢ some b)
      → seen (keys key ns) (key b) ≡ false
  absent_key ns st b h good_b absent = elim (Bool-cases (seen (keys key ns) (key b))) [
    | inl taken ↦
        let (p, d, at, same) = seen-keys key ns (key b) taken in
        absurd
          (absent p (at ∙ ap some (good.injective d b (IsPartial-Good ns st p d h at) good_b same)))
    | inr free ↦ free
  ]

  reach_returns :
      (s : Search) (p t : ℕ) (a b : Ldd) (ts : List ℕ) (r : Option ℕ)
      → Holds index ok ex a0 s p a (t ∷ ts)
      → Good b
      → Finds s.graph.go_nodes b 0 r
      → (s' : Search) × (reach index ex s p t b r ≡ some s') × (measure s' ≤ measure s)
  unfolding reach reach_new reach_found insert add_arc
  reach_returns s p t a b ts (some q) h good_b f = (
    reach_found index ex s p t q,
    refl,
    omega (arith, ap (λ ks. unseen ks n) (keys-link key s.graph p q t)),
  )
  reach_returns s p t a b ts none h good_b absent =
      let (r, e) = good.div_returns b good_b in (reach_new index ex s p t b r, rw e refl, shorter r)
    where
      shorter : (r : Bool) → measure (reach_new index ex s p t b r) ≤ measure s
      shorter r =
          let c = record (new_state b) { boucle = r } in
          let same : keys key (link (insert s.graph c) p (length s.graph.go_nodes) t).go_nodes
              ≡ keys key s.graph.go_nodes ++ key b ∷ [] =
            keys-link key (insert s.graph c) p (length s.graph.go_nodes) t
            ∙ keys-append key s.graph.go_nodes c in
          omega (
            arith,
            ap (λ ks. unseen ks n) same,
            unseen-append-lt (keys key s.graph.go_nodes) (key b) n (good.bounded b good_b)
                (absent_key s.graph.go_nodes _ b h good_b absent),
          )

  scan_returns :
      (s : Search) (p : ℕ) (a : Ldd) (ts : List ℕ)
      → Holds index ok ex a0 s p a ts
      → (s' : Search) × (scan index ex p a ts s ≡ some s') × (measure s' ≤ measure s)
  unfolding scan find
  scan_returns s p a [] h = (s, refl, omega arith)
  scan_returns s p a (t ∷ ts) h =
      let good_a = IsPartial-Good s.graph.go_nodes _ p a h h.tasks.0 in
      let (b, next, good_b) = good.next_returns a t good_a (h.tasks.1 t (inl refl)) in
      let finds = find_from-Finds index ok b s.graph.go_nodes 0 in
      let (s1, done, le1) = reach_returns s p t a b ts _ h good_b finds in
      let (s2, rest, le2) =
        scan_returns s1 p a ts (reach-Holds index ok ex a0 s s1 p t a b ts _ finds next h done) in
      (s2, rw (next, done) rest, omega (arith, le1, le2))

  pub build_loop_returns :
      (fuel : ℕ) (gr : LddGraph) (st : List Task)
      → HoldsBetween index ok ex a0 (record { graph = gr; stack = st })
      → measure (record { graph = gr; stack = st }) < suc fuel
      → (g : LddGraph) × (build_loop index ex fuel (record { graph = gr; stack = st }) ≡ some g)
  unfolding build_loop
  build_loop_returns zero gr [] h lt = (gr, refl)
  build_loop_returns (suc fuel) gr [] h lt = (gr, refl)
  build_loop_returns zero gr (k ∷ st) h lt = absurd (omega arith)
  build_loop_returns (suc fuel) gr (k ∷ st) h lt =
      let s : Search = record { graph = gr; stack = st } in
      let (s1, done, le) = scan_returns s k.aggregate k.mdd k.fire h in
      let (g, e) =
        build_loop_returns fuel s1.graph s1.stack
          (scan-HoldsBetween index ok ex a0 s s1 k.aggregate k.mdd k.fire h done)
          (omega (arith, le, lt)) in
      (g, rw done e)
