-- ===== src/Graph/Lookup.antt =====
-- What insertFindByMDD (src/LDDGraph.cpp) returns and leaves behind.
use mc_sog.Graph.{
  LddGraph, LddState, find, find_from, insert, insert_find_by_mdd, insert_found, new_state,
}
use mc_sog.Graph.Nodes.{Finds, find_from-Finds, ldd_at, ldd_at-append, ldd_at-lt}
use mc_sog.Graph.Threads.Kept.{append_cases}
use mc_sog.Ldd.Tree.{IsIndex, Ldd}
use mc_sog.Prelude.{
  ==_self, Bool, List, Option, ap, arith, false, inl, inr, length, none, refl, some, subst, sym,
  true, ℕ, ◌+◌, ◌<◌, ◌==◌, ◌↔◌, ◌∙◌, ◌≡◌,
}

abbrev pub AreDistinct : List LddState → Type 0
AreDistinct ns = (i j : ℕ) (d : Ldd) → ldd_at ns i ≡ some d → ldd_at ns j ≡ some d → i ≡ j

-- The answer of insertFindByMDD on the graph `g` for the MDD `md`.
pub record IsInserted (g : LddGraph) (md : Ldd) (r : ℕ × Bool × LddGraph) : Type 0 where
  pub at_position : ldd_at r.2.go_nodes r.0 ≡ some md
  pub found : (r.1 ≡ true) ↔ ((i : ℕ) × (ldd_at g.go_nodes i ≡ some md))
  pub kept : (i : ℕ) (d : Ldd) → ldd_at g.go_nodes i ≡ some d → ldd_at r.2.go_nodes i ≡ some d
  pub distinct : AreDistinct r.2.go_nodes

insert_found-IsInserted :
    (index : Ldd → ℕ) (g : LddGraph) (md : Ldd) (o : Option ℕ)
    → AreDistinct g.go_nodes
    → Finds g.go_nodes md 0 o
    → IsInserted g md (insert_found index g md o)
unfolding insert_found insert
insert_found-IsInserted index g md (some q) distinct (j, e, at) = record {
  at_position = subst (λ x. ldd_at g.go_nodes x ≡ some md) (sym (e ∙ zero_add j)) at;
  found = (λ h. (j, at), λ h. refl);
  kept = λ i d h. h;
  distinct = distinct;
}
  where
    zero_add : (j : ℕ) → 0 + j ≡ j
    zero_add j = omega arith
insert_found-IsInserted index g md none distinct absent = record {
  at_position = ldd_at-append ns (new_state md) (length ns) ∙ rw (==_self (length ns)) refl;
  found = (λ h. cc, λ (i, at). absurd (absent i at));
  kept = λ i d e. ldd_at-append ns (new_state md) i ∙ rw (not_last i (ldd_at-lt ns i d e)) e;
  distinct = λ i j d ei ej. elim (append_cases ns (new_state md) i d ei) [
    | inl (at_i, is_i) ↦ elim (append_cases ns (new_state md) j d ej) [
      | inl (at_j, is_j) ↦ at_i ∙ sym at_j
      | inr old ↦ absurd (absent j (old ∙ ap some (sym is_i)))
    ]
    | inr old_i ↦ elim (append_cases ns (new_state md) j d ej) [
      | inl (at_j, is_j) ↦ absurd (absent i (old_i ∙ ap some (sym is_j)))
      | inr old_j ↦ distinct i j d old_i old_j
    ]
  ];
}
  where
    ns : List LddState
    ns = g.go_nodes

    not_last : (i : ℕ) → i < length ns → (i == length ns) ≡ false
    not_last i lt = ground arith

-- On a graph where no MDD occurs twice, insertFindByMDD returns the position of the MDD and
-- whether it was there before, keeps the other states, and leaves no MDD twice.
pub insert_find_by_mdd-IsInserted :
    (index : Ldd → ℕ) (ok : IsIndex index) (g : LddGraph) (md : Ldd)
    → AreDistinct g.go_nodes
    → IsInserted g md (insert_find_by_mdd index g md)
unfolding insert_find_by_mdd find
insert_find_by_mdd-IsInserted index ok g md distinct =
    insert_found-IsInserted index g md (find_from index md g.go_nodes 0) distinct
      (find_from-Finds index ok md g.go_nodes 0)
