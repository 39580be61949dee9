-- ===== src/Kripke/Condition.antt =====
-- What state_condition (src/SogKripke.cpp, src/SogKripkeTh.cpp) says of an aggregate.
use Prim.Native.Nat.{◌^◌}
use mc_sog.Graph.{LddState}
use mc_sog.Graph.Places.{
  AreRising, get_marked_places, get_marked_places-In, get_unmarked_places, least_marking,
}
use mc_sog.Kripke.{conjoin, state_condition}
use mc_sog.Prelude.{List, [], get_or, inl, inr, refl, subst, sym, ℕ, ◌^◌, ◌↔◌, ◌∷◌, ◌≡◌, ◌≢◌}
use mc_sog.Sog.System.{In}

-- The formulas of the library, with the valuations under which one of them holds.
pub record Formulas (Bdd : Type 0) : Type 0 where
  pub bddtrue : Bdd
  pub bdd_and : Bdd → Bdd → Bdd
  pub bdd_not : Bdd → Bdd
  pub ithvar : ℕ → Bdd

pub record IsModel {Bdd : Type 0} (fs : Formulas Bdd) (Holds : Bdd → Type 0) : Type 0 where
  pub of_true : Holds fs.bddtrue
  pub of_and : (a b : Bdd) → Holds (fs.bdd_and a b) ↔ (Holds a × Holds b)
  pub of_not : (a : Bdd) → Holds (fs.bdd_not a) ↔ ¬ Holds a

module _ {Bdd : Type 0} (fs : Formulas Bdd) (Holds : Bdd → Type 0) (model : IsModel fs Holds) where
  conjoin-Holds :
      (literal : ℕ → Bdd) (ps : List ℕ) (result : Bdd)
      → Holds (conjoin fs.bddtrue fs.bdd_and fs.bdd_not fs.ithvar result literal ps)
        ↔ (Holds result × ((p : ℕ) → In p ps → Holds (literal p)))
  unfolding conjoin
  conjoin-Holds literal [] result = (λ h. (h, λ p i. absurd i), λ h. h.0)
  conjoin-Holds literal (q ∷ ps) result =
      let rest = conjoin-Holds literal ps (fs.bdd_and result (literal q)) in
      let both = model.of_and result (literal q) in
      (
        λ h.
            let (now, later) = rest.0 h in
            (
              (both.0 now).0,
              λ p i. elim i [
                | inl e ↦ subst (λ j. Holds (literal j)) (sym e) (both.0 now).1
                | inr i' ↦ later p i'
              ],
            ),
        λ (h, each). rest.1 (both.1 (h, each q (inl refl)), λ p i. each p (inr i)),
      )

  -- For rising places that fit in 16 bits, and under any valuation, the condition of an aggregate
  -- holds exactly when, of these places, the propositions of those hold that have a token in the
  -- least marking of the aggregate, and of the others not.
  pub state_condition-Holds :
      (s : LddState) (places : List ℕ)
      → AreRising 0 (2 ^ 16) places
      → Holds (state_condition fs.bddtrue fs.bdd_and fs.bdd_not fs.ithvar s places) ↔ (
          (p : ℕ)
          → In p places
          → (get_or (least_marking s.lddstate) p 0 ≢ 0 → Holds (fs.ithvar p))
            × (get_or (least_marking s.lddstate) p 0 ≡ 0 → ¬ Holds (fs.ithvar p)))
  unfolding state_condition
  state_condition-Holds s places rising =
      let marked = conjoin-Holds fs.ithvar (get_marked_places s places) fs.bddtrue in
      let all = conjoin-Holds (λ p. fs.bdd_not (fs.ithvar p)) (get_unmarked_places s places) _ in
      (
        λ h p i.
            let (before, without) = all.0 h in
            let (_, with_token) = marked.0 before in
            (
              λ ne. with_token p ((get_marked_places-In s places p rising).0.1 (i, ne)),
              λ e.
                  (model.of_not (fs.ithvar p)).0
                    (without p ((get_marked_places-In s places p rising).1.1 (i, e))),
            ),
        λ each. all.1 (
          marked.1 (
            model.of_true,
            λ p i.
                let (at, ne) = (get_marked_places-In s places p rising).0.0 i in (each p at).0 ne,
          ),
          λ p i.
              let (at, e) = (get_marked_places-In s places p rising).1.0 i in
              (model.of_not (fs.ithvar p)).1 ((each p at).1 e),
        ),
      )
