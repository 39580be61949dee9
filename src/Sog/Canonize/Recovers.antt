-- ===== src/Sog/Canonize/Recovers.antt =====
-- Canonize and then Accessible_epsilon (src/CommonSOG.cpp): the aggregate again.
use mc_sog.Ldd.Canonical.{canonical}
use mc_sog.Ldd.Tree.{IsIndex, IsLdd, Ldd, mem}
use mc_sog.Prelude.{Bool, List, ap, false, length, refl, some, sym, true, ℕ, ◌<◌, ◌∙◌, ◌≡◌}
use mc_sog.Sog.{accessible_epsilon}
use mc_sog.Sog.Canonize.{canonize}
use mc_sog.Sog.Canonize.Correct.{canonize-IsRepresentative}
use mc_sog.Sog.Epsilon.Ends.{IsBounded, accessible_epsilon_closure}
use mc_sog.Sog.Finite.{InMarks}
use mc_sog.Sog.System.{AreBelow, AreSized, Run, Step, Weights, here, loaded, then_by}

module _ (index : Ldd → ℕ) (ok : IsIndex index) (k : ℕ) (ws : List Weights) (eps obs : List ℕ)
    (sized : AreSized k ws) (below : AreBelow (length ws) eps) where
  -- Unobservable transitions do not leave the set.
  abbrev pub StaysIn : Ldd → Type 0
  StaysIn s = (m m' : List ℕ) → mem s m ≡ true → Step ws eps m m' → mem s m' ≡ true

  Run-stays :
      (s : Ldd) (m : List ℕ) {m' : List ℕ} {n : ℕ}
      → StaysIn s
      → mem s m ≡ true
      → Run ws eps m n m'
      → mem s m' ≡ true
  Run-stays s m stays inside here = inside
  Run-stays s m stays inside (then_by r step) = stays _ _ (Run-stays s m stays inside r) step

  same_truth : (a b : Bool) → (a ≡ true → b ≡ true) → (b ≡ true → a ≡ true) → a ≡ b
  same_truth true b f g = sym (f refl)
  same_truth false true f g = g refl
  same_truth false false f g = refl

  -- An aggregate is a well-formed set of finitely many markings that unobservable transitions do not
  -- leave. With enough fuel Canonize returns a set for it, and Accessible_epsilon returns from this
  -- set the same diagram as before.
  pub accessible_epsilon-canonize :
      (us : List (List ℕ)) (fuel : ℕ) (s : Ldd)
      → IsLdd k s
      → StaysIn s
      → ((m : List ℕ) → mem s m ≡ true → InMarks m us)
      → length us < fuel
      → (r : Ldd) × (canonize index (loaded ws eps obs) k fuel fuel s 0 ≡ some r)
        × (accessible_epsilon index (loaded ws eps obs) fuel r ≡ some s)
  accessible_epsilon-canonize us fuel s hs stays finite lt =
      let bounded : IsBounded ws eps s us =
        λ m (m0, n, inside, run). finite m (Run-stays s m0 stays inside run) in
      let (r, e, p) =
        canonize-IsRepresentative index ok k ws eps obs sized below us fuel lt fuel s hs bounded
          lt in
      let (to, e', formed, members) =
        accessible_epsilon_closure index ok k ws eps obs sized below us fuel r p.formed
          (λ m (m0, n, inside, run). bounded m (m0, n, p.inside m0 inside, run)) lt in
      let same : to ≡ s = canonical k to s formed hs (λ m.
        same_truth (mem to m) (mem s m)
          (λ inside.
            let (m0, n, at, run) = (members m).0 inside in
            Run-stays s m0 stays (p.inside m0 at) run)
          (λ inside. (members m).1 (p.reaches m inside))) in
      (r, e, e' ∙ ap some same)
