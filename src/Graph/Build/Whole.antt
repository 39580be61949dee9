-- ===== src/Graph/Build/Whole.antt =====
-- From a parsed net and the names of a formula to the graph: NewNet (src/NewNet.cpp),
-- loadNetFromFile (src/CommonSOG.cpp) and computeSeqSOG (src/threadSOG.cpp) together.
use mc_sog.Ldd.Tree.{Ldd}
use mc_sog.Net.{NewNet}
use mc_sog.Net.Arcs.{IsNet}
use mc_sog.Net.Observable.{ObservableSets, set_list_observable, set_non_observables}
use mc_sog.Prelude.{List, some, ℕ, ◌≡◌}
use mc_sog.Sog.Load.Game.{IsInitial, Plays}

-- A marking that the net reaches by a firing sequence with the shown transitions `σ`.
abbrev pub IsPlayed : NewNet → (ℕ → Type 0) → List ℕ → List ℕ → Type 0
IsPlayed net Shown σ m = (m0 : List ℕ) × IsInitial net m0 × Plays net Shown m0 σ m

module _ (net : NewNet) (list_t : List (List ℕ)) (s : ObservableSets) (h : IsNet net)
    (chosen : set_list_observable net list_t ≡ some s) where
  abbrev hidden : List ℕ
  hidden = set_non_observables net.transitions s.observable
