-- ===== src/Sog/Load.antt =====
-- loadNetFromFile (src/CommonSOG.cpp), and the same lines of the constructor of threadSOG
-- (src/threadSOG.cpp): the initial marking and the relations of a net.
pub mod Correct
pub mod Game
use mc_sog.Ldd.Fire.{u32}
use mc_sog.Ldd.Tree.{Ldd, lddmc_cube}
use mc_sog.Net.{NewNet, Place, Transition}
use mc_sog.Prelude.{List, [], length, modify, suc, to_u32, zero, ℕ, ℤ, ◌+◌, ◌∷◌}
use mc_sog.Sog.{CommonSog}
use mc_sog.Sog.System.{Weights, loaded}

abbrev pub zeros : ℕ → List ℕ
zeros zero = []
zeros (suc k) = 0 ∷ zeros k

-- The loops over the arcs: `prec[it.first] = prec[it.first] + it.second`, on uint32_t.
unfoldable pub accumulate : List ℕ → List (ℕ × ℤ) → List ℕ
accumulate prec [] = prec
accumulate prec ((p, v) ∷ arcs) = accumulate (modify prec p (λ x. u32 (x + to_u32 v))) arcs

unfoldable pub weights_of : ℕ → Transition → Weights
unfolding accumulate
weights_of nb_places t = record {
  pre = accumulate (zeros nb_places) t.arcs.pre;
  post = accumulate (zeros nb_places) t.arcs.post;
}

unfoldable pub all_weights : ℕ → List Transition → List Weights
unfolding weights_of
all_weights nb_places [] = []
all_weights nb_places (t ∷ ts) = weights_of nb_places t ∷ all_weights nb_places ts

-- `liste_marques`
unfoldable pub marques : List Place → List ℕ
marques [] = []
marques (p ∷ ps) = to_u32 p.marking ∷ marques ps

unfoldable pub initial_marking : NewNet → Ldd
unfolding marques
initial_marking net = lddmc_cube (marques net.places)

unfoldable pub load_net : NewNet → List ℕ → List ℕ → CommonSog
unfolding all_weights
load_net net non_observable observable =
    loaded (all_weights (length net.places) net.transitions) non_observable observable
