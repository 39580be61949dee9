-- ===== src/Sog/Conflict.antt =====
-- AddConflict (src/CommonSOG.cpp): the transitions that are in conflict with one that is enabled,
-- or that can enable one that is not.
pub mod Correct
pub mod Adds
use mc_sog.Ldd.Firable.{is_firable}
use mc_sog.Ldd.Tree.{Ldd}
use mc_sog.Net.{Node, Transition, empty_node}
use mc_sog.Net.Observable.{insert_int}
use mc_sog.Prelude.{
  Bool, List, Option, [], false, get_or, if◌then◌else◌, ltb, not, some, suc, true, ℕ, ℤ, ◌&&◌, ◌==◌,
  ◌>>=◌, ◌||◌, ◌∷◌,
}
use mc_sog.Sog.{CommonSog, relation_at}

-- The inner loop of haveCommonPre, at the place `p` of the first list.
unfoldable pub common_with : ℕ → List (ℕ × ℤ) → Bool
common_with p [] = false
common_with p ((q, v) ∷ arcs) =
    let rest = common_with p arcs in if ltb p q then false else if p == q then true else rest

unfoldable pub have_common_pre : List (ℕ × ℤ) → List (ℕ × ℤ) → Bool
unfolding common_with
have_common_pre [] arcs = false
have_common_pre ((p, v) ∷ arcs1) arcs2 = common_with p arcs2 || have_common_pre arcs1 arcs2

abbrev pub arcs_at : List Transition → ℕ → Node
arcs_at ts i = (get_or ts i (record { arcs = empty_node; name = []; observable = false })).arcs

-- `if (i != transition) { if (...) ample.insert(i); }`
unfoldable pub insert_if : Bool → ℕ → List ℕ → List ℕ
unfolding insert_int
insert_if true i ample = insert_int i ample
insert_if false i ample = ample

-- The loop over the transitions from position `i` on; `test` is the condition of the insertion.
unfoldable pub add_from : (Node → Bool) → ℕ → List Transition → ℕ → List ℕ → List ℕ
unfolding insert_if
add_from test transition [] i ample = ample
add_from test transition (t ∷ ts) i ample =
    add_from test transition ts (suc i) (insert_if (not (i == transition) && test t.arcs) i ample)

unfoldable pub add_by : List Transition → ℕ → List ℕ → Bool → List ℕ
unfolding add_from have_common_pre
add_by ts transition ample true =
    add_from (λ n. have_common_pre n.pre (arcs_at ts transition).pre) transition ts 0 ample
add_by ts transition ample false =
    add_from (λ n. have_common_pre (arcs_at ts transition).pre n.post) transition ts 0 ample

unfoldable pub add_conflict : CommonSog → List Transition → Ldd → ℕ → List ℕ → Option (List ℕ)
unfolding add_by is_firable
add_conflict g ts s transition ample = do
  firable ← is_firable s (relation_at g transition).minus
  some (add_by ts transition ample firable)
