-- ===== src/Sog/Ample.antt =====
-- AddConflict2, computeAmple, computeAmple2 and saturatePOR (src/CommonSOG.cpp): the partial order
-- reduction of an aggregate.
-- computeAmple and computeAmple2 run over the set ample while they insert into it. A std::set is
-- visited in rising order: an element that is inserted above the current one is visited, one below
-- it is not. So the loop goes through the positions of transitions in rising order and does
-- nothing at those that are not in the set then.
pub mod Reverse
pub mod Growth
pub mod Covers
pub mod Taken
pub mod Saturate
use mc_sog.Ldd.Firable.{is_firable}
use mc_sog.Ldd.Intersect.{lddmc_intersect}
use mc_sog.Ldd.Tree.{Ldd, lddmc_false}
use mc_sog.Ldd.Union.{lddmc_union_mono}
use mc_sog.Net.{Transition, empty_node}
use mc_sog.Net.Observable.{contains, insert_int}
use mc_sog.Prelude.{
  Bool, List, Option, [], false, get_or, if◌then◌else◌, length, none, not, some, suc, true, zero, ℕ,
  ◌&&◌, ◌==◌, ◌>>=◌, ◌||◌, ◌∷◌,
}
use mc_sog.Sog.{CommonSog, get_pred, get_successor, image_among, relation_at}
use mc_sog.Sog.Canonize.{is_false}
use mc_sog.Sog.Conflict.{add_conflict, add_from, arcs_at, have_common_pre}

-- `m_net->transitions[t].mObservable`
abbrev pub observable_at : List Transition → ℕ → Bool
observable_at ts t =
    (get_or ts t (record { arcs = empty_node; name = []; observable = false })).observable

-- `for (const auto& t: ample)` over the `n` positions from `t` on, with the body `add`.
unfoldable pub visit : (ℕ → List ℕ → List ℕ) → ℕ → ℕ → List ℕ → List ℕ
visit add zero t ample = ample
visit add (suc n) t ample =
    let added = add t ample in
    if contains t ample then visit add n (suc t) added else visit add n (suc t) ample

-- The same with a body that may not return.
unfoldable pub visit_option : (ℕ → List ℕ → Option (List ℕ)) → ℕ → ℕ → List ℕ → Option (List ℕ)
visit_option add zero t ample = some ample
visit_option add (suc n) t ample = do
  added ← if contains t ample then add t ample else some ample
  visit_option add n (suc t) added

unfoldable pub first_firable : CommonSog → Ldd → ℕ → ℕ → Option (List ℕ)
unfolding is_firable
first_firable g s zero i = some []
first_firable g s (suc n) i = do
  firable ← is_firable s (relation_at g i).minus
  if firable then some (i ∷ []) else first_firable g s n (suc i)

unfoldable pub compute_ample : CommonSog → List Transition → Ldd → Option (List ℕ)
unfolding first_firable visit_option add_conflict
compute_ample g ts s = do
  ample ← first_firable g s (length g.tb_relation) 0
  visit_option (add_conflict g ts s) (length g.tb_relation) 0 ample

-- `ample.empty()`
abbrev pub is_nil : List ℕ → Bool
is_nil [] = true
is_nil (t ∷ ample) = false

-- The three branches of AddConflict2, by its two conditions.
unfoldable pub add_by2 : List Transition → (whole nothing : Bool) → ℕ → List ℕ → List ℕ
unfolding add_from have_common_pre
add_by2 ts true nothing transition ample =
    add_from (λ n. have_common_pre n.pre (arcs_at ts transition).pre) transition ts 0 ample
add_by2 ts false true transition ample =
    add_from (λ n. have_common_pre (arcs_at ts transition).pre n.post) transition ts 0 ample
add_by2 ts false false transition ample =
    add_from
      (λ n.
        have_common_pre (arcs_at ts transition).pre n.post
        || have_common_pre (arcs_at ts transition).pre n.pre)
      transition ts 0 ample

module _ (index : Ldd → ℕ) (g : CommonSog) where
  unfoldable pub add_conflict2 : List Transition → Ldd → ℕ → List ℕ → List ℕ
  unfolding add_by2 get_pred get_successor lddmc_intersect
  add_conflict2 ts s transition ample =
      let succ = get_successor index g s transition in
      add_by2 ts (index (lddmc_intersect index s (get_pred index g succ transition)) == index s)
        (is_false succ) transition ample

  -- The `for` loop of computeAmple2 over the `n` transitions from `i` on.
  unfoldable pub insert_first : Ldd → ℕ → ℕ → List ℕ → List ℕ
  unfolding insert_int
  insert_first s zero i ample = ample
  insert_first s (suc n) i ample =
      let rest = insert_first s n (suc i) ample in
      if is_false (get_successor index g s i) then rest else insert_int i ample

  -- `pre` of computeAmple2, from `img`.
  unfoldable pub preimage_among : Ldd → Ldd → List ℕ → Ldd
  preimage_among img pre [] = pre
  preimage_among img pre (t ∷ is) =
      preimage_among img (lddmc_union_mono index pre (get_pred index g img t)) is

  -- The set after one round of the `do` loop.
  unfoldable pub ample_round : List Transition → Ldd → List ℕ → List ℕ
  unfolding visit add_conflict2 insert_first
  ample_round ts s ample =
      visit (add_conflict2 ts s) (length g.tb_relation) 0
        (insert_first s (length g.tb_relation) 0 ample)

  -- `lddmc_intersect(S, pre) == S`
  unfoldable pub is_covered : Ldd → List ℕ → Bool
  unfolding image_among preimage_among lddmc_intersect
  is_covered s ample =
      let img = image_among index g s lddmc_false ample in
      index (lddmc_intersect index s (preimage_among img lddmc_false ample)) == index s

  -- The `do` loop; `none` when the fuel runs out.
  unfoldable pub ample_loop : List Transition → ℕ → Ldd → List ℕ → Option (List ℕ)
  unfolding ample_round is_covered
  ample_loop ts zero s ample = none
  ample_loop ts (suc fuel) s ample =
      let ample' = ample_round ts s ample in
      let rest = ample_loop ts fuel s ample' in if is_covered s ample' then some ample' else rest

  unfoldable pub compute_ample2 : List Transition → ℕ → Ldd → Option (List ℕ)
  unfolding ample_loop
  compute_ample2 ts fuel s = ample_loop ts fuel s []

-- What a round of saturatePOR changes.
pub record Saturation : Type 0 where
  pub t_obs : List ℕ
  pub to : Ldd
  pub my_stack : List Ldd

-- The result of saturatePOR: `Reach2`, `tObs`, `div` and `dead`.
pub record Saturated : Type 0 where
  pub reach2 : Ldd
  pub fire_obs : List ℕ
  pub div : Bool
  pub dead : Bool

module _ (index : Ldd → ℕ) (g : CommonSog) (ts : List Transition) where
  -- An observable transition goes to `tObs`; the successor by another one to `To` and `myStack`.
  unfoldable pub take : ℕ → Ldd → Saturation → Saturation
  unfolding insert_int
  take t succ st =
      if observable_at ts t
      then record st { t_obs = insert_int t st.t_obs }
      else record st { to = lddmc_union_mono index st.to succ; my_stack = succ ∷ st.my_stack }

  -- The inner loop, over the `n` transitions from `i` on.
  unfoldable pub take_all : Ldd → ℕ → ℕ → Saturation → Saturation
  unfolding take
  take_all from zero i st = st
  take_all from (suc n) i st = take_all from n (suc i) (
      if is_false (get_successor index g from i)
      then st
      else take i (get_successor index g from i) st)

  unfoldable pub is_stacked : Ldd → List Ldd → Bool
  is_stacked succ [] = false
  is_stacked succ (s ∷ stack) = (index succ == index s) || is_stacked succ stack

  -- The body of the loop over the ample set.
  unfoldable pub take_one : Ldd → ℕ → Saturation → Saturation
  unfolding take_all is_stacked
  take_one from t st =
      let succ = get_successor index g from t in
      if is_false succ
      then st
      else if not (observable_at ts t) && is_stacked succ st.my_stack
      then take_all from (length g.tb_relation) 0 st
      else take t succ st

  unfoldable pub take_ample : Ldd → List ℕ → Saturation → Saturation
  unfolding take_one
  take_ample from [] st = st
  take_ample from (t ∷ ample) st = take_ample from ample (take_one from t st)

  -- The `do` loop; each round has the fuel for computeAmple2 too.
  unfoldable pub saturate_loop :
      (rounds : ℕ)
      → ℕ
      → (from reach2 : Ldd) (t_obs : List ℕ) (my_stack : List Ldd) (div dead : Bool)
      → Option Saturated
  unfolding take_ample compute_ample2
  saturate_loop rounds zero from reach2 t_obs my_stack div dead = none
  saturate_loop rounds (suc fuel) from reach2 t_obs my_stack div dead = do
    ample ← compute_ample2 index g ts rounds from
    let st = take_ample from ample (record { t_obs = t_obs; to = lddmc_false; my_stack = my_stack })
    let reach2' = lddmc_union_mono index reach2 st.to
    let div' = div || (index st.to == index from)
    let dead' = dead || is_nil ample
    elim (index reach2 == index reach2') [
      | true ↦ some (record { reach2 = reach2'; fire_obs = st.t_obs; div = div'; dead = dead' })
      | false ↦ saturate_loop rounds fuel st.to reach2' st.t_obs st.my_stack div' dead'
    ]

  unfoldable pub saturate_por : (rounds : ℕ) → ℕ → Ldd → Option Saturated
  unfolding saturate_loop
  saturate_por rounds fuel s = saturate_loop rounds fuel s s [] (s ∷ []) false false
