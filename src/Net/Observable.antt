-- ===== src/Net/Observable.antt =====
-- The observable transitions of a net: setListObservable and Set_Non_Observables
-- (src/NewNet.cpp). A std::set<int> is the list of its elements in rising order.
pub mod Correct
pub mod Named
pub mod Others
use mc_sog.Net.{NewNet, Place, Transition, empty_node, find_name}
use mc_sog.Prelude.{
  Bool, List, Option, [], false, get_or, if◌then◌else◌, length, ltb, modify, none, pos, same_name,
  some, suc, true, zero, ℕ, ℤ, ◌==◌, ◌>>=◌, ◌||◌, ◌∷◌,
}

unfoldable pub insert_int : ℕ → List ℕ → List ℕ
insert_int x [] = x ∷ []
insert_int x (y ∷ ys) =
    let rest = insert_int x ys in
    if ltb x y then x ∷ y ∷ ys else if x == y then y ∷ ys else y ∷ rest

unfoldable pub contains : ℕ → List ℕ → Bool
contains x [] = false
contains x (y ∷ ys) = (x == y) || contains x ys

-- What setListObservable changes.
pub record ObservableSets : Type 0 where
  pub observable : List ℕ
  pub formula_trans : List ℕ
  pub formula_place : List ℕ
  pub transitions : List Transition

-- The search of pos_trans from position `at` on; `none` is -1.
unfoldable pub pos_from : List Transition → List ℕ → ℕ → Option ℕ
pos_from [] trans at = none
pos_from (t ∷ ts) trans at =
    let rest = pos_from ts trans (suc at) in if same_name t.name trans then some at else rest

unfoldable pub pos_trans : List Transition → List ℕ → Option ℕ
unfolding pos_from
pos_trans ts trans = pos_from ts trans 0

-- `mObservable.insert(i); transitions[i].mObservable = true;`
unfoldable pub mark : ObservableSets → ℕ → ObservableSets
unfolding insert_int
mark s i = record s {
  observable = insert_int i s.observable;
  transitions = modify s.transitions i (λ t. record t { observable = true });
}

-- The loops over the arcs of a place.
unfoldable pub mark_all : ObservableSets → List (ℕ × ℤ) → ObservableSets
unfolding mark
mark_all s [] = s
mark_all s ((i, v) ∷ arcs) = mark_all (mark s i) arcs

-- The branch for a name that is no transition; `none` is the failed assertion.
unfoldable pub observe_place : List Place → ObservableSets → Option ℕ → Option ObservableSets
unfolding mark_all insert_int
observe_place places s none = none
observe_place places s (some i) = some (
    mark_all
      (mark_all (record s { formula_place = insert_int i s.formula_place })
        (get_or places i
          (record { arcs = empty_node; name = []; marking = pos 0; capacity = pos 0 })).arcs.post)
      (get_or places i
        (record { arcs = empty_node; name = []; marking = pos 0; capacity = pos 0 })).arcs.pre)

unfoldable pub observe : NewNet → ObservableSets → List ℕ → Option ℕ → Option ObservableSets
unfolding observe_place mark insert_int find_name
observe net s name none = observe_place net.places s (find_name net.place_name name)
observe net s name (some i) =
    some (mark (record s { formula_trans = insert_int i s.formula_trans }) i)

-- The loop over the names of the formula.
unfoldable pub observe_names : NewNet → ObservableSets → List (List ℕ) → Option ObservableSets
unfolding observe pos_trans
observe_names net s [] = some s
observe_names net s (name ∷ names) = do
  s' ← observe net s name (pos_trans s.transitions name)
  observe_names net s' names

unfoldable pub set_list_observable : NewNet → List (List ℕ) → Option ObservableSets
unfolding observe_names
set_list_observable net list_t =
    observe_names net
      (record {
        observable = [];
        formula_trans = [];
        formula_place = [];
        transitions = net.transitions;
      })
      list_t

-- The loop of Set_Non_Observables over the positions from `i` on.
unfoldable pub non_observables_from : ℕ → ℕ → List ℕ → List ℕ
unfolding contains
non_observables_from i zero observable = []
non_observables_from i (suc n) observable =
    let rest = non_observables_from (suc i) n observable in
    if contains i observable then rest else i ∷ rest

unfoldable pub set_non_observables : List Transition → List ℕ → List ℕ
unfolding non_observables_from
set_non_observables transitions observable = non_observables_from 0 (length transitions) observable
