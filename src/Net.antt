-- ===== src/Net.antt =====
-- The Petri net that the parser builds: class NewNet (src/NewNet.cpp, src/NewNet.h).
pub mod Names
pub mod Arcs
pub mod Observable
use mc_sog.Prelude.{
  Bool, List, Option, [], false, get_or, if◌then◌else◌, length, modify, negsuc, none, not, pos,
  same_name, some, true, ℕ, ℤ, ◌%◌, ◌++◌, ◌>>=◌, ◌^◌, ◌∷◌,
}

-- The lists of class Node: the nodes are positions of places in a transition, and of transitions
-- in a place.
pub record Node : Type 0 where
  pub pre : List (ℕ × ℤ)
  pub post : List (ℕ × ℤ)
  pub inhibitor : List (ℕ × ℤ)
  pub pre_auto : List (ℕ × ℕ)
  pub post_auto : List (ℕ × ℕ)
  pub reset : List ℕ

abbrev pub empty_node : Node
empty_node = record {
  pre = [];
  post = [];
  inhibitor = [];
  pre_auto = [];
  post_auto = [];
  reset = [];
}

unfoldable pub push_pre : ℕ → ℤ → Node → Node
push_pre n valuation x = record x { pre = x.pre ++ (n, valuation) ∷ [] }

unfoldable pub push_post : ℕ → ℤ → Node → Node
push_post n valuation x = record x { post = x.post ++ (n, valuation) ∷ [] }

unfoldable pub push_inhibitor : ℕ → ℤ → Node → Node
push_inhibitor n valuation x = record x { inhibitor = x.inhibitor ++ (n, valuation) ∷ [] }

unfoldable pub push_pre_auto : ℕ → ℕ → Node → Node
push_pre_auto n valuation x = record x { pre_auto = x.pre_auto ++ (n, valuation) ∷ [] }

unfoldable pub push_post_auto : ℕ → ℕ → Node → Node
push_post_auto n valuation x = record x { post_auto = x.post_auto ++ (n, valuation) ∷ [] }

unfoldable pub push_reset : ℕ → Node → Node
push_reset n x = record x { reset = x.reset ++ n ∷ [] }

-- A marking of -1 is a queue, and one of -2 a queue with loss.
pub record Place : Type 0 where
  pub arcs : Node
  pub name : List ℕ
  pub marking : ℤ
  pub capacity : ℤ

abbrev pub is_queue : Place → Bool
is_queue p = elim p.marking [ pos n ↦ false | negsuc n ↦ true ]

pub record Transition : Type 0 where
  pub arcs : Node
  pub name : List ℕ
  pub observable : Bool

pub record NewNet : Type 0 where
  pub places : List Place
  pub transitions : List Transition
  pub place_name : List (List ℕ × ℕ)
  pub transition_name : List (List ℕ × ℕ)

-- `find` in a std::map from names to positions.
unfoldable pub find_name : List (List ℕ × ℕ) → List ℕ → Option ℕ
find_name [] name = none
find_name ((n, i) ∷ entries) name = if same_name n name then some i else find_name entries name

-- `m[name] = position` for a name that the map does not have, into a uint16_t.
unfoldable pub assign_name : List (List ℕ × ℕ) → List ℕ → ℕ → List (List ℕ × ℕ)
assign_name entries name position = (name, position % 2 ^ 16) ∷ entries

unfoldable pub append_place : NewNet → List ℕ → ℤ → ℤ → Option ℕ → Bool × NewNet
unfolding assign_name
append_place net place marking capacity (some i) = (false, net)
append_place net place marking capacity none = (
  true,
  record net {
    place_name = assign_name net.place_name place (length net.places);
    places =
        net.places
        ++ record { arcs = empty_node; name = place; marking = marking; capacity = capacity } ∷ [];
  },
)

unfoldable pub add_place : NewNet → List ℕ → ℤ → ℤ → Bool × NewNet
unfolding append_place find_name
add_place net place marking capacity =
    append_place net place marking capacity (find_name net.place_name place)

unfoldable pub add_queue : NewNet → List ℕ → ℤ → Bool × NewNet
unfolding append_place find_name
add_queue net place capacity =
    append_place net place (negsuc 0) capacity (find_name net.place_name place)

unfoldable pub add_loss_queue : NewNet → List ℕ → ℤ → Bool × NewNet
unfolding append_place find_name
add_loss_queue net place capacity =
    append_place net place (negsuc 1) capacity (find_name net.place_name place)

unfoldable pub append_trans : NewNet → List ℕ → Option ℕ → Bool × NewNet
unfolding assign_name
append_trans net trans (some i) = (false, net)
append_trans net trans none = (
  true,
  record net {
    transition_name = assign_name net.transition_name trans (length net.transitions);
    transitions =
        net.transitions ++ record { arcs = empty_node; name = trans; observable = false } ∷ [];
  },
)

unfoldable pub add_trans : NewNet → List ℕ → Bool × NewNet
unfolding append_trans find_name
add_trans net trans = append_trans net trans (find_name net.transition_name trans)

-- `places[i]`; no operation reads outside the vector.
abbrev pub place_at : NewNet → ℕ → Place
place_at net i =
    get_or net.places i (record { arcs = empty_node; name = []; marking = pos 0; capacity = pos 0 })

-- The place of the given name, unless `refused` holds of it.
unfoldable pub find_place : (Place → Bool) → NewNet → List ℕ → Option ℕ
unfolding find_name
find_place refused net place = do
  i ← find_name net.place_name place
  if refused (place_at net i) then none else some i

-- The guards of the operations on arcs, in their order.
unfoldable pub find_arc : (Place → Bool) → NewNet → List ℕ → List ℕ → Option (ℕ × ℕ)
unfolding find_place find_name
find_arc refused net place trans = do
  p ← find_place refused net place
  t ← find_name net.transition_name trans
  some (p, t)

-- The two lists that an arc is recorded in.
unfoldable pub record_arc : (ℕ → Node → Node) → (ℕ → Node → Node) → NewNet → ℕ × ℕ → NewNet
record_arc in_trans in_place net (p, t) = record net {
  transitions = modify net.transitions t (λ n. record n { arcs = in_trans p n.arcs });
  places = modify net.places p (λ n. record n { arcs = in_place t n.arcs });
}

-- `false` and no change when a guard fails.
unfoldable pub answer : (ℕ × ℕ → NewNet) → NewNet → Option (ℕ × ℕ) → Bool × NewNet
answer change net none = (false, net)
answer change net (some arc) = (true, change arc)

unfoldable pub add_pre : NewNet → List ℕ → List ℕ → ℤ → Bool × NewNet
unfolding answer find_arc record_arc push_pre push_post
add_pre net place trans valuation =
    answer (record_arc (λ p. push_pre p valuation) (λ t. push_post t valuation) net) net
      (find_arc is_queue net place trans)

unfoldable pub add_post : NewNet → List ℕ → List ℕ → ℤ → Bool × NewNet
unfolding answer find_arc record_arc push_pre push_post
add_post net place trans valuation =
    answer (record_arc (λ p. push_post p valuation) (λ t. push_pre t valuation) net) net
      (find_arc is_queue net place trans)

unfoldable pub add_pre_queue : NewNet → List ℕ → List ℕ → ℤ → Bool × NewNet
unfolding answer find_arc record_arc push_pre push_post
add_pre_queue net place trans valuation =
    answer (record_arc (λ p. push_pre p valuation) (λ t. push_post t valuation) net) net
      (find_arc (λ p. not (is_queue p)) net place trans)

unfoldable pub add_post_queue : NewNet → List ℕ → List ℕ → ℤ → Bool × NewNet
unfolding answer find_arc record_arc push_pre push_post
add_post_queue net place trans valuation =
    answer (record_arc (λ p. push_post p valuation) (λ t. push_pre t valuation) net) net
      (find_arc (λ p. not (is_queue p)) net place trans)

unfoldable pub add_inhibitor : NewNet → List ℕ → List ℕ → ℤ → Bool × NewNet
unfolding answer find_arc record_arc push_inhibitor
add_inhibitor net place trans valuation =
    answer (record_arc (λ p. push_inhibitor p valuation) (λ t. push_inhibitor t valuation) net) net
      (find_arc (λ p. false) net place trans)

unfoldable pub add_reset : NewNet → List ℕ → List ℕ → Bool × NewNet
unfolding answer find_arc record_arc push_reset
add_reset net place trans =
    answer (record_arc push_reset push_reset net) net (find_arc (λ p. false) net place trans)

-- The guard on the place of the valuation in addPreAuto and addPostAuto; no guard changes anything,
-- so their order does not show.
unfoldable pub with_valuation : (ℕ → Bool × NewNet) → NewNet → Option ℕ → Bool × NewNet
with_valuation change net none = (false, net)
with_valuation change net (some v) = change v

unfoldable pub add_pre_auto : NewNet → List ℕ → List ℕ → List ℕ → Bool × NewNet
unfolding answer find_arc find_place record_arc push_pre_auto push_post_auto with_valuation
add_pre_auto net place trans valuation =
    with_valuation
      (λ v.
        answer (record_arc (λ p. push_pre_auto p v) (λ t. push_post_auto t v) net) net
          (find_arc is_queue net place trans))
      net (find_place is_queue net valuation)

-- The third guard of addPostAuto tests the place of the arc a second time, not that of the
-- valuation.
unfoldable pub add_post_auto : NewNet → List ℕ → List ℕ → List ℕ → Bool × NewNet
unfolding answer find_arc find_name record_arc push_pre_auto push_post_auto with_valuation
add_post_auto net place trans valuation =
    with_valuation
      (λ v.
        answer (record_arc (λ p. push_post_auto p v) (λ t. push_pre_auto t v) net) net
          (find_arc is_queue net place trans))
      net (find_name net.place_name valuation)

-- The net before the first call of the parser.
abbrev pub empty_net : NewNet
empty_net = record { places = []; transitions = []; place_name = []; transition_name = [] }
