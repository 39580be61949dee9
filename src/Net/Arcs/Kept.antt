-- ===== src/Net/Arcs/Kept.antt =====
-- The operations of class NewNet (src/NewNet.cpp) on well-formed nets.
use mc_sog.Net.{
  NewNet, add_inhibitor, add_loss_queue, add_place, add_post, add_post_auto, add_post_queue,
  add_pre, add_pre_auto, add_pre_queue, add_queue, add_reset, add_trans, answer, append_place,
  append_trans, find_arc, find_name, find_place, is_queue, push_post_auto, push_pre_auto,
  record_arc, with_valuation,
}
use mc_sog.Prelude.{Bool, List, Option, false, negsuc, none, refl, some, ℕ, ℤ, ◌≡◌}

-- The calls that the parser makes.
pub data Request : Type 0 where
  new_place : (name : List ℕ) (marking capacity : ℤ) → Request
  queue : (name : List ℕ) (capacity : ℤ) → Request
  loss_queue : (name : List ℕ) (capacity : ℤ) → Request
  new_trans : (name : List ℕ) → Request
  pre_arc : (place_of trans_of : List ℕ) (valuation : ℤ) → Request
  post_arc : (place_of trans_of : List ℕ) (valuation : ℤ) → Request
  pre_queue : (place_of trans_of : List ℕ) (valuation : ℤ) → Request
  post_queue : (place_of trans_of : List ℕ) (valuation : ℤ) → Request
  inhibitor_arc : (place_of trans_of : List ℕ) (valuation : ℤ) → Request
  pre_auto_arc : (place_of trans_of valuation : List ℕ) → Request
  post_auto_arc : (place_of trans_of valuation : List ℕ) → Request
  reset_arc : (place_of trans_of : List ℕ) → Request

unfoldable pub handle : NewNet → Request → Bool × NewNet
unfolding add_place add_queue add_loss_queue add_trans add_pre add_post add_pre_queue add_post_queue
    add_inhibitor add_pre_auto add_post_auto add_reset
handle net (new_place name marking capacity) = add_place net name marking capacity
handle net (queue name capacity) = add_queue net name capacity
handle net (loss_queue name capacity) = add_loss_queue net name capacity
handle net (new_trans name) = add_trans net name
handle net (pre_arc p t v) = add_pre net p t v
handle net (post_arc p t v) = add_post net p t v
handle net (pre_queue p t v) = add_pre_queue net p t v
handle net (post_queue p t v) = add_post_queue net p t v
handle net (inhibitor_arc p t v) = add_inhibitor net p t v
handle net (pre_auto_arc p t v) = add_pre_auto net p t v
handle net (post_auto_arc p t v) = add_post_auto net p t v
handle net (reset_arc p t) = add_reset net p t

append_place_unchanged :
    (net : NewNet) (name : List ℕ) (marking capacity : ℤ) (r : Option ℕ)
    → (append_place net name marking capacity r).0 ≡ false
    → (append_place net name marking capacity r).1 ≡ net
unfolding append_place
append_place_unchanged net name marking capacity none e = cc
append_place_unchanged net name marking capacity (some i) e = refl

append_trans_unchanged :
    (net : NewNet) (name : List ℕ) (r : Option ℕ)
    → (append_trans net name r).0 ≡ false
    → (append_trans net name r).1 ≡ net
unfolding append_trans
append_trans_unchanged net name none e = cc
append_trans_unchanged net name (some i) e = refl

answer_unchanged :
    (net : NewNet) (change : ℕ × ℕ → NewNet) (o : Option (ℕ × ℕ))
    → (answer change net o).0 ≡ false
    → (answer change net o).1 ≡ net
unfolding answer
answer_unchanged net change none e = refl
answer_unchanged net change (some arc) e = cc

with_valuation_unchanged :
    (net : NewNet) (change : ℕ → Bool × NewNet) (o : Option ℕ)
    → ((v : ℕ) → (change v).0 ≡ false → (change v).1 ≡ net)
    → (with_valuation change net o).0 ≡ false
    → (with_valuation change net o).1 ≡ net
unfolding with_valuation
with_valuation_unchanged net change none ok e = refl
with_valuation_unchanged net change (some v) ok e = ok v e

-- An operation that answers false leaves the net as it was.
pub handle_unchanged :
    (net : NewNet) (r : Request) → (handle net r).0 ≡ false → (handle net r).1 ≡ net
unfolding handle add_place add_queue add_loss_queue add_trans add_pre add_post add_pre_queue
    add_post_queue add_inhibitor add_pre_auto add_post_auto add_reset
handle_unchanged net (new_place name marking capacity) e =
    append_place_unchanged net name marking capacity _ e
handle_unchanged net (queue name capacity) e =
    append_place_unchanged net name (negsuc 0) capacity _ e
handle_unchanged net (loss_queue name capacity) e =
    append_place_unchanged net name (negsuc 1) capacity _ e
handle_unchanged net (new_trans name) e = append_trans_unchanged net name _ e
handle_unchanged net (pre_arc p t v) e = answer_unchanged net _ _ e
handle_unchanged net (post_arc p t v) e = answer_unchanged net _ _ e
handle_unchanged net (pre_queue p t v) e = answer_unchanged net _ _ e
handle_unchanged net (post_queue p t v) e = answer_unchanged net _ _ e
handle_unchanged net (inhibitor_arc p t v) e = answer_unchanged net _ _ e
handle_unchanged net (pre_auto_arc p t v) e =
    with_valuation_unchanged net
      (λ x.
        answer (record_arc (λ q. push_pre_auto q x) (λ u. push_post_auto u x) net) net
          (find_arc is_queue net p t))
      (find_place is_queue net v) (λ x. answer_unchanged net _ _) e
handle_unchanged net (post_auto_arc p t v) e =
    with_valuation_unchanged net
      (λ x.
        answer (record_arc (λ q. push_post_auto q x) (λ u. push_pre_auto u x) net) net
          (find_arc is_queue net p t))
      (find_name net.place_name v) (λ x. answer_unchanged net _ _) e
handle_unchanged net (reset_arc p t) e = answer_unchanged net _ _ e
