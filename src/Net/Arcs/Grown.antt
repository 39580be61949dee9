-- ===== src/Net/Arcs/Grown.antt =====
-- One more place, transition or arc in a well-formed net.
use mc_sog.Net.{
  NewNet, Node, Place, answer, append_place, append_trans, empty_node, find_arc, find_name,
  find_place, place_at, record_arc, with_valuation,
}
use mc_sog.Net.Arcs.{
  AreDual, IsNet, length-place_names, length-transition_names, place_names, place_names-append,
  place_names-modify, place_node-append, transition_names, transition_names-append,
  transition_names-modify, transition_node-append,
}
use mc_sog.Net.Names.{assign_name-IsTable, get_elem?-lt}
use mc_sog.Prelude.{
  >>=-eq-some, Bool, List, Option, ap, arith, false, if◌then◌else◌, length, modify, none, refl,
  some, some_eq, subst, sym, true, ℕ, ℤ, ◌<◌, ◌>>=◌, ◌^◌, ◌∙◌, ◌≡◌,
}

-- A net with another place or transition.
pub append_place-IsNet :
    (net : NewNet) (name : List ℕ) (marking capacity : ℤ) (r : Option ℕ)
    → IsNet net
    → length net.places < 2 ^ 16
    → find_name net.place_name name ≡ r
    → IsNet (append_place net name marking capacity r).1
unfolding append_place
append_place-IsNet net name marking capacity (some i) h fits e = h
append_place-IsNet net name marking capacity none h fits e = record {
  places =
      rw
        (
          place_names-append net.places
              (record { arcs = empty_node; name = name; marking = marking; capacity = capacity }),
          sym (length-place_names net.places),
        )
        (assign_name-IsTable (place_names net.places) net.place_name name h.places e
          (omega (arith, length-place_names net.places)));
  transitions = h.transitions;
  dual = record {
    pre = λ p t v.
        rw
          (place_node-append net.places
            (record { arcs = empty_node; name = name; marking = marking; capacity = capacity }) p
            refl)
          (h.dual.pre p t v);
    post = λ p t v.
        rw
          (place_node-append net.places
            (record { arcs = empty_node; name = name; marking = marking; capacity = capacity }) p
            refl)
          (h.dual.post p t v);
  };
}

pub append_trans-IsNet :
    (net : NewNet) (name : List ℕ) (r : Option ℕ)
    → IsNet net
    → length net.transitions < 2 ^ 16
    → find_name net.transition_name name ≡ r
    → IsNet (append_trans net name r).1
unfolding append_trans
append_trans-IsNet net name (some i) h fits e = h
append_trans-IsNet net name none h fits e = record {
  places = h.places;
  transitions =
      rw
        (
          transition_names-append net.transitions
              (record { arcs = empty_node; name = name; observable = false }),
          sym (length-transition_names net.transitions),
        )
        (assign_name-IsTable (transition_names net.transitions) net.transition_name name
          h.transitions e (omega (arith, length-transition_names net.transitions)));
  dual = record {
    pre = λ p t v.
        rw
          (transition_node-append net.transitions
            (record { arcs = empty_node; name = name; observable = false }) t refl)
          (h.dual.pre p t v);
    post = λ p t v.
        rw
          (transition_node-append net.transitions
            (record { arcs = empty_node; name = name; observable = false }) t refl)
          (h.dual.post p t v);
  };
}

-- The positions that the guards find are those of a place and of a transition.
pub find_arc-fits :
    (net : NewNet) (refused : Place → Bool) (place trans : List ℕ) (p t : ℕ)
    → IsNet net
    → find_arc refused net place trans ≡ some (p, t)
    → (p < length net.places) × (t < length net.transitions)
unfolding find_arc find_place
find_arc-fits net refused place trans p t h e =
    let (q, e1, rest) =
      >>=-eq-some (find_place refused net place)
        (λ p. find_name net.transition_name trans >>= (λ t. some (p, t))) e in
    let (u, e2, last) = >>=-eq-some (find_name net.transition_name trans) (λ t. some (q, t)) rest in
    let (i, e3, ok) =
      >>=-eq-some (find_name net.place_name place)
        (λ i. if refused (place_at net i) then none else some i) e1 in
    (
      subst (λ x. x < length net.places)
          (kept_by (refused (place_at net i)) i q ok ∙ ap (λ x. x.0) (some_eq last))
          (omega (
            arith,
            length-place_names net.places,
            get_elem?-lt (place_names net.places) i place (h.places.found place i e3),
          )),
      subst (λ x. x < length net.transitions) (ap (λ x. x.1) (some_eq last))
          (omega (
            arith,
            length-transition_names net.transitions,
            get_elem?-lt (transition_names net.transitions) u trans
                (h.transitions.found trans u e2),
          )),
    )
  where
    kept_by : (b : Bool) (i q : ℕ) → (if b then none else some i) ≡ some q → i ≡ q
    kept_by true i q e = cc
    kept_by false i q e = some_eq e

pub answer-IsNet :
    (net : NewNet) (in_trans in_place : ℕ → Node → Node) (o : Option (ℕ × ℕ))
    → IsNet net
    → ((p t : ℕ)
        → o ≡ some (p, t)
        → AreDual
            (modify net.places p (λ n. record n { arcs = in_place t n.arcs }))
            (modify net.transitions t (λ n. record n { arcs = in_trans p n.arcs })))
    → IsNet (answer (record_arc in_trans in_place net) net o).1
unfolding answer record_arc
answer-IsNet net in_trans in_place none h dual = h
answer-IsNet net in_trans in_place (some (p, t)) h dual = record {
  places = rw (place_names-modify net.places p (in_place t)) h.places;
  transitions = rw (transition_names-modify net.transitions t (in_trans p)) h.transitions;
  dual = dual p t refl;
}

pub with_valuation-IsNet :
    (net : NewNet) (change : ℕ → Bool × NewNet) (o : Option ℕ)
    → IsNet net
    → ((v : ℕ) → IsNet (change v).1)
    → IsNet (with_valuation change net o).1
unfolding with_valuation
with_valuation-IsNet net change none h ok = h
with_valuation-IsNet net change (some v) h ok = ok v
