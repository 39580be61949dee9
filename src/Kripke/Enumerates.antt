-- ===== src/Kripke/Enumerates.antt =====
-- The loop that spot runs over an iterator (src/SogKripkeIterator.cpp) gives the edges, each once
-- and in order.
use Prim.Native.Nat.{◌^◌}
use mc_sog.Kripke.{Iterator, current, done, first, next}
use mc_sog.Prelude.{
  ==_iff, List, Option, [], ap, arith, false, get_elem?, length, length-append, none, refl, some,
  subst, suc, sym, true, zero, ℕ, ℤ, ◌++◌, ◌+◌, ◌<◌, ◌==◌, ◌>>=◌, ◌^◌, ◌∙◌, ◌∷◌, ◌≡◌,
}

module _ {A : Type 0} where
  -- `for (it->first(); !it->done(); it->next())`, from where the iterator stands; the edges.
  unfoldable pub for_each : ℕ → Iterator A → Option (List (A × ℤ))
  unfolding done current next
  for_each zero it = none
  for_each (suc fuel) it = elim (done it) [
    | true ↦ some []
    | false ↦ do e ← current it; rest ← for_each fuel (next it).0; some (e ∷ rest)
  ]

  elem_after :
      (xs : List (A × ℤ)) (y : A × ℤ) (ys : List (A × ℤ))
      → get_elem? (xs ++ y ∷ ys) (length xs) ≡ some y
  elem_after [] y ys = refl
  elem_after (x ∷ xs) y ys = elem_after xs y ys

  append_one :
      (xs : List (A × ℤ)) (y : A × ℤ) (ys : List (A × ℤ)) → (xs ++ y ∷ []) ++ ys ≡ xs ++ y ∷ ys
  append_one [] y ys = refl
  append_one (x ∷ xs) y ys = ap (λ zs. x ∷ zs) (append_one xs y ys)

  length_one : (xs : List (A × ℤ)) (y : A × ℤ) → length (xs ++ y ∷ []) ≡ length xs + 1
  length_one [] y = refl
  length_one (x ∷ xs) y = omega (arith, length_one xs y)

  for_each-done : (n : ℕ) (it : Iterator A) → done it ≡ true → for_each (suc n) it ≡ some []
  unfolding for_each
  for_each-done n it e = rw (for_each, e) refl

  for_each-current :
      (n : ℕ) (it : Iterator A) (e : A × ℤ) (es : List (A × ℤ))
      → done it ≡ false
      → current it ≡ some e
      → for_each n (next it).0 ≡ some es
      → for_each (suc n) it ≡ some (e ∷ es)
  unfolding for_each
  for_each-current n it e es more at rest = rw (for_each, more, at, ◌>>=◌, rest, ◌>>=◌) refl

  next_current :
      (it : Iterator A)
      → it.current_edge + 1 < 2 ^ 32
      → (next it).0 ≡ record { lsucc = it.lsucc; current_edge = it.current_edge + 1 }
  unfolding next
  next_current it lt = ap (λ n. record { lsucc = it.lsucc; current_edge = n }) (omega arith)

  for_each-from :
      (xs ys : List (A × ℤ))
      → length (xs ++ ys) < 2 ^ 32
      → for_each (suc (length ys)) (record { lsucc = xs ++ ys; current_edge = length xs }) ≡ some ys
  unfolding done current
  for_each-from xs [] lt = for_each-done 0 _ ((==_iff _ _).1 (omega (arith, length-append xs [])))
  for_each-from xs (y ∷ ys) lt =
      for_each-current (suc (length ys)) _ y ys before (elem_after xs y ys)
        (ap (for_each (suc (length ys))) moved ∙ for_each-from (xs ++ y ∷ []) ys shorter)
    where
      fits : length xs + 1 < 2 ^ 32
      fits = omega (arith, lt, length-append xs (y ∷ ys))

      before : (length xs == length (xs ++ y ∷ ys)) ≡ false
      before = ground (arith, length-append xs (y ∷ ys))

      moved :
          (next (record { lsucc = xs ++ y ∷ ys; current_edge = length xs })).0
          ≡ record { lsucc = (xs ++ y ∷ []) ++ ys; current_edge = length (xs ++ y ∷ []) }
      moved =
          next_current (record { lsucc = xs ++ y ∷ ys; current_edge = length xs }) fits
          ∙ rw (append_one xs y ys, length_one xs y) refl

      shorter : length ((xs ++ y ∷ []) ++ ys) < 2 ^ 32
      shorter = subst (λ zs. length zs < 2 ^ 32) (sym (append_one xs y ys)) lt

  -- From `first` on the loop ends, and gives all edges.
  pub for_each-lsucc :
      (it : Iterator A)
      → length it.lsucc < 2 ^ 32
      → for_each (suc (length it.lsucc)) (first it).0 ≡ some it.lsucc
  unfolding first
  for_each-lsucc it lt = for_each-from [] it.lsucc lt
