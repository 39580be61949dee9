-- ===== src/Prelude/Ints.antt =====
-- The machine integers below zero, over the native numbers, and strings.
use Prim.Native.Nat.{ℕ, ◌-◌, ◌%◌, ◌^◌}
use mathlib.Core.Path.{◌≡◌, refl}
use mathlib.Core.Bool.{Bool, true, false, ◌&&◌}
use mathlib.Core.List.{List, [], ◌∷◌}
use native.Mathlib.Omega.{arith}
use mc_sog.Prelude.Tests.{◌==◌, ==_iff, ==_self}

pub data ℤ : Type 0 where
  pos : ℕ → ℤ
  negsuc : ℕ → ℤ

-- An `int` where a uint32_t is wanted.
abbrev pub to_u32 : ℤ → ℕ
to_u32 (pos n) = n % 2 ^ 32
to_u32 (negsuc n) = 2 ^ 32 - 1 - n % 2 ^ 32

-- `operator==` of std::string, a list of characters.
abbrev pub same_name : List ℕ → List ℕ → Bool
same_name [] [] = true
same_name (x ∷ xs) (y ∷ ys) = (x == y) && same_name xs ys
same_name _ _ = false

pub same_name→≡ : (xs ys : List ℕ) → same_name xs ys ≡ true → xs ≡ ys
same_name→≡ [] [] h = refl
same_name→≡ [] (y ∷ ys) h = cc
same_name→≡ (x ∷ xs) [] h = cc
same_name→≡ (x ∷ xs) (y ∷ ys) h = cons (split h).0 (same_name→≡ xs ys (split h).1)
  where
    split : {a b : Bool} → (a && b) ≡ true → (a ≡ true) × (b ≡ true)
    split {a} {b} h = ground arith

    cons : (x == y) ≡ true → xs ≡ ys → (x ∷ xs) ≡ (y ∷ ys)
    cons h e = let h' = (==_iff x y).0 h in cc

pub same_name_self : (xs : List ℕ) → same_name xs xs ≡ true
same_name_self [] = refl
same_name_self (x ∷ xs) = rw (==_self x, same_name_self xs)
