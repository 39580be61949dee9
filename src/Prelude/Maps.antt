-- ===== src/Prelude/Maps.antt =====
-- Functions on positions, changed at one of them: arrays that are written in place.
use Prim.Native.Nat.{ℕ}
use mathlib.Core.Path.{◌≡◌, subst}
use mathlib.Core.Logic.{◌⊎◌, inl, inr}
use mc_sog.Prelude.Tests.{◌==◌, ==_iff, ==_self, Bool-cases, if◌then◌else◌}

abbrev pub update {ℓ} : {A : Type ℓ} → (ℕ → A) → ℕ → A → ℕ → A
update f i x j = if j == i then x else f j

module _ {A : Type 0} (f : ℕ → A) (i : ℕ) (x : A) where
  pub update_self : update f i x i ≡ x
  update_self = rw (==_self i)

  -- What holds of every position, after a change at `i`.
  pub every_update : (P : A → Type 0) → ((j : ℕ) → P (f j)) → P x → (j : ℕ) → P (update f i x j)
  every_update P all new j = elim (Bool-cases (j == i)) [
    | inl same ↦ rw same new
    | inr other ↦ rw other (all j)
  ]

  -- What holds of some position, unless it is `i`.
  pub some_update :
      (P : A → Type 0) (R : Type 0)
      → (P (f i) → R)
      → ((j : ℕ) × P (f j))
      → ((j : ℕ) × P (update f i x j)) ⊎ R
  some_update P R now (j, p) = elim (Bool-cases (j == i)) [
    | inl same ↦ inr (now (subst (λ k. P (f k)) ((==_iff j i).0 same) p))
    | inr other ↦ inl (j, rw other p)
  ]
