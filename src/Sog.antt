-- ===== src/Sog.antt =====
-- The operations of class CommonSOG (src/CommonSOG.cpp) on sets of markings.
pub mod System
pub mod Finite
pub mod Image
pub mod Divergence
pub mod Epsilon
pub mod Load
pub mod Conflict
pub mod Canonize
pub mod Ample
use Prim.Native.Nat.{bit_and}
use mc_sog.Ldd.Fire.{lddmc_firing_mono}
use mc_sog.Ldd.Tree.{Ldd, lddmc_false, lddmc_true}
use mc_sog.Ldd.Union.{lddmc_union_mono}
use mc_sog.Prelude.{
  Bool, List, Option, [], false, get_or, if◌then◌else◌, none, not, some, suc, true, zero, ℕ, ◌==◌,
  ◌∷◌,
}

-- src/TransSylvan.h
pub record TransSylvan : Type 0 where
  pub minus : Ldd
  pub plus : Ldd

-- The fields of the class that the operations read; a set of transitions is the list of its
-- elements in the order of std::set.
pub record CommonSog : Type 0 where
  pub tb_relation : List TransSylvan
  pub non_observable : List ℕ
  pub observable : List ℕ

-- `m_tb_relation[t]`; no operation reads outside the vector.
abbrev pub relation_at : CommonSog → ℕ → TransSylvan
relation_at g t = get_or g.tb_relation t (record { minus = lddmc_false; plus = lddmc_false })

-- `if (succ != lddmc_false) res.insert(i);`, before the elements that come after `i`.
unfoldable pub insert_firable : Ldd → ℕ → List ℕ → List ℕ
insert_firable lddmc_false i res = res
insert_firable _ i res = i ∷ res

-- `From = Reached;` and the test of the `do` loop of Set_Div, before the next round.
unfoldable pub div_next : (Ldd → Option Bool) → Ldd → Option Bool
div_next round lddmc_false = some false
div_next round reached = round reached

module _ (index : Ldd → ℕ) (g : CommonSog) where
  unfoldable pub get_successor : Ldd → ℕ → Ldd
  get_successor from t = lddmc_firing_mono index from (relation_at g t).minus (relation_at g t).plus

  unfoldable pub get_pred : Ldd → ℕ → Ldd
  get_pred from t = lddmc_firing_mono index from (relation_at g t).plus (relation_at g t).minus

  -- The `for` loop of Accessible_epsilon.
  unfoldable pub epsilon_round : Ldd → List ℕ → Ldd
  unfolding get_successor
  epsilon_round m2 [] = m2
  epsilon_round m2 (i ∷ is) = epsilon_round (lddmc_union_mono index m2 (get_successor m2 i)) is

  -- The `do` loop; `none` when the fuel runs out.
  unfoldable pub epsilon_loop : ℕ → Ldd → Option Ldd
  unfolding epsilon_round
  epsilon_loop zero m2 = none
  epsilon_loop (suc fuel) m1 =
      let m2 = epsilon_round m1 g.non_observable in
      let rest = epsilon_loop fuel m2 in if index m1 == index m2 then some m2 else rest

  unfoldable pub accessible_epsilon : ℕ → Ldd → Option Ldd
  unfolding epsilon_loop
  accessible_epsilon fuel from = epsilon_loop fuel from

  unfoldable pub firable_among : Ldd → List ℕ → List ℕ
  unfolding get_successor insert_firable
  firable_among state [] = []
  firable_among state (i ∷ is) = insert_firable (get_successor state i) i (firable_among state is)

  unfoldable pub firable_obs : Ldd → List ℕ
  unfolding firable_among
  firable_obs state = firable_among state g.observable

  -- The loop of ImageForward, and the inner loop of Set_Div.
  unfoldable pub image_among : Ldd → Ldd → List ℕ → Ldd
  unfolding get_successor
  image_among from res [] = res
  image_among from res (i ∷ is) =
      image_among from (lddmc_union_mono index res (get_successor from i)) is

  unfoldable pub image_forward : Ldd → Ldd
  unfolding image_among
  image_forward from = image_among from lddmc_false g.non_observable

  -- The `do` loop of Set_Div; `none` when the fuel runs out.
  unfoldable pub div_loop : ℕ → Ldd → Option Bool
  unfolding image_among div_next
  div_loop zero from = none
  div_loop (suc fuel) from =
      let reached = image_among from lddmc_false g.non_observable in
      if index reached == index from then some true else div_next (div_loop fuel) reached

  unfoldable pub div_nonempty : ℕ → List ℕ → Ldd → Option Bool
  unfolding div_loop
  div_nonempty fuel [] m = some false
  div_nonempty fuel (i ∷ is) lddmc_false = some false
  div_nonempty fuel (i ∷ is) m = div_loop fuel m

  unfoldable pub set_div : ℕ → Ldd → Option Bool
  unfolding div_nonempty
  set_div fuel m = div_nonempty fuel g.non_observable m

  -- `cur = cur & minus` on the indices.
  unfoldable pub bloc_mask : ℕ → List TransSylvan → ℕ
  bloc_mask cur [] = cur
  bloc_mask cur (t ∷ ts) = bloc_mask (bit_and cur (index t.minus)) ts

  unfoldable pub set_bloc : Ldd → Bool
  unfolding bloc_mask
  set_bloc m = not (bit_and (index m) (bloc_mask (index lddmc_true) g.tb_relation) == 0)
