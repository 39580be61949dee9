-- ===== src/Sog/Ample/Taken.antt =====
-- What one round of saturatePOR (src/CommonSOG.cpp) takes: observable transitions, and the markings
-- that the others lead to.
use mc_sog.Ldd.Canonical.{some_member}
use mc_sog.Ldd.Fire.Image.{Fires, IsImage}
use mc_sog.Ldd.Tree.{IsIndex, IsLdd, Ldd, mem}
use mc_sog.Ldd.Union.{lddmc_union_mono}
use mc_sog.Ldd.Union.Correct.{IsUnion, lddmc_union_mono-IsUnion}
use mc_sog.Net.{Transition}
use mc_sog.Net.Observable.{contains}
use mc_sog.Net.Observable.Correct.{contains_insert}
use mc_sog.Prelude.{
  ==_iff, Bool, Bool-cases, List, [], ap, arith, false, inl, inr, length, not, refl, subst, suc,
  sym, true, zero, ℕ, ◌&&◌, ◌+◌, ◌<◌, ◌==◌, ◌∙◌, ◌∷◌, ◌≡◌, ◌≤◌, ◌⊎◌,
}
use mc_sog.Sog.{CommonSog, get_successor}
use mc_sog.Sog.Ample.{Saturation, is_stacked, observable_at, take, take_all, take_ample, take_one}
use mc_sog.Sog.Ample.Reverse.{AreLight}
use mc_sog.Sog.Canonize.{is_false}
use mc_sog.Sog.Canonize.Reduce.{is_false-cases}
use mc_sog.Sog.Image.{or_cases}
use mc_sog.Sog.System.{
  AreBelow, AreSized, In, Step, Weights, by, get_successor-IsImage, loaded, relations, weights_at,
}

-- A marking of the tree enables the transition.
abbrev pub CanFire : List Weights → Ldd → ℕ → Type 0
CanFire ws a t =
    (m m' : List ℕ) × (mem a m ≡ true) × Fires (weights_at ws t).pre (weights_at ws t).post m m'

module _ (index : Ldd → ℕ) (ok : IsIndex index) (k : ℕ) (ws : List Weights) (eps obs : List ℕ)
    (sized : AreSized k ws) (light : AreLight ws) (ts : List Transition)
    (one_each : length ts ≡ length ws)
    (others : (t : ℕ) → t < length ws → observable_at ts t ≡ false → In t eps) where
  abbrev net : CommonSog
  net = loaded ws eps obs

  -- What a round has taken so far from the markings of `from`.
  pub record IsTaken (from : Ldd) (t_obs : List ℕ) (st : Saturation) : Type 0 where
    pub formed : IsLdd k st.to
    pub only :
        (m : List ℕ) → mem st.to m ≡ true → (m0 : List ℕ) × (mem from m0 ≡ true) × Step ws eps m0 m
    pub observed :
        (t : ℕ)
        → contains t st.t_obs ≡ true
        → (contains t t_obs ≡ true) ⊎ ((observable_at ts t ≡ true) × CanFire ws from t)

  module _ (from : Ldd) (t_obs : List ℕ) (hf : IsLdd k from) where
    take-IsTaken :
        (t : ℕ) (st : Saturation)
        → t < length ws
        → is_false (get_successor index net from t) ≡ false
        → IsTaken from t_obs st
        → IsTaken from t_obs (take index net ts t (get_successor index net from t) st)
    unfolding take
    take-IsTaken t st lt some_succ h = elim (Bool-cases (observable_at ts t)) [
      | inl visible ↦ rw visible (record {
        formed = h.formed;
        only = h.only;
        observed = λ j c. elim (or_cases (j == t) _ (sym (contains_insert j t st.t_obs) ∙ c)) [
          | inl e ↦ inr (subst Observed (sym ((==_iff j t).0 e)) (visible, fires))
          | inr old ↦ h.observed j old
        ];
      })
      | inr hidden ↦ rw hidden (record {
        formed = u.formed;
        only = λ m inside. elim (or_cases _ _ (sym (u.members m) ∙ inside)) [
          | inl old ↦ h.only m old
          | inr new ↦ let (m0, at, f) = image.only m new in (m0, at, by t (others t lt hidden) f)
        ];
        observed = h.observed;
      })
    ]
      where
        Observed : ℕ → Type 0
        Observed j = (observable_at ts j ≡ true) × CanFire ws from j

        image :
            IsImage k from
              (weights_at ws t).pre
              (weights_at ws t).post
              (get_successor index net from t)
        image = get_successor-IsImage index ok k ws eps obs from t sized lt hf

        u :
            IsUnion k st.to
              (get_successor index net from t)
              (lddmc_union_mono index st.to (get_successor index net from t))
        u = lddmc_union_mono-IsUnion index ok k st.to _ h.formed image.formed

        fires : CanFire ws from t
        fires = elim (is_false-cases (get_successor index net from t)) [
          | inl (e, _) ↦ cc
          | inr (_, ne) ↦
              let (m', inside) = some_member k _ image.formed ne in
              let (m, at, f) = image.only m' inside in (m, m', at, f)
        ]

    take_all-IsTaken :
        (n i : ℕ) (st : Saturation)
        → i + n ≤ length ws
        → IsTaken from t_obs st
        → IsTaken from t_obs (take_all index net ts from n i st)
    unfolding take_all
    take_all-IsTaken zero i st le h = h
    take_all-IsTaken (suc n) i st le h =
        elim (Bool-cases (is_false (get_successor index net from i))) [
          | inl none_here ↦ rw none_here (take_all-IsTaken n (suc i) st (omega arith) h)
          | inr some_here ↦ rw some_here (
              take_all-IsTaken n (suc i) _ (omega arith)
                (take-IsTaken i st (omega arith) some_here h))
        ]

    length-net : (ws : List Weights) → length (relations ws) ≡ length ws
    length-net [] = refl
    length-net (w ∷ ws) = ap suc (length-net ws)

    take_one-IsTaken :
        (t : ℕ) (st : Saturation)
        → t < length ws
        → IsTaken from t_obs st
        → IsTaken from t_obs (take_one index net ts from t st)
    unfolding take_one
    take_one-IsTaken t st lt h = elim (Bool-cases (is_false (get_successor index net from t))) [
      | inl none_here ↦ rw none_here h
      | inr some_here ↦ elim (Bool-cases (again t st)) [
        | inl found ↦
            rw (some_here, found)
              (take_all-IsTaken (length net.tb_relation) 0 st (omega (arith, length-net ws)) h)
        | inr fresh ↦ rw (some_here, fresh) (take-IsTaken t st lt some_here h)
      ]
    ]
      where
        again : ℕ → Saturation → Bool
        again t st =
            not (observable_at ts t)
            && is_stacked index net ts (get_successor index net from t) st.my_stack

    pub take_ample-IsTaken :
        (ample : List ℕ) (st : Saturation)
        → AreBelow (length ws) ample
        → IsTaken from t_obs st
        → IsTaken from t_obs (take_ample index net ts from ample st)
    unfolding take_ample
    take_ample-IsTaken [] st below h = h
    take_ample-IsTaken (t ∷ ample) st below h =
        take_ample-IsTaken ample _ below.1 (take_one-IsTaken t st below.0 h)
