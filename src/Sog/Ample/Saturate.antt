-- ===== src/Sog/Ample/Saturate.antt =====
-- What saturatePOR (src/CommonSOG.cpp) returns.
use mc_sog.Graph.Build.Measure.{seen}
use mc_sog.Ldd.Canonical.{canonical, some_member}
use mc_sog.Ldd.Fire.Image.{Fires}
use mc_sog.Ldd.Tree.{IsIndex, IsLdd, IsNonempty, Ldd, lddmc_false, mem}
use mc_sog.Ldd.Union.{lddmc_union_mono}
use mc_sog.Ldd.Union.Correct.{IsUnion, lddmc_union_mono-IsUnion}
use mc_sog.Net.{Transition}
use mc_sog.Net.Observable.{contains}
use mc_sog.Prelude.{
  ==_iff, Bool, Bool-cases, List, Option-cases, [], ap, false, inl, inr, length, none, refl, some,
  some_eq, subst, suc, sym, true, zero, ℕ, ◌<◌, ◌==◌, ◌>>=◌, ◌^◌, ◌||◌, ◌∙◌, ◌∷◌, ◌≡◌,
}
use mc_sog.Sog.{CommonSog}
use mc_sog.Sog.Ample.{
  Saturated, Saturation, compute_ample2, is_nil, observable_at, saturate_loop, saturate_por,
  take_ample,
}
use mc_sog.Sog.Ample.Covers.{IsCovering, compute_ample2-IsCovering}
use mc_sog.Sog.Ample.Reverse.{AreLight, AreSmall}
use mc_sog.Sog.Ample.Taken.{CanFire, IsTaken, take_ample-IsTaken}
use mc_sog.Sog.Canonize.Reduce.{is_false-cases, or_left, or_right}
use mc_sog.Sog.Divergence.{HasRun}
use mc_sog.Sog.Finite.{Within}
use mc_sog.Sog.Image.{or_cases}
use mc_sog.Sog.System.{
  AreBelow, AreSized, In, In-below, Reached, Run, Step, Weights, by, here, loaded, then_by,
  weights_at,
}

module _ (index : Ldd → ℕ) (ok : IsIndex index) (k : ℕ) (ws : List Weights) (eps obs : List ℕ)
    (sized : AreSized k ws) (light : AreLight ws) (ts : List Transition)
    (one_each : length ts ≡ length ws)
    (others : (t : ℕ) → t < length ws → observable_at ts t ≡ false → In t eps) where
  abbrev net : CommonSog
  net = loaded ws eps obs

  abbrev IsTakenFrom : Ldd → List ℕ → Saturation → Type 0
  IsTakenFrom from t_obs st =
      IsTaken index ok k ws eps obs sized light ts one_each others from t_obs st

  -- Where the loop stands: `from` was reached last.
  record IsReaching (s from reach2 : Ldd) (t_obs : List ℕ) (div : Bool) : Type 0 where
    from_formed : IsLdd k from
    formed : IsLdd k reach2
    filled : IsNonempty from
    from_inside : Within from reach2
    keeps : Within s reach2
    reached : (m : List ℕ) → mem reach2 m ≡ true → Reached ws eps s m
    observed : (t : ℕ) → contains t t_obs ≡ true → (observable_at ts t ≡ true) × CanFire ws reach2 t
    diverges : div ≡ true → (n : ℕ) → HasRun ws eps n reach2

  HasRun-Within : (n : ℕ) (a b : Ldd) → Within a b → HasRun ws eps n a → HasRun ws eps n b
  HasRun-Within n a b h (m, m', inside, run) = (m, m', h m inside, run)

  -- In a set whose markings all have a predecessor in it, runs go back as far as one likes.
  Run-back :
      (from : Ldd)
      → ((m : List ℕ) → mem from m ≡ true → (m0 : List ℕ) × (mem from m0 ≡ true) × Step ws eps m0 m)
      → (n : ℕ) (m : List ℕ) → mem from m ≡ true
      → (m0 : List ℕ) × (mem from m0 ≡ true) × Run ws eps m0 n m
  Run-back from only zero m inside = (m, inside, here)
  Run-back from only (suc n) m inside =
      let (m1, inside1, step) = only m inside in
      let (m0, inside0, run) = Run-back from only n m1 inside1 in (m0, inside0, then_by run step)

  -- For a well-formed set without large values, a net without large weights, and a marking of the
  -- set that enables no transition, saturatePOR does not return: any fuel for its loop and for that
  -- of computeAmple2 runs out.
  pub saturate_por_stuck :
      (rounds fuel : ℕ) (s : Ldd)
      → IsLdd k s
      → ((m : List ℕ) → mem s m ≡ true → AreSmall (2 ^ 30) m)
      → (m : List ℕ) → mem s m ≡ true
      → ((t : ℕ)
          → t < length ws
          → (m' : List ℕ) → ¬ Fires (weights_at ws t).pre (weights_at ws t).post m m')
      → saturate_por index net ts rounds fuel s ≡ none
  unfolding saturate_por saturate_loop
  saturate_por_stuck rounds zero s hs small m inside dead = refl
  saturate_por_stuck rounds (suc fuel) s hs small m inside dead =
      elim (Option-cases (compute_ample2 index net ts rounds s)) [
        | inl out ↦ rw out refl
        | inr (ample, found) ↦
            let c =
              compute_ample2-IsCovering index ok k ws eps obs sized light ts one_each s hs small
                rounds ample found in
            let (m', step) = c.enabled m inside in absurd (no_step ample c.below m' step)
      ]
    where
      no_step : (ample : List ℕ) → AreBelow (length ws) ample → (m' : List ℕ) → ¬ Step ws ample m m'
      no_step ample below m' (by i member f) =
          dead i (In-below (length ws) i ample below member) m' f

  module _ (s : Ldd) (hs : IsLdd k s)
      (small : (m : List ℕ) → Reached ws eps s m → AreSmall (2 ^ 30) m) where
    module _ (from reach2 : Ldd) (t_obs : List ℕ) (div : Bool) (st : Saturation)
        (h : IsReaching s from reach2 t_obs div) (taken : IsTakenFrom from t_obs st) where
      abbrev after_round : Ldd
      after_round = lddmc_union_mono index reach2 st.to

      after_round-IsUnion : IsUnion k reach2 st.to after_round
      after_round-IsUnion = lddmc_union_mono-IsUnion index ok k reach2 st.to h.formed taken.formed

      grows : Within reach2 after_round
      grows m inside = after_round-IsUnion.members m ∙ or_left _ _ inside

      next_reached : (m : List ℕ) → mem after_round m ≡ true → Reached ws eps s m
      next_reached m inside = elim (or_cases _ _ (sym (after_round-IsUnion.members m) ∙ inside)) [
        | inl old ↦ h.reached m old
        | inr new ↦
            let (m0, at, step) = taken.only m new in
            let (u, n, at0, run) = h.reached m0 (h.from_inside m0 at) in
            (u, suc n, at0, then_by run step)
      ]

      next_observed :
          (t : ℕ)
          → contains t st.t_obs ≡ true
          → (observable_at ts t ≡ true) × CanFire ws after_round t
      next_observed t c = elim (taken.observed t c) [
        | inl old ↦
            let (seen, (m, m', inside, f)) = h.observed t old in (seen, (m, m', grows m inside, f))
        | inr (seen, (m, m', inside, f)) ↦ (seen, (m, m', grows m (h.from_inside m inside), f))
      ]

      next_diverges :
          (div || (index st.to == index from)) ≡ true → (n : ℕ) → HasRun ws eps n after_round
      next_diverges e n = elim (or_cases div _ e) [
        | inl before ↦ HasRun-Within n reach2 after_round grows (h.diverges before n)
        | inr same ↦
            let back =
              subst
                (λ a.
                  (m : List ℕ)
                  → mem a m ≡ true
                  → (m0 : List ℕ) × (mem from m0 ≡ true) × Step ws eps m0 m)
                (ok.injective _ _ ((==_iff _ _).0 same)) taken.only in
            let (m, inside) = some_member k from h.from_formed h.filled in
            let (m0, inside0, run) = Run-back from back n m inside in
            (m0, m, grows m0 (h.from_inside m0 inside0), run)
      ]

      after_round-IsReaching :
          (index reach2 == index after_round) ≡ false
          → IsReaching s st.to after_round st.t_obs (div || (index st.to == index from))
      after_round-IsReaching more = record {
        from_formed = taken.formed;
        formed = after_round-IsUnion.formed;
        filled = elim (is_false-cases st.to) [
          | inl (_, e) ↦ cc ((==_iff (index reach2) (index after_round)).1 (ap index (same e)))
          | inr (_, ne) ↦ ne
        ];
        from_inside = λ m inside. after_round-IsUnion.members m ∙ or_right _ _ inside;
        keeps = λ m inside. grows m (h.keeps m inside);
        reached = next_reached;
        observed = next_observed;
        diverges = next_diverges;
      }
        where
          right : (a : Bool) → (a || false) ≡ a
          right true = refl
          right false = refl

          same : st.to ≡ lddmc_false → reach2 ≡ after_round
          same e =
              canonical k reach2 after_round h.formed after_round-IsUnion.formed
                (λ m. sym (after_round-IsUnion.members m ∙ rw e (right (mem reach2 m))))

    -- What saturatePOR promises for the set `s`.
    pub record IsSaturated (r : Saturated) : Type 0 where
      pub formed : IsLdd k r.reach2
      pub keeps : Within s r.reach2
      pub reached : (m : List ℕ) → mem r.reach2 m ≡ true → Reached ws eps s m
      pub observed :
          (t : ℕ)
          → contains t r.fire_obs ≡ true
          → (observable_at ts t ≡ true) × CanFire ws r.reach2 t
      pub diverges : r.div ≡ true → (n : ℕ) → HasRun ws eps n r.reach2
      pub alive : r.dead ≡ false

    -- The state before the loop over the ample set.
    abbrev round_start : List ℕ → List Ldd → Saturation
    round_start t_obs stack = record { t_obs = t_obs; to = lddmc_false; my_stack = stack }

    round_start-IsTaken :
        (from : Ldd) (t_obs : List ℕ) (stack : List Ldd)
        → IsTakenFrom from t_obs (round_start t_obs stack)
    round_start-IsTaken from t_obs stack = record {
      formed = tt;
      only = λ m inside. cc;
      observed = λ t c. inl c;
    }

    module _ (rounds : ℕ) where
      is_nil-false :
          (from : Ldd) (ample m : List ℕ) {m' : List ℕ} → Step ws ample m m' → is_nil ample ≡ false
      is_nil-false from [] m (by i member f) = absurd member
      is_nil-false from (t ∷ ample) m step = refl

      small_from :
          (from reach2 : Ldd) (t_obs : List ℕ) (div : Bool)
          → IsReaching s from reach2 t_obs div
          → (m : List ℕ) → mem from m ≡ true
          → AreSmall (2 ^ 30) m
      small_from from reach2 t_obs div h m inside = small m (h.reached m (h.from_inside m inside))

      saturate_loop-IsSaturated :
          (fuel : ℕ) (from reach2 : Ldd) (t_obs : List ℕ) (stack : List Ldd) (div dead : Bool)
          (r : Saturated)
          → IsReaching s from reach2 t_obs div
          → dead ≡ false
          → saturate_loop index net ts rounds fuel from reach2 t_obs stack div dead ≡ some r
          → IsSaturated r
      unfolding saturate_loop
      saturate_loop-IsSaturated zero from reach2 t_obs stack div dead r h d e = cc
      saturate_loop-IsSaturated (suc fuel) from reach2 t_obs stack div dead r h d e =
          elim (Option-cases (compute_ample2 index net ts rounds from)) [
            | inl out ↦ cc (rw out at e)
            | inr (ample, found) ↦
                let c = covering ample found in
                let taken =
                  take_ample-IsTaken index ok k ws eps obs sized light ts one_each others from t_obs
                    h.from_formed ample (round_start t_obs stack) c.below
                    (round_start-IsTaken from t_obs stack) in
                let d' = dead_or ample c in
                elim (Bool-cases (index reach2 == index (after ample))) [
                  | inl same ↦ subst IsSaturated (some_eq (rw (found, ◌>>=◌, same) at e)) (record {
                    formed = (after_round-IsUnion from reach2 t_obs div _ h taken).formed;
                    keeps = λ m inside. grows from reach2 t_obs div _ h taken m (h.keeps m inside);
                    reached = next_reached from reach2 t_obs div _ h taken;
                    observed = next_observed from reach2 t_obs div _ h taken;
                    diverges = next_diverges from reach2 t_obs div _ h taken;
                    alive = d';
                  })
                  | inr more ↦
                      saturate_loop-IsSaturated fuel _ _ _ _ _ _ r
                        (after_round-IsReaching from reach2 t_obs div _ h taken more) d'
                        (rw (found, ◌>>=◌, more) at e)
                ]
          ]
        where
          after : List ℕ → Ldd
          after ample =
              lddmc_union_mono index reach2
                (take_ample index net ts from ample (round_start t_obs stack)).to

          covering :
              (ample : List ℕ)
              → compute_ample2 index net ts rounds from ≡ some ample
              → IsCovering index ok k ws eps obs sized light ts one_each from h.from_formed
                  (small_from from reach2 t_obs div h)
                  ample
          covering ample found =
              compute_ample2-IsCovering index ok k ws eps obs sized light ts one_each from
                h.from_formed (small_from from reach2 t_obs div h) rounds ample found

          dead_or :
              (ample : List ℕ)
              → IsCovering index ok k ws eps obs sized light ts one_each from h.from_formed
                  (small_from from reach2 t_obs div h)
                  ample
              → (dead || is_nil ample) ≡ false
          dead_or ample c =
              let (m, inside) = some_member k from h.from_formed h.filled in
              let (m', step) = c.enabled m inside in rw (d, is_nil-false from ample m step) refl

      -- For a well-formed set with a marking, from which unobservable transitions reach only
      -- markings without large values, and a net without large weights: when saturatePOR returns,
      -- its set is well-formed, has the given set, and has only markings that unobservable
      -- transitions reach from it; each transition of tObs is observable and enabled in a marking
      -- of the set; if div is true there are unobservable runs of every length from the set; and
      -- dead is false.
      pub saturate_por-IsSaturated :
          (fuel : ℕ) (r : Saturated)
          → IsNonempty s
          → saturate_por index net ts rounds fuel s ≡ some r
          → IsSaturated r
      unfolding saturate_por contains
      saturate_por-IsSaturated fuel r ne e =
          saturate_loop-IsSaturated fuel s s [] (s ∷ []) false false r
            (record {
              from_formed = hs;
              formed = hs;
              filled = ne;
              from_inside = λ m inside. inside;
              keeps = λ m inside. inside;
              reached = λ m inside. (m, 0, inside, here);
              observed = λ t c. nothing t c;
              diverges = λ e'. cc;
            })
            refl e
        where
          nothing : (t : ℕ) → contains t [] ≡ true → (observable_at ts t ≡ true) × CanFire ws s t
          nothing t c = cc
