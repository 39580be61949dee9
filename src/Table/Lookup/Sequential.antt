-- ===== src/Table/Lookup/Sequential.antt =====
-- The calls of llmsset_lookup (src/SylvanWrapper.cpp) by the thread that created the table, one after
-- the other, while no other thread uses the table.
use mc_sog.Net.{answer}
use mc_sog.Prelude.{Bool, Option, none, refl, some, subst, ℕ, ◌↔◌, ◌≡◌}
use mc_sog.Table.{Llmsset}
use mc_sog.Table.Lookup.{llmsset_lookup}
use mc_sog.Table.Lookup.Callers.{Callers, IsCleared, Lookups, Rests, no_callers, none_yet}
use mc_sog.Table.Lookup.Refines.{IsAfter, Lookups-trans, llmsset_lookup_refines}
use mc_sog.Table.Lookup.Unique.{steps_canonical}

-- From a table and a value of `my_region`, calls that return lead to a table and a region.
pub data Calls (dbs : Llmsset) (my_region : Option ℕ) : Llmsset → Option ℕ → Type 0 where
  no_call : Calls dbs my_region dbs my_region
  then_call :
      {s s' : Llmsset} {region region' : Option ℕ} (a b : ℕ) (answer : Option (ℕ × Bool))
      → Calls dbs my_region s region
      → llmsset_lookup s region a b ≡ some (s', region', answer)
      → Calls dbs my_region s' region'

-- The steps from one state to another, in which the thread rests with the given table and region.
pub record IsAt (st0 : Callers) (s : Llmsset) (region : Option ℕ) (st : Callers) : Type 0 where
  pub steps : Lookups st0 st
  pub dbs : st.dbs ≡ s
  pub in_region : st.regions 0 ≡ region
  pub rests : Rests (st.callers 0)

pub cleared-IsAt : (dbs : Llmsset) → IsAt (no_callers dbs) dbs none (no_callers dbs)
cleared-IsAt dbs = record { steps = none_yet; dbs = refl; in_region = refl; rests = tt }

-- A call leads from a state at which the thread rests to one behind the call.
pub call-IsAfter :
    {st0 st : Callers} {s s' : Llmsset} {region region' : Option ℕ} (a b : ℕ)
    (answer : Option (ℕ × Bool))
    → IsAt st0 s region st
    → llmsset_lookup s region a b ≡ some (s', region', answer)
    → (st' : Callers) × IsAfter st0 0 a b s' region' answer st'
call-IsAfter {s' = s'} {region' = region'} a b answer at e =
    let (st', h) =
      llmsset_lookup_refines 0 a b s' region' answer _ at.rests (rw (at.dbs, at.in_region) e) in
    (
      st',
      record {
        steps = Lookups-trans at.steps h.steps;
        dbs = h.dbs;
        in_region = h.in_region;
        caller = h.caller;
      },
    )

pub IsAfter-IsAt :
    {st0 st : Callers} {s : Llmsset} {region : Option ℕ} {a b : ℕ} {answer : Option (ℕ × Bool)}
    → IsAfter st0 0 a b s region answer st
    → IsAt st0 s region st
IsAfter-IsAt h = record {
  steps = h.steps;
  dbs = h.dbs;
  in_region = h.in_region;
  rests = rw h.caller tt;
}

pub Calls-IsAt :
    {st0 st : Callers} {dbs : Llmsset} {my_region : Option ℕ} {s : Llmsset} {region : Option ℕ}
    → IsAt st0 dbs my_region st
    → Calls dbs my_region s region
    → (st' : Callers) × IsAt st s region st'
Calls-IsAt {st = st} at no_call =
    (st, record { steps = none_yet; dbs = at.dbs; in_region = at.in_region; rests = at.rests })
Calls-IsAt at (then_call a b answer calls e) =
    let (st1, before) = Calls-IsAt at calls in
    let (st2, after) = call-IsAfter a b answer before e in (st2, IsAfter-IsAt after)

-- From an empty table, the thread that created it makes calls of llmsset_lookup, and no other thread
-- uses the table. When one call answers the slot `d` for the key `a`, `b` and a later one the slot
-- `d'` for `a'`, `b'`, the slots are equal exactly when the keys are, and after both the slot `d`
-- holds the key `a`, `b`.
pub llmsset_lookup_canonical :
    (dbs s s' t t' : Llmsset) (r r' q q' : Option ℕ) (a b d a' b' d' : ℕ) (created created' : Bool)
    → IsCleared dbs
    → Calls dbs none s r
    → llmsset_lookup s r a b ≡ some (s', r', some (d, created))
    → Calls s' r' t q
    → llmsset_lookup t q a' b' ≡ some (t', q', some (d', created'))
    → ((d ≡ d') ↔ (◌≡◌ {A = ℕ × ℕ} (a, b) (a', b'))) × (t'.data_words d ≡ (a, b))
llmsset_lookup_canonical dbs s s' t t' r r' q q' a b d a' b' d' created created' k c e c' e' =
    let (st1, at) = Calls-IsAt (cleared-IsAt dbs) c in
    let (st2, before) = call-IsAfter a b (some (d, created)) at e in
    let (st3, at') = Calls-IsAt (IsAfter-IsAt before) c' in
    let (st4, last) = call-IsAfter a' b' (some (d', created')) at' e' in
    let (same, holds) =
      steps_canonical dbs st2 st4 0 0 a b d a' b' d' created created' k before.steps last.steps
        before.caller last.caller in
    (same, subst (λ (x : Llmsset). x.data_words d ≡ (a, b)) last.dbs holds)
