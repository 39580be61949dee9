-- ===== src/Table/Lookup/Callers.antt =====
-- The steps of llmsset_lookup (src/SylvanWrapper.cpp), for the proofs. All threads start without a
-- region, and claim_data_bucket is part of a step: in the program only the thread that created the
-- table starts like that, so that the calls of this thread are the ones that these steps are for.
use mc_sog.Net.{answer}
use mc_sog.Prelude.{Option, none, true, update, ℕ, ◌^◌, ◌≡◌, ◌≤◌}
use mc_sog.Table.{Llmsset}
use mc_sog.Table.Lookup.{After, Caller, first_bucket, looking, lookup_step, outside, returned}

-- The table, with the region and the call of each thread.
pub record Callers : Type 0 where
  pub dbs : Llmsset
  pub regions : ℕ → Option ℕ
  pub callers : ℕ → Caller

abbrev pub Rests : Caller → Type 0
Rests outside = Unit {0}
Rests (returned a b answer) = Unit {0}
Rests _ = ⊥

abbrev pub moved : Callers → ℕ → After → Callers
moved s i (dbs, region, caller) = record {
  dbs = dbs;
  regions = update s.regions i region;
  callers = update s.callers i caller;
}

-- A step of thread `i`: it calls, or it goes on with its call.
pub data LookupStep (s : Callers) (i : ℕ) : Callers → Type 0 where
  call :
      (a b : ℕ)
      → Rests (s.callers i)
      → LookupStep s i
          (moved s i (s.dbs, s.regions i, looking (first_bucket s.dbs.table_size a b) 0))
  move : LookupStep s i (moved s i (lookup_step s.dbs (s.regions i) (s.callers i)))

-- The states that the threads reach.
pub data Lookups (s : Callers) : Callers → Type 0 where
  none_yet : Lookups s s
  one_step : {s' s'' : Callers} (i : ℕ) → Lookups s s' → LookupStep s' i s'' → Lookups s s''

-- The table as llmsset_create and llmsset_clear_data with llmsset_clear_hashes_seq leave it: no
-- bucket is in use, and the first slots are forbidden.
pub record IsCleared (dbs : Llmsset) : Type 0 where
  pub no_bucket : (idx : ℕ) → dbs.table idx ≡ 0
  pub reserved : dbs.bitmap2 0 ≡ true
  pub small : dbs.table_size ≤ 2 ^ 40

abbrev pub no_callers : Llmsset → Callers
no_callers dbs = record { dbs = dbs; regions = λ i. none; callers = λ i. outside }
