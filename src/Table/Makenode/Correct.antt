-- ===== src/Table/Makenode/Correct.antt =====
-- lddmc_makenode (src/SylvanWrapper.cpp) and the getters of the node it returns.
use mc_sog.Net.{answer}
use mc_sog.Prelude.{
  >>=-eq-some, Bool, Option, ap, arith, false, none, some, some_eq, subst, sym, ℕ, ◌<◌, ◌==◌, ◌^◌,
  ◌∙◌, ◌≡◌, ◌≢◌,
}
use mc_sog.Table.{Llmsset}
use mc_sog.Table.Lookup.{llmsset_lookup}
use mc_sog.Table.Lookup.Callers.{IsCleared, none_yet}
use mc_sog.Table.Lookup.Sequential.{Calls, Calls-IsAt, call-IsAfter, cleared-IsAt, then_call}
use mc_sog.Table.Lookup.Unique.{steps_canonical}
use mc_sog.Table.Makenode.{Made, answered_index, makenode_in, second_try}
use mc_sog.Table.Words.{IsNode, mddnode_make, mddnode_make-IsNode}

module _ (dbs : Llmsset) (clear : IsCleared dbs) where
  -- The slot that a call answers holds its key.
  answered-words :
      {s : Llmsset} {region : Option ℕ} (a b d : ℕ) (created : Bool) (s' : Llmsset)
      (region' : Option ℕ)
      → Calls dbs none s region
      → llmsset_lookup s region a b ≡ some (s', region', some (d, created))
      → s'.data_words d ≡ (a, b)
  answered-words a b d created s' region' calls e =
      let (st, at) = Calls-IsAt (cleared-IsAt dbs) calls in
      let (st', h) = call-IsAfter a b (some (d, created)) at e in
      let c =
        steps_canonical dbs st' st' 0 0 a b d a b d created created clear h.steps none_yet h.caller
          h.caller in
      subst (λ (x : Llmsset). x.data_words d ≡ (a, b)) h.dbs c.1

  second_try-words :
      {s : Llmsset} {region : Option ℕ} (a b index : ℕ) (s' : Llmsset) (region' : Option ℕ)
      (tried : Llmsset × Option ℕ × Option (ℕ × Bool))
      → Calls dbs none s region
      → llmsset_lookup s region a b ≡ some tried
      → second_try a b tried ≡ some (s', region', some index)
      → s'.data_words index ≡ (a, b)
  unfolding second_try
  second_try-words a b index s' region' (t, q, some (d, created)) calls e e' =
      let same = some_eq e' in
      let at : d ≡ index = some_eq (ap (λ x. x.2) same) in
      answered-words a b index created s' region' calls
        (e ∙ (λ j. some ((same j).0, (same j).1, some (at j, created))))
  second_try-words a b index s' region' (t, q, none) calls e e' =
      let ((s2, region2, answer), e2, same) = >>=-eq-some (llmsset_lookup t q a b) _ e' in
      by_answer answer s2 region2 e2 (some_eq same)
    where
      by_answer :
          (answer : Option (ℕ × Bool)) (s2 : Llmsset) (region2 : Option ℕ)
          → llmsset_lookup t q a b ≡ some (s2, region2, answer)
          → ◌≡◌ {A = Made} (s2, region2, answered_index answer) (s', region', some index)
          → s'.data_words index ≡ (a, b)
      by_answer none s2 region2 e2 same = absurd (cc same)
      by_answer (some (d, created)) s2 region2 e2 same =
          let at : d ≡ index = some_eq (ap (λ x. x.2) same) in
          answered-words a b index created s' region' (then_call a b none calls e)
            (e2 ∙ (λ j. some ((same j).0, (same j).1, some (at j, created))))

  -- From an empty table, the thread that created it makes calls of llmsset_lookup and then of
  -- lddmc_makenode, and no other thread uses the table. When lddmc_makenode with a down branch that
  -- is not empty, a value below 2^32 and branches below 2^47 returns a slot, what the getters read
  -- there is the value and the two branches that it was given.
  pub makenode_in-IsNode :
      (s s' : Llmsset) (region region' : Option ℕ) (value ifeq ifneq index : ℕ)
      → Calls dbs none s region
      → value < 2 ^ 32
      → ifeq < 2 ^ 47
      → ifneq < 2 ^ 47
      → ifeq ≢ 0
      → makenode_in s region value ifeq ifneq ≡ some (s', region', some index)
      → IsNode (s'.data_words index) value ifneq ifeq 0 0
  unfolding makenode_in
  makenode_in-IsNode s s' region region' value ifeq ifneq index calls hv he hn ne e =
      let words = mddnode_make value ifneq ifeq in
      let (tried, e1, e2) =
        >>=-eq-some (llmsset_lookup s region words.0 words.1) _ (rw (not_zero ne) at e) in
      let h = second_try-words words.0 words.1 index s' region' tried calls e1 e2 in
      subst (λ n. IsNode n value ifneq ifeq 0 0) (sym h)
        (mddnode_make-IsNode value ifneq ifeq hv hn he)
    where
      not_zero : ifeq ≢ 0 → (ifeq == 0) ≡ false
      not_zero ne = ground arith
