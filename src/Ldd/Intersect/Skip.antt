-- ===== src/Ldd/Intersect/Skip.antt =====
-- The loop of lddmc_intersect that looks for two nodes of equal value.
use mc_sog.Ldd.Intersect.{advance, advance_below, skip, skip_left, skip_right}
use mc_sog.Ldd.Tree.{
  Follows, IsLdd, IsNonempty, Ldd, lddmc_false, lddmc_true, mddnode_getvalue, mem, mem-below, node,
  size,
}
use mc_sog.Prelude.{
  ==_iff, Bool, Bool-cases, List, Option, [], ap, arith, false, inl, inr, lt_cases, ltb, ltb→lt,
  lt→ltb, none, refl, some, suc, true, zero, ℕ, ◌&&◌, ◌+◌, ◌<◌, ◌==◌, ◌||◌, ◌∙◌, ◌∷◌, ◌≡◌, ◌≢◌, ◌≤◌,
}

-- From `(a, b)` the loop may go on at `(a', b')`: the common markings are the same.
pub record IsSkip (k : ℕ) (a b a' b' : Ldd) : Type 0 where
  pub left_formed : IsLdd (suc k) a'
  pub right_formed : IsLdd (suc k) b'
  pub left_node : IsNonempty a'
  pub right_node : IsNonempty b'
  pub shrinks : size a' + size b' ≤ size a + size b
  pub follows : (v : ℕ) → Follows v a → Follows v a'
  pub members : (m : List ℕ) → (mem a m && mem b m) ≡ (mem a' m && mem b' m)

and-or_left : (e p r b : Bool) → (e ≡ true → b ≡ false) → (((e && p) || r) && b) ≡ (r && b)
and-or_left true true true b h = refl
and-or_left true true false b h = h refl
and-or_left true false r b h = refl
and-or_left false p r b h = refl

and_comm : (a b : Bool) → (a && b) ≡ (b && a)
and_comm true true = refl
and_comm true false = refl
and_comm false true = refl
and_comm false false = refl

-- A node that stands below the other chain may be dropped.
pub drop_members :
    (k va : ℕ) (da ra b : Ldd) (m : List ℕ)
    → IsLdd (suc k) ra
    → IsLdd (suc k) b
    → Follows va b
    → (mem (node va da ra) m && mem b m) ≡ (mem ra m && mem b m)
drop_members k va da lddmc_false b [] hr hb f = refl
drop_members k va da lddmc_true b [] hr hb f = absurd hr
drop_members k va da (node w e s) b [] hr hb f = refl
drop_members k va da ra b (x ∷ xs) hr hb f =
    and-or_left (x == va) (mem da xs) (mem ra (x ∷ xs)) (mem b (x ∷ xs))
      λ h. mem-below k va b x xs hb f (omega (arith, (==_iff x va).0 h))

-- One half of a round: `a` may be replaced by `a'`, and is where its value is the smaller one.
record IsAdvance (k : ℕ) (a b a' : Ldd) : Type 0 where
  formed : IsLdd (suc k) a'
  nonempty : IsNonempty a'
  shrinks : size a' ≤ size a
  progress : mddnode_getvalue a < mddnode_getvalue b → size a' < size a
  kept : mddnode_getvalue b ≤ mddnode_getvalue a → a' ≡ a
  follows : (v : ℕ) → Follows v a → Follows v a'
  members : (m : List ℕ) → (mem a m && mem b m) ≡ (mem a' m && mem b m)

abbrev Advances : ℕ → Ldd → Ldd → Option Ldd → Type 0
Advances k a b none = (m : List ℕ) → (mem a m && mem b m) ≡ false
Advances k a b (some a') = IsAdvance k a b a'

advance-Advances :
    (k va vb : ℕ) (da ra db rb : Ldd)
    → IsLdd (suc k) (node va da ra)
    → IsLdd (suc k) (node vb db rb)
    → va < vb
    → Advances k (node va da ra) (node vb db rb) (advance (node va da ra))
unfolding advance
advance-Advances k va vb da lddmc_false db rb ha hb lt =
    λ m. drop_members k va da lddmc_false (node vb db rb) m tt hb lt
advance-Advances k va vb da lddmc_true db rb ha hb lt = absurd ha.2
advance-Advances k va vb da (node w e s) db rb ha hb lt = record {
  formed = ha.2;
  nonempty = tt;
  shrinks = omega arith;
  progress = λ _. omega arith;
  kept = λ le. absurd (omega arith);
  follows = λ v f. omega arith;
  members = λ m. drop_members k va da (node w e s) (node vb db rb) m ha.2 hb lt;
}

advance_below-Advances :
    (k va vb : ℕ) (da ra db rb : Ldd)
    → IsLdd (suc k) (node va da ra)
    → IsLdd (suc k) (node vb db rb)
    → Advances k (node va da ra) (node vb db rb) (advance_below (node va da ra) (node vb db rb))
unfolding advance_below
advance_below-Advances k va vb da ra db rb ha hb = elim (Bool-cases (ltb va vb)) [
  | inl e ↦ rw e (advance-Advances k va vb da ra db rb ha hb (ltb→lt va vb e))
  | inr e ↦ rw e (record {
    formed = ha;
    nonempty = tt;
    shrinks = omega arith;
    progress = λ lt. cc (lt→ltb va vb lt);
    kept = λ _. refl;
    follows = λ v f. f;
    members = λ m. refl;
  })
]

abbrev pub Skips : ℕ → Ldd → Ldd → Option (Ldd × Ldd) → Type 0
Skips k a b none = (m : List ℕ) → (mem a m && mem b m) ≡ false
Skips k a b (some (a', b')) = IsSkip k a b a' b' × (mddnode_getvalue a' ≡ mddnode_getvalue b')

Skips-trans :
    (k : ℕ) (a b a' b' : Ldd) (r : Option (Ldd × Ldd))
    → IsSkip k a b a' b'
    → Skips k a' b' r
    → Skips k a b r
Skips-trans k a b a' b' none h e = λ m. h.members m ∙ e m
Skips-trans k a b a' b' (some (c, d)) h e = (
  record {
    left_formed = e.0.left_formed;
    right_formed = e.0.right_formed;
    left_node = e.0.left_node;
    right_node = e.0.right_node;
    shrinks = omega (arith, h.shrinks, e.0.shrinks);
    follows = λ v f. e.0.follows v (h.follows v f);
    members = λ m. h.members m ∙ e.0.members m;
  },
  e.1,
)

both-IsSkip :
    (k : ℕ) (a b a' b' : Ldd) → IsAdvance k a b a' → IsAdvance k b a' b' → IsSkip k a b a' b'
both-IsSkip k a b a' b' h g = record {
  left_formed = h.formed;
  right_formed = g.formed;
  left_node = h.nonempty;
  right_node = g.nonempty;
  shrinks = omega (arith, h.shrinks, g.shrinks);
  follows = h.follows;
  members = λ m.
      h.members m ∙ and_comm (mem a' m) (mem b m) ∙ g.members m ∙ and_comm (mem b' m) (mem a' m);
}

both_progress :
    (k : ℕ) (a b a' b' : Ldd)
    → IsAdvance k a b a'
    → IsAdvance k b a' b'
    → mddnode_getvalue a ≢ mddnode_getvalue b
    → size a' + size b' < size a + size b
both_progress k a b a' b' h g ne = elim (lt_cases (mddnode_getvalue a) (mddnode_getvalue b)) [
  | inl lt ↦ omega (arith, h.progress lt, g.shrinks)
  | inr (inl e) ↦ absurd (ne e)
  | inr (inr gt) ↦
      let same : mddnode_getvalue a' ≡ mddnode_getvalue a =
        ap mddnode_getvalue (h.kept (omega arith)) in
      omega (arith, h.shrinks, g.progress (omega (arith, same)))
]

skip_right-Skips :
    (k : ℕ) (a b a' : Ldd) (ob : Option Ldd) (next : Ldd → Ldd → Option (Ldd × Ldd))
    → IsAdvance k a b a'
    → Advances k b a' ob
    → ((b' : Ldd) → IsAdvance k b a' b' → Skips k a' b' (next a' b'))
    → Skips k a b (skip_right next a' ob)
unfolding skip_right
skip_right-Skips k a b a' none next h e go = λ m. h.members m ∙ and_comm (mem a' m) (mem b m) ∙ e m
skip_right-Skips k a b a' (some b') next h g go =
    Skips-trans k a b a' b' (next a' b') (both-IsSkip k a b a' b' h g) (go b' g)

advance_below-Advances_node :
    (k : ℕ) (a b : Ldd)
    → IsNonempty a
    → IsNonempty b
    → IsLdd (suc k) a
    → IsLdd (suc k) b
    → Advances k a b (advance_below a b)
advance_below-Advances_node k lddmc_false b na nb ha hb = absurd na
advance_below-Advances_node k lddmc_true b na nb ha hb = absurd ha
advance_below-Advances_node k (node v d r) lddmc_false na nb ha hb = absurd nb
advance_below-Advances_node k (node v d r) lddmc_true na nb ha hb = absurd hb
advance_below-Advances_node k (node v d r) (node w e s) na nb ha hb =
    advance_below-Advances k v w d r e s ha hb

skip_left-Skips :
    (k : ℕ) (a b : Ldd) (oa : Option Ldd) (next : Ldd → Ldd → Option (Ldd × Ldd))
    → IsNonempty b
    → IsLdd (suc k) b
    → Advances k a b oa
    → ((a' b' : Ldd) → IsAdvance k a b a' → IsAdvance k b a' b' → Skips k a' b' (next a' b'))
    → Skips k a b (skip_left next oa b)
unfolding skip_left
skip_left-Skips k a b none next nb hb e go = e
skip_left-Skips k a b (some a') next nb hb h go =
    skip_right-Skips k a b a' (advance_below b a') next h
      (advance_below-Advances_node k b a' nb h.nonempty hb h.formed) (λ b' g. go a' b' h g)

-- From two nodes the loop stops, at two nodes of equal value or where nothing is in common.
pub skip-Skips :
    (k fuel : ℕ) (a b : Ldd)
    → size a + size b < fuel
    → IsNonempty a
    → IsNonempty b
    → IsLdd (suc k) a
    → IsLdd (suc k) b
    → Skips k a b (skip fuel a b)
unfolding skip
skip-Skips k zero a b lt na nb ha hb = elim lt [ ]
skip-Skips k (suc n) a b lt na nb ha hb =
    elim (Bool-cases (mddnode_getvalue a == mddnode_getvalue b)) [
      | inl e ↦ rw e (
        record {
          left_formed = ha;
          right_formed = hb;
          left_node = na;
          right_node = nb;
          shrinks = omega arith;
          follows = λ v f. f;
          members = λ m. refl;
        },
        (==_iff (mddnode_getvalue a) (mddnode_getvalue b)).0 e,
      )
      | inr e ↦ rw e (
          skip_left-Skips k a b (advance_below a b) (skip n) nb hb
            (advance_below-Advances_node k a b na nb ha hb)
            (λ a' b' h g.
              skip-Skips k n a' b' (omega (arith, both_progress k a b a' b' h g (ne e))) h.nonempty
                g.nonempty h.formed g.formed))
    ]
  where
    ne :
        (mddnode_getvalue a == mddnode_getvalue b) ≡ false → mddnode_getvalue a ≢ mddnode_getvalue b
    ne e p = cc ((==_iff (mddnode_getvalue a) (mddnode_getvalue b)).1 p)
