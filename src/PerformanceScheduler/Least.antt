-- ===== src/PerformanceScheduler/Least.antt =====
-- A package with a predicted time goes to a broker with the least accumulated time.
use arl_hierarchical_multisc.Base.{
  ℕ, zero, suc, ◌+◌, ◌≡◌, refl, ap, sym, subst, ◌∙◌, true, false, some, List, [], ◌∷◌, get_elem?,
  arith, Bool-cases, inl, inr, ◌⊎◌,
}
use mathlib.Core.Option.{some-injective}
use arl_hierarchical_multisc.Base.Effect.{Result, ok, err, ok-injective}
use arl_hierarchical_multisc.PerformanceScheduler.{
  Doubles, Measures, PerformanceScheduler, least, min_element, add_at, place,
}

-- `<` on doubles that are numbers: a strict order of which any two that are not less are alike.
pub record IsOrdered {D : Type 0} (doubles : Doubles D) : Type 0 where
  pub irreflexive : (a : D) → doubles.less a a ≡ false
  pub asymmetric : (a b : D) → doubles.less a b ≡ true → doubles.less b a ≡ false
  pub not_less-trans :
      (a b c : D) → doubles.less a b ≡ false → doubles.less b c ≡ false → doubles.less a c ≡ false

module _ {D : Type 0} (doubles : Doubles D) (measures : Measures D) where
  open doubles use {less}

  -- Some times have one at a position, and none of them is less than it.
  pub record IsLeast (ts : List D) (at : ℕ) : Type 0 where
    pub time : D
    pub there : get_elem? ts at ≡ some time
    pub none_less : (i : ℕ) (t : D) → get_elem? ts i ≡ some t → less t time ≡ false

  -- What the loop finds, from position `i` on: the best so far, or one of the times that are left.
  record Found (at : ℕ) (best : D) (i : ℕ) (ts : List D) (r : ℕ) : Type 0 where
    time : D
    where_from : ((r ≡ at) × (time ≡ best)) ⊎ ((k : ℕ) × (r ≡ i + k) × (get_elem? ts k ≡ some time))
    not_best : less best time ≡ false
    none_less : (k : ℕ) (t : D) → get_elem? ts k ≡ some t → less t time ≡ false

  none_less-cons :
      (t : D) (ts : List D) (time : D)
      → less t time ≡ false
      → ((k : ℕ) (u : D) → get_elem? ts k ≡ some u → less u time ≡ false)
      → (k : ℕ) (u : D) → get_elem? (t ∷ ts) k ≡ some u
      → less u time ≡ false
  none_less-cons t ts time h hs zero u e = subst (λ v. less v time ≡ false) (some-injective _ _ e) h
  none_less-cons t ts time h hs (suc k) u e = hs k u e

  module _ (order : IsOrdered doubles) where
    better :
        (at : ℕ) (best : D) (i : ℕ) (t : D) (ts : List D) (r : ℕ)
        → less t best ≡ true
        → Found i t (suc i) ts r
        → Found at best i (t ∷ ts) r
    better at best i t ts r e f = record {
      time = f.time;
      where_from = elim f.where_from [
        | inl (same, is_t) ↦ inr (0, omega arith, ap some (sym is_t))
        | inr (k, place, there) ↦ inr (suc k, omega arith, there)
      ];
      not_best = order.not_less-trans best t f.time (order.asymmetric t best e) f.not_best;
      none_less = none_less-cons t ts f.time f.not_best f.none_less;
    }

    no_better :
        (at : ℕ) (best : D) (i : ℕ) (t : D) (ts : List D) (r : ℕ)
        → less t best ≡ false
        → Found at best (suc i) ts r
        → Found at best i (t ∷ ts) r
    no_better at best i t ts r e f = record {
      time = f.time;
      where_from = elim f.where_from [
        | inl same ↦ inl same
        | inr (k, place, there) ↦ inr (suc k, omega arith, there)
      ];
      not_best = f.not_best;
      none_less =
          none_less-cons t ts f.time (order.not_less-trans t best f.time e f.not_best) f.none_less;
    }

    -- The first time is the best to begin with.
    Found-IsLeast : (t : D) (ts : List D) (r : ℕ) → Found 0 t 1 ts r → IsLeast (t ∷ ts) r
    Found-IsLeast t ts r f = record {
      time = f.time;
      there = elim f.where_from [
        | inl (same, is_t) ↦ ap (get_elem? (t ∷ ts)) same ∙ ap some (sym is_t)
        | inr (k, place, there) ↦ ap (get_elem? (t ∷ ts)) (one_more r k place) ∙ there
      ];
      none_less = none_less-cons t ts f.time f.not_best f.none_less;
    }
      where
        one_more : (a b : ℕ) → a ≡ 1 + b → a ≡ suc b
        one_more a b e = omega arith

    Found-least :
        (at : ℕ) (best : D) (i : ℕ) (ts : List D)
        → Found at best i ts (least doubles measures at best i ts)
    unfolding least
    Found-least at best i [] = record {
      time = best;
      where_from = inl (refl, refl);
      not_best = order.irreflexive best;
      none_less = λ k t h. absurd (cc);
    }
    Found-least at best i (t ∷ ts) = elim (Bool-cases (less t best)) [
      | inl e ↦ rw e (better at best i t ts _ e (Found-least i t (suc i) ts))
      | inr e ↦ rw e (no_better at best i t ts _ e (Found-least at best (suc i) ts))
    ]

    min_element-IsLeast :
        (ts : List D) (at : ℕ) → min_element doubles measures ts ≡ ok at → IsLeast ts at
    unfolding min_element
    min_element-IsLeast [] at e = absurd (cc)
    min_element-IsLeast (t ∷ ts) at e =
        subst (IsLeast (t ∷ ts)) (ok-injective e) (Found-IsLeast t ts _ (Found-least 0 t 1 ts))

    -- What the broker that has been found comes to.
    chosen :
        (s s' : PerformanceScheduler D) (time : D) (id : ℕ) (r : Result ℕ)
        → min_element doubles measures s.accumulated_time ≡ r
        → (elim r as (λ _. Result (PerformanceScheduler D × ℕ)) [
          | ok i ↦
              ok (
                record s { accumulated_time = add_at doubles measures i time s.accumulated_time },
                i,
              )
          | err x ↦ err x
        ])
          ≡ ok (s', id)
        → IsLeast s.accumulated_time id
          × (s'.accumulated_time ≡ add_at doubles measures id time s.accumulated_time)
    chosen s s' time id (ok i) found e =
        let same = ap (λ p. p.1) (ok-injective e) in
        (
          subst (IsLeast s.accumulated_time) same (min_element-IsLeast s.accumulated_time i found),
          sym (ap (λ p. p.0.accumulated_time) (ok-injective e))
              ∙ ap (λ j. add_at doubles measures j time s.accumulated_time) same,
        )
    chosen s s' time id (err x) found e = absurd (cc)

    -- On doubles that are numbers: a package with a time other than zero predicted for it gets a broker of
    -- which no other broker has less accumulated time, and that broker's time grows by the predicted time.
    pub place-IsLeast :
        (s s' : PerformanceScheduler D) (time : D) (id : ℕ)
        → doubles.equal time doubles.zero_double ≡ false
        → place doubles measures s time ≡ ok (s', id)
        → IsLeast s.accumulated_time id
          × (s'.accumulated_time ≡ add_at doubles measures id time s.accumulated_time)
    unfolding place
    place-IsLeast s s' time id h e =
        chosen s s' time id (min_element doubles measures s.accumulated_time) refl
          (sym (rw h refl) ∙ e)
