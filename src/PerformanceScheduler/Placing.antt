-- ===== src/PerformanceScheduler/Placing.antt =====
-- Which broker a package gets, and that each package gets one.
use arl_hierarchical_multisc.Base.{
  sym, ℕ, zero, suc, ◌+◌, ◌<◌, ◌≡◌, refl, ap, subst, ◌∙◌, List, [], ◌∷◌, length, All, if◌then◌else◌,
  arith, Bool-cases, inl, inr, leb,
}
use arl_hierarchical_multisc.Base.Effect.{Result, ok}
use arl_hierarchical_multisc.ModelPackage.{ModelPackage}
use arl_hierarchical_multisc.LoadScheduler.Assignment.{IsBelow}
use arl_hierarchical_multisc.PerformanceScheduler.{
  Doubles, Measures, Bin, PerformanceScheduler, fit_at, least, min_element, add_at, place,
  schedule_one, schedule,
}
use arl_hierarchical_multisc.PerformanceScheduler.Bins.{IsReady, Converts, bin_of-range}

module _ {D : Type 0} (doubles : Doubles D) (measures : Measures D) where
  open doubles use {less}

  length-add_at :
      (i : ℕ) (time : D) (ts : List D) → length (add_at doubles measures i time ts) ≡ length ts
  length-add_at i time [] = refl
  length-add_at zero time (t ∷ ts) = refl
  length-add_at (suc i) time (t ∷ ts) = ap suc (length-add_at i time ts)

  least-range :
      (at : ℕ) (best : D) (i : ℕ) (ts : List D)
      → at < i
      → least doubles measures at best i ts < i + length ts
  unfolding least
  least-range at best i [] h = omega arith
  least-range at best i (t ∷ ts) h = elim (Bool-cases (less t best)) [
    | inl e ↦ rw e (omega (arith, least-range i t (suc i) ts (omega arith)))
    | inr e ↦ rw e (omega (arith, least-range at best (suc i) ts (omega arith)))
  ]

  min_element-ok :
      (ts : List D)
      → 0 < length ts
      → (at : ℕ) × (min_element doubles measures ts ≡ ok at) × (at < length ts)
  unfolding min_element
  min_element-ok [] h = absurd (omega arith)
  min_element-ok (t ∷ ts) h =
      (least doubles measures 0 t 1 ts, refl, omega (arith, least-range 0 t 1 ts (omega arith)))

  fit_at-ok :
      (bs : List (Bin D)) (i : ℕ)
      → i < length bs
      → (time : D) × (fit_at doubles measures bs i ≡ ok time)
  unfolding fit_at
  fit_at-ok [] i h = absurd (omega arith)
  fit_at-ok (b ∷ bs) zero h = (b.time_fit, refl)
  fit_at-ok (b ∷ bs) (suc i) h = fit_at-ok bs i (omega arith)

  -- What placing one package comes to.
  abbrev Placed : PerformanceScheduler D → Result (PerformanceScheduler D × ℕ) → Type 0
  Placed s r =
      (s' : PerformanceScheduler D) × (id : ℕ) × (r ≡ ok (s', id))
      × (id < s.number_brokers)
      × IsReady doubles measures s'
      × (s'.number_brokers ≡ s.number_brokers)
      × (s'.min_argument ≡ s.min_argument)
      × (s'.bin_delta ≡ s.bin_delta)

  place-Placed :
      (s : PerformanceScheduler D) (time : D)
      → IsReady doubles measures s
      → Placed s (place doubles measures s time)
  unfolding place
  place-Placed s time h = elim (Bool-cases (doubles.equal time doubles.zero_double)) [
    | inl e ↦ rw e (
      _,
      s.round_robin_index,
      refl,
      h.in_turn,
      record {
        has_bins = h.has_bins;
        filled = h.filled;
        timed = h.timed;
        in_turn = next_below s.round_robin_index s.number_brokers h.in_turn;
      },
      refl,
      refl,
      refl,
    )
    | inr e ↦
        let (at, found, range) =
          min_element-ok s.accumulated_time (omega (arith, h.timed, h.in_turn)) in
        rw (e, found)
          (
            _,
            at,
            refl,
            omega (arith, h.timed),
            record {
              has_bins = h.has_bins;
              filled = h.filled;
              timed = length-add_at at time s.accumulated_time ∙ h.timed;
              in_turn = h.in_turn;
            },
            refl,
            refl,
            refl,
          )
  ]
    where
      next_below : (a n : ℕ) → a < n → (if leb n (a + 1) then 0 else a + 1) < n
      next_below a n h = ground arith

  schedule_one-Placed :
      (s : PerformanceScheduler D) (p : ModelPackage)
      → IsReady doubles measures s
      → Converts doubles measures s.min_argument s.bin_delta p
      → Placed s (schedule_one doubles measures s p)
  unfolding schedule_one
  schedule_one-Placed s p h c =
      let (bin, converted, range) = bin_of-range doubles measures s p h c in
      let (time, found) = fit_at-ok s.bins bin range in
      rw (schedule_one, converted, found) (place-Placed s time h)

  -- Where a scheduler is ready, and the places of the packages' norms among the bins are numbers that an
  -- `int` holds, `schedule` returns: each package has got exactly one id, every id is that of
  -- one of the brokers, and the scheduler is ready again.
  pub schedule_places :
      (s : PerformanceScheduler D) (ps : List ModelPackage)
      → IsReady doubles measures s
      → All (Converts doubles measures s.min_argument s.bin_delta) ps
      → (s' : PerformanceScheduler D) × (ids : List ℕ) × (schedule doubles measures s ps
          ≡ ok (s', ids))
        × (length ids ≡ length ps)
        × All (IsBelow s.number_brokers) ids
        × IsReady doubles measures s'
  unfolding schedule
  schedule_places s [] h c = (s, [], refl, refl, tt, h)
  schedule_places s (p ∷ ps) h (c, cs) =
      let (s1, id, one, range, ready, same, min, delta) = schedule_one-Placed s p h c in
      let (s', ids, rest, size, ranges, ready') = schedule_places s1 ps ready (
        subst (λ d. All (Converts doubles measures s1.min_argument d) ps) (sym delta)
          (subst (λ m. All (Converts doubles measures m s.bin_delta) ps) (sym min) cs)) in
      (
        s',
        id ∷ ids,
        rw (schedule, one, rest) refl,
        ap suc size,
        (range, subst (λ n. All (IsBelow n) ids) same ranges),
        ready',
      )
