-- ===== src/PerformanceScheduler/Bins.antt =====
-- The bins keep as many points as they may, and predict the mean of their times.
use arl_hierarchical_multisc.Base.{
  sym, subst, some, ℕ, zero, suc, ◌+◌, ◌<◌, ◌≤◌, ◌≡◌, refl, ap, true, List, [], ◌∷◌, ◌++◌, length,
  All, ltb, arith, Bool-cases, inl, inr, length-append,
}
use arl_hierarchical_multisc.Base.Int.{ℤ, pos}
use arl_hierarchical_multisc.ModelPackage.{ModelPackage}
use arl_hierarchical_multisc.PerformanceScheduler.{
  ok, Doubles, Measures, Bin, PerformanceScheduler, copies, quotient, norm, clamp, new, compute_bin,
  bin_of, mean, record_point, change_at, update_one, update,
}

module _ {D : Type 0} (doubles : Doubles D) (measures : Measures D) where
  -- No time is predicted where none has been measured.
  abbrev pub predicted : List D → D
  predicted [] = doubles.zero_double
  predicted (t ∷ ts) = mean doubles measures (t ∷ ts)

  pub record IsFilled (max_points : ℕ) (b : Bin D) : Type 0 where
    pub paired : length b.arguments ≡ length b.times
    pub bounded : length b.times ≤ max_points
    pub fitted : b.time_fit ≡ predicted b.times

  -- There are bins and brokers; each bin is filled, each broker has its time, and the turn is a broker's.
  pub record IsReady (s : PerformanceScheduler D) : Type 0 where
    pub has_bins : 0 < length s.bins
    pub filled : All (IsFilled s.max_points_per_bin) s.bins
    pub timed : length s.accumulated_time ≡ s.number_brokers
    pub in_turn : s.round_robin_index < s.number_brokers

  predicted-append :
      (ts : List D) (t : D) → mean doubles measures (ts ++ t ∷ []) ≡ predicted (ts ++ t ∷ [])
  predicted-append [] t = refl
  predicted-append (u ∷ ts) t = refl

  record_point-IsFilled :
      (max_points : ℕ) (norm time : D) (b : Bin D)
      → IsFilled max_points b
      → IsFilled max_points (record_point doubles measures max_points norm time b)
  unfolding record_point
  record_point-IsFilled n norm time b h = elim (Bool-cases (ltb (length b.arguments) n)) [
    | inl e ↦ rw e (record {
      paired = omega (
        arith,
        length-append b.arguments (norm ∷ []),
        length-append b.times (time ∷ []),
        h.paired,
      );
      bounded =
          omega
            (arith, length-append b.times (time ∷ []), h.paired, below (length b.arguments) n e);
      fitted = predicted-append b.times time;
    })
    | inr e ↦ rw e h
  ]
    where
      below : (x y : ℕ) → ltb x y ≡ true → x < y
      below x y e = ground arith

  change_at-IsFilled :
      (max_points : ℕ) (norm time : D) (i : ℕ) (bs : List (Bin D))
      → All (IsFilled max_points) bs
      → All
          (IsFilled max_points)
          (change_at doubles measures (record_point doubles measures max_points norm time) i bs)
  change_at-IsFilled n norm time i [] h = tt
  change_at-IsFilled n norm time zero (b ∷ bs) (h, hs) = (record_point-IsFilled n norm time b h, hs)
  change_at-IsFilled n norm time (suc i) (b ∷ bs) (h, hs) =
      (h, change_at-IsFilled n norm time i bs hs)

  length-change_at :
      (f : Bin D → Bin D) (i : ℕ) (bs : List (Bin D))
      → length (change_at doubles measures f i bs) ≡ length bs
  length-change_at f i [] = refl
  length-change_at f zero (b ∷ bs) = refl
  length-change_at f (suc i) (b ∷ bs) = ap suc (length-change_at f i bs)

  -- The place of a package's norm among the bins is a number that an `int` holds.
  abbrev pub Converts : (min_argument bin_delta : D) → ModelPackage → Type 0
  Converts min delta p =
      (b : ℤ) × (doubles.to_int
          (quotient doubles measures (norm doubles measures (measures.argument_value p)) min delta)
        ≡ some b)

  clamp-range : (b : ℤ) (n : ℕ) → 0 < n → clamp b n < n
  clamp-range (pos b) n h = ground arith
  clamp-range (ℤ.negsuc b) n h = ground arith

  -- The bin of a package is one of the bins.
  pub bin_of-range :
      (s : PerformanceScheduler D) (p : ModelPackage)
      → IsReady s
      → Converts s.min_argument s.bin_delta p
      → (bin : ℕ) × (bin_of doubles measures s p ≡ ok bin) × (bin < length s.bins)
  unfolding bin_of compute_bin
  bin_of-range s p h (b, converted) = (
    clamp b (length s.bins),
    rw (bin_of, compute_bin, converted) refl,
    clamp-range b (length s.bins) h.has_bins,
  )

  update_one-IsReady :
      (s : PerformanceScheduler D) (p : ModelPackage)
      → IsReady s
      → Converts s.min_argument s.bin_delta p
      → (s' : PerformanceScheduler D) × (update_one doubles measures s p ≡ ok s')
        × IsReady s'
        × (s'.min_argument ≡ s.min_argument)
        × (s'.bin_delta ≡ s.bin_delta)
  unfolding update_one
  update_one-IsReady s p h c =
      let (bin, found, range) = bin_of-range s p h c in
      let s' : PerformanceScheduler D = record s {
        bins =
            change_at doubles measures
              (record_point doubles measures s.max_points_per_bin
                (norm doubles measures (measures.argument_value p)) (measures.wall_clock_time p))
              bin s.bins;
      } in
      (
        s',
        rw (update_one, found) refl,
        record {
          has_bins = omega (arith, length-change_at _ bin s.bins, h.has_bins);
          filled = change_at-IsFilled s.max_points_per_bin _ _ bin s.bins h.filled;
          timed = h.timed;
          in_turn = h.in_turn;
        },
        refl,
        refl,
      )

  -- Where a scheduler is ready, and the places of the packages' norms among the bins are numbers that an
  -- `int` holds, `update` returns, and the scheduler is ready afterwards: whatever packages come back, no
  -- bin takes more points than it may, each has a time for each argument, and predicts the mean of its
  -- times.
  pub update-IsReady :
      (s : PerformanceScheduler D) (ps : List ModelPackage)
      → IsReady s
      → All (Converts s.min_argument s.bin_delta) ps
      → (s' : PerformanceScheduler D) × (update doubles measures s ps ≡ ok s') × IsReady s'
  unfolding update
  update-IsReady s [] h c = (s, refl, h)
  update-IsReady s (p ∷ ps) h (c, cs) =
      let (s1, one, ready, min, delta) = update_one-IsReady s p h c in
      let (s', rest, ready') = update-IsReady s1 ps ready (
        subst (λ d. All (Converts s1.min_argument d) ps) (sym delta)
          (subst (λ m. All (Converts m s.bin_delta) ps) (sym min) cs)) in
      (s', rw (update, one) rest, ready')

  copies-IsFilled :
      (max_points n : ℕ)
      → All
          (IsFilled max_points)
          (copies n (record { arguments = []; times = []; time_fit = doubles.zero_double }))
  copies-IsFilled m zero = tt
  copies-IsFilled m (suc n) =
      (record { paired = refl; bounded = omega arith; fitted = refl }, copies-IsFilled m n)

  length-copies : {A : Type 0} (n : ℕ) (x : A) → length (copies n x) ≡ n
  length-copies zero x = refl
  length-copies (suc n) x = ap suc (length-copies n x)

  pub new-IsReady :
      (brokers bins max_points : ℕ) (min max : D)
      → 0 < brokers
      → IsReady (new doubles measures brokers bins max_points min max)
  unfolding new
  new-IsReady brokers bins max_points min max h = record {
    has_bins = omega (arith, length-copies (bins + 2) _);
    filled = copies-IsFilled max_points (bins + 2);
    timed = length-copies brokers _;
    in_turn = h;
  }
