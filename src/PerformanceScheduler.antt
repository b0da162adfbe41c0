-- ===== src/PerformanceScheduler.antt =====
-- adaptive_sampling/AdaptiveSamplingPerformanceScheduler.cc: a package goes to the broker with the least
-- predicted work, by the times that packages with a like argument have taken. The number of bins and of
-- brokers is positive, and the number of points in a bin is not negative.
pub mod Bins
pub mod Placing
pub mod Least
use arl_hierarchical_multisc.Base.{
  ℕ, zero, suc, ◌+◌, ◌-◌, Bool, true, false, Option, none, some, List, [], ◌∷◌, ◌++◌, length, ltb,
  leb, ◌==◌, if◌then◌else◌,
}
use arl_hierarchical_multisc.Base.Int.{ℤ, pos, pos_part, ltb_ℤ}
use arl_hierarchical_multisc.Base.Effect.{Result, ok, err, undefined}
use arl_hierarchical_multisc.ModelPackage.{ModelPackage}

-- `double`, as far as it is used: `to_int` is the conversion to an `int`, where it is defined: it is not
-- for a NaN, or out of the range of an `int`.
pub record Doubles (D : Type 0) : Type 0 where
  pub zero_double : D
  pub one : D
  pub of_number : ℕ → D
  pub add : D → D → D
  pub subtract : D → D → D
  pub multiply : D → D → D
  pub divide : D → D → D
  pub sqrt : D → D
  pub less : D → D → Bool
  pub equal : D → D → Bool
  pub to_int : D → Option ℤ

-- A bin: the norms of its arguments, the times, and the time that is predicted.
pub record Bin (D : Type 0) : Type 0 where
  pub arguments : List D
  pub times : List D
  pub time_fit : D

pub record PerformanceScheduler (D : Type 0) : Type 0 where
  pub accumulated_time : List D
  pub bins : List (Bin D)
  pub bin_delta : D
  pub max_argument : D
  pub max_points_per_bin : ℕ
  pub min_argument : D
  pub number_brokers : ℕ
  pub round_robin_index : ℕ

-- What the input filter makes of a package's argument, and the package's wall clock time.
pub record Measures (D : Type 0) : Type 0 where
  pub argument_value : ModelPackage → List D
  pub wall_clock_time : ModelPackage → D

abbrev pub copies : {A : Type 0} → ℕ → A → List A
copies zero x = []
copies (suc n) x = x ∷ copies n x

-- `int bin` is held between 0 and the last bin.
abbrev pub clamp : ℤ → (max_bin : ℕ) → ℕ
clamp bin max_bin =
    if ltb_ℤ bin (pos 0)
    then 0
    else if leb max_bin (pos_part bin)
    then max_bin - 1
    else pos_part bin

module _ {D : Type 0} (doubles : Doubles D) (measures : Measures D) where
  open doubles use {
    zero_double, one, of_number, add, subtract, multiply, divide, sqrt, less, equal, to_int,
  }

  abbrev empty_bin : Bin D
  empty_bin = record { arguments = []; times = []; time_fit = zero_double }

  unfoldable pub new :
      (number_brokers number_bins max_points_per_bin : ℕ) (min_argument max_argument : D)
      → PerformanceScheduler D
  new number_brokers number_bins max_points_per_bin min_argument max_argument = record {
    accumulated_time = copies number_brokers zero_double;
    bins = copies (number_bins + 2) empty_bin;
    bin_delta = divide (subtract max_argument min_argument) (of_number number_bins);
    max_argument = max_argument;
    max_points_per_bin = max_points_per_bin;
    min_argument = min_argument;
    number_brokers = number_brokers;
    round_robin_index = 0;
  }

  sum_squares : D → List D → D
  sum_squares sum [] = sum
  sum_squares sum (x ∷ xs) = sum_squares (add sum (multiply x x)) xs

  unfoldable pub norm : List D → D
  unfolding sum_squares
  norm argument = sqrt (sum_squares zero_double argument)

  -- The place of a norm among the bins, before it is converted.
  abbrev pub quotient : (norm min_argument bin_delta : D) → D
  quotient norm min_argument bin_delta = add (divide (subtract norm min_argument) bin_delta) one

  unfoldable pub compute_bin : (norm min_argument bin_delta : D) → (max_bin : ℕ) → Result ℕ
  compute_bin norm min_argument bin_delta max_bin =
      elim (to_int (quotient norm min_argument bin_delta)) [
        | none ↦ err undefined
        | some bin ↦ ok (clamp bin max_bin)
      ]

  unfoldable pub bin_of : PerformanceScheduler D → ModelPackage → Result ℕ
  unfolding norm compute_bin
  bin_of s p =
      compute_bin (norm (measures.argument_value p)) s.min_argument s.bin_delta (length s.bins)

  -- `d_timeFit[bin]`, undefined past the end.
  unfoldable pub fit_at : List (Bin D) → ℕ → Result D
  fit_at [] i = err undefined
  fit_at (b ∷ bs) zero = ok b.time_fit
  fit_at (b ∷ bs) (suc i) = fit_at bs i

  -- `std::min_element` from position `i` on, with the least time so far and its position.
  least : (best_position : ℕ) (best : D) (i : ℕ) → List D → ℕ
  least at best i [] = at
  least at best i (t ∷ ts) =
      let better = least i t (suc i) ts in
      let same = least at best (suc i) ts in if less t best then better else same

  unfoldable pub min_element : List D → Result ℕ
  unfolding least
  min_element [] = err undefined
  min_element (t ∷ ts) = ok (least 0 t 1 ts)

  abbrev pub add_at : ℕ → D → List D → List D
  add_at i time [] = []
  add_at zero time (t ∷ ts) = add t time ∷ ts
  add_at (suc i) time (t ∷ ts) = t ∷ add_at i time ts

  abbrev next_turn : PerformanceScheduler D → PerformanceScheduler D
  next_turn s =
      let next = s.round_robin_index + 1 in
      record s { round_robin_index = if leb s.number_brokers next then 0 else next }

  -- The broker of a package, by its predicted time.
  unfoldable pub place : PerformanceScheduler D → D → Result (PerformanceScheduler D × ℕ)
  unfolding min_element
  place s predicted_time =
      if equal predicted_time zero_double
      then ok (next_turn s, s.round_robin_index)
      else elim (min_element s.accumulated_time) [
        | ok i ↦ ok (record s { accumulated_time = add_at i predicted_time s.accumulated_time }, i)
        | err e ↦ err e
      ]

  unfoldable pub schedule_one :
      PerformanceScheduler D → ModelPackage → Result (PerformanceScheduler D × ℕ)
  unfolding place bin_of fit_at
  schedule_one s p = elim (bin_of s p) [
    | ok bin ↦ elim (fit_at s.bins bin) [ ok time ↦ place s time | err e ↦ err e ]
    | err e ↦ err e
  ]

  unfoldable pub schedule :
      PerformanceScheduler D → List ModelPackage → Result (PerformanceScheduler D × List ℕ)
  unfolding schedule_one
  schedule s [] = ok (s, [])
  schedule s (p ∷ ps) = elim (schedule_one s p) [
    | ok (s', id) ↦ elim (schedule s' ps) [ ok (s'', ids) ↦ ok (s'', id ∷ ids) | err e ↦ err e ]
    | err e ↦ err e
  ]

  sum : D → List D → D
  sum total [] = total
  sum total (t ∷ ts) = sum (add total t) ts

  -- `std::accumulate(...) / size()`.
  unfoldable pub mean : List D → D
  unfolding sum
  mean times = divide (sum zero_double times) (of_number (length times))

  -- A point comes into a bin that is not full.
  unfoldable pub record_point : (max_points : ℕ) (norm time : D) → Bin D → Bin D
  unfolding mean
  record_point max_points norm time b =
      if ltb (length b.arguments) max_points
      then record {
        arguments = b.arguments ++ norm ∷ [];
        times = b.times ++ time ∷ [];
        time_fit = mean (b.times ++ time ∷ []);
      }
      else b

  abbrev pub change_at : (Bin D → Bin D) → ℕ → List (Bin D) → List (Bin D)
  change_at f i [] = []
  change_at f zero (b ∷ bs) = f b ∷ bs
  change_at f (suc i) (b ∷ bs) = b ∷ change_at f i bs

  unfoldable pub update_one :
      PerformanceScheduler D → ModelPackage → Result (PerformanceScheduler D)
  unfolding norm bin_of record_point
  update_one s p = elim (bin_of s p) [
    | ok bin ↦ ok (record s {
      bins =
          change_at
            (record_point s.max_points_per_bin (norm (measures.argument_value p))
              (measures.wall_clock_time p))
            bin s.bins;
    })
    | err e ↦ err e
  ]

  unfoldable pub update :
      PerformanceScheduler D → List ModelPackage → Result (PerformanceScheduler D)
  unfolding update_one
  update s [] = ok s
  update s (p ∷ ps) = elim (update_one s p) [ ok s' ↦ update s' ps | err e ↦ err e ]
