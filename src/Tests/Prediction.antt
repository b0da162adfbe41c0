-- ===== src/Tests/Prediction.antt =====
-- A scheduler for two brokers and three bins of up to two points, on doubles that are natural numbers.
use arl_hierarchical_multisc.Base.{
  some, ℕ, ◌+◌, ◌-◌, ◌*◌, ◌/◌, ◌≡◌, refl, List, [], ◌∷◌, length, All, ltb, ◌==◌, arith,
}
use arl_hierarchical_multisc.Base.Int.{pos}
use arl_hierarchical_multisc.Base.Effect.{ok}
use arl_hierarchical_multisc.LoadScheduler.Assignment.{IsBelow}
use arl_hierarchical_multisc.PerformanceScheduler
use arl_hierarchical_multisc.PerformanceScheduler.{
  Doubles, Measures, PerformanceScheduler, schedule, update, place, min_element, add_at,
}
use arl_hierarchical_multisc.PerformanceScheduler.Bins.{IsReady, update-IsReady}
use arl_hierarchical_multisc.PerformanceScheduler.Placing.{schedule_places}
use arl_hierarchical_multisc.PerformanceScheduler.Least.{IsOrdered, IsLeast, place-IsLeast}
use arl_hierarchical_multisc.Tests.{work}

abbrev pub doubles : Doubles ℕ
doubles = record {
  zero_double = 0;
  one = 1;
  of_number = λ n. n;
  add = λ a b. a + b;
  subtract = λ a b. a - b;
  multiply = λ a b. a * b;
  divide = λ a b. a / b;
  sqrt = λ a. a;
  less = ltb;
  equal = λ a b. a == b;
  to_int = λ n. some (pos n);
}

abbrev pub measures : Measures ℕ
measures = record { argument_value = λ p. 2 ∷ 1 ∷ []; wall_clock_time = λ p. 7 }

abbrev scheduler : PerformanceScheduler ℕ
scheduler = record {
  accumulated_time = 9 ∷ 4 ∷ [];
  bins = record { arguments = 5 ∷ []; times = 7 ∷ []; time_fit = 7 } ∷ [];
  bin_delta = 1;
  max_argument = 9;
  max_points_per_bin = 2;
  min_argument = 0;
  number_brokers = 2;
  round_robin_index = 0;
}

scheduler-IsReady : IsReady doubles measures scheduler
unfolding PerformanceScheduler.mean
scheduler-IsReady = record {
  has_bins = omega arith;
  filled = (record { paired = refl; bounded = omega arith; fitted = refl }, tt);
  timed = refl;
  in_turn = omega arith;
}

update-IsReady_example :
    (s' : PerformanceScheduler ℕ) × (update doubles measures scheduler (work 2 ∷ work 2 ∷ [])
      ≡ ok s')
    × IsReady doubles measures s'
update-IsReady_example =
    update-IsReady doubles measures scheduler (work 2 ∷ work 2 ∷ []) scheduler-IsReady
      ((_, refl), ((_, refl), tt))

schedule_places_example :
    (s' : PerformanceScheduler ℕ) × (ids : List ℕ) × (schedule doubles measures scheduler
        (work 2 ∷ work 2 ∷ [])
      ≡ ok (s', ids))
    × (length ids ≡ 2)
    × All (IsBelow 2) ids
    × IsReady doubles measures s'
schedule_places_example =
    schedule_places doubles measures scheduler (work 2 ∷ work 2 ∷ []) scheduler-IsReady
      ((_, refl), ((_, refl), tt))

ordered : IsOrdered doubles
ordered = record {
  irreflexive = λ a. ground arith;
  asymmetric = λ a b h. ground arith;
  not_less-trans = λ a b c h k. ground arith;
}

abbrev placed : PerformanceScheduler ℕ
placed = record scheduler { accumulated_time = 9 ∷ 11 ∷ [] }

placed_second : place doubles measures scheduler 7 ≡ ok (placed, 1)
unfolding place min_element
placed_second = refl

place-IsLeast_example :
    IsLeast doubles measures (9 ∷ 4 ∷ []) 1
    × (placed.accumulated_time ≡ add_at doubles measures 1 7 (9 ∷ 4 ∷ []))
place-IsLeast_example =
    place-IsLeast doubles measures ordered scheduler placed 7 1 refl placed_second
