-- ===== src/AdaptiveSampling/Interpolate.antt =====
-- AdaptiveSampling.cc, adaptiveSamplingThread and processInterpolationResult: a package is answered
-- from the database, or evaluated where the limit allows, or held back for another try.
use arl_hierarchical_multisc.Base.{
  ℕ, Bool, true, false, Option, none, some, List, [], ◌∷◌, ◌++◌, length, take, drop, ltb,
  if◌then◌else◌,
}
use arl_hierarchical_multisc.Base.Int.{ℤ, pos, ltb_ℤ, ◌+ℤ◌}
use arl_hierarchical_multisc.Base.Effect.{M, pure, lift, ◌>>=◌, ◌>>◌}
use arl_hierarchical_multisc.ModelPackage.{Handle, ModelPackage, log_timestamp, pop_timestamp}
use arl_hierarchical_multisc.AdaptiveSampling.{Generator, Sampler, Services, Shared, null_generator}

abbrev pub adaptive_sampling_thread_chunk_size : ℕ
adaptive_sampling_thread_chunk_size = 50

abbrev pub chunk_size : ℕ → ℕ
chunk_size n =
    if ltb n adaptive_sampling_thread_chunk_size then n else adaptive_sampling_thread_chunk_size

abbrev pub first_of : Option ModelPackage → List ModelPackage → Option ModelPackage
first_of none [] = none
first_of none (p ∷ ps) = some p
first_of (some t) ps = some t

-- The beginning of a round: a chunk of the receive pile, and the held packages behind it.
unfoldable pub extract : Sampler → Shared → Sampler × Shared
extract t s =
    let n = chunk_size (length s.algorithm_receive_pile) in
    let ps = take n s.algorithm_receive_pile ++ t.held_evaluations in
    (
      record t {
        to_try = ps;
        held_evaluations = [];
        model_package_template = first_of t.model_package_template ps;
      },
      record s { algorithm_receive_pile = drop n s.algorithm_receive_pile },
    )

-- The second locked section: the package that the thread has put on the pile is counted.
unfoldable pub count_evaluation : Sampler → Shared → Sampler × Shared
count_evaluation t s =
    (record t { to_count = false }, record s { number_evaluations = s.number_evaluations +ℤ pos 1 })

module _ {W : Type 0} (services : Services W) where
  abbrev pub generator_of : Sampler → Generator W
  generator_of t = if t.is_first then services.generator else null_generator

  unfoldable pub answered : Sampler → Shared → ModelPackage → Option Handle → M W (Sampler × Shared)
  answered t s p value = do
    (generator_of t).update (record p { value = value })
    pure (
      record t { number_successful_interpolations = t.number_successful_interpolations +ℤ pos 1 },
      record s { shipped = s.shipped ++ record p { value = value } ∷ [] },
    )

  -- `seen` is the value of `d_numberEvaluations` that the check of the limit reads, without a lock. The
  -- package is counted later, by `count_evaluation`.
  unfoldable pub unanswered : (seen : ℤ) → Sampler → Shared → ModelPackage → M W (Sampler × Shared)
  unanswered seen t s p =
      if ltb_ℤ seen s.evaluation_limit
      then pure
          (record t { to_count = true }, record s { evaluation_pile = s.evaluation_pile ++ p ∷ [] })
      else (do
        p' ← lift (pop_timestamp p)
        p'' ← lift (pop_timestamp p')
        pure (record t { held_evaluations = t.held_evaluations ++ p'' ∷ [] }, s))

  unfoldable pub process_interpolation_result :
      ℤ → Sampler → Shared → ModelPackage → Bool × Option Handle → M W (Sampler × Shared)
  unfolding answered unanswered
  process_interpolation_result seen t s p (true, value) = do
    p' ← log_timestamp services.clock p "End Interpolate Success = 1"
    answered t s p' value
  process_interpolation_result seen t s p (false, value) = do
    p' ← log_timestamp services.clock p "End Interpolate Success = 0"
    unanswered seen t s p'

  -- The round of the inner loop for a package.
  unfoldable pub try_package : ℤ → Sampler → Shared → ModelPackage → M W (Sampler × Shared)
  unfolding process_interpolation_result
  try_package seen t s p = do
    p' ← log_timestamp services.clock p "Start Interpolate"
    (result, hint) ← services.database.interpolate p'.argument p'.hint
    process_interpolation_result seen t s (record p' { hint = hint }) result
