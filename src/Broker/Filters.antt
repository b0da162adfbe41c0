-- ===== src/Broker/Filters.antt =====
-- applyOutputFilters of broker/BasicBroker.cc.
pub mod Retries
use arl_hierarchical_multisc.Base.{
  ℕ, ◌+◌, Bool, true, false, Option, none, some, List, [], ◌∷◌, ◌++◌, if◌then◌else◌, ltb,
}
use arl_hierarchical_multisc.Base.Effect.{M, pure, throw, io_error, ◌>>=◌}
use arl_hierarchical_multisc.ModelPackage.{ModelPackage, Handle, Argument, log_timestamp}
use arl_hierarchical_multisc.Command.{Command, is_speculative, get_wall_clock_time}
use arl_hierarchical_multisc.Broker.{Environment, Filtered, value, io_failed}

-- What a round makes of a command: its package is completed or has failed.
pub data Verdict : Type 0 where
  completed failed : ModelPackage → Verdict

abbrev pub package_of : Verdict → ModelPackage
package_of (completed p) = p
package_of (failed p) = p

module _ {W : Type 0} (env : Environment W) where
  open env use {clock, apply_output_filter}

  abbrev output_filtered : Option Handle → Command → Argument → M W (Filtered × Argument)
  output_filtered none c argument = pure (value none, argument)
  output_filtered (some f) c argument = apply_output_filter f c.directory c.std_out argument

  -- From `value` to the end of the round.
  unfoldable pub complete : Command → ModelPackage → Option Handle → M W Verdict
  unfolding log_timestamp get_wall_clock_time
  complete c p v = do
    p' ←
        log_timestamp clock (record p { wall_clock_time = get_wall_clock_time c; value = v })
          "End output filter"
    pure (completed p')

  -- An IOError of the filter leaves a speculative package without a value; another package is
  -- evaluated again, unless this was its sixth evaluation.
  unfoldable pub judge : Command → ModelPackage → Filtered → M W Verdict
  unfolding complete
  judge c p (value v) = complete c p v
  judge c p io_failed =
      if is_speculative c
      then complete c p none
      else if ltb 5 p.number_evaluations
      then throw io_error
      else pure (failed p)

  -- A round of the loop.
  unfoldable pub filter_command : Command → M W Verdict
  unfolding judge log_timestamp
  filter_command c = do
    let p = c.model_package
    p₁ ←
        log_timestamp clock (record p { number_evaluations = p.number_evaluations + 1 })
          "Start output filter"
    (result, argument) ← output_filtered p₁.output_filter c p₁.argument
    judge c (record p₁ { argument = argument }) result

  unfoldable pub apply_output_filters : List Command → M W (List Verdict)
  unfolding filter_command
  apply_output_filters [] = pure []
  apply_output_filters (c ∷ cs) = do
    v ← filter_command c
    vs ← apply_output_filters cs
    pure (v ∷ vs)

-- The two vectors that the source builds.
abbrev pub completed_packages : List Verdict → List ModelPackage
completed_packages [] = []
completed_packages (completed p ∷ vs) = p ∷ completed_packages vs
completed_packages (failed p ∷ vs) = completed_packages vs

abbrev pub failed_packages : List Verdict → List ModelPackage
failed_packages [] = []
failed_packages (completed p ∷ vs) = failed_packages vs
failed_packages (failed p ∷ vs) = p ∷ failed_packages vs
