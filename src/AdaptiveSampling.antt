-- ===== src/AdaptiveSampling.antt =====
-- adaptive_sampling/AdaptiveSampling.cc, and the interfaces of InterpolationDatabase.h,
-- SpeculativeGenerator.h and AdaptiveSamplingScheduler.h with NullInterpolationDatabase.cc and
-- NullGenerator.cc: the state that the client's threads share, and their own. Objects that several
-- threads hold are copies here; counters are unbounded integers.
pub mod Receive
pub mod Interpolate
pub mod Speculate
pub mod Evaluate
pub mod Values
pub mod System
pub mod Limits
pub mod Tally
pub mod Outcome
pub mod Processing
pub mod Conservation
use arl_hierarchical_multisc.Base.{ℕ, Bool, true, false, Option, none, List, []}
use arl_hierarchical_multisc.Base.Int.{ℤ, pos}
use arl_hierarchical_multisc.Base.Effect.{M, pure}
use arl_hierarchical_multisc.ModelPackage.{Argument, Clock, Handle, ModelPackage}

-- `InterpolationDatabase`. An `int &` is passed in and returned.
pub record Database (W : Type 0) : Type 0 where
  pub interpolate : Argument → ℤ → M W ((Bool × Option Handle) × ℤ)
  pub insert : Argument → Option Handle → ℤ → M W (Bool × ℤ)
  pub generate_sample_arguments : Argument → M W (List Argument)
  pub add_new_model : List Argument → List (Option Handle) → ℤ → M W (Bool × ℤ)

-- `SpeculativeGenerator`.
pub record Generator (W : Type 0) : Type 0 where
  pub generate : ModelPackage → ℕ → M W (List ModelPackage)
  pub update : ModelPackage → M W (Unit {0})

-- `AdaptiveSamplingScheduler`.
pub record BrokerScheduler (W : Type 0) : Type 0 where
  pub schedule : List ModelPackage → M W (List ℕ)
  pub update : List ModelPackage → M W (Unit {0})

abbrev pub null_database : {W : Type 0} → Database W
null_database = record {
  interpolate = λ argument hint. pure ((false, none), hint);
  insert = λ argument value hint. pure (true, hint);
  generate_sample_arguments = λ argument. pure [];
  add_new_model = λ arguments values hint. pure (true, hint);
}

abbrev pub null_generator : {W : Type 0} → Generator W
null_generator = record { generate = λ template number_evaluations. pure []; update = λ p. pure tt }

-- What the client calls.
pub record Services (W : Type 0) : Type 0 where
  pub clock : Clock W
  pub database : Database W
  pub generator : Generator W
  pub scheduler : BrokerScheduler W

-- The client's data that its threads share. `shipped` is what it has handed to its warehouse.
pub record Shared : Type 0 where
  pub algorithm_receive_pile : List ModelPackage
  pub evaluation_limit : ℤ
  pub evaluation_pile : List ModelPackage
  pub number_evaluations : ℤ
  pub number_speculative_evaluations : ℤ
  pub speculative_evaluation_limit : ℤ
  pub number_additional_points : ℤ
  pub number_completed_speculative_evaluations : ℤ
  pub number_evaluation_requests : ℤ
  pub number_inserted_speculative_evaluations : ℤ
  pub shipped : List ModelPackage

-- An interpolation thread: the packages that it still has to try, the held ones, and the template.
-- Only the first thread has the real generator. `to_count` is its place in the code: it has put a package
-- on the evaluation pile, and has not counted it yet.
pub record Sampler : Type 0 where
  pub is_first : Bool
  pub to_try : List ModelPackage
  pub to_count : Bool
  pub held_evaluations : List ModelPackage
  pub model_package_template : Option ModelPackage
  pub number_successful_interpolations : ℤ

-- The value processing thread: for an id, how many packages it waits for and those that came; the
-- speculative evaluations that came; and its place in the round.
pub record Processor : Type 0 where
  pub additional_evaluations : ℕ → Option (ℕ × List ModelPackage)
  pub speculative_evaluations : List ModelPackage
  pub is_visiting : Bool
  pub to_process : List ModelPackage
  pub number_completed_evaluations : ℤ
  pub number_completed_speculative_evaluations : ℤ

-- The constructor's initializers.
abbrev pub new : ℤ → Shared
new evaluation_limit = record {
  algorithm_receive_pile = [];
  evaluation_limit = evaluation_limit;
  evaluation_pile = [];
  number_evaluations = pos 0;
  number_speculative_evaluations = pos 0;
  speculative_evaluation_limit = evaluation_limit;
  number_additional_points = pos 0;
  number_completed_speculative_evaluations = pos 0;
  number_evaluation_requests = pos 0;
  number_inserted_speculative_evaluations = pos 0;
  shipped = [];
}

abbrev pub new_sampler : Bool → Sampler
new_sampler is_first = record {
  is_first = is_first;
  to_try = [];
  to_count = false;
  held_evaluations = [];
  model_package_template = none;
  number_successful_interpolations = pos 0;
}

abbrev pub new_processor : Processor
new_processor = record {
  additional_evaluations = λ id. none;
  speculative_evaluations = [];
  is_visiting = false;
  to_process = [];
  number_completed_evaluations = pos 0;
  number_completed_speculative_evaluations = pos 0;
}
