-- ===== src/SamplingFactory/Build.antt =====
-- adaptive_sampling/AdaptiveSamplingFactory.cc, `build`: the database, the scheduler, and all of it.
use arl_hierarchical_multisc.Base.{
  ℕ, true, false, Option, none, String, List, leb, length, if◌then◌else◌,
}
use arl_hierarchical_multisc.Base.Int.{ℤ, pos, negsuc}
use arl_hierarchical_multisc.Base.Effect.{
  Exception, M, Result, ok, err, io_error, undefined, pure, throw, lift, ◌>>=◌, ◌>>◌,
}
use arl_hierarchical_multisc.PbsCommand.{same_name}
use arl_hierarchical_multisc.ModelPackage.{Handle}
use arl_hierarchical_multisc.RoundRobin
use arl_hierarchical_multisc.LoadScheduler.{LoadScheduler}
use arl_hierarchical_multisc.PerformanceScheduler
use arl_hierarchical_multisc.PerformanceScheduler.{Doubles, Measures}
use arl_hierarchical_multisc.Broker.Config.{Tree, split_string, get, get_config_value}
use arl_hierarchical_multisc.Broker.Factory.{Setup}
use arl_hierarchical_multisc.SamplingFactory.{
  SamplingSetup, SamplingScheduler, InterpolationDatabase, Sampling, max_int, text_or,
  client_communicators, receive_filters, generator_of, read_doubles, int_of, double_of, number_or,
}

-- A load scheduler whose log has a path and a time between its entries; -1 is no log.
abbrev pub load_with : ℕ → ℤ → LoadScheduler
load_with brokers time_between_logs = record {
  number_brokers = brokers;
  time_between_logs = time_between_logs;
  log_is_open = false;
  initial_time = pos 0;
  last_log_time = pos 0;
}

-- `catch(...)`: no log where an option is missing or refused. A failed `assert` is not caught.
abbrev pub caught : Exception → LoadScheduler → Result LoadScheduler
caught undefined s = err undefined
caught e s = ok s

abbrev pub load_of : ℕ → (String → ℤ) → (log delta : Result String) → Result LoadScheduler
load_of brokers atoi (err e) delta = caught e (load_with brokers (negsuc 0))
load_of brokers atoi (ok log) (err e) = caught e (load_with brokers (negsuc 0))
load_of brokers atoi (ok log) (ok delta) = ok (load_with brokers (atoi delta))

abbrev pub loaded_as : {D : Type 0} → Result LoadScheduler → Result (SamplingScheduler D)
loaded_as (ok s) = ok (SamplingScheduler.load s)
loaded_as (err e) = err e

module _ {W J D : Type 0} (setup : Setup W J) (sampling : SamplingSetup W J D) (doubles : Doubles D)
    (measures : Measures D) where
  unfoldable pub database_of :
      (fuel : ℕ)
      → Tree
      → (config_file type : String) → Option (Handle × Handle)
      → M W (InterpolationDatabase D)
  database_of fuel tree config_file type filters =
      if same_name type "Null"
      then pure InterpolationDatabase.null_database
      else if same_name type "Kriging"
      then (do
        theta ← double_of setup sampling tree "AdaptiveSampling.Theta"
        aging_threshold ← int_of setup sampling tree "AdaptiveSampling.AgingThreshold"
        delta_h_text ← lift (get tree "AdaptiveSampling.DeltaH")
        model_size ← int_of setup sampling tree "AdaptiveSampling.MaxKrigingModelSize"
        search_models ← int_of setup sampling tree "AdaptiveSampling.MaxNumberSearchModels"
        distance ← double_of setup sampling tree "AdaptiveSampling.MaxQueryPointModelDistance"
        mean_error_factor ← double_of setup sampling tree "AdaptiveSampling.MeanErrorFactor"
        directory ← lift (get tree "AdaptiveSampling.MtreeDirectoryName")
        tolerance ← double_of setup sampling tree "AdaptiveSampling.Tolerance"
        delta_h ← lift (read_doubles setup sampling fuel delta_h_text)
        pure (
            InterpolationDatabase.kriging filters (record {
              theta = theta;
              aging_threshold = aging_threshold;
              max_kriging_model_size = model_size;
              max_number_search_models = search_models;
              max_query_point_model_distance = distance;
              mean_error_factor = mean_error_factor;
              mtree_directory_name = directory;
              tolerance = tolerance;
              database = text_or "" (tree "AdaptiveSampling.Database");
              delta_h = delta_h;
            })))
      else if same_name type "Pyas"
      then (do
        delta_h_text ← lift (get tree "AdaptiveSampling.DeltaH")
        delta_h ← lift (read_doubles setup sampling fuel delta_h_text)
        pure (InterpolationDatabase.pyas filters delta_h config_file))
      else throw io_error

  -- For so many brokers.
  unfoldable pub scheduler_of :
      Tree → (id size : ℕ) → (type : String) → ℕ → Result (SamplingScheduler D)
  scheduler_of tree id size type brokers =
      if same_name type "RoundRobin"
      then ok (SamplingScheduler.round_robin (RoundRobin.new brokers))
      else if same_name type "Performance"
      then ok (
          SamplingScheduler.performance (
            PerformanceScheduler.new doubles measures brokers 3 1 (doubles.of_number 0)
              (doubles.of_number 10)))
      else if same_name type "Load"
      then loaded_as (
          load_of brokers setup.atoi (get_config_value tree "AdaptiveSampling.LoadLog" id size)
            (get_config_value tree "AdaptiveSampling.LoadLogDelta" id size))
      else err io_error

  unfoldable pub build :
      (fuel : ℕ) (config_file : String) (id : ℕ) (communicator_ranks : List ℤ) → M W (Sampling D)
  unfolding database_of scheduler_of
  build fuel config_file id ranks = do
    tree ← lift (setup.read_ini config_file)
    hosts ← lift (get tree "AdaptiveSampling.Hosts")
    communicator_type ← lift (get tree "Communicator.Type")
    let evaluation_limit =
        number_or setup sampling max_int (tree "AdaptiveSampling.EvaluationLimit")
    let size = length (split_string hosts)
    if leb size id then throw io_error else pure tt
    library_path ← lift (get_config_value tree "AdaptiveSampling.Library" id size)
    threads ← lift (get_config_value tree "AdaptiveSampling.NumberInterpolationThreads" id size)
    scheduler_type ← lift (get_config_value tree "AdaptiveSampling.Scheduler" id size)
    type ← lift (get_config_value tree "AdaptiveSampling.Type" id size)
    loaded ← if same_name library_path "" then pure true else setup.load_library library_path
    if loaded then pure tt else throw io_error
    communicators ← client_communicators setup sampling tree communicator_type ranks
    sampling.redirect_output
    filters ← receive_filters setup sampling fuel none communicators
    generator ← lift (generator_of setup sampling (tree "AdaptiveSampling.Speculative") filters)
    database ← database_of fuel tree config_file type filters
    brokers ← sampling.launch_brokers config_file id size
    scheduler ← lift (scheduler_of tree id size scheduler_type (length brokers))
    pure (record {
      database = database;
      scheduler = scheduler;
      communicators = communicators;
      broker_communicators = brokers;
      generator = generator;
      number_interpolation_threads = setup.atoi threads;
      evaluation_limit = evaluation_limit;
    })
