-- ===== src/Tests/Clients.antt =====
-- A client that is built from a file, with two brokers and the performance scheduler.
use arl_hierarchical_multisc.Base.{ℕ, ◌≡◌, refl, Option, none, some, String, [], ◌∷◌, length}
use arl_hierarchical_multisc.Base.Int.{pos}
use arl_hierarchical_multisc.Base.Effect.{ok, pure, ◌>>=◌}
use arl_hierarchical_multisc.PerformanceScheduler
use arl_hierarchical_multisc.Broker.Config.{split_string, get_config_value}
use arl_hierarchical_multisc.Broker.Factory.{Setup, sockets}
use arl_hierarchical_multisc.SamplingFactory.{
  SamplingSetup, SpeculativeGenerator, InterpolationDatabase, SamplingScheduler, Sampling, max_int,
  client_communicators, receive_first, receive_filters, generator_of,
}
use arl_hierarchical_multisc.SamplingFactory.Build.{database_of, scheduler_of, build}
use arl_hierarchical_multisc.SamplingFactory.Serving.{Serves, built_client_knows_brokers}
use arl_hierarchical_multisc.Tests.{World}
use arl_hierarchical_multisc.Tests.Building
use arl_hierarchical_multisc.Tests.Prediction.{doubles, measures}

abbrev options : String → Option String
options = Building.choose (
    ("AdaptiveSampling.Hosts", "h1")
    ∷ ("Communicator.Type", "TCPIPSocket")
    ∷ ("AdaptiveSampling.Library", "")
    ∷ ("AdaptiveSampling.NumberInterpolationThreads", "2")
    ∷ ("AdaptiveSampling.Scheduler", "Performance")
    ∷ ("AdaptiveSampling.Type", "Null")
    ∷ [])

abbrev setup : Setup World ℕ
setup = record Building.setup { read_ini = λ file. ok options }

abbrev sampling : SamplingSetup World ℕ ℕ
sampling = record {
  remote_size = λ parent. pure (some 1);
  redirect_output = pure tt;
  receive_input_filters = λ c. pure (5 ∷ []);
  receive_output_filters = λ c. pure (6 ∷ []);
  send_acknowledgement = λ c. pure tt;
  to_int = λ text. none;
  to_double = λ text. none;
  next_double = λ text. (0, none);
  launch_brokers = λ file rank size. pure (7 ∷ 8 ∷ []);
}

abbrev client : Sampling ℕ
client = record {
  database = InterpolationDatabase.null_database;
  scheduler = SamplingScheduler.performance (PerformanceScheduler.new doubles measures 2 3 1 0 10);
  communicators = 1 ∷ [];
  broker_communicators = 7 ∷ 8 ∷ [];
  generator = SpeculativeGenerator.null;
  number_interpolation_threads = pos 0;
  evaluation_limit = max_int;
}

client_built : build setup sampling doubles measures 3 "" 0 (pos 0 ∷ []) tt ≡ (ok client, tt)
unfolding build database_of scheduler_of client_communicators receive_filters receive_first
    generator_of sockets split_string get_config_value ◌>>=◌
client_built = refl

built_client_knows_brokers_example :
    (length client.communicators ≡ length (pos 0 ∷ []))
    × Serves setup sampling doubles measures 2 client.scheduler
built_client_knows_brokers_example =
    built_client_knows_brokers setup sampling doubles measures 3 "" 0 (pos 0 ∷ []) client tt tt
      client_built
