-- ===== src/Tests/Building.antt =====
-- A broker that is built from a file and runs for a round.
use arl_hierarchical_multisc.Base.{
  ℕ, ◌≡◌, refl, true, false, Option, none, some, String, List, [], ◌∷◌, length, if◌then◌else◌,
}
use arl_hierarchical_multisc.Base.Int.{pos}
use arl_hierarchical_multisc.Base.Decimal.{decimal}
use arl_hierarchical_multisc.Base.Effect.{Result, ok, err, pure, ◌>>=◌}
use arl_hierarchical_multisc.PbsCommand.{same_name}
use arl_hierarchical_multisc.ResourceList
use arl_hierarchical_multisc.ResourceManager
use arl_hierarchical_multisc.ModelPackage.{log_timestamp}
use arl_hierarchical_multisc.Queue.{sort}
use arl_hierarchical_multisc.StateDb.{release}
use arl_hierarchical_multisc.Scheduler
use arl_hierarchical_multisc.Monitor
use arl_hierarchical_multisc.CleanupPolicy
use arl_hierarchical_multisc.Warehouse
use arl_hierarchical_multisc.Warehouse.{attempt}
use arl_hierarchical_multisc.ResourceList.{cpu}
use arl_hierarchical_multisc.StateDb
use arl_hierarchical_multisc.CleanupPolicy.{CleanupPolicy}
use arl_hierarchical_multisc.Scheduler.{Scheduler}
use arl_hierarchical_multisc.Broker.{CommandType}
use arl_hierarchical_multisc.Broker.Commands.{create_command, create_commands, schedule_commands}
use arl_hierarchical_multisc.Broker.Filters.{complete, judge, filter_command, apply_output_filters}
use arl_hierarchical_multisc.Broker.Cycle.{
  Broker, evaluate, get_completed_commands, process_scheduler, admit, round, cycle, run,
}
use arl_hierarchical_multisc.Broker.Cycle.Lifetime.{Follows}
use arl_hierarchical_multisc.Broker.Config.{split_string, comma_separated, get_config_value}
use arl_hierarchical_multisc.Broker.Factory.{
  Setup, Made, resource_type_of, check_monitor, handles_load_query, is_speculative,
  cleanup_policy_of, resource_list_of, sockets, communicators_of,
}
use arl_hierarchical_multisc.Broker.Factory.Build.{
  scheduler_of, status_predicates_of, create_broker_directory, new_broker, build,
}
use arl_hierarchical_multisc.Broker.Factory.Fresh.{built_keeps_resources}
use arl_hierarchical_multisc.Tests.{World, cluster}
use arl_hierarchical_multisc.Tests.Rounds.{env, clients}

abbrev pub choose : List (String × String) → String → Option String
choose [] key = none
choose ((k, value) ∷ rest) key = if same_name k key then some value else choose rest key

-- Two brokers, of which the second has a resource more than the first.
abbrev options : String → Option String
options = choose (
    ("Broker.Hosts", "h1 h2")
    ∷ ("Communicator.Type", "TCPIPSocket")
    ∷ ("Broker.Library", "")
    ∷ ("Broker.OutputDirectory", "out")
    ∷ ("Broker.Resources", "n1,n2 n1,n2,n3")
    ∷ ("Broker.ResourceTypes", "CPU")
    ∷ ("Broker.ResourceListTypes", "List")
    ∷ ("Broker.Scheduler", "Basic")
    ∷ ("Broker.Monitor", "Basic")
    ∷ ("Broker.Type", "Basic")
    ∷ [])

abbrev pub setup : Setup World ℕ
setup = record {
  read_ini = λ file. ok options;
  load_library = λ path. pure true;
  machinefile = λ path. pure [];
  get_host_name = pure (some "h2");
  number_processors = pure 4;
  server_socket = λ address type. pure 1;
  parent = pure none;
  mpi_server = λ parent rank. pure 1;
  user_name = pure (some "hms");
  setenv = λ name value. pure true;
  timeout_predicate = λ time. pure 9;
  stream_int = λ text. pos 0;
  atoi = λ text. pos 0;
  mkdir = λ path. pure Made.made;
  get_pid = pure 17;
}

abbrev built : Broker
built = record {
  communicators = 1 ∷ [];
  client_communicators = 1 ∷ [];
  scheduler = Scheduler.basic false;
  cleanup_policy = CleanupPolicy.none_removed;
  command_factory = record {
    command_type = CommandType.mpi;
    status_predicates = [];
    end_predicates = [];
  };
  manager = cluster (ResourceList.new cpu ("n1" ∷ "n2" ∷ "n3" ∷ []));
  output_directory = "out/h2/17";
  command_counter = 0;
  state_db = StateDb.new;
  handle_load_query = false;
}

has_built : build setup "" 1 (pos 0 ∷ []) tt ≡ (ok built, tt)
unfolding build new_broker create_broker_directory scheduler_of status_predicates_of split_string
    comma_separated get_config_value resource_type_of check_monitor handles_load_query
    is_speculative cleanup_policy_of resource_list_of sockets communicators_of decimal
    ResourceManager.add ◌>>=◌
has_built = refl

abbrev returned : Broker → Result (Option Broker) × World → Broker
returned b (ok (some b'), w) = b'
returned b (ok none, w) = b
returned b (err e, w) = b

abbrev later : Broker
later = returned built (run env clients 1 built tt)

has_run : run env clients 1 built tt ≡ (ok (some later), tt)
unfolding run cycle round Warehouse.receive Warehouse.receive_from Warehouse.receive_one
    Warehouse.ship attempt evaluate admit process_scheduler get_completed_commands create_commands
    create_command schedule_commands sort Scheduler.process_queue Scheduler.Basic.process_queue
    Scheduler.Basic.process Scheduler.Basic.start Scheduler.Basic.launch ResourceManager.check_out
    ResourceManager.check_in ResourceManager.has_resources_available ResourceList.check_out
    ResourceList.check_in Monitor.process_queue Monitor.poll Monitor.finish release
    apply_output_filters filter_command judge complete CleanupPolicy.apply log_timestamp ◌>>=◌
has_run = refl

built_keeps_resources_example :
    (length built.communicators ≡ length (pos 0 ∷ [])) × Follows false built later
built_keeps_resources_example =
    built_keeps_resources setup env clients "" 1 (pos 0 ∷ []) false 1 built later tt tt tt has_built
      refl has_run
