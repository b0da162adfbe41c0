-- ===== src/Broker/Factory/Build.antt =====
-- broker/BrokerFactory.cc, `build`, and the constructor of broker/BasicBroker.cc.
use arl_hierarchical_multisc.Base.{
  ℕ, Bool, true, false, not, Option, none, some, String, List, [], ◌∷◌, leb, length, if◌then◌else◌,
}
use arl_hierarchical_multisc.Base.Int.{ℤ}
use arl_hierarchical_multisc.Base.Decimal.{decimal, ◌<<◌}
use arl_hierarchical_multisc.Base.Effect.{
  M, Result, err, io_error, os_error, pure, throw, lift, ◌>>=◌, ◌>>◌,
}
use arl_hierarchical_multisc.PbsCommand.{same_name}
use arl_hierarchical_multisc.ResourceManager
use arl_hierarchical_multisc.ResourceManager.{ResourceManager}
use arl_hierarchical_multisc.ModelPackage.{Handle}
use arl_hierarchical_multisc.StateDb
use arl_hierarchical_multisc.Scheduler.{Scheduler}
use arl_hierarchical_multisc.CleanupPolicy.{CleanupPolicy}
use arl_hierarchical_multisc.Broker.{CommandType, CommandFactory, mpi, pbs}
use arl_hierarchical_multisc.Broker.Cycle.{Broker}
use arl_hierarchical_multisc.Broker.Config.{
  Tree, split_string, comma_separated, get, get_config_value, or_default,
}
use arl_hierarchical_multisc.Broker.Factory.{
  made, already_there, failed, Setup, resource_type_of, check_monitor, handles_load_query,
  is_speculative, end_predicates_of, cleanup_policy_of, resource_list_of, communicators_of,
}

abbrev guard : {W : Type 0} → Bool → Result (Unit {0}) → M W (Unit {0})
guard holds refused = if holds then pure tt else lift refused

abbrev is_some : Option String → Bool
is_some none = false
is_some (some x) = true

module _ {W J : Type 0} (setup : Setup W J) where
  -- The constructor of BatchQueueScheduler looks up the user's name. The account and the path go to the commands through the environment.
  unfoldable pub scheduler_of :
      Tree → (id size : ℕ) → (scheduler_type : String) → M W (Scheduler × CommandType)
  scheduler_of tree id size scheduler_type =
      if same_name scheduler_type "Basic"
      then pure (Scheduler.basic (is_speculative (tree "AdaptiveSampling.Speculative")), mpi)
      else if same_name scheduler_type "PBS"
      then (do
        user ← setup.user_name
        guard (is_some user) (err os_error)
        account_id ← lift (get_config_value tree "Broker.AccountId" id size)
        gaussian_path ← lift (get_config_value tree "Broker.GaussianPath" id size)
        account_set ← setup.setenv "HMS_PBS_ACCOUNT_ID" account_id
        guard account_set (err os_error)
        path_set ← setup.setenv "HMS_GAUSSIAN_PATH" gaussian_path
        guard path_set (err os_error)
        pure (Scheduler.batch_queue, pbs))
      else throw io_error

  unfoldable pub status_predicates_of : Tree → (id size : ℕ) → List String → M W (List Handle)
  status_predicates_of tree id size [] = pure []
  status_predicates_of tree id size (name ∷ names) =
      if same_name name "Timeout"
      then (do
        time ← lift (get_config_value tree "Broker.StatusPredicateTimeoutTime" id size)
        predicate ← setup.timeout_predicate (setup.atoi time)
        others ← status_predicates_of tree id size names
        pure (predicate ∷ others))
      else throw io_error

  -- Whether a directory that is already there may be used.
  unfoldable pub create_broker_directory : String → (allow_existing : Bool) → M W (Unit {0})
  create_broker_directory path allow_existing = do
    result ← setup.mkdir path
    elim result [
      | made ↦ pure tt
      | already_there ↦ if allow_existing then pure tt else throw io_error
      | failed ↦ throw io_error
    ]

  -- BasicBroker::BasicBroker.
  unfoldable pub new_broker :
      List Handle
      → Scheduler
      → CleanupPolicy
      → CommandFactory
      → ResourceManager
      → (output_directory : String) → (handle_load_query : Bool) → M W Broker
  unfolding create_broker_directory
  new_broker communicators scheduler policy factory manager output_directory handle_load_query = do
    host_name ← setup.get_host_name
    host ← elim host_name [ none ↦ throw os_error | some host ↦ pure host ]
    pid ← setup.get_pid
    create_broker_directory output_directory true
    let of_host = output_directory << "/" << host
    create_broker_directory of_host true
    let directory = of_host << "/" << decimal pid
    create_broker_directory directory false
    pure (record {
      communicators = communicators;
      client_communicators = communicators;
      scheduler = scheduler;
      cleanup_policy = policy;
      command_factory = factory;
      manager = manager;
      output_directory = directory;
      command_counter = 0;
      state_db = StateDb.new;
      handle_load_query = handle_load_query;
    })

  unfoldable pub build :
      (config_file : String) (broker_processor_id : ℕ) (communicator_ranks : List ℤ) → M W Broker
  unfolding scheduler_of status_predicates_of new_broker
  build config_file id ranks = do
    tree ← lift (setup.read_ini config_file)
    hosts ← lift (get tree "Broker.Hosts")
    communicator_type ← lift (get tree "Communicator.Type")
    let size = length (split_string hosts)
    guard (not (leb size id)) (err io_error)
    cleanup ← lift (or_default "None" (get_config_value tree "Broker.Cleanup" id size))
    library_path ← lift (get_config_value tree "Broker.Library" id size)
    output_directory ← lift (get_config_value tree "Broker.OutputDirectory" id size)
    resource ← lift (get_config_value tree "Broker.Resources" id size)
    resource_type ← lift (get_config_value tree "Broker.ResourceTypes" id size)
    resource_list_type ← lift (get_config_value tree "Broker.ResourceListTypes" id size)
    scheduler_type ← lift (get_config_value tree "Broker.Scheduler" id size)
    monitor_type ← lift (get_config_value tree "Broker.Monitor" id size)
    broker_type ← lift (get_config_value tree "Broker.Type" id size)
    status ← lift (or_default "" (get_config_value tree "Broker.StatusPredicates" id size))
    ends ← lift (or_default "" (get_config_value tree "Broker.EndPredicates" id size))
    loaded ← if same_name library_path "" then pure true else setup.load_library library_path
    guard loaded (err io_error)
    policy ← lift (cleanup_policy_of setup tree id size cleanup)
    type ← lift (resource_type_of resource_type)
    resource_list ← resource_list_of setup type resource_list_type resource
    communicators ← communicators_of setup tree communicator_type ranks
    (scheduler, command_type) ← scheduler_of tree id size scheduler_type
    lift (check_monitor monitor_type)
    predicates ← status_predicates_of tree id size (comma_separated status)
    end_predicates ← lift (end_predicates_of (comma_separated ends))
    guard (same_name broker_type "Basic") (err io_error)
    new_broker communicators scheduler policy
        (record {
          command_type = command_type;
          status_predicates = predicates;
          end_predicates = end_predicates;
        })
        (ResourceManager.add ResourceManager.empty resource_list) output_directory
        (handles_load_query (tree "AdaptiveSampling.Scheduler"))
