-- ===== src/Broker/Factory.antt =====
-- broker/BrokerFactory.cc, the constructor of broker/BasicBroker.cc and
-- base/LocalhostResourceListGenerator.cc: a broker is built from a configuration file. Objects that are
-- built of other classes are numbers.
pub mod Build
pub mod Fresh
use arl_hierarchical_multisc.Base.{
  ℕ, zero, suc, Bool, true, false, not, ◌||◌, Option, none, some, String, List, [], ◌∷◌, leb,
  length, if◌then◌else◌,
}
use arl_hierarchical_multisc.Base.Int.{ℤ, pos}
use arl_hierarchical_multisc.Base.Decimal.{decimal, ◌<<◌}
use arl_hierarchical_multisc.Base.Effect.{
  M, Result, ok, err, io_error, os_error, network_error, pure, throw, lift, ◌>>=◌, ◌>>◌,
}
use arl_hierarchical_multisc.PbsCommand.{same_name}
use arl_hierarchical_multisc.ResourceList
use arl_hierarchical_multisc.ResourceList.{ResourceType, ResourceList, cpu}
use arl_hierarchical_multisc.ResourceManager
use arl_hierarchical_multisc.ResourceManager.{ResourceManager}
use arl_hierarchical_multisc.ModelPackage.{Handle}
use arl_hierarchical_multisc.StateDb
use arl_hierarchical_multisc.Scheduler.{Scheduler}
use arl_hierarchical_multisc.CleanupPolicy.{CleanupPolicy}
use arl_hierarchical_multisc.Broker.{CommandType, CommandFactory, mpi, pbs}
use arl_hierarchical_multisc.Broker.Cycle.{Broker}
use arl_hierarchical_multisc.Launcher.Modules.{SocketType}
use arl_hierarchical_multisc.Broker.Config.{Tree, comma_separated, get, get_config_value}

-- What `mkdir` comes to.
pub data Made : Type 0 where
  made already_there failed : Made

-- What the factory calls of others: boost's reader of configuration files, `dlopen`, the resources that a
-- machine file lists, the host's name and processors, the sockets and MPI of the server's side (the
-- parent is absent when MPI fails, and null when there is none), the environment, the predicates,
-- the number in a text by `>>` and by `atoi`, and directories.
pub record Setup (W J : Type 0) : Type 0 where
  pub read_ini : String → Result Tree
  pub load_library : String → M W Bool
  pub machinefile : String → M W (List String)
  pub get_host_name : M W (Option String)
  pub number_processors : M W ℕ
  pub server_socket : String → SocketType → M W Handle
  pub parent : M W (Option (Option J))
  pub mpi_server : J → ℤ → M W Handle
  pub user_name : M W (Option String)
  pub setenv : String → String → M W Bool
  pub timeout_predicate : ℤ → M W Handle
  pub stream_int : String → ℤ
  pub atoi : String → ℤ
  pub mkdir : String → M W Made
  pub get_pid : M W ℕ

abbrev copies : ℕ → String → List String
copies zero host = []
copies (suc n) host = host ∷ copies n host

abbrev host_or_empty : Option String → String
host_or_empty none = ""
host_or_empty (some host) = host

unfoldable pub resource_type_of : String → Result ResourceType
resource_type_of t = if same_name t "CPU" then ok cpu else err io_error

unfoldable pub check_monitor : String → Result (Unit {0})
check_monitor m = if same_name m "Basic" then ok tt else err io_error

unfoldable pub handles_load_query : Option String → Bool
handles_load_query none = false
handles_load_query (some scheduler) = same_name scheduler "Load"

-- `get("AdaptiveSampling.Speculative", "Null")`: whatever else stands there is a yes.
unfoldable pub is_speculative : Option String → Bool
is_speculative none = false
is_speculative (some option) = not (same_name option "Null")

-- There are no such predicates: a first name is refused.
abbrev pub end_predicates_of : List String → Result (List Handle)
end_predicates_of [] = ok []
end_predicates_of (name ∷ names) = err io_error

module _ {W J : Type 0} (setup : Setup W J) where
  -- Whether a name of a broker's class is known; the options of broker `id` of `size`.
  unfoldable pub cleanup_policy_of : Tree → (id size : ℕ) → String → Result CleanupPolicy
  cleanup_policy_of tree id size cleanup =
      if same_name cleanup "None"
      then ok CleanupPolicy.none_removed
      else if same_name cleanup "Fixed"
      then elim (get_config_value tree "Broker.CleanupFixedSize" id size) [
        | ok number ↦ ok (CleanupPolicy.fixed (setup.stream_int number) [])
        | err e ↦ err e
      ]
      else if same_name cleanup "Custom"
      then ok CleanupPolicy.custom
      else err io_error

  -- LocalhostResourceListGenerator::generate. That the name is not known is not looked at.
  unfoldable pub generate_localhost : ResourceType → M W ResourceList
  generate_localhost type = do
    host ← setup.get_host_name
    processors ← setup.number_processors
    pure (ResourceList.new type (copies processors (host_or_empty host)))

  unfoldable pub resource_list_of : ResourceType → (list_type resource : String) → M W ResourceList
  unfolding generate_localhost
  resource_list_of type list_type resource =
      if same_name list_type "Localhost"
      then generate_localhost type
      else if same_name list_type "List"
      then pure (ResourceList.new type (comma_separated resource))
      else if same_name list_type "MPI" || same_name list_type "Machinefile"
      then (do hosts ← setup.machinefile resource; pure (ResourceList.new type hosts))
      else throw io_error

  unfoldable pub sockets : String → SocketType → List ℤ → M W (List Handle)
  sockets address type [] = pure []
  sockets address type (rank ∷ ranks) = do
    communicator ← setup.server_socket address type
    others ← sockets address type ranks
    pure (communicator ∷ others)

  unfoldable pub mpi_communicators : J → List ℤ → M W (List Handle)
  mpi_communicators parent [] = pure []
  mpi_communicators parent (rank ∷ ranks) = do
    communicator ← setup.mpi_server parent rank
    others ← mpi_communicators parent ranks
    pure (communicator ∷ others)

  abbrev pub parent_or_error : Option (Option J) → M W J
  parent_or_error none = throw network_error
  parent_or_error (some none) = throw network_error
  parent_or_error (some (some parent)) = pure parent

  unfoldable pub communicators_of : Tree → (communicator_type : String) → List ℤ → M W (List Handle)
  unfolding sockets mpi_communicators
  communicators_of tree communicator_type ranks =
      if same_name communicator_type "UnixSocket"
      then (do
        address ← lift (get tree "Communicator.UnixSocketFileName")
        sockets address SocketType.unix ranks)
      else if same_name communicator_type "TCPIPSocket"
      then sockets "0.0.0.0:0" SocketType.tcpip ranks
      else if same_name communicator_type "MPI"
      then (do found ← setup.parent; parent ← parent_or_error found; mpi_communicators parent ranks)
      else throw io_error
