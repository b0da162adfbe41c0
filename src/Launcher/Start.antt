-- ===== src/Launcher/Start.antt =====
-- comm/Launcher.cc, the whole of `launchModule`.
pub mod Connected
use arl_hierarchical_multisc.Base.{ℕ, Bool, not, ◌&&◌, ◌||◌, List, length, ltb, ◌==◌, if◌then◌else◌}
use arl_hierarchical_multisc.Base.Effect.{M, Result, io_error, pure, throw, lift, ◌>>=◌, ◌>>◌}
use arl_hierarchical_multisc.Machinefile.{Text, same_text, tokens}
use arl_hierarchical_multisc.Launcher.Ranks.{generate_communicator_ranks}
use arl_hierarchical_multisc.Launcher.Processes.{System, codes}
use arl_hierarchical_multisc.Launcher.Modules.{
  Network, Plan, SocketType, generate_socket_type, launch_sockets,
}
use arl_hierarchical_multisc.Launcher.Modules.Spawning.{Spawner, launch_mpi}

abbrev pub is_socket : Text → Bool
is_socket type = same_text type (codes "UnixSocket") || same_text type (codes "TCPIPSocket")

module _ {W C I J : Type 0} (system : System W) (network : Network W C)
    (spawner : Spawner W C I J) where
  -- By the type of the communicators.
  unfoldable pub launch_by_type : (fuel : ℕ) → Text → Plan → (rank size : ℕ) → M W (List C)
  launch_by_type fuel communicator_type plan rank size =
      if is_socket communicator_type
      then (do
        type ← lift (generate_socket_type communicator_type)
        launch_sockets system network fuel plan type rank size)
      else if same_text communicator_type (codes "MPI")
      then launch_mpi spawner plan rank size
      else throw io_error

  unfoldable pub launch_module :
      (fuel : ℕ) (hms_ssh config_file : Text) (rank size : ℕ)
      (start_module_path_keyword hosts_keyword : Text)
      → M W (List C)
  unfolding launch_by_type
  launch_module fuel hms_ssh config_file rank size start_module_path_keyword hosts_keyword = do
    communicator_type ← lift (network.option config_file (codes "Communicator.Type"))
    hosts ← lift (network.option config_file hosts_keyword)
    start_module_path ← lift (network.option config_file start_module_path_keyword)
    let paths = tokens start_module_path
    if ltb 1 (length paths) && not (length (tokens hosts) == length paths)
        then throw io_error
        else pure tt
    ranks ← lift (generate_communicator_ranks (tokens hosts) size)
    launch_by_type fuel communicator_type
        (record {
          hms_ssh = hms_ssh;
          config_file = config_file;
          hosts = tokens hosts;
          start_module_path = start_module_path;
          paths = paths;
          ranks = ranks;
        })
        rank size
