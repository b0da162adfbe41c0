-- ===== src/Launcher/Modules/Spawning.antt =====
-- comm/Launcher.cc, `launchModule` over MPI: all processes together spawn one module for each host.
use arl_hierarchical_multisc.Base.{
  ℕ, zero, suc, Bool, true, ◌&&◌, Option, none, some, List, [], ◌∷◌, drop, length, ◌==◌,
  if◌then◌else◌,
}
use arl_hierarchical_multisc.Base.Effect.{
  M, Result, ok, err, io_error, pure, throw, lift, ◌>>=◌, ◌>>◌,
}
use arl_hierarchical_multisc.Machinefile.{Text}
use arl_hierarchical_multisc.Launcher.Arguments.{generate_module_arguments}
use arl_hierarchical_multisc.Launcher.Ranks.{intercommunicator_ranks}
use arl_hierarchical_multisc.Launcher.Modules.{Plan, at}

-- MPI's processes: an info, that a host is set on; the intercommunicator and which modules were
-- spawned, for a command, and arguments and infos of the modules; and a communicator to a module.
pub record Spawner (W C I J : Type 0) : Type 0 where
  pub info_create : M W (Option I)
  pub info_set : I → Text → M W Bool
  pub spawn_multiple : Text → List (List Text) → List I → M W (Option (J × List Bool))
  pub info_free : I → M W Bool
  pub send_config : J → ℕ → Text → M W (Unit {0})
  pub barrier : M W (Unit {0})
  pub communicator : J → ℕ → M W C

-- The arguments of each module, without the name of its program.
unfoldable pub spawn_arguments : Plan → (i : ℕ) → ℕ → Result (List (List Text))
spawn_arguments plan i zero = ok []
spawn_arguments plan i (suc n) = add (at plan.ranks i) (spawn_arguments plan (suc i) n)
  where
    add : Result (List ℕ) → Result (List (List Text)) → Result (List (List Text))
    add (ok ranks) (ok others) =
        ok (drop 1 (generate_module_arguments plan.start_module_path i ranks) ∷ others)
    add (ok ranks) (err e) = err e
    add (err e) others = err e

abbrev pub all_true : List Bool → Bool
all_true [] = true
all_true (b ∷ bs) = b && all_true bs

module _ {W C I J : Type 0} (spawner : Spawner W C I J) where
  unfoldable pub create_infos : List Text → M W (List I)
  create_infos [] = pure []
  create_infos (host ∷ hosts) = do
    created ← spawner.info_create
    info ← elim created [ none ↦ throw io_error | some info ↦ pure info ]
    is_set ← spawner.info_set info host
    if is_set then pure tt else throw io_error
    others ← create_infos hosts
    pure (info ∷ others)

  unfoldable pub free_infos : List I → M W (Unit {0})
  free_infos [] = pure tt
  free_infos (info ∷ infos) = do
    is_free ← spawner.info_free info
    if is_free then pure tt else throw io_error
    free_infos infos

  -- Whether a file has been sent is not looked at.
  unfoldable pub send_configs : J → Text → (i : ℕ) → ℕ → M W (Unit {0})
  send_configs intercommunicator config_file i zero = pure tt
  send_configs intercommunicator config_file i (suc n) = do
    spawner.send_config intercommunicator i config_file
    send_configs intercommunicator config_file (suc i) n

  unfoldable pub connect_all : J → List ℕ → M W (List C)
  connect_all intercommunicator [] = pure []
  connect_all intercommunicator (server ∷ servers) = do
    communicator ← spawner.communicator intercommunicator server
    others ← connect_all intercommunicator servers
    pure (communicator ∷ others)

  unfoldable pub launch_mpi : Plan → (rank size : ℕ) → M W (List C)
  unfolding spawn_arguments create_infos free_infos send_configs connect_all
  launch_mpi plan rank size = do
    let servers = length plan.hosts
    arguments ← lift (spawn_arguments plan 0 servers)
    infos ← create_infos plan.hosts
    result ← spawner.spawn_multiple plan.start_module_path arguments infos
    (intercommunicator, spawned) ← elim result [ none ↦ throw io_error | some r ↦ pure r ]
    if all_true spawned then pure tt else throw io_error
    free_infos infos
    if rank == 0 then send_configs intercommunicator plan.config_file 0 servers else pure tt
    spawner.barrier
    connect_all intercommunicator (intercommunicator_ranks size servers rank)
