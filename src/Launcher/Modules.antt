-- ===== src/Launcher/Modules.antt =====
-- comm/Launcher.cc, `launchModule`, built with MPI: the modules that a process starts, and how it connects
-- to them. A communicator is a value of a type that is a parameter.
pub mod Spawning
use arl_hierarchical_multisc.Base.{
  ℕ, zero, suc, ◌+◌, ◌-◌, ◌*◌, ◌/◌, ◌%◌, ◌≡◌, Bool, true, false, not, ◌&&◌, ◌||◌, Option, none,
  some, List, [], ◌∷◌, ◌++◌, map, length, get_elem?, ltb, ◌==◌, if◌then◌else◌,
}
use arl_hierarchical_multisc.Base.Effect.{
  M, Result, ok, err, io_error, os_error, undefined, pure, throw, lift, ◌>>=◌, ◌>>◌,
}
use arl_hierarchical_multisc.Machinefile.{Text, same_text, tokens}
use arl_hierarchical_multisc.Launcher.Arguments.{generate_module_arguments}
use arl_hierarchical_multisc.Launcher.Ranks.{
  launched_ids, larger, generate_communicator_ranks, modules_to_launch, client_servers,
}
use arl_hierarchical_multisc.Launcher.Processes.{System, codes, launch, read_address, close_end}

pub data SocketType : Type 0 where
  unix tcpip : SocketType

unfoldable pub generate_socket_type : Text → Result SocketType
generate_socket_type communicator_type =
    if same_text communicator_type (codes "UnixSocket")
    then ok SocketType.unix
    else if same_text communicator_type (codes "TCPIPSocket")
    then ok SocketType.tcpip
    else err io_error

-- What `launchModule` calls of others: an option of a configuration file, or an exception; a tunnel to a
-- host and a port, by its address; a communicator to an address; and MPI among the launching processes.
pub record Network (W C : Type 0) : Type 0 where
  pub option : Text → Text → Result Text
  pub tunnel : Text → Text → M W Text
  pub connect : Text → SocketType → M W C
  pub comm_size : M W ℕ
  pub send : ℕ → Text → M W (Unit {0})
  pub receive : ℕ → M W Text

-- A module that has been launched: its address for others, the pipe from it, and a communicator to it.
pub record Launched (C : Type 0) : Type 0 where
  pub address : Text
  pub pipe : ℕ
  pub communicator : C

-- What a module is launched with: the program's own path of ssh, the file that is passed on, its hosts
-- and the paths to the program, one for each host or one for all.
pub record Plan : Type 0 where
  pub hms_ssh : Text
  pub config_file : Text
  pub hosts : List Text
  pub start_module_path : Text
  pub paths : List Text
  pub ranks : List (List ℕ)

-- `operator[]`, with an undefined value past the end.
abbrev pub at {ℓ} : {A : Type ℓ} → List A → ℕ → Result A
at [] i = err undefined
at (x ∷ xs) zero = ok x
at (x ∷ xs) (suc i) = at xs i

-- `address.substr(address.find(":") + 1)`: all of it when there is no colon.
unfoldable pub after_colon : Text → Option Text
after_colon [] = none
after_colon (c ∷ cs) = let rest = after_colon cs in if c == 58 then some cs else rest

abbrev or_all : Text → Option Text → Text
or_all address none = address
or_all address (some port) = port

unfoldable pub port_of : Text → Text
unfolding after_colon
port_of address = or_all address (after_colon address)

abbrev pub is_remote : Text → Bool
is_remote host = not (same_text host (codes "localhost"))

module _ {W C : Type 0} (system : System W) (network : Network W C) where
  abbrev pub tunnelled : (host address : Text) → M W Text
  tunnelled host address =
      if is_remote host then network.tunnel host (port_of address) else pure address

  -- One turn of the loop over the modules.
  unfoldable pub launch_one :
      (fuel : ℕ) → Plan → SocketType → (ratio module_id i : ℕ) → M W (Launched C)
  unfolding port_of
  launch_one fuel plan type ratio module_id i = do
    host ← lift (at plan.hosts module_id)
    first ← lift (at plan.paths 0)
    path ← if ltb 1 (length plan.paths) then lift (at plan.paths module_id) else pure first
    ranks ← lift (at plan.ranks i)
    pipe ←
        launch system fuel plan.hms_ssh path plan.config_file host module_id ranks (is_remote host)
    address ← read_address system fuel pipe []
    if ratio == 1 then close_end system pipe else pure tt
    tunnel_address ← tunnelled host address
    communicator ← network.connect tunnel_address type
    pure (record {
      address = host ++ (codes ":" ++ port_of address);
      pipe = pipe;
      communicator = communicator;
    })

  -- The loop, from `i` on, over the ids of the modules.
  unfoldable pub launch_all :
      (fuel : ℕ) → Plan → SocketType → (ratio i : ℕ) → List ℕ → M W (List (Launched C))
  unfolding launch_one
  launch_all fuel plan type ratio i [] = pure []
  launch_all fuel plan type ratio i (module_id ∷ ids) = do
    launched ← launch_one fuel plan type ratio module_id i
    others ← launch_all fuel plan type ratio (suc i) ids
    pure (launched ∷ others)

  unfoldable pub send_all : Text → ℕ → ℕ → M W (Unit {0})
  send_all address rank zero = pure tt
  send_all address rank (suc n) = do network.send rank address; send_all address (suc rank) n

  -- The module that another process has started: its communicator.
  unfoldable pub join : Plan → SocketType → (ratio rank : ℕ) → M W C
  unfolding port_of
  join plan type ratio rank = do
    address ← network.receive (rank - rank % ratio)
    host ← lift (at plan.hosts (rank / ratio))
    tunnel_address ← tunnelled host address
    network.connect tunnel_address type

  -- Processes that share a module: the one that has started it tells its address, and closes its pipe
  -- whether that succeeds or not; the others wait for the address.
  unfoldable pub share :
      Plan → SocketType → (ratio number rank size : ℕ) → List (Launched C) → M W (List C)
  unfolding send_all join
  share plan type ratio number rank size launched = do
    world_size ← network.comm_size
    if not (world_size == size) then throw io_error else pure tt
    if number == 1
        then (do
          started ← lift (at launched 0)
          send_all started.address (rank + 1) (ratio - 1)
          system.close started.pipe
          pure (map (λ l. l.communicator) launched))
        else (do c ← join plan type ratio rank; pure (map (λ l. l.communicator) launched ++ c ∷ []))

  unfoldable pub launch_sockets : (fuel : ℕ) → Plan → SocketType → (rank size : ℕ) → M W (List C)
  unfolding launch_all share
  launch_sockets fuel plan type rank size = do
    let (number, ratio) = modules_to_launch size (length plan.hosts) rank
    launched ← launch_all fuel plan type ratio 0 (launched_ids number ratio rank 0 number)
    if ltb 1 ratio
        then share plan type ratio number rank size launched
        else pure (map (λ l. l.communicator) launched)
