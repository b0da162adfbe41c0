-- ===== src/Launcher/Ranks.antt =====
-- comm/Launcher.cc, which processes of the two sides are connected: each launched module (a server) gets
-- the ranks of the launching processes (its clients) that it talks to, and each client finds its servers.
pub mod Blocks
pub mod Shares
pub mod Pairing
pub mod Placement
pub mod Launching
pub mod Transports
use arl_hierarchical_multisc.Base.{
  ℕ, zero, suc, ◌+◌, ◌*◌, ◌/◌, ◌%◌, Bool, not, ◌||◌, List, [], ◌∷◌, length, ltb, ◌==◌,
  if◌then◌else◌,
}
use arl_hierarchical_multisc.Base.Effect.{Result, ok, err, io_error, undefined}

-- `std::max`.
abbrev pub larger : ℕ → ℕ → ℕ
larger a b = if ltb a b then b else a

-- The inner loop, from `j` on: a server's ranks.
unfoldable pub server_ranks : (per_server per_launcher i j : ℕ) → ℕ → List ℕ
server_ranks per_server per_launcher i j zero = []
server_ranks per_server per_launcher i j (suc n) =
    (per_server * i / per_launcher + j) ∷ server_ranks per_server per_launcher i (suc j) n

-- The outer loop, from `i` on.
unfoldable pub all_ranks : (per_server per_launcher i : ℕ) → ℕ → List (List ℕ)
unfolding server_ranks
all_ranks per_server per_launcher i zero = []
all_ranks per_server per_launcher i (suc n) =
    server_ranks per_server per_launcher i 0 per_server
    ∷ all_ranks per_server per_launcher (suc i) n

-- A remainder by zero is undefined.
unfoldable pub generate_communicator_ranks :
    {A : Type 0} → List A → (number_launching_processors : ℕ) → Result (List (List ℕ))
unfolding all_ranks
generate_communicator_ranks hosts number_launching_processors =
    let servers = length hosts in
    let total = larger number_launching_processors servers in
    if number_launching_processors == 0 || servers == 0
    then err undefined
    else if not (total % number_launching_processors == 0) || not (total % servers == 0)
    then err io_error
    else ok (all_ranks (total / servers) (total / number_launching_processors) 0 servers)

-- The loop of the connections over MPI, from `i` on: the servers of the client `rank`.
unfoldable pub client_servers : (per_launcher per_module rank i : ℕ) → ℕ → List ℕ
client_servers per_launcher per_module rank i zero = []
client_servers per_launcher per_module rank i (suc n) =
    ((rank * per_launcher + i) / per_module) ∷ client_servers per_launcher per_module rank (suc i) n

unfoldable pub intercommunicator_ranks : (size servers rank : ℕ) → List ℕ
unfolding client_servers
intercommunicator_ranks size servers rank =
    let total = larger size servers in
    client_servers (total / size) (total / servers) rank 0 (total / size)

-- How many modules a process starts over sockets, and how many processes share a module.
unfoldable pub modules_to_launch : (size servers rank : ℕ) → ℕ × ℕ
modules_to_launch size servers rank =
    if not (servers / size == 0)
    then (servers / size, 1)
    else (let ratio = size / servers in (if rank % ratio == 0 then 1 else 0, ratio))

-- The ids of the modules that a process starts, from its `i`-th on.
unfoldable pub launched_ids : (number ratio rank i : ℕ) → ℕ → List ℕ
launched_ids number ratio rank i zero = []
launched_ids number ratio rank i (suc n) =
    (rank / ratio * number + i) ∷ launched_ids number ratio rank (suc i) n
