-- ===== src/Tests/Launching.antt =====
-- Two hosts and one launching process, or four processes; a child that says two addresses.
use arl_hierarchical_multisc.Base.{
  ℕ, ◌≡◌, refl, arith, true, false, Option, none, some, List, [], ◌∷◌, length, get_elem?,
  if◌then◌else◌,
}
use arl_hierarchical_multisc.Base.Int.{pos, negsuc}
use arl_hierarchical_multisc.Base.Effect.{Result, ok, err, undefined, pure, ◌>>=◌}
use arl_hierarchical_multisc.Machinefile.{Text, tokens, machinefile_text, same_text}
use arl_hierarchical_multisc.Launcher.Arguments.{generate_module_arguments, process_command_line}
use arl_hierarchical_multisc.Launcher.Arguments.RoundTrip.{process_command_line-generate}
use arl_hierarchical_multisc.Launcher.Ranks.{
  launched_ids, generate_communicator_ranks, all_ranks, server_ranks, intercommunicator_ranks,
  modules_to_launch,
}
use arl_hierarchical_multisc.Launcher.Ranks.Blocks.{occurrences}
use arl_hierarchical_multisc.Launcher.Ranks.Pairing.{generate_pairs}
use arl_hierarchical_multisc.Launcher.Ranks.Transports.{socket_servers, generate_transports}
use arl_hierarchical_multisc.Launcher.Ranks.Launching.{launched_below, launched_once}
use arl_hierarchical_multisc.Launcher.Processes.{
  System, codes, launch, read_address, write_character, write_config, child_environment,
}
use arl_hierarchical_multisc.Launcher.Processes.Pipes.{
  Gives, nothing, gives, read_address-first, write_character-spins,
}
use arl_hierarchical_multisc.Launcher.Modules.{
  Network, generate_socket_type, port_of, launch_one, launch_all, launch_sockets,
}
use arl_hierarchical_multisc.Launcher.Modules.Spawning.{Spawner}
use arl_hierarchical_multisc.Launcher.Start.{launch_by_type, launch_module}
use arl_hierarchical_multisc.Launcher.Start.Connected.{launch_module_connects}

abbrev hosts : List Text
hosts = codes "localhost" ∷ codes "localhost" ∷ []

four_ranks : generate_communicator_ranks hosts 4 ≡ ok ((0 ∷ 1 ∷ []) ∷ (2 ∷ 3 ∷ []) ∷ [])
unfolding generate_communicator_ranks
four_ranks = refl

generate_pairs_example :
    (rs : List ℕ) × (get_elem? ((0 ∷ 1 ∷ []) ∷ (2 ∷ 3 ∷ []) ∷ []) 1 ≡ some rs)
    × (occurrences 2 rs ≡ occurrences 1 (intercommunicator_ranks 4 (length hosts) 2))
generate_pairs_example =
    generate_pairs hosts 4 2 1 ((0 ∷ 1 ∷ []) ∷ (2 ∷ 3 ∷ []) ∷ []) four_ranks (omega arith)

launched_once_example : occurrences 1 (launched_below 4 (length hosts) 4) ≡ 1
launched_once_example =
    launched_once hosts 4 1 ((0 ∷ 1 ∷ []) ∷ (2 ∷ 3 ∷ []) ∷ []) four_ranks (omega arith)

generate_transports_example :
    socket_servers 4 (length hosts) 3 ≡ intercommunicator_ranks 4 (length hosts) 3
generate_transports_example =
    generate_transports hosts 4 3 ((0 ∷ 1 ∷ []) ∷ (2 ∷ 3 ∷ []) ∷ []) four_ranks

process_command_line-generate_example :
    process_command_line
      (λ arguments. false)
      (generate_module_arguments (codes "start") 12 (0 ∷ 305 ∷ []))
    ≡ some (pos 12, pos 0 ∷ pos 305 ∷ [])
process_command_line-generate_example =
    process_command_line-generate (λ arguments. false) (codes "start") 12 0 (305 ∷ []) (omega arith)
      (omega arith, (omega arith, tt)) refl

-- The world is the text that the child still writes.
abbrev next : Text → Result (Option ℕ) × Text
next [] = (ok none, [])
next (c ∷ cs) = (ok (some c), cs)

abbrev child : System Text
child = record {
  pipe = pure (some (3, 4));
  environ = pure (codes "PMI_RANK=1" ∷ codes "HOME=/root" ∷ []);
  fork = λ arguments environment input output. pure (pos 100);
  write = λ pipe c. pure (pos 1);
  read = λ pipe. next;
  close = λ pipe. pure (pos 0);
}

abbrev hello : List Text
hello = codes "hi" ∷ []

Gives-all : (text : Text) → Gives child 3 text text []
Gives-all [] = nothing
Gives-all (c ∷ cs) = gives refl (Gives-all cs)

read_address-first_example :
    (w' : Text) × Gives child 3 [] w' []
    × (read_address child 20 3 [] (codes "hi\nAddress: a:7\n") ≡ (ok (codes "a:7"), w'))
read_address-first_example =
    read_address-first child 3 20 hello (codes "a:7") [] (codes "hi\nAddress: a:7\n") []
      (unfold machinefile_text in omega arith) (((refl, (refl, tt)), refl), tt)
      (refl, (refl, (refl, tt))) (unfold machinefile_text in Gives-all (codes "hi\nAddress: a:7\n"))

-- A pipe that nobody reads.
abbrev broken : System Text
broken = record child { write = λ pipe c. pure (negsuc 0) }

write_character-spins_example : (write_character broken 5 4 65 []).0 ≡ err undefined
write_character-spins_example = write_character-spins broken 4 5 65 [] (λ w. unfold ◌>>=◌ in refl)

abbrev two_addresses : Text
two_addresses = codes "Address: a:7\nAddress: b:8\n"

-- The hosts, the path and the type.
abbrev configured : Text → Result Text
configured key =
    if same_text key (codes "Hosts")
    then ok (codes "localhost localhost")
    else if same_text key (codes "Path")
    then ok (codes "start")
    else ok (codes "TCPIPSocket")

-- A communicator is the address.
abbrev network : Network Text Text
network = record {
  option = λ config_file key. configured key;
  tunnel = λ host port. pure port;
  connect = λ address type. pure address;
  comm_size = pure 1;
  send = λ rank address. pure tt;
  receive = λ rank. pure [];
}

abbrev spawner : Spawner Text Text ℕ ℕ
spawner = record {
  info_create = pure none;
  info_set = λ info host. pure true;
  spawn_multiple = λ command arguments infos. pure none;
  info_free = λ info. pure true;
  send_config = λ j server config_file. pure tt;
  barrier = pure tt;
  communicator = λ j server. pure [];
}

both_launched :
    launch_module child network spawner 20
      (codes "ssh")
      (codes "x")
      0
      1
      (codes "Path")
      (codes "Hosts")
      two_addresses
    ≡ (ok (codes "a:7" ∷ codes "b:8" ∷ []), [])
unfolding launch_module launch_by_type generate_socket_type launch_sockets launch_all launch_one
    launch read_address write_config write_character child_environment port_of modules_to_launch
    launched_ids generate_communicator_ranks all_ranks server_ranks tokens generate_module_arguments
    ◌>>=◌
both_launched = refl

launch_module_connects_example :
    length (codes "a:7" ∷ codes "b:8" ∷ [])
    ≡ length (intercommunicator_ranks 1 (length (tokens (codes "localhost localhost"))) 0)
launch_module_connects_example =
    launch_module_connects child network spawner 20 (codes "ssh") (codes "x") 0 1 (codes "Path")
      (codes "Hosts") (codes "localhost localhost") (codes "a:7" ∷ codes "b:8" ∷ []) two_addresses
      [] refl both_launched
