-- ===== src/Tests/Processes.antt =====
-- An MPI command whose process a status predicate ends.
use arl_hierarchical_multisc.Base.{◌≡◌, refl, ◌==◌, [], ◌∷◌}
use arl_hierarchical_multisc.Base.Int.{pos, negsuc}
use arl_hierarchical_multisc.Base.Effect.{ok, pure, ◌>>=◌}
use arl_hierarchical_multisc.Command.{Command, CommandStatus, ticket}
use arl_hierarchical_multisc.MpiCommand.{
  Processes, terminate, all_hold, end, check_running, get_status,
}
use arl_hierarchical_multisc.MpiCommand.Settling.{IsSettled, get_status_settles}
use arl_hierarchical_multisc.Tests.{World, clock, command}

-- Each child runs until it is killed; only predicate 1 holds.
abbrev processes : Processes World
processes = record {
  vfork = λ c. pure (pos 7);
  poll = λ pid. pure (pos 0);
  wait = λ pid. pure pid;
  kill = λ pid. pure (pos 0);
  evaluate = λ h c. pure (h == 1);
  write_file = λ path text. pure tt;
  write_machinefile = λ path r. pure tt;
}

abbrev timed_out : Command
timed_out = record (command 2) {
  status_predicates = 1 ∷ 2 ∷ [];
  end_predicates = 1 ∷ [];
  running_process = pos 7;
}

abbrev stopped : Command
stopped = record timed_out { running_process = negsuc 0 }

process_ended :
    get_status clock processes timed_out tt ≡ (ok (CommandStatus.completed, stopped), tt)
unfolding get_status check_running terminate end all_hold ◌>>=◌
process_ended = refl

get_status_settles_example :
    (ticket stopped ≡ ticket timed_out)
    × (stopped.resources ≡ timed_out.resources)
    × IsSettled clock processes timed_out CommandStatus.completed stopped tt tt
get_status_settles_example =
    get_status_settles clock processes timed_out stopped CommandStatus.completed tt tt process_ended
