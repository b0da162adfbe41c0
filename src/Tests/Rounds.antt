-- ===== src/Tests/Rounds.antt =====
-- The broker on one package, with filters that change nothing or fail.
use arl_hierarchical_multisc.Base.{◌≡◌, refl, true, false, some, List, [], ◌∷◌}
use arl_hierarchical_multisc.Base.Effect.{
  Result, ok, err, connection_termination, pure, throw, ◌>>=◌,
}
use arl_hierarchical_multisc.ResourceList
use arl_hierarchical_multisc.ResourceManager
use arl_hierarchical_multisc.ModelPackage.{ModelPackage, Priority, log_timestamp}
use arl_hierarchical_multisc.Command.{Command}
use arl_hierarchical_multisc.Queue.{sort}
use arl_hierarchical_multisc.StateDb
use arl_hierarchical_multisc.StateDb.{StateDb, release}
use arl_hierarchical_multisc.Scheduler
use arl_hierarchical_multisc.Scheduler.{Scheduler}
use arl_hierarchical_multisc.Monitor
use arl_hierarchical_multisc.CleanupPolicy
use arl_hierarchical_multisc.CleanupPolicy.{CleanupPolicy, Disk}
use arl_hierarchical_multisc.Broker.{Environment, CommandType, io_failed}
use arl_hierarchical_multisc.Broker.Commands.{create_command, create_commands, schedule_commands}
use arl_hierarchical_multisc.Broker.Commands.Order.{Scheduled, schedule_commands_orders}
use arl_hierarchical_multisc.Broker.Filters.{
  Verdict, complete, judge, filter_command, apply_output_filters,
}
use arl_hierarchical_multisc.Broker.Filters.Retries.{AllJudged, apply_output_filters_judge}
use arl_hierarchical_multisc.Broker.Cycle.{
  Broker, Clients, evaluate, get_completed_commands, process_scheduler, admit,
}
use arl_hierarchical_multisc.Broker.Commands.Admission.{sent}
use arl_hierarchical_multisc.Broker.Cycle.Accounts.{IsStocked, Balances, evaluate_conserves}
use arl_hierarchical_multisc.Tests.{World, clock, ops, work, command, nodes, cluster}

-- Communicator 1 sends a package each time; the output filter 7 fails.
abbrev pub env : Environment World
env = record {
  clock = clock;
  ops = ops;
  carrier = record { receive = λ h w. (ok (work 2 ∷ []), w); send = λ h p. pure tt };
  disk = record { remove_all = λ d. pure tt };
  mkdir = λ d. pure true;
  apply_input_filter = λ f a d. pure a;
  apply_output_filter = λ f d o a. pure (io_failed, a);
}

abbrev pub clients : Clients World
clients = record {
  receive_queries = λ h. throw connection_termination;
  send_query = λ h q. pure tt;
  send_exception = λ h e. pure tt;
  pbs = throw connection_termination;
}

abbrev broker : Broker
broker = record {
  communicators = 1 ∷ [];
  client_communicators = [];
  scheduler = Scheduler.basic false;
  cleanup_policy = CleanupPolicy.custom;
  command_factory = record {
    command_type = CommandType.mpi;
    status_predicates = [];
    end_predicates = [];
  };
  manager = cluster nodes;
  output_directory = "out";
  command_counter = 0;
  state_db = StateDb.new;
  handle_load_query = false;
}

-- What a call returned, or else a value that is given.
abbrev returned : {A : Type 0} → A → Result A × World → A
returned a (ok b, w) = b
returned a (err e, w) = a

abbrev urgent : Command
urgent = record (command 1) { model_package = record (work 1) { priority = Priority.highest } }

abbrev queued : StateDb
queued = record StateDb.new { queued = command 2 ∷ [] }

abbrev scheduled : StateDb
scheduled = returned queued (schedule_commands env (urgent ∷ command 3 ∷ []) queued tt)

urgent_queued : schedule_commands env (urgent ∷ command 3 ∷ []) queued tt ≡ (ok scheduled, tt)
unfolding schedule_commands sort log_timestamp ◌>>=◌
urgent_queued = refl

schedule_commands_orders_example : Scheduled (urgent ∷ command 3 ∷ []) queued scheduled
schedule_commands_orders_example =
    schedule_commands_orders env urgent (command 3 ∷ []) queued scheduled tt tt urgent_queued

-- Its output filter fails.
abbrev failing : Command
failing = record (command 2) { model_package = record (work 2) { output_filter = some 7 } }

abbrev verdicts : List Verdict
verdicts = returned [] (apply_output_filters env (failing ∷ command 1 ∷ []) tt)

filters_applied : apply_output_filters env (failing ∷ command 1 ∷ []) tt ≡ (ok verdicts, tt)
unfolding apply_output_filters filter_command judge complete log_timestamp ◌>>=◌
filters_applied = refl

apply_output_filters_judge_example : AllJudged (failing ∷ command 1 ∷ []) verdicts
apply_output_filters_judge_example =
    apply_output_filters_judge env (failing ∷ command 1 ∷ []) verdicts tt tt filters_applied

broker-IsStocked : IsStocked false broker
broker-IsStocked = record {
  scheme = refl;
  consistent = record { keyed = record { at_cpu = refl; at_gpu = tt }; idle = tt; staffed = tt };
}

abbrev outcome : Broker × List ModelPackage
outcome = returned (broker, []) (evaluate env clients (work 2 ∷ []) broker tt)

work_evaluated : evaluate env clients (work 2 ∷ []) broker tt ≡ (ok (outcome.0, outcome.1), tt)
unfolding evaluate admit process_scheduler get_completed_commands create_commands create_command
    schedule_commands sort Scheduler.process_queue Scheduler.Basic.process_queue
    Scheduler.Basic.process Scheduler.Basic.start Scheduler.Basic.launch ResourceManager.check_out
    ResourceManager.check_in ResourceManager.has_resources_available ResourceList.check_out
    ResourceList.check_in Monitor.process_queue Monitor.poll Monitor.finish release
    apply_output_filters filter_command judge complete CleanupPolicy.apply log_timestamp ◌>>=◌
work_evaluated = refl

evaluate_conserves_example :
    Balances false (λ p. sent p (work 2 ∷ [])) (λ p. sent p outcome.1) broker outcome.0
evaluate_conserves_example =
    evaluate_conserves env clients false (work 2 ∷ []) outcome.1 broker outcome.0 tt tt
      broker-IsStocked work_evaluated
