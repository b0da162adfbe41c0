-- ===== src/Tests/Scheduling.antt =====
-- The schedulers and the monitor on one or two commands.
use arl_hierarchical_multisc.Scheduler.Basic.Progress.{IsCalm, IsServable, process_queue_returns}
use arl_hierarchical_multisc.Scheduler.Basic.Preempting.{Preempted, process_queue_preempts}
use arl_hierarchical_multisc.Base.Effect.{Returns-pure, ok, ◌>>=◌}
use arl_hierarchical_multisc.ModelPackage.{Priority, log_timestamp, zero_time}
use arl_hierarchical_multisc.Tests.{
  World, clock, ops, command, nodes, first_node, two_nodes, cluster,
}
use arl_hierarchical_multisc.Base.{◌≤◌, arith, ◌^◌, ◌<◌, ◌≡◌, refl, [], ◌∷◌, some, true, false}
use arl_hierarchical_multisc.ResourceList
use arl_hierarchical_multisc.ResourceList.{ResourceList, cpu}
use arl_hierarchical_multisc.ResourceManager
use arl_hierarchical_multisc.ResourceManager.{ResourceManager}
use arl_hierarchical_multisc.Command.{Command}
use arl_hierarchical_multisc.StateDb.{StateDb, release}
use arl_hierarchical_multisc.Queue.{Queue}
use arl_hierarchical_multisc.Scheduler
use arl_hierarchical_multisc.Scheduler.Basic.{pass}
use arl_hierarchical_multisc.Scheduler.Basic.Accounts.{IsConsistent, Sound}
use arl_hierarchical_multisc.Scheduler.Basic.Conservation.{process_queue_conserves}
use arl_hierarchical_multisc.Scheduler.Basic.Greed.{Served, process_queue_serves}
use arl_hierarchical_multisc.Scheduler.Batch.Parity.{Submitted, process_queue_alternates}
use arl_hierarchical_multisc.Monitor
use arl_hierarchical_multisc.Monitor.Directions.{Sorted}
use arl_hierarchical_multisc.Monitor.{sweep}
use arl_hierarchical_multisc.Monitor.Conservation.{Swept, process_queue_collects}

abbrev pub queues : (queued running completed : Queue Command) → StateDb
queues q r c = record { queued = q; running = r; completed = c }

abbrev pub started : Command → ResourceList → Command
started c r = record c {
  resources = some r;
  model_package = record c.model_package { timestamps = (zero_time, "Start execution") ∷ [] };
}

abbrev before : StateDb
before = queues (command 2 ∷ command 2 ∷ []) [] []

abbrev after : StateDb
after = queues (command 2 ∷ []) (started (command 2) two_nodes ∷ []) []

two_started :
    Scheduler.Basic.process_queue clock ops false (cluster nodes) before tt
    ≡ (ok (cluster first_node, after), tt)
unfolding Scheduler.Basic.process_queue Scheduler.Basic.process Scheduler.Basic.start
    Scheduler.Basic.launch ResourceManager.check_out ResourceManager.has_resources_available
    ResourceList.check_out log_timestamp ◌>>=◌
two_started = refl

cluster-IsConsistent : IsConsistent (pass (cluster nodes) before.queued before.running)
cluster-IsConsistent = record {
  keyed = record { at_cpu = refl; at_gpu = tt };
  idle = (refl, (refl, tt));
  staffed = tt;
}

process_queue_conserves_example :
    Sound
      (pass (cluster nodes) before.queued before.running)
      (pass (cluster first_node) after.queued after.running)
    × (after.completed ≡ before.completed)
process_queue_conserves_example =
    process_queue_conserves clock ops false (cluster nodes) (cluster first_node) before after tt tt
      cluster-IsConsistent two_started

in_range : (2 < 2 ^ 31) × (0 ≤ 2 ^ 31)
in_range = (omega arith, omega arith)

process_queue_serves_example :
    Served before.queued before.running after.queued
      (pass (cluster first_node) after.queued after.running)
process_queue_serves_example =
    process_queue_serves clock ops (cluster nodes) (cluster first_node) before after tt tt
      cluster-IsConsistent.keyed (in_range, (in_range, tt)) two_started

submitted_one :
    Scheduler.Batch.process_queue ops (cluster nodes) before tt
    ≡ (ok (cluster nodes, queues (command 2 ∷ []) (command 2 ∷ []) []), tt)
unfolding Scheduler.Batch.process_queue ◌>>=◌
submitted_one = refl

process_queue_alternates_example :
    Submitted before (queues (command 2 ∷ []) (command 2 ∷ []) [])
    × (◌≡◌ {A = ResourceManager} (cluster nodes) (cluster nodes))
process_queue_alternates_example =
    process_queue_alternates ops (cluster nodes) (cluster nodes) before
      (queues (command 2 ∷ []) (command 2 ∷ []) []) tt tt submitted_one

-- The command, when the monitor has found that it has ended.
abbrev ended : Command
ended = record (command 2) {
  resources = some (record two_nodes { resources = [] });
  model_package = record ((command 2).model_package) {
    timestamps = (zero_time, "End execution") ∷ (zero_time, "Start execution") ∷ [];
  };
}

one_ended :
    Monitor.process_queue clock ops (cluster first_node) after tt
    ≡ (ok (cluster nodes, queues (command 2 ∷ []) [] (ended ∷ [])), tt)
unfolding Monitor.process_queue Monitor.poll Monitor.finish release ResourceManager.check_in
    ResourceList.check_in log_timestamp ◌>>=◌
one_ended = refl

process_queue_collects_example :
    Swept
      (sweep (cluster first_node) after.running after.completed)
      (sweep (cluster nodes) [] (ended ∷ []))
    × ((queues (command 2 ∷ []) [] (ended ∷ [])).queued ≡ after.queued)
    × Sorted clock ops tt tt [] [] after.running [] (ended ∷ [])
process_queue_collects_example =
    process_queue_collects clock ops (cluster first_node) (cluster nodes) after
      (queues (command 2 ∷ []) [] (ended ∷ [])) tt tt
      (record {
        keyed = record { at_cpu = refl; at_gpu = tt };
        staffed = ((refl, refl), tt);
        idle = tt;
      })
      one_ended

calm : IsCalm clock ops
calm = record {
  get_time = Returns-pure zero_time;
  set_resources = λ c r. Returns-pure (record c { resources = some r });
  execute = λ c. Returns-pure c;
}

two_possible : IsServable (cluster nodes) (command 2)
two_possible = record { some_asked = refl; possible = omega arith }

process_queue_returns_example :
    (r : ResourceManager × StateDb) × (w' : World) × (Scheduler.Basic.process_queue clock ops false
        (cluster nodes)
        before
        tt
      ≡ (ok r, w'))
process_queue_returns_example =
    process_queue_returns clock ops calm (cluster nodes) before tt
      (two_possible, (two_possible, tt))

-- A speculative command that runs on two nodes, and a regular one that waits for them.
abbrev guess : Command
guess = record (command 2) {
  model_package = record ((command 2).model_package) { priority = Priority.speculative };
  resources = some two_nodes;
}

abbrev cancelled_guess : Command
cancelled_guess = record guess { resources = some (record two_nodes { resources = [] }) }

guess_cancelled :
    Scheduler.Basic.process_queue clock ops true
      (cluster first_node)
      (queues (command 2 ∷ []) (guess ∷ []) [])
      tt
    ≡ (ok (cluster nodes, queues (command 2 ∷ cancelled_guess ∷ []) [] []), tt)
unfolding Scheduler.Basic.process_queue Scheduler.Basic.process Scheduler.Basic.cancel
    Scheduler.Basic.preempt ResourceManager.get_number_free_resources release
    ResourceManager.check_in ResourceList.check_in ◌>>=◌
guess_cancelled = refl

one_free : ResourceManager.get_number_free_resources (cluster first_node) < 64
unfolding ResourceManager.get_number_free_resources
one_free = omega arith

process_queue_preempts_example :
    Preempted (command 2 ∷ []) (guess ∷ []) (command 2 ∷ cancelled_guess ∷ []) []
process_queue_preempts_example =
    process_queue_preempts clock ops (cluster first_node) (cluster nodes)
      (queues (command 2 ∷ []) (guess ∷ []) []) (queues (command 2 ∷ cancelled_guess ∷ []) [] []) tt
      tt (record { at_cpu = refl; at_gpu = tt }) one_free guess_cancelled
