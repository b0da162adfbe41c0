-- ===== src/Tests.antt =====
-- Small inputs, on which the theorems of the other modules are applied: a world that has nothing to
-- remember, a clock that stands still, and commands that run at once.
pub mod Resources
pub mod Scheduling
pub mod Connections
pub mod Rounds
pub mod Processes
pub mod Streams
pub mod Sampling
pub mod Placement
pub mod Launching
pub mod Building
pub mod Prediction
pub mod Clients
use arl_hierarchical_multisc.Base.{ℕ, Bool, true, false, none, some, String, [], ◌∷◌, refl}
use arl_hierarchical_multisc.Base.Int.{ℤ, pos, negsuc}
use arl_hierarchical_multisc.Base.Effect.{pure, Ensures-pure}
use arl_hierarchical_multisc.ResourceList
use arl_hierarchical_multisc.ResourceList.{ResourceList, cpu}
use arl_hierarchical_multisc.ResourceManager.{ResourceManager}
use arl_hierarchical_multisc.ModelPackage
use arl_hierarchical_multisc.ModelPackage.{
  ModelPackage, Model, Clock, Timespec, Argument, Priority, zero_time,
}
use arl_hierarchical_multisc.Command
use arl_hierarchical_multisc.Command.{Command, CommandOps, CommandStatus}

abbrev pub World : Type 0
World = Unit

abbrev pub clock : Clock World
clock = record { get_time = pure zero_time }

abbrev pub ops : CommandOps World
ops = record {
  execute = λ c. pure c;
  generate = λ c. pure tt;
  get_status = λ c. pure (CommandStatus.completed, c);
  set_resources = λ c r. pure (record c { resources = some r });
  terminate = λ c. pure c;
  execute_keeps = λ c. Ensures-pure c (refl, refl);
  get_status_keeps = λ c. Ensures-pure (CommandStatus.completed, c) (refl, refl);
  set_resources_keeps = λ c r. Ensures-pure (record c { resources = some r }) (refl, refl);
  terminate_keeps = λ c. Ensures-pure c (refl, refl);
}

abbrev pub model : ℕ → Model
model amount = record {
  prefix = "";
  executable = "model.exe";
  arguments = [];
  resource_type = cpu;
  resource_amount = pos amount;
}

abbrev pub argument : Argument
argument = record { object = 1; to_cleanup = true }

abbrev pub work : ℕ → ModelPackage
work amount = ModelPackage.new (model amount) none none argument

abbrev pub command : ℕ → Command
command amount =
    Command.new (work amount) "out/0" "out/0/script.sh" "out/0/output.out" "out/0/error.err" [] []

abbrev pub nodes : ResourceList
nodes = ResourceList.new cpu ("n1" ∷ "n2" ∷ "n3" ∷ [])

-- The list of nodes with the first of them left, and what has been lent.
abbrev pub first_node : ResourceList
first_node = record nodes { resources = "n1" ∷ [] }

abbrev pub two_nodes : ResourceList
two_nodes = ResourceList.new cpu ("n2" ∷ "n3" ∷ [])

abbrev pub cluster : ResourceList → ResourceManager
cluster r = record { cpu_list = some r; gpu_list = none }
