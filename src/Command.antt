-- ===== src/Command.antt =====
-- base/Command.cc, base/Command.h and base/CommandStatus.h: a model package that is evaluated in a
-- directory. The virtual functions are an interface: the commands' own classes run processes.
use arl_hierarchical_multisc.Base.{◌≡◌, String, Bool, Option, none, some, List, [], ◌==◌}
use arl_hierarchical_multisc.Base.Int.{ℤ, negsuc}
use arl_hierarchical_multisc.Base.Effect.{M, Ensures}
use arl_hierarchical_multisc.ResourceList.{ResourceType, ResourceList}
use arl_hierarchical_multisc.ModelPackage.{
  ModelPackage, Handle, Priority, rank, Timespec, zero_time, time_subtract,
}

pub data CommandStatus : Type 0 where
  running completed error : CommandStatus

-- `running_process` is the field of the derived classes MPICommand and PBSCommand.
pub record Command : Type 0 where
  pub model_package : ModelPackage
  pub directory : String
  pub script : String
  pub std_out : String
  pub std_error : String
  pub status_predicates : List Handle
  pub end_predicates : List Handle
  pub resources : Option ResourceList
  pub start_time : Timespec
  pub end_time : Timespec
  pub running_process : ℤ

abbrev pub new :
    ModelPackage → String → String → String → String → List Handle → List Handle → Command
new p directory script std_out std_error status_predicates end_predicates = record {
  model_package = p;
  directory = directory;
  script = script;
  std_out = std_out;
  std_error = std_error;
  status_predicates = status_predicates;
  end_predicates = end_predicates;
  resources = none;
  start_time = zero_time;
  end_time = zero_time;
  running_process = negsuc 0;
}

abbrev pub get_priority : Command → Priority
get_priority c = c.model_package.priority

abbrev pub get_resource_amount : Command → ℤ
get_resource_amount c = c.model_package.model.resource_amount

abbrev pub get_resource_type : Command → ResourceType
get_resource_type c = c.model_package.model.resource_type

unfoldable pub get_wall_clock_time : Command → Timespec
get_wall_clock_time c = time_subtract c.end_time c.start_time

abbrev pub is_speculative : Command → Bool
is_speculative c = rank (get_priority c) == rank Priority.speculative

-- What is settled when the command is built: all but its time stamps, resources and process.
abbrev pub ticket : Command → Command
ticket c = record c {
  model_package = record p { timestamps = [] };
  resources = none;
  start_time = zero_time;
  end_time = zero_time;
  running_process = negsuc 0;
}
  where
    p : ModelPackage
    p = c.model_package

-- The virtual functions, and what the callers rely on: none changes what is settled, and only
-- `set_resources` changes the resources.
pub record CommandOps (W : Type 0) : Type 0 where
  pub execute : Command → M W Command
  pub generate : Command → M W (Unit {0})
  pub get_status : Command → M W (CommandStatus × Command)
  pub set_resources : Command → ResourceList → M W Command
  pub terminate : Command → M W Command
  pub execute_keeps :
      (c : Command)
      → Ensures (execute c) (λ c'. (ticket c' ≡ ticket c) × (c'.resources ≡ c.resources))
  pub get_status_keeps :
      (c : Command)
      → Ensures (get_status c) (λ r. (ticket r.1 ≡ ticket c) × (r.1.resources ≡ c.resources))
  pub set_resources_keeps :
      (c : Command) (r : ResourceList)
      → Ensures (set_resources c r) (λ c'. (ticket c' ≡ ticket c) × (c'.resources ≡ some r))
  pub terminate_keeps :
      (c : Command)
      → Ensures (terminate c) (λ c'. (ticket c' ≡ ticket c) × (c'.resources ≡ c.resources))
