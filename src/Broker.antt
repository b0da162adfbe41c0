-- ===== src/Broker.antt =====
-- broker/BasicBroker.cc and base/CommandFactory.cc: what a broker is, and what it asks of its
-- environment (the file system, the clock, the connections, the user's filters).
pub mod Commands
pub mod Filters
pub mod Cycle
pub mod Config
pub mod Factory
use arl_hierarchical_multisc.Base.{ℕ, String, Bool, Option, List, ◌++◌}
use arl_hierarchical_multisc.Base.Effect.{M}
use arl_hierarchical_multisc.Base.Decimal.{◌<<◌}
use arl_hierarchical_multisc.ModelPackage.{ModelPackage, Handle, Argument, Clock}
use arl_hierarchical_multisc.Command
use arl_hierarchical_multisc.Command.{Command, CommandOps}
use arl_hierarchical_multisc.CleanupPolicy.{Disk}
use arl_hierarchical_multisc.Warehouse.{Carrier}

pub data CommandType : Type 0 where
  mpi pbs : CommandType

pub record CommandFactory : Type 0 where
  pub command_type : CommandType
  pub status_predicates : List Handle
  pub end_predicates : List Handle

abbrev paths : CommandType → String → String × String
paths mpi directory = (directory << "/output.out", directory << "/error.err")
paths pbs directory = (directory << "/output", directory << "/error")

-- The predicates of the factory come before those of the package.
abbrev pub build : CommandFactory → ModelPackage → String → Command
build factory p directory =
    Command.new p directory (directory << "/script.sh") out.0 out.1
      (factory.status_predicates ++ p.status_predicates)
      (factory.end_predicates ++ p.end_predicates)
  where
    out : String × String
    out = paths factory.command_type directory

-- What the output filter of the user returned: a value (which may be a null pointer), or an IOError.
pub data Filtered : Type 0 where
  value : Option Handle → Filtered
  io_failed : Filtered

-- `mkdir` returns whether it succeeded. A filter may write in the argument that it is given.
pub record Environment (W : Type 0) : Type 0 where
  pub clock : Clock W
  pub ops : CommandOps W
  pub carrier : Carrier W
  pub disk : Disk W
  pub mkdir : String → M W Bool
  pub apply_input_filter : Handle → Argument → String → M W Argument
  pub apply_output_filter : Handle → String → String → Argument → M W (Filtered × Argument)
