-- ===== src/Broker/Commands.antt =====
-- commandsFromModelPackages and scheduleCommands of broker/BasicBroker.cc.
pub mod Order
pub mod Admission
use arl_hierarchical_multisc.Base.{
  ℕ, ◌+◌, ◌%◌, ◌^◌, String, Bool, true, false, Option, none, some, List, [], ◌∷◌, ◌++◌,
  if◌then◌else◌, ltb,
}
use arl_hierarchical_multisc.Base.Effect.{M, pure, throw, io_error, ◌>>=◌, ◌>>◌}
use arl_hierarchical_multisc.Base.Decimal.{decimal, ◌<<◌}
use arl_hierarchical_multisc.Queue
use arl_hierarchical_multisc.ModelPackage.{
  ModelPackage, Handle, Argument, Clock, log_timestamp, rank,
}
use arl_hierarchical_multisc.Command.{Command, get_priority}
use arl_hierarchical_multisc.StateDb.{StateDb}
use arl_hierarchical_multisc.Broker.{CommandFactory, build, Environment}

unfoldable pub compare_command_priority : Command → Command → Bool
compare_command_priority first second = ltb (rank (get_priority second)) (rank (get_priority first))

-- `++d_commandCounter` on an `unsigned long`.
abbrev pub next_counter : ℕ → ℕ
next_counter n = (n + 1) % 2 ^ 64

module _ {W : Type 0} (env : Environment W) where
  open env use {clock, ops, mkdir, apply_input_filter}

  abbrev input_filtered : Option Handle → Argument → String → M W Argument
  input_filtered none argument directory = pure argument
  input_filtered (some f) argument directory = apply_input_filter f argument directory

  -- The body of the loop: the command for one package, in a directory of its own.
  unfoldable pub create_command : CommandFactory → String → ℕ → ModelPackage → M W Command
  unfolding log_timestamp
  create_command factory output_directory counter p = do
    let directory = output_directory << "/" << decimal counter
    p₁ ← log_timestamp clock p ("Start input filter " << decimal counter)
    made ← mkdir directory
    if made then pure tt else throw io_error
    let c = build factory p₁ directory
    ops.generate c
    argument ← input_filtered p₁.input_filter p₁.argument directory
    p₂ ← log_timestamp clock (record p₁ { argument = argument }) "End input filter"
    pure (record c { model_package = p₂ })

  -- The counter after the call, and the commands.
  unfoldable pub create_commands :
      CommandFactory → String → ℕ → List ModelPackage → M W (ℕ × List Command)
  unfolding create_command
  create_commands factory output_directory counter [] = pure (counter, [])
  create_commands factory output_directory counter (p ∷ ps) = do
    c ← create_command factory output_directory counter p
    (counter', cs) ← create_commands factory output_directory (next_counter counter) ps
    pure (counter', c ∷ cs)

  enqueue : List Command → StateDb → M W StateDb
  unfolding log_timestamp
  enqueue [] db = pure db
  enqueue (c ∷ cs) db = do
    p ← log_timestamp clock c.model_package "Scheduled command"
    enqueue cs (record db { queued = Queue.add db.queued (record c { model_package = p }) })

  unfoldable pub schedule_commands : List Command → StateDb → M W StateDb
  unfolding enqueue Queue.sort
  schedule_commands [] db = pure db
  schedule_commands (c ∷ cs) db = do
    db' ← enqueue (c ∷ cs) db
    pure (record db' { queued = Queue.sort compare_command_priority db'.queued })
