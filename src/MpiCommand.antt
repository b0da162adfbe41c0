-- ===== src/MpiCommand.antt =====
-- base/MPICommand.cc: a command that runs as a child process. The constructor's copy of the
-- environment and what the child does up to `execve` are not modelled.
pub mod Lifecycle
pub mod Settling
use arl_hierarchical_multisc.Base.{
  some, ℕ, zero, suc, String, Bool, true, false, List, [], ◌∷◌, if◌then◌else◌,
}
use arl_hierarchical_multisc.Base.Int.{ℤ, pos, negsuc}
use arl_hierarchical_multisc.Base.Effect.{M, pure, throw, os_error, ◌>>=◌, ◌>>◌}
use arl_hierarchical_multisc.Base.Decimal.{◌<<◌}
use arl_hierarchical_multisc.ResourceList.{ResourceList}
use arl_hierarchical_multisc.ModelPackage.{Clock, Handle, Model}
use arl_hierarchical_multisc.Command.{Command, CommandStatus}

-- The system's calls: `vfork` returns to the parent the child's number, or -1; `waitpid` returns 0
-- where the child runs still (with WNOHANG), or -1; `kill` sends SIGKILL, and returns 0 or -1. What
-- predicates and the generator of machine files do is the user's.
pub record Processes (W : Type 0) : Type 0 where
  pub vfork : Command → M W ℤ
  pub poll : ℤ → M W ℤ
  pub wait : ℤ → M W ℤ
  pub kill : ℤ → M W ℤ
  pub evaluate : Handle → Command → M W Bool
  pub write_file : String → String → M W (Unit {0})
  pub write_machinefile : String → ResourceList → M W (Unit {0})

-- Comparisons with -1 and with 0.
abbrev pub is_minus_one : ℤ → Bool
is_minus_one (pos n) = false
is_minus_one (negsuc zero) = true
is_minus_one (negsuc (suc n)) = false

abbrev pub is_zero : ℤ → Bool
is_zero (pos zero) = true
is_zero (pos (suc n)) = false
is_zero (negsuc n) = false

abbrev pub joined : List String → String
joined [] = ""
joined (a ∷ arguments) = a << " " << joined arguments

-- The text of the script.
abbrev pub script_of : Model → String
script_of m = "#! /bin/sh\nexec " << m.prefix << " " << m.executable << " " << joined m.arguments

module _ {W : Type 0} (clock : Clock W) (processes : Processes W) where
  open processes use {vfork, poll, wait, kill, evaluate, write_file, write_machinefile}

  unfoldable pub execute : Command → M W Command
  execute c = do
    time ← clock.get_time
    pid ← vfork (record c { start_time = time })
    if is_minus_one pid
        then throw os_error
        else pure (record c { start_time = time; running_process = pid })

  unfoldable pub generate : Command → M W (Unit {0})
  generate c = write_file c.script (script_of c.model_package.model)

  unfoldable pub set_resources : Command → ResourceList → M W Command
  set_resources c r = do
    write_machinefile (c.directory << "/machinefile") r
    pure (record c { resources = some r })

  unfoldable pub terminate : Command → M W Command
  terminate c = do
    killed ← kill c.running_process
    if is_minus_one killed then throw os_error else (do
      waited ← wait c.running_process
      if is_minus_one waited
          then throw os_error
          else pure (record c { running_process = negsuc 0 }))

  -- `status && predicate->evaluate(*this)` over the predicates.
  unfoldable pub all_hold : Bool → List Handle → Command → M W Bool
  all_hold status [] c = pure status
  all_hold status (p ∷ ps) c = do
    next ← if status then evaluate p c else pure false
    all_hold next ps c

  -- From the time of the end on.
  unfoldable pub end : Command → M W (CommandStatus × Command)
  unfolding all_hold
  end c = do
    time ← clock.get_time
    let c' : Command = record c { end_time = time; running_process = negsuc 0 }
    done ← all_hold true c'.end_predicates c'
    pure (if done then CommandStatus.completed else CommandStatus.error, c')

  -- Where the child runs still: the status predicates decide whether it may go on.
  unfoldable pub check_running : Command → M W (CommandStatus × Command)
  unfolding all_hold terminate end
  check_running c = do
    going ← all_hold true c.status_predicates c
    if going then pure (CommandStatus.running, c) else (do c' ← terminate c; end c')

  unfoldable pub get_status : Command → M W (CommandStatus × Command)
  unfolding check_running end
  get_status c = if is_minus_one c.running_process then end c else (do
    status ← poll c.running_process
    if is_minus_one status
        then throw os_error
        else if is_zero status
        then check_running c
        else end c)
