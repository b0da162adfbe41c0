-- ===== src/PbsCommand.antt =====
-- base/PBSCommand.cc, base/NumberProcessorsPerNode.cc and the data of base/BatchQueueSettings.cc: a
-- command that is handed to a batch system. What the child does up to `execv` is not modelled.
pub mod Ending
use arl_hierarchical_multisc.Base.{
  ℕ, Bool, true, false, not, ◌&&◌, Option, none, some, String, List, [], ◌∷◌, ◌==◌, if◌then◌else◌,
}
use arl_hierarchical_multisc.Base.Int.{ℤ, pos, negsuc}
use arl_hierarchical_multisc.Base.Decimal.{decimal, ◌<<◌}
use arl_hierarchical_multisc.Base.Effect.{
  M, Result, ok, err, io_error, os_error, undefined, pure, throw, lift, ◌>>=◌, ◌>>◌,
}
use arl_hierarchical_multisc.ResourceList.{ResourceList}
use arl_hierarchical_multisc.ModelPackage.{ModelPackage}
use arl_hierarchical_multisc.Command.{Command, CommandStatus}
use arl_hierarchical_multisc.MpiCommand.{is_minus_one, joined}
use Prim.Native.Char.{code}
use Prim.Native.Nat.{Ordering}
use Prim.Native.String.{slice, compare}

pub record BatchQueueSettings : Type 0 where
  pub queue : String
  pub walltime : String
  pub number_nodes : ℕ

-- The system's calls: `vfork` returns to the parent the child's number, or -1; `waitpid` returns its
-- result, whether the child exited, and its exit status; `kill` sends SIGTERM, and returns 0 or -1;
-- `exists` says whether a file can be opened. The settings are a part of the package,
-- and ask for no negative number of nodes.
pub record BatchSystem (W : Type 0) : Type 0 where
  pub vfork : Command → M W ℤ
  pub waitpid : ℤ → M W (ℤ × Bool × ℕ)
  pub kill : ℤ → M W ℤ
  pub getenv : String → M W (Option String)
  pub exists : String → M W Bool
  pub write_file : String → String → M W (Unit {0})
  pub settings : ModelPackage → Option BatchQueueSettings

abbrev pub pbs_output_path : Command → String
pbs_output_path c = c.directory << "/pbs_output"

abbrev pub pbs_error_path : Command → String
pbs_error_path c = c.directory << "/pbs_error"

-- A name that is there.
abbrev pub present : {A : Type 0} → Result A → Option A → Result A
present missing none = missing
present missing (some a) = ok a

-- `substr(0, rfind("/"))`.
unfoldable pub before_last_slash : String → Option String
before_last_slash (String.[]) = none
before_last_slash (String.◌∷◌ c s) = elim (before_last_slash s) [
  | some t ↦ some (String.◌∷◌ c t)
  | none ↦ if code c == 47 then some "" else none
]

abbrev pub same_name : String → String → Bool
same_name a b = elim (compare a b) [ Ordering.eq ↦ true | _ ↦ false ]

-- The map has one machine.
abbrev pub cpus_of : String → Result ℕ
cpus_of host = if same_name host "hostname" then ok 1 else err io_error

-- `modelArguments[0]` of no arguments is undefined.
abbrev pub first_argument : List String → Result String
first_argument [] = err undefined
first_argument (a ∷ rest) = ok a

-- The name of the job has at most 15 characters.
abbrev pub job_name : String → String
job_name a = slice a 0 15

abbrev pub script_of : String → String → String → BatchQueueSettings → ℕ → Command → String → String
script_of account gaussian_path gaussian_directory s cpus c input =
    "#!/bin/csh\n#PBS -A "
    << account
    << "\n#PBS -l walltime="
    << s.walltime
    << "\n#PBS -l select="
    << decimal s.number_nodes
    << ":ncpus="
    << decimal cpus
    << ":mpiprocs="
    << decimal cpus
    << "\n#PBS -q "
    << s.queue
    << "\n#PBS -e "
    << pbs_error_path c
    << "\n#PBS -o "
    << pbs_output_path c
    << "\n#PBS -N "
    << job_name input
    << "\n\ncd $PBS_O_WORKDIR\n\nset PBS_NUM_PROCS=`cat ${PBS_NODEFILE} | wc -l`\n"
    << "sed -i \"s/nprocs=.*/nprocs=${PBS_NUM_PROCS}/g\" "
    << input
    << "\nsetenv GAUSS_EXEDIR \""
    << gaussian_directory
    << "\"\n "
    << gaussian_path
    << " "
    << joined c.model_package.model.arguments
    << "\n"

module _ {W : Type 0} (system : BatchSystem W) where
  open system use {vfork, waitpid, kill, getenv, exists, write_file, settings}

  -- `HMS_PBS_QSUB` has been run, and has ended well.
  unfoldable pub wait_for_submission : Command → ℤ → M W Command
  wait_for_submission c pid = do
    (waited, exited, status) ← waitpid pid
    if is_minus_one waited
        then throw os_error
        else if exited && status == 0
        then pure (record c { running_process = pid })
        else throw os_error

  unfoldable pub execute : Command → M W Command
  unfolding wait_for_submission
  execute c = do
    pid ← vfork c
    if is_minus_one pid then throw os_error else wait_for_submission c pid

  -- NumberProcessorsPerNode.
  unfoldable pub number_processors_per_node : M W ℕ
  number_processors_per_node = do
    host ← getenv "BC_HOST"
    name ← lift (present (err os_error) host)
    lift (cpus_of name)

  unfoldable pub generate : Command → M W (Unit {0})
  unfolding number_processors_per_node before_last_slash
  generate c = do
    account ← getenv "HMS_PBS_ACCOUNT_ID"
    account_id ← lift (present (err os_error) account)
    gauss ← getenv "HMS_GAUSSIAN_PATH"
    gaussian_path ← lift (present (err os_error) gauss)
    s ← lift (present (err io_error) (settings c.model_package))
    gaussian_directory ← lift (present (err io_error) (before_last_slash gaussian_path))
    cpus ← number_processors_per_node
    input ← lift (first_argument c.model_package.model.arguments)
    write_file c.script (script_of account_id gaussian_path gaussian_directory s cpus c input)

  -- PBS writes its output when the job has ended.
  unfoldable pub get_status : Command → M W (CommandStatus × Command)
  get_status c = do
    ended ← exists (pbs_output_path c)
    pure (if ended then CommandStatus.completed else CommandStatus.running, c)

  -- Command::setResources.
  unfoldable pub set_resources : Command → ResourceList → M W Command
  set_resources c r = pure (record c { resources = some r })

  unfoldable pub terminate : Command → M W Command
  terminate c = do
    killed ← kill c.running_process
    if is_minus_one killed then throw os_error else pure (record c { running_process = negsuc 0 })
