-- ===== src/Monitor.antt =====
-- monitor/BasicMonitor.cc. The iterator splits the running queue as in the scheduler.
pub mod Directions
pub mod Conservation
use arl_hierarchical_multisc.Base.{List, [], ◌∷◌, ◌++◌}
use arl_hierarchical_multisc.Base.Effect.{M, pure, throw, lift, command_error, ◌>>=◌}
use arl_hierarchical_multisc.ResourceManager.{ResourceManager}
use arl_hierarchical_multisc.Queue
use arl_hierarchical_multisc.Queue.{Queue}
use arl_hierarchical_multisc.ModelPackage.{Clock, log_timestamp}
use arl_hierarchical_multisc.Command.{Command, CommandOps, CommandStatus}
use arl_hierarchical_multisc.StateDb.{StateDb, release}

pub record Sweep : Type 0 where
  pub manager : ResourceManager
  pub running : Queue Command
  pub completed : Queue Command

abbrev pub sweep : ResourceManager → Queue Command → Queue Command → Sweep
sweep m r c = record { manager = m; running = r; completed = c }

-- `switch(status)`, with the error thrown where the command failed.
abbrev pub switch : {W A : Type 0} → CommandStatus → M W A → M W A → M W A
switch CommandStatus.running when_running when_completed = when_running
switch CommandStatus.completed when_running when_completed = when_completed
switch CommandStatus.error when_running when_completed = throw command_error

module _ {W : Type 0} (clock : Clock W) (ops : CommandOps W) where
  -- Log the end of a command and give back its resources.
  unfoldable pub finish : ResourceManager → Command → M W (ResourceManager × Command)
  unfolding log_timestamp
  finish m c = do
    p ← log_timestamp clock c.model_package "End execution"
    lift (release m (record c { model_package = p }))

  -- The loop over the running commands: those before the iterator, the completed ones, and those
  -- from the iterator on.
  unfoldable pub poll : ResourceManager → (kept completed rest : Queue Command) → M W Sweep
  unfolding finish
  poll m kept completed [] = pure (sweep m kept completed)
  poll m kept completed (c ∷ rest) = do
    (status, c') ← ops.get_status c
    switch status (poll m (kept ++ c' ∷ []) completed rest)
        (do (m', done) ← finish m c'; poll m' kept (Queue.add completed done) rest)

  unfoldable pub process_queue : ResourceManager → StateDb → M W (ResourceManager × StateDb)
  unfolding poll
  process_queue m db = do
    s ← poll m [] db.completed db.running
    pure (s.manager, record db { running = s.running; completed = s.completed })
