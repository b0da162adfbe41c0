-- ===== src/Scheduler/Batch.antt =====
-- scheduler/BatchQueueScheduler.cc, processQueue: the batch system has the resources, and each
-- queued command is submitted. The getters run PBS programs, and are not modelled.
pub mod Parity
use arl_hierarchical_multisc.Base.{[], ◌∷◌, ◌++◌}
use arl_hierarchical_multisc.Base.Effect.{M, pure, throw, undefined, ◌>>=◌}
use arl_hierarchical_multisc.ResourceManager.{ResourceManager}
use arl_hierarchical_multisc.Queue
use arl_hierarchical_multisc.Queue.{Queue}
use arl_hierarchical_multisc.Command.{Command, CommandOps}
use arl_hierarchical_multisc.StateDb.{StateDb}

module _ {W : Type 0} (ops : CommandOps W) where
  -- The loop: the queued commands that were passed over, the running ones, and the queued ones from
  -- the iterator on. The iterator moves on when its item is popped and once more at the end of the
  -- round; moving it past the end of the list is undefined.
  submit : (passed running rest : Queue Command) → M W (Queue Command × Queue Command)
  submit passed running [] = pure (passed, running)
  submit passed running (c ∷ []) = do c' ← ops.execute c; throw undefined
  submit passed running (c ∷ d ∷ rest) = do
    c' ← ops.execute c
    submit (passed ++ d ∷ []) (Queue.add running c') rest

  unfoldable pub process_queue : ResourceManager → StateDb → M W (ResourceManager × StateDb)
  unfolding submit
  process_queue m db = do
    (queued, running) ← submit [] db.running db.queued
    pure (m, record db { queued = queued; running = running })
