-- ===== src/Scheduler.antt =====
-- scheduler/: how queued commands are started.
pub mod Basic
pub mod Batch
use arl_hierarchical_multisc.Base.{Bool}
use arl_hierarchical_multisc.Base.Effect.{M}
use arl_hierarchical_multisc.ResourceManager.{ResourceManager}
use arl_hierarchical_multisc.ModelPackage.{Clock}
use arl_hierarchical_multisc.Command.{CommandOps}
use arl_hierarchical_multisc.StateDb.{StateDb}

-- The object of a derived class; a basic scheduler is speculative or not.
pub data Scheduler : Type 0 where
  basic : Bool → Scheduler
  batch_queue : Scheduler

unfoldable pub process_queue :
    {W : Type 0}
    → Clock W
    → CommandOps W
    → Scheduler
    → ResourceManager
    → StateDb
    → M W (ResourceManager × StateDb)
process_queue clock ops (basic speculative) m db = Basic.process_queue clock ops speculative m db
process_queue clock ops batch_queue m db = Batch.process_queue ops m db
