-- ===== src/Scheduler/Basic.antt =====
-- scheduler/BasicScheduler.cc. An iterator into a queue is the queue split in two: the items before
-- it, and the items from it on. Popping the item at the iterator drops it from the second part.
pub mod Accounts
pub mod Cancelling
pub mod Conservation
pub mod Greed
pub mod Progress
pub mod Preempting
use arl_hierarchical_multisc.Base.{
  ℕ, ◌+◌, ◌%◌, Bool, true, false, not, List, [], ◌∷◌, ◌++◌, length, ltb, leb, ◌==◌, if◌then◌else◌,
}
use arl_hierarchical_multisc.Base.Int.{ℤ, pos, ltb_ℤ, to_unsigned, unsigned_mod}
use arl_hierarchical_multisc.Base.Effect.{M, pure, throw, lift, range_error, ◌>>=◌}
use arl_hierarchical_multisc.ResourceList.{ResourceList}
use arl_hierarchical_multisc.ResourceManager
use arl_hierarchical_multisc.ResourceManager.{ResourceManager}
use arl_hierarchical_multisc.Queue
use arl_hierarchical_multisc.Queue.{Queue}
use arl_hierarchical_multisc.ModelPackage.{Clock, log_timestamp}
use arl_hierarchical_multisc.Command.{
  Command, CommandOps, get_resource_amount, get_resource_type, is_speculative,
}
use arl_hierarchical_multisc.StateDb.{StateDb, release}

-- What a pass over the queues works on.
pub record Pass : Type 0 where
  pub manager : ResourceManager
  pub queued : Queue Command
  pub running : Queue Command

abbrev pub pass : ResourceManager → Queue Command → Queue Command → Pass
pass m q r = record { manager = m; queued = q; running = r }

module _ {W : Type 0} (ops : CommandOps W) where
  -- Terminate a running command and give back its resources.
  unfoldable pub preempt : ResourceManager → Command → M W (ResourceManager × Command)
  preempt m c = do c' ← ops.terminate c; lift (release m c')

  -- The two nested loops that cancel speculative commands, one for each queued command. The first
  -- two queues are split at `queuedIter`, the last two at `runningIter`. The outer loop's test of the
  -- queued command is repeated, with the same outcome, for each running command that is skipped.
  unfoldable pub cancel : ResourceManager → (passed waiting kept rest : Queue Command) → M W Pass
  unfolding preempt
  cancel m passed waiting kept [] = pure (pass m (passed ++ waiting) kept)
  cancel m passed [] kept (r ∷ rest) = pure (pass m passed (kept ++ r ∷ rest))
  cancel m passed (q ∷ waiting) kept (r ∷ rest) =
      if is_speculative q
      then pure (pass m (passed ++ q ∷ waiting) (kept ++ r ∷ rest))
      else if is_speculative r
      then (do
        (m', r') ← preempt m r
        cancel m' (passed ++ q ∷ []) (Queue.add waiting r') kept rest)
      else cancel m passed (q ∷ waiting) (kept ++ r ∷ []) rest

module _ {W : Type 0} (clock : Clock W) (ops : CommandOps W) where
  -- Set the resources of a command and execute it.
  unfoldable pub launch : Command → ResourceList → M W Command
  unfolding log_timestamp
  launch c acquired = do
    c₁ ← ops.set_resources c acquired
    p ← log_timestamp clock c₁.model_package "Start execution"
    ops.execute (record c₁ { model_package = p })

  -- The loop over the queued commands: those before the iterator, the running ones, and those from
  -- the iterator on.
  unfoldable pub start : ResourceManager → (skipped running rest : Queue Command) → M W Pass
  unfolding launch
  start m skipped running [] = pure (pass m skipped running)
  start m skipped running (c ∷ rest) =
      if ltb_ℤ (get_resource_amount c) (pos 1) then throw range_error else (do
        (m', acquired) ←
            lift (ResourceManager.check_out m (get_resource_type c) (get_resource_amount c))
        if length acquired.resources == 0 then start m' (skipped ++ c ∷ []) running rest else (do
          c' ← launch c acquired
          if not (ResourceManager.has_resources_available m')
              then pure (pass m' (skipped ++ rest) (Queue.add running c'))
              else start m' skipped (Queue.add running c') rest))

  -- With few resources free, the speculative scheme cancels and returns.
  unfoldable pub process : Bool → Pass → M W Pass
  unfolding cancel start
  process speculative s =
      if speculative
      then if ltb (ResourceManager.get_number_free_resources s.manager) 64
        then cancel ops s.manager [] s.queued [] s.running
        else start s.manager [] s.running s.queued
      else if not (ResourceManager.has_resources_available s.manager)
      then pure s
      else start s.manager [] s.running s.queued

  unfoldable pub process_queue : Bool → ResourceManager → StateDb → M W (ResourceManager × StateDb)
  unfolding process
  process_queue speculative m db = do
    s ← process speculative (pass m db.queued db.running)
    pure (s.manager, record db { queued = s.queued; running = s.running })

unfoldable pub get_number_free_resources : ResourceManager → ℕ
get_number_free_resources m = ResourceManager.get_number_free_resources m

unfoldable pub get_number_queued_jobs : StateDb → ℕ
get_number_queued_jobs db = Queue.size db.queued % unsigned_mod

unfoldable pub get_number_queued_jobs_all_users : StateDb → ℕ
get_number_queued_jobs_all_users db = get_number_queued_jobs db

used : ℕ → Queue Command → ℕ
used acc [] = acc
used acc (c ∷ q) = used ((acc + to_unsigned (get_resource_amount c)) % unsigned_mod) q

unfoldable pub get_number_used_resources : StateDb → ℕ
unfolding used
get_number_used_resources db = used 0 db.running

unfoldable pub get_number_total_resources : StateDb → ℕ
get_number_total_resources db = 0
