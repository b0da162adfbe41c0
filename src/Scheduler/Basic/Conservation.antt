-- ===== src/Scheduler/Basic/Conservation.antt =====
-- No pass of the basic scheduler loses or makes up a command or a resource.
use arl_hierarchical_multisc.Base.{
  refl, ◌≡◌, true, false, ltb, Bool, ◌==◌, not, length, sym, subst, [], ◌∷◌, ◌++◌, append-nil,
  append_assoc,
}
use arl_hierarchical_multisc.Base.Effect.{
  Ensures-returns, ok, pure, Ensures, Ensures->>=, Ensures-pure, Ensures-throw, Ensures-lift,
  Ensures-if,
}
use arl_hierarchical_multisc.ResourceManager
use arl_hierarchical_multisc.ResourceManager.{ResourceManager}
use arl_hierarchical_multisc.ResourceManager.Accounts.{check_out-CheckedOut}
use arl_hierarchical_multisc.Queue.{Queue}
use arl_hierarchical_multisc.ModelPackage.{Clock}
use arl_hierarchical_multisc.Command.{Command, CommandOps, get_resource_type, get_resource_amount}
use arl_hierarchical_multisc.Scheduler.Basic.{
  StateDb, Pass, process_queue, process, pos, ltb_ℤ, pass, start, launch,
}
use arl_hierarchical_multisc.Scheduler.Basic.Cancelling.{cancel-Sound}
use arl_hierarchical_multisc.Scheduler.Basic.Accounts.{
  IsConsistent, Preserves-refl, Sound, launch_keeps, launch-Sound, then_Sound, skip-Sound,
}

module _ {W : Type 0} (clock : Clock W) (ops : CommandOps W) where
  pub start-Sound :
      (m : ResourceManager) (skipped running rest : Queue Command)
      → IsConsistent (pass m (skipped ++ rest) running)
      → Ensures (start clock ops m skipped running rest) (Sound (pass m (skipped ++ rest) running))
  unfolding start
  start-Sound m skipped running [] k =
      subst
        (λ q. Ensures {W = W} (pure (pass m q running)) (Sound (pass m (skipped ++ []) running)))
        (append-nil skipped) (Ensures-pure _ (k, Preserves-refl _))
  start-Sound m skipped running (c ∷ rest) k =
      Ensures-if (ltb_ℤ (get_resource_amount c) (pos 1)) (λ _. Ensures-throw _)
        λ _.
          Ensures->>= _
            (Ensures-lift
              (ResourceManager.check_out m (get_resource_type c) (get_resource_amount c))
              λ (m', r) e.
                check_out-CheckedOut m (get_resource_type c) (get_resource_amount c) m' r k.keyed e)
            λ (m', r) out.
              Ensures-if (length r.resources == 0)
                (λ none_lent.
                  then_Sound (skip-Sound m skipped running c rest m' r k out none_lent) λ k'.
                    let same = append_assoc skipped (c ∷ []) rest in
                    subst
                      (λ q.
                        Ensures (start clock ops m' (skipped ++ c ∷ []) running rest)
                          (Sound (pass m' q running)))
                      same
                      (start-Sound m' (skipped ++ c ∷ []) running rest
                        (subst (λ q. IsConsistent (pass m' q running)) (sym same) k')))
                λ some_lent.
                  Ensures->>= (launch clock ops c r) (launch_keeps clock ops c r)
                    λ c' (same, holds).
                      let launched =
                        launch-Sound m skipped running c rest m' r k out c' some_lent same holds in
                      Ensures-if (not (ResourceManager.has_resources_available m'))
                        (λ _. Ensures-pure _ launched)
                        λ _. then_Sound launched (λ k'. start-Sound m' skipped _ rest k')

  process-Sound :
      (speculative : Bool) (s : Pass)
      → IsConsistent s
      → Ensures (process clock ops speculative s) (Sound s)
  unfolding process
  process-Sound true s k =
      Ensures-if (ltb (ResourceManager.get_number_free_resources s.manager) 64)
        (λ _. cancel-Sound ops s.manager [] s.queued [] s.running k)
        (λ _. start-Sound s.manager [] s.running s.queued k)
  process-Sound false s k =
      Ensures-if (not (ResourceManager.has_resources_available s.manager))
        (λ _. Ensures-pure s (k, Preserves-refl s))
        (λ _. start-Sound s.manager [] s.running s.queued k)

  pub process_queue-Sound :
      (speculative : Bool) (m : ResourceManager) (db : StateDb)
      → IsConsistent (pass m db.queued db.running)
      → Ensures (process_queue clock ops speculative m db) (λ (m', db').
        Sound (pass m db.queued db.running) (pass m' db'.queued db'.running)
        × (db'.completed ≡ db.completed))
  unfolding process_queue
  process_queue-Sound speculative m db k =
      Ensures->>= (process clock ops speculative (pass m db.queued db.running))
        (process-Sound speculative _ k) (λ s sound. Ensures-pure _ (sound, refl))

  -- Suppose that each list of the manager stands under its own type, that queued commands hold
  -- nothing, and that each running command holds as many resources as it asks for, of the type
  -- that it asks for. When a pass of the basic scheduler then returns, in either scheme, all of
  -- that still holds; the pass has moved commands between the two queues and resources between the
  -- manager and the running commands, and has neither lost nor made up one; and the completed
  -- queue is as before.
  pub process_queue_conserves :
      (speculative : Bool) (m m' : ResourceManager) (db db' : StateDb) (w w' : W)
      → IsConsistent (pass m db.queued db.running)
      → process_queue clock ops speculative m db w ≡ (ok (m', db'), w')
      → Sound (pass m db.queued db.running) (pass m' db'.queued db'.running)
        × (db'.completed ≡ db.completed)
  process_queue_conserves speculative m m' db db' w w' k e =
      Ensures-returns (process_queue-Sound speculative m db k) w w' (m', db') e
