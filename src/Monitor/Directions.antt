-- ===== src/Monitor/Directions.antt =====
-- What a sweep of the monitor does with each running command, by the status that it reports.
use arl_hierarchical_multisc.Base.{
  ◌≡◌, subst, sym, ◌∙◌, ap, [], ◌∷◌, ◌++◌, append_assoc, append-nil,
}
use arl_hierarchical_multisc.Base.Effect.{ok, bind-returns, pure-returns, throw-returns, ◌>>=◌}
use arl_hierarchical_multisc.ResourceManager.{ResourceManager}
use arl_hierarchical_multisc.Queue.{Queue}
use arl_hierarchical_multisc.ModelPackage.{Clock}
use arl_hierarchical_multisc.Command.{Command, CommandOps, CommandStatus}
use arl_hierarchical_multisc.StateDb.{StateDb}
use arl_hierarchical_multisc.Monitor.{Sweep, finish, poll, process_queue, switch}

module _ {W : Type 0} (clock : Clock W) (ops : CommandOps W) where
  -- From one world to another, each command has been asked for its status, in turn: one that runs
  -- stays, as it was then, and one that is completed is finished, and is among those that have ended.
  pub data Told : W → (asked stay end : Queue Command) → W → Type 0 where
    nobody : {w : W} → Told w [] [] [] w
    stays :
        {c c' : Command} {w w₁ w' : W} {cs ks es : Queue Command}
        → ops.get_status c w ≡ (ok (CommandStatus.running, c'), w₁)
        → Told w₁ cs ks es w'
        → Told w (c ∷ cs) (c' ∷ ks) es w'
    ends :
        {c c' done : Command} {w w₁ w₂ w' : W} {cs ks es : Queue Command} (m m' : ResourceManager)
        → ops.get_status c w ≡ (ok (CommandStatus.completed, c'), w₁)
        → finish clock ops m c' w₁ ≡ (ok (m', done), w₂)
        → Told w₂ cs ks es w'
        → Told w (c ∷ cs) ks (done ∷ es) w'

  -- The queues after a sweep: the commands that stay run, in their order, and those that have ended
  -- stand behind the completed ones.
  abbrev pub Sorted :
      (w w' : W) → (kept completed rest running' completed' : Queue Command) → Type 0
  Sorted w w' kept completed rest running' completed' =
      (ks : Queue Command) × (es : Queue Command) × Told w rest ks es w'
      × (running' ≡ kept ++ ks)
      × (completed' ≡ completed ++ es)

  -- What was done about a command comes before what was done about the others.
  after-stays :
      {c c' : Command} (kept completed : Queue Command) {rest running' completed' : Queue Command}
      {w w₁ w' : W}
      → ops.get_status c w ≡ (ok (CommandStatus.running, c'), w₁)
      → Sorted w₁ w' (kept ++ c' ∷ []) completed rest running' completed'
      → Sorted w w' kept completed (c ∷ rest) running' completed'
  after-stays {c' = c'} kept before asked (ks, es, told, running, completed) =
      (c' ∷ ks, es, stays asked told, running ∙ append_assoc kept (c' ∷ []) ks, completed)

  after-ends :
      {c c' done : Command} (kept completed : Queue Command) (m m' : ResourceManager)
      {rest running' completed' : Queue Command} {w w₁ w₂ w' : W}
      → ops.get_status c w ≡ (ok (CommandStatus.completed, c'), w₁)
      → finish clock ops m c' w₁ ≡ (ok (m', done), w₂)
      → Sorted w₂ w' kept (completed ++ done ∷ []) rest running' completed'
      → Sorted w w' kept completed (c ∷ rest) running' completed'
  after-ends {done = done} kept before m m' asked finished (ks, es, told, running, completed) = (
    ks,
    done ∷ es,
    ends m m' asked finished told,
    running,
    completed ∙ append_assoc before (done ∷ []) es,
  )

  switch-Sorted :
      (m : ResourceManager) (kept completed rest : Queue Command) (s : Sweep) (w w₁ w' : W)
      (c c' : Command) (status : CommandStatus)
      → ops.get_status c w ≡ (ok (status, c'), w₁)
      → (poll clock ops m (kept ++ c' ∷ []) completed rest w₁ ≡ (ok s, w')
          → Sorted w₁ w' (kept ++ c' ∷ []) completed rest s.running s.completed)
      → ((m' : ResourceManager) (done : Command) (w₂ : W)
          → poll clock ops m' kept (completed ++ done ∷ []) rest w₂ ≡ (ok s, w')
          → Sorted w₂ w' kept (completed ++ done ∷ []) rest s.running s.completed)
      → switch status
          (poll clock ops m (kept ++ c' ∷ []) completed rest)
          (finish clock ops m c' >>= λ (m', done).
            poll clock ops m' kept (completed ++ done ∷ []) rest)
          w₁
        ≡ (ok s, w')
      → Sorted w w' kept completed (c ∷ rest) s.running s.completed
  switch-Sorted m kept completed rest s w w₁ w' c c' CommandStatus.running asked stay end e =
      after-stays kept completed asked (stay e)
  switch-Sorted m kept completed rest s w w₁ w' c c' CommandStatus.completed asked stay end e =
      let ((m', done), w₂, finished, after) = bind-returns (finish clock ops m c') _ w₁ w' s e in
      after-ends kept completed m m' asked finished (end m' done w₂ after)
  switch-Sorted m kept completed rest s w w₁ w' c c' CommandStatus.error asked stay end e =
      absurd (throw-returns _ w₁ e)

  poll-Sorted :
      (m : ResourceManager) (kept completed rest : Queue Command) (s : Sweep) (w w' : W)
      → poll clock ops m kept completed rest w ≡ (ok s, w')
      → Sorted w w' kept completed rest s.running s.completed
  unfolding poll
  poll-Sorted m kept completed [] s w w' e =
      let (same, still) = pure-returns e in
      (
        [],
        [],
        subst (Told w [] [] []) still nobody,
        ap (λ s. s.running) (sym same) ∙ sym (append-nil kept),
        ap (λ s. s.completed) (sym same) ∙ sym (append-nil completed),
      )
  poll-Sorted m kept completed (c ∷ rest) s w w' e =
      let ((status, c'), w₁, asked, after) = bind-returns (ops.get_status c) _ w w' s e in
      switch-Sorted m kept completed rest s w w₁ w' c c' status asked
        (poll-Sorted m (kept ++ c' ∷ []) completed rest s w₁ w')
        (λ m' done w₂. poll-Sorted m' kept (completed ++ done ∷ []) rest s w₂ w') after

  pub process_queue-Sorted :
      (m m' : ResourceManager) (db db' : StateDb) (w w' : W)
      → process_queue clock ops m db w ≡ (ok (m', db'), w')
      → Sorted w w' [] db.completed db.running db'.running db'.completed
  unfolding process_queue
  process_queue-Sorted m m' db db' w w' e =
      let (s, w₁, polled, after) =
        bind-returns (poll clock ops m [] db.completed db.running) _ w w' _ e in
      let (same, still) = pure-returns after in
      let (ks, es, told, running, completed) =
        poll-Sorted m [] db.completed db.running s w w₁ polled in
      (
        ks,
        es,
        subst (Told w db.running ks es) still told,
        ap (λ r. r.1.running) (sym same) ∙ running,
        ap (λ r. r.1.completed) (sym same) ∙ completed,
      )
