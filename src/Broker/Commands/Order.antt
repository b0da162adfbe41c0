-- ===== src/Broker/Commands/Order.antt =====
-- In which order commands are scheduled.
use arl_hierarchical_multisc.Base.{
  ap₂, ℕ, ◌≡◌, refl, sym, ◌∙◌, ap, List, [], ◌∷◌, ◌++◌, map, map-append, append-nil, append_assoc,
  arith,
}
use arl_hierarchical_multisc.Base.Effect.{
  Ensures-returns, ok, Ensures, Ensures->>=, Ensures-pure, Ensures-mono,
}
use arl_hierarchical_multisc.Queue
use arl_hierarchical_multisc.Queue.{Queue}
use arl_hierarchical_multisc.Queue.Sort.{IsDescending, level, sort_stable}
use arl_hierarchical_multisc.ModelPackage.{rank, log_timestamp}
use arl_hierarchical_multisc.Command.{Command, ticket, get_priority}
use arl_hierarchical_multisc.StateDb.{StateDb}
use arl_hierarchical_multisc.Scheduler.Basic.Accounts.{log_timestamp_keeps}
use arl_hierarchical_multisc.Broker.{Environment}
use arl_hierarchical_multisc.Broker.Commands.{compare_command_priority, enqueue, schedule_commands}

abbrev pub priority_of : Command → ℕ
priority_of c = rank (get_priority c)

-- What is settled of the commands of one priority hangs on what is settled of all.
map-level :
    (k : ℕ) (q : Queue Command)
    → map ticket (level priority_of k q) ≡ level priority_of k (map ticket q)
map-level k [] = refl
map-level k (c ∷ q) = ground (arith, map-level k q)

-- The former queue, and behind it the commands.
record Enqueued (cs : List Command) (db db' : StateDb) : Type 0 where
  added : Queue Command
  behind : db'.queued ≡ db.queued ++ added
  same : map ticket added ≡ map ticket cs
  same_running : db'.running ≡ db.running
  same_completed : db'.completed ≡ db.completed

pub record Scheduled (cs : List Command) (db db' : StateDb) : Type 0 where
  pub descending : IsDescending priority_of db'.queued
  pub in_order :
      (k : ℕ)
      → level priority_of k (map ticket db'.queued)
        ≡ level priority_of k (map ticket (db.queued ++ cs))
  pub running_kept : db'.running ≡ db.running
  pub completed_kept : db'.completed ≡ db.completed

module _ {W : Type 0} (env : Environment W) where
  enqueue-Enqueued :
      (cs : List Command) (db : StateDb) → Ensures (enqueue env cs db) (Enqueued cs db)
  unfolding enqueue
  enqueue-Enqueued [] db = Ensures-pure db (record {
    added = [];
    behind = sym (append-nil db.queued);
    same = refl;
    same_running = refl;
    same_completed = refl;
  })
  enqueue-Enqueued (c ∷ cs) db =
      Ensures->>= (log_timestamp env.clock c.model_package "Scheduled command")
        (log_timestamp_keeps env.clock c.model_package "Scheduled command")
        λ p logged.
          let c' : Command = record c { model_package = p } in
          Ensures-mono
            (λ db' e. record {
              added = c' ∷ e.added;
              behind = e.behind ∙ append_assoc db.queued (c' ∷ []) e.added;
              same = ap₂ ◌∷◌ (ap (λ q. record (ticket c) { model_package = q }) logged) e.same;
              same_running = e.same_running;
              same_completed = e.same_completed;
            })
            (enqueue-Enqueued cs (record db { queued = db.queued ++ c' ∷ [] }))

  pub schedule_commands-Scheduled :
      (c : Command) (cs : List Command) (db : StateDb)
      → Ensures (schedule_commands env (c ∷ cs) db) (Scheduled (c ∷ cs) db)
  unfolding schedule_commands compare_command_priority
  schedule_commands-Scheduled c cs db =
      Ensures->>= (enqueue env (c ∷ cs) db) (enqueue-Enqueued (c ∷ cs) db) λ db₁ e.
        let (descending, levels) = sort_stable priority_of db₁.queued in
        Ensures-pure _ (record {
          descending = descending;
          in_order = λ k.
              sym (map-level k (Queue.sort compare_command_priority db₁.queued))
              ∙ ap (map ticket) (levels k)
              ∙ map-level k db₁.queued
              ∙ ap (level priority_of k) (
                  ap (map ticket) e.behind
                  ∙ map-append ticket db.queued e.added
                  ∙ ap (◌++◌ (map ticket db.queued)) e.same
                  ∙ sym (map-append ticket db.queued (c ∷ cs)));
          running_kept = e.same_running;
          completed_kept = e.same_completed;
        })

  -- When commands, at least one, have been scheduled, the queue descends by priority; and the commands
  -- of each priority are the queued ones of that priority in their order, and behind them the new ones
  -- in theirs. The running and the completed queue are as before.
  pub schedule_commands_orders :
      (c : Command) (cs : List Command) (db db' : StateDb) (w w' : W)
      → schedule_commands env (c ∷ cs) db w ≡ (ok db', w')
      → Scheduled (c ∷ cs) db db'
  schedule_commands_orders c cs db db' w w' e =
      Ensures-returns (schedule_commands-Scheduled c cs db) w w' db' e
