-- ===== src/Broker/Commands/Admission.antt =====
-- Commands for model packages: none is lost, and none holds resources.
use arl_hierarchical_multisc.Base.{
  ℕ, ◌+◌, ◌≡◌, refl, ◌∙◌, ap, String, Bool, List, [], ◌∷◌, ◌++◌, arith, count_if, count_if-append,
  All, All-append,
}
use arl_hierarchical_multisc.Base.Effect.{Ensures, Ensures->>=, Ensures-pure, Ensures-mono}
use arl_hierarchical_multisc.Queue.Sort.{count_if-sort, All-sort}
use arl_hierarchical_multisc.ModelPackage.{ModelPackage, log_timestamp}
use arl_hierarchical_multisc.Command.{Command}
use arl_hierarchical_multisc.StateDb.{StateDb}
use arl_hierarchical_multisc.StateDb.Ledger.{IsIdle}
use arl_hierarchical_multisc.Scheduler.Basic.Accounts.{log_timestamp_keeps}
use arl_hierarchical_multisc.Broker.{Environment, CommandFactory}
use arl_hierarchical_multisc.Broker.Commands.{
  next_counter, create_command, create_commands, enqueue, schedule_commands,
  compare_command_priority,
}
use arl_hierarchical_multisc.Broker.Filters.Retries.{Address, address}

-- How many commands of a queue, or packages of a list, have an address with a property.
abbrev pub addressed : (Address → Bool) → List Command → ℕ
addressed p cs = count_if (λ c. p (address c.model_package)) cs

abbrev pub sent : (Address → Bool) → List ModelPackage → ℕ
sent p ps = count_if (λ q. p (address q)) ps

-- A command for each package, with its address, that holds nothing.
pub record Created (ps : List ModelPackage) (cs : List Command) : Type 0 where
  pub idle : All IsIdle cs
  pub count : (p : Address → Bool) → addressed p cs ≡ sent p ps

-- The queue has the commands besides its own.
pub record Admitted (added : (Address → Bool) → ℕ) (db db' : StateDb) : Type 0 where
  pub idle : All IsIdle db.queued → All IsIdle db'.queued
  pub count : (p : Address → Bool) → addressed p db'.queued ≡ addressed p db.queued + added p
  pub same_running : db'.running ≡ db.running

module _ {W : Type 0} (env : Environment W) where
  create_command-Created :
      (factory : CommandFactory) (directory : String) (counter : ℕ) (p : ModelPackage)
      → Ensures
          (create_command env factory directory counter p)
          (λ c. IsIdle c × (address c.model_package ≡ address p))
  unfolding create_command
  create_command-Created factory directory counter p =
      Ensures->>= (log_timestamp env.clock p _) (log_timestamp_keeps env.clock p _) λ p₁ logged.
        Ensures->>= {P = λ _. Unit} _ (record { run = λ w a e. tt })
          λ made _.
            Ensures->>= {P = λ _. Unit} _ (record { run = λ w a e. tt })
              λ _ _.
                Ensures->>= {P = λ _. Unit} _ (record { run = λ w a e. tt })
                  λ _ _.
                    Ensures->>= {P = λ _. Unit} _ (record { run = λ w a e. tt })
                      λ argument _.
                        let q : ModelPackage = record p₁ { argument = argument } in
                        Ensures->>= (log_timestamp env.clock q "End input filter")
                          (log_timestamp_keeps env.clock q "End input filter")
                          λ p₂ logged'.
                            Ensures-pure _ (refl, ap address logged' ∙ ap address logged)

  pub create_commands-Created :
      (factory : CommandFactory) (directory : String) (counter : ℕ) (ps : List ModelPackage)
      → Ensures (create_commands env factory directory counter ps) (λ r. Created ps r.1)
  unfolding create_commands
  create_commands-Created factory directory counter [] =
      Ensures-pure _ (record { idle = tt; count = λ p. refl })
  create_commands-Created factory directory counter (q ∷ ps) =
      Ensures->>= _ (create_command-Created factory directory counter q) λ c (idle, same).
        Ensures->>= _ (create_commands-Created factory directory (next_counter counter) ps)
          λ (n, cs) rest. Ensures-pure _ (record {
            idle = (idle, rest.idle);
            count = λ p. ground (arith, ap p same, rest.count p);
          })

  enqueue-Admitted :
      (cs : List Command) (db : StateDb)
      → All IsIdle cs
      → Ensures (enqueue env cs db) (Admitted (λ p. addressed p cs) db)
  unfolding enqueue
  enqueue-Admitted [] db idle =
      Ensures-pure db (record { idle = λ h. h; count = λ p. omega arith; same_running = refl })
  enqueue-Admitted (c ∷ cs) db idle =
      Ensures->>= (log_timestamp env.clock c.model_package "Scheduled command")
        (log_timestamp_keeps env.clock c.model_package "Scheduled command")
        λ q logged.
          let c' : Command = record c { model_package = q } in
          Ensures-mono
            (λ db' a. record {
              idle = λ h. a.idle (All-append IsIdle db.queued (c' ∷ []) h (idle.0, tt));
              count = λ p. ground (
                arith,
                a.count p,
                count_if-append (λ k. p (address k.model_package)) db.queued (c' ∷ []),
                ap (λ k. p (address k)) logged,
              );
              same_running = a.same_running;
            })
            (enqueue-Admitted cs (record db { queued = db.queued ++ c' ∷ [] }) idle.1)

  pub schedule_commands-Admitted :
      (cs : List Command) (db : StateDb)
      → All IsIdle cs
      → Ensures (schedule_commands env cs db) (Admitted (λ p. addressed p cs) db)
  unfolding schedule_commands
  schedule_commands-Admitted [] db idle =
      Ensures-pure db (record { idle = λ h. h; count = λ p. omega arith; same_running = refl })
  schedule_commands-Admitted (c ∷ cs) db idle =
      Ensures->>= (enqueue env (c ∷ cs) db) (enqueue-Admitted (c ∷ cs) db idle) λ db₁ a.
        Ensures-pure _ (record {
          idle = λ h. All-sort IsIdle compare_command_priority db₁.queued (a.idle h);
          count = λ p.
              count_if-sort (λ k. p (address k.model_package)) compare_command_priority db₁.queued
              ∙ a.count p;
          same_running = a.same_running;
        })
