-- ===== src/Broker/Cycle/Accounts.antt =====
-- What a round of the broker does with packages, commands and resources, with a basic scheduler.
use arl_hierarchical_multisc.Base.{
  All, ℕ, ◌+◌, ◌≡◌, refl, sym, subst, ◌∙◌, ap, String, Bool, List, [], ◌∷◌, arith, count_if,
}
use arl_hierarchical_multisc.Base.Effect.{
  Ensures-returns, ok, Ensures, Ensures->>=, Ensures-pure, Ensures-mono,
}
use arl_hierarchical_multisc.ResourceList.{ResourceType}
use arl_hierarchical_multisc.ResourceManager.Accounts.{available}
use arl_hierarchical_multisc.ModelPackage.{ModelPackage}
use arl_hierarchical_multisc.Command.{Command}
use arl_hierarchical_multisc.StateDb.Ledger.{IsIdle, IsStaffed, lent}
use arl_hierarchical_multisc.Scheduler
use arl_hierarchical_multisc.Scheduler.{Scheduler}
use arl_hierarchical_multisc.Scheduler.Basic.{pass}
use arl_hierarchical_multisc.Scheduler.Basic.Accounts.{IsConsistent, Sound}
use arl_hierarchical_multisc.Scheduler.Basic.Conservation.{process_queue-Sound}
use arl_hierarchical_multisc.Monitor.Conservation.{process_queue-Swept}
use arl_hierarchical_multisc.Broker.{Environment}
use arl_hierarchical_multisc.Broker.Commands.Admission.{
  addressed, sent, create_commands-Created, schedule_commands-Admitted,
}
use arl_hierarchical_multisc.Broker.Filters.{
  Verdict, completed, failed, completed_packages, failed_packages,
}
use arl_hierarchical_multisc.Broker.Filters.Retries.{
  Address, address, AllJudged, apply_output_filters-AllJudged,
}
use arl_hierarchical_multisc.Broker.Cycle.{
  Broker, Clients, get_completed_commands, process_scheduler, admit, process_if_completed, restart,
  evaluate,
}

-- How many packages that the broker works on have an address with a property.
abbrev pub pending : (Address → Bool) → Broker → ℕ
pending p b = addressed p b.state_db.queued + addressed p b.state_db.running

-- How many resources, free or lent to a running command, have a type and a property.
abbrev pub owned : ResourceType → (String → Bool) → Broker → ℕ
owned t q b = count_if q (available t b.manager) + lent t q b.state_db.running

-- The scheduler is basic; queued commands hold nothing, and each running one what it asks for.
pub record IsStocked (speculative : Bool) (b : Broker) : Type 0 where
  pub scheme : b.scheduler ≡ Scheduler.basic speculative
  pub consistent : IsConsistent (pass b.manager b.state_db.queued b.state_db.running)

-- From one broker to the next, packages come in and go out, and no resource does.
pub record Balances (speculative : Bool) (come go : (Address → Bool) → ℕ) (b b' : Broker)
    : Type 0 where
  pub stocked : IsStocked speculative b'
  pub packages : (p : Address → Bool) → pending p b' + go p ≡ pending p b + come p
  pub resources : (t : ResourceType) (q : String → Bool) → owned t q b' ≡ owned t q b

abbrev no_packages : (Address → Bool) → ℕ
no_packages p = 0

Balances-refl : {s : Bool} (b : Broker) → IsStocked s b → Balances s no_packages no_packages b b
Balances-refl b k = record { stocked = k; packages = λ p. refl; resources = λ t q. refl }

Judged-sent :
    (cs : List Command) (vs : List Verdict)
    → AllJudged cs vs
    → (p : Address → Bool)
    → sent p (completed_packages vs) + sent p (failed_packages vs) ≡ addressed p cs
Judged-sent [] [] j p = refl
Judged-sent [] (v ∷ vs) j p = absurd j
Judged-sent (c ∷ cs) [] j p = absurd j
Judged-sent (c ∷ cs) (completed q ∷ vs) (j, js) p =
    ground (arith, ap p j.same_address, Judged-sent cs vs js p)
Judged-sent (c ∷ cs) (failed q ∷ vs) (j, js) p =
    ground (arith, ap p j.same_address, Judged-sent cs vs js p)

module _ {W : Type 0} (env : Environment W) (clients : Clients W) (speculative : Bool) where
  admit-Balances :
      (ps : List ModelPackage) (b : Broker)
      → IsStocked speculative b
      → Ensures (admit env clients ps b) (Balances speculative (λ p. sent p ps) no_packages b)
  unfolding admit
  admit-Balances ps b k =
      Ensures->>= _
        (create_commands-Created env b.command_factory b.output_directory b.command_counter ps)
        λ (counter, cs) made.
          Ensures->>= _ (schedule_commands-Admitted env cs b.state_db made.idle) λ db a.
            Ensures-pure _ (record {
              stocked = record {
                scheme = k.scheme;
                consistent = record {
                  keyed = k.consistent.keyed;
                  idle = a.idle k.consistent.idle;
                  staffed = subst (All IsStaffed) (sym a.same_running) k.consistent.staffed;
                };
              };
              packages =
                  λ p. omega (arith, a.count p, made.count p, ap (addressed p) a.same_running);
              resources = λ t q. omega (arith, ap (lent t q) a.same_running);
            })

  dispatch_conserves :
      (b : Broker) (k : IsStocked speculative b)
      → Ensures
          (Scheduler.process_queue env.clock env.ops b.scheduler b.manager b.state_db)
          (λ (m', db').
            Sound
              (pass b.manager b.state_db.queued b.state_db.running)
              (pass m' db'.queued db'.running))
  unfolding Scheduler.process_queue
  dispatch_conserves b k =
      subst
        (λ s.
          Ensures (Scheduler.process_queue env.clock env.ops s b.manager b.state_db) (λ (m', db').
            Sound (pass b.manager b.state_db.queued b.state_db.running)
              (pass m' db'.queued db'.running)))
        (sym k.scheme)
        (Ensures-mono (λ r h. h.0)
          (process_queue-Sound env.clock env.ops speculative b.manager b.state_db k.consistent))

  process_scheduler-Balances :
      (b : Broker)
      → IsStocked speculative b
      → Ensures (process_scheduler env clients b) (Balances speculative no_packages no_packages b)
  unfolding process_scheduler
  process_scheduler-Balances b k =
      Ensures->>= _ (dispatch_conserves b k) λ (m, db) (consistent, kept). Ensures-pure _ (record {
        stocked = record { scheme = k.scheme; consistent = consistent };
        packages = λ p. omega (arith, kept.commands (λ c. p (address c.model_package)));
        resources = kept.resources;
      })

  -- The completed commands leave the queues.
  get_completed_commands-Balances :
      (b : Broker)
      → IsStocked speculative b
      → Ensures
          (get_completed_commands env clients b)
          (λ b'. Balances speculative no_packages (λ p. addressed p b'.state_db.completed) b b')
  unfolding get_completed_commands
  get_completed_commands-Balances b k =
      Ensures->>= _
        (process_queue-Swept env.clock env.ops b.manager (record b.state_db { completed = [] })
          (record { keyed = k.consistent.keyed; staffed = k.consistent.staffed; idle = tt }))
        λ (m, db) ((watched, moved), same_queued). Ensures-pure _ (record {
          stocked = record {
            scheme = k.scheme;
            consistent = record {
              keyed = watched.keyed;
              idle = subst (All IsIdle) (sym same_queued) k.consistent.idle;
              staffed = watched.staffed;
            };
          };
          packages = λ p. omega (
            arith,
            moved.commands (λ c. p (address c.model_package)),
            ap (addressed p) same_queued,
          );
          resources = moved.resources;
        })

  process_if_completed-Balances :
      (cs : List Command) (b : Broker)
      → IsStocked speculative b
      → Ensures
          (process_if_completed env clients cs b)
          (Balances speculative no_packages no_packages b)
  unfolding process_if_completed
  process_if_completed-Balances [] b k = Ensures-pure _ (Balances-refl b k)
  process_if_completed-Balances (c ∷ cs) b k = process_scheduler-Balances b k

  restart-Balances :
      (ps : List ModelPackage) (b : Broker)
      → IsStocked speculative b
      → Ensures (restart env clients ps b) (Balances speculative (λ p. sent p ps) no_packages b)
  unfolding restart
  restart-Balances [] b k = Ensures-pure _ (Balances-refl b k)
  restart-Balances (p ∷ ps) b k = Ensures->>= _ (admit-Balances (p ∷ ps) b k) λ b₁ a.
      Ensures-mono
        (λ b₂ s. record {
          stocked = s.stocked;
          packages = λ p. omega (arith, a.packages p, s.packages p);
          resources = λ t q. s.resources t q ∙ a.resources t q;
        })
        (process_scheduler-Balances b₁ a.stocked)

  pub evaluate-Balances :
      (packages : List ModelPackage) (b : Broker)
      → IsStocked speculative b
      → Ensures
          (evaluate env clients packages b)
          (λ (b', done). Balances speculative (λ p. sent p packages) (λ p. sent p done) b b')
  unfolding evaluate
  evaluate-Balances packages b k = Ensures->>= _ (admit-Balances packages b k) λ b₁ a.
      Ensures->>= _ (process_scheduler-Balances b₁ a.stocked) λ b₂ s.
        Ensures->>= _ (get_completed_commands-Balances b₂ s.stocked) λ b₃ g.
          let cs = b₃.state_db.completed in
          Ensures->>= _ (process_if_completed-Balances cs b₃ g.stocked) λ b₄ f.
            Ensures->>= _ (apply_output_filters-AllJudged env cs) λ vs judged.
              Ensures->>= {P = λ _. Unit} _ (record { run = λ w a e. tt })
                λ policy _.
                  Ensures->>= _
                    (restart-Balances (failed_packages vs) (record b₄ { cleanup_policy = policy })
                      (record { scheme = f.stocked.scheme; consistent = f.stocked.consistent }))
                    λ b₅ r. Ensures-pure _ (record {
                      stocked = r.stocked;
                      packages = λ p. omega (
                        arith,
                        a.packages p,
                        s.packages p,
                        g.packages p,
                        f.packages p,
                        r.packages p,
                        Judged-sent cs vs judged p,
                      );
                      resources = λ t q.
                          r.resources t q
                          ∙ f.resources t q
                          ∙ g.resources t q
                          ∙ s.resources t q
                          ∙ a.resources t q;
                    })

  -- Suppose that a broker has a basic scheduler, that each list of its manager stands under its
  -- own type, that queued commands hold nothing, and that each running command holds as many
  -- resources as it asks for, of the type that it asks for. When a round then returns, all of that
  -- still holds; the packages that wait or run after it, together with those that it has
  -- completed, are those that waited, ran or were received, each counted as often, up to what a
  -- package keeps (its id, communicator ids and priority); and the resources that are free or held
  -- by running commands are the same as before.
  pub evaluate_conserves :
      (packages done : List ModelPackage) (b b' : Broker) (w w' : W)
      → IsStocked speculative b
      → evaluate env clients packages b w ≡ (ok (b', done), w')
      → Balances speculative (λ p. sent p packages) (λ p. sent p done) b b'
  evaluate_conserves packages done b b' w w' k e =
      Ensures-returns (evaluate-Balances packages b k) w w' (b', done) e
