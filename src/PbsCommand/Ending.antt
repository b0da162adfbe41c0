-- ===== src/PbsCommand/Ending.antt =====
-- PBS commands keep the laws of the command interface; what their script needs; what is signalled when
-- one is terminated.
use arl_hierarchical_multisc.Base.{
  Bool-cases, inl, inr, ◌≡◌, ◌≢◌, refl, ap, ◌∙◌, ◌&&◌, Option, none, some, String, List, [], ◌∷◌,
  ◌==◌, if◌then◌else◌,
}
use arl_hierarchical_multisc.Base.Int.{ℤ, negsuc}
use arl_hierarchical_multisc.Base.Effect.{
  Result, ok, err, os_error, io_error, Ensures, Ensures->>=, Ensures-pure, Ensures-throw,
  Ensures-lift, Ensures-if, Ensures-mono, Ensures-returns, bind-world, pure, throw, lift, ◌>>=◌,
}
use arl_hierarchical_multisc.ResourceList.{ResourceList}
use arl_hierarchical_multisc.Command.{Command, CommandOps, ticket}
use arl_hierarchical_multisc.MpiCommand.{is_minus_one}
use arl_hierarchical_multisc.AdaptiveSampling.Tally.{Ensures-any}
use arl_hierarchical_multisc.PbsCommand.{
  BatchSystem, BatchQueueSettings, present, first_argument, before_last_slash,
  number_processors_per_node, wait_for_submission, execute, generate, get_status, set_resources,
  terminate,
}

abbrev pub IsSame : Command → Command → Type 0
IsSame c c' = (ticket c' ≡ ticket c) × (c'.resources ≡ c.resources)

-- A command whose script can be written.
pub record IsSubmittable {W : Type 0} (system : BatchSystem W) (c : Command) : Type 0 where
  pub batch_settings : BatchQueueSettings
  pub has_settings : system.settings c.model_package ≡ some batch_settings
  pub input : String
  pub others : List String
  pub has_input : c.model_package.model.arguments ≡ input ∷ others

present-some :
    {A : Type 0} (missing : Result A) (o : Option A) (a : A)
    → ((b : A) → missing ≢ ok b)
    → present missing o ≡ ok a
    → o ≡ some a
present-some missing none a never e = absurd (never a e)
present-some missing (some b) a never e = cc

first_argument-cons :
    (as' : List String) (a : String)
    → first_argument as' ≡ ok a
    → (rest : List String) × (as' ≡ a ∷ rest)
first_argument-cons [] a e = absurd (cc)
first_argument-cons (b ∷ rest) a e = (rest, cc)

module _ {W : Type 0} (system : BatchSystem W) where
  pub execute-IsSame : (c : Command) → Ensures (execute system c) (IsSame c)
  unfolding execute wait_for_submission
  execute-IsSame c = Ensures->>= (system.vfork c) Ensures-any λ pid _.
      Ensures-if (is_minus_one pid) (λ _. Ensures-throw _)
        λ _. Ensures->>= (system.waitpid pid) Ensures-any λ r _.
          Ensures-if (is_minus_one r.0) (λ _. Ensures-throw _)
            λ _.
              Ensures-if (r.1 && r.2 == 0) (λ _. Ensures-pure _ (refl, refl)) (λ _. Ensures-throw _)

  pub get_status-IsSame : (c : Command) → Ensures (get_status system c) (λ r. IsSame c r.1)
  unfolding get_status
  get_status-IsSame c = Ensures->>= (system.exists _) Ensures-any λ _ _. Ensures-pure _ (refl, refl)

  pub set_resources-keeps :
      (c : Command) (r : ResourceList)
      → Ensures (set_resources system c r) (λ c'. (ticket c' ≡ ticket c) × (c'.resources ≡ some r))
  unfolding set_resources
  set_resources-keeps c r = Ensures-pure _ (refl, refl)

  pub terminate-IsSame :
      (c : Command)
      → Ensures (terminate system c) (λ c'. IsSame c c' × (c'.running_process ≡ negsuc 0))
  unfolding terminate
  terminate-IsSame c = Ensures->>= (system.kill c.running_process) Ensures-any λ killed _.
      Ensures-if (is_minus_one killed) (λ _. Ensures-throw _)
        (λ _. Ensures-pure _ ((refl, refl), refl))

  -- PBS commands implement the interface that the schedulers and the monitor call.
  abbrev pub pbs_ops : CommandOps W
  pbs_ops = record {
    execute = execute system;
    generate = generate system;
    get_status = get_status system;
    set_resources = set_resources system;
    terminate = terminate system;
    execute_keeps = execute-IsSame;
    get_status_keeps = get_status-IsSame;
    set_resources_keeps = set_resources-keeps;
    terminate_keeps = λ c. Ensures-mono (λ c' h. h.0) (terminate-IsSame c);
  }

  generate-IsSubmittable : (c : Command) → Ensures (generate system c) (λ _. IsSubmittable system c)
  unfolding generate
  generate-IsSubmittable c = Ensures->>= (system.getenv _) Ensures-any λ account _.
      Ensures->>= (lift (present (err os_error) account)) Ensures-any λ account_id _.
        Ensures->>= (system.getenv _) Ensures-any λ gauss _.
          Ensures->>= (lift (present (err os_error) gauss)) Ensures-any λ path _.
            Ensures->>= (lift (present (err io_error) (system.settings c.model_package)))
              (Ensures-lift _ (λ s e. present-some (err io_error) _ s (λ b. λ x. cc) e))
              λ s hs.
                Ensures->>= (lift (present (err io_error) (before_last_slash path))) Ensures-any
                  λ directory _.
                    Ensures->>= (number_processors_per_node system) Ensures-any λ cpus _.
                      Ensures->>= (lift (first_argument c.model_package.model.arguments))
                        (Ensures-lift _ (first_argument-cons c.model_package.model.arguments))
                        λ input hi.
                          Ensures-mono
                            (λ _ _. record {
                              batch_settings = s;
                              has_settings = hs;
                              input = input;
                              others = hi.0;
                              has_input = hi.1;
                            })
                            (Ensures-any {m = system.write_file _ _})

  -- When `generate` returns, the package has batch queue settings and its model has at least one
  -- argument: without either, no script is written.
  pub generate_needs :
      (c : Command) (w w' : W) → generate system c w ≡ (ok tt, w') → IsSubmittable system c
  generate_needs c w w' e = Ensures-returns (generate-IsSubmittable c) w w' tt e

  ended_world :
      (c : Command) (r : ℤ) (w : W) → ((if is_minus_one r then throw os_error else pure c) w).1 ≡ w
  unfolding ◌>>=◌
  ended_world c r w = elim (Bool-cases (is_minus_one r)) [ inl e ↦ rw e | inr e ↦ rw e ]

  terminate-world :
      (c : Command) (w : W) → (terminate system c w).1 ≡ (system.kill c.running_process w).1
  unfolding terminate
  terminate-world c w =
      bind-world (system.kill c.running_process) _ w
        (λ r w'. ended_world (record c { running_process = negsuc 0 }) r w')

  -- To terminate a command that has been terminated is to call `kill` with -1, which signals every
  -- process that it may: the world after the second call, whatever has happened in between, is the one
  -- that this call of `kill` leaves.
  pub terminate_again :
      (c c' : Command) (w w' v : W)
      → terminate system c w ≡ (ok c', w')
      → (terminate system c' v).1 ≡ (system.kill (negsuc 0) v).1
  terminate_again c c' w w' v e =
      let (same, ended) = Ensures-returns (terminate-IsSame c) w w' c' e in
      terminate-world c' v ∙ ap (λ pid. (system.kill pid v).1) ended
