-- ===== src/MpiCommand/Lifecycle.antt =====
-- MPI commands keep the laws of the command interface.
use arl_hierarchical_multisc.Base.{◌∙◌, ◌≡◌, refl, false, some}
use arl_hierarchical_multisc.Base.Int.{negsuc}
use arl_hierarchical_multisc.Base.Effect.{
  M, Ensures, Ensures->>=, Ensures-pure, Ensures-throw, Ensures-if, Ensures-mono, Ensures-after,
}
use arl_hierarchical_multisc.ResourceList.{ResourceList}
use arl_hierarchical_multisc.ModelPackage.{Clock}
use arl_hierarchical_multisc.Command.{Command, CommandOps, ticket}
use arl_hierarchical_multisc.MpiCommand.{
  Processes, is_zero, is_minus_one, execute, generate, set_resources, terminate, end, check_running,
  get_status,
}

-- Nothing is said of what a call returns.
any : {W A : Type 0} (m : M W A) → Ensures m (λ _. Unit)
any m = record { run = λ w a e. tt }

-- The same command, with the same resources, up to its times and its process.
abbrev pub IsSame : Command → Command → Type 0
IsSame c c' = (ticket c' ≡ ticket c) × (c'.resources ≡ c.resources)

module _ {W : Type 0} (clock : Clock W) (processes : Processes W) where
  pub execute-IsSame :
      (c : Command)
      → Ensures
          (execute clock processes c)
          (λ c'. IsSame c c' × (is_minus_one c'.running_process ≡ false))
  unfolding execute
  execute-IsSame c = Ensures->>= _ (any clock.get_time) λ time _.
      Ensures->>= _ (any (processes.vfork (record c { start_time = time }))) λ pid _.
        Ensures-if (is_minus_one pid) (λ _. Ensures-throw _)
          λ started. Ensures-pure _ ((refl, refl), started)

  pub set_resources-keeps :
      (c : Command) (r : ResourceList)
      → Ensures
          (set_resources clock processes c r)
          (λ c'. (ticket c' ≡ ticket c) × (c'.resources ≡ some r))
  unfolding set_resources
  set_resources-keeps c r = Ensures->>= _ (any _) λ _ _. Ensures-pure _ (refl, refl)

  pub terminate-IsSame :
      (c : Command)
      → Ensures (terminate clock processes c) (λ c'. IsSame c c' × (c'.running_process ≡ negsuc 0))
  unfolding terminate
  terminate-IsSame c = Ensures->>= _ (any _) λ killed _.
      Ensures-if (is_minus_one killed) (λ _. Ensures-throw _)
        λ _. Ensures->>= _ (any _) λ waited _.
          Ensures-if (is_minus_one waited) (λ _. Ensures-throw _)
            λ _. Ensures-pure _ ((refl, refl), refl)

  end-IsSame : (c : Command) → Ensures (end clock processes c) (λ r. IsSame c r.1)
  unfolding end
  end-IsSame c =
      Ensures-after clock.get_time λ time. Ensures-after _ λ done. Ensures-pure _ (refl, refl)

  pub get_status-IsSame : (c : Command) → Ensures (get_status clock processes c) (λ r. IsSame c r.1)
  unfolding get_status check_running
  get_status-IsSame c =
      Ensures-if (is_minus_one c.running_process) (λ _. end-IsSame c)
        λ has_process. Ensures-after _ λ status.
          Ensures-if (is_minus_one status) (λ _. Ensures-throw _)
            λ _.
              Ensures-if (is_zero status)
                (λ _. Ensures-after _ λ going.
                  Ensures-if going (λ _. Ensures-pure _ (refl, refl))
                    λ _.
                      Ensures->>= _ (terminate-IsSame c)
                        λ c' t. Ensures-mono (λ r h. (h.0 ∙ t.0.0, h.1 ∙ t.0.1)) (end-IsSame c'))
                (λ _. end-IsSame c)

  -- MPI commands implement the interface that the schedulers and the monitor call.
  abbrev pub mpi_ops : CommandOps W
  mpi_ops = record {
    execute = execute clock processes;
    generate = generate clock processes;
    get_status = get_status clock processes;
    set_resources = set_resources clock processes;
    terminate = terminate clock processes;
    execute_keeps = λ c. Ensures-mono (λ c' h. h.0) (execute-IsSame c);
    get_status_keeps = λ c. get_status-IsSame c;
    set_resources_keeps = set_resources-keeps;
    terminate_keeps = λ c. Ensures-mono (λ c' h. h.0) (terminate-IsSame c);
  }
