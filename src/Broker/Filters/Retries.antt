-- ===== src/Broker/Filters/Retries.antt =====
-- How often a package is evaluated, and what comes of each completed command.
use arl_hierarchical_multisc.Base.{
  ℕ, ◌+◌, ◌≤◌, ◌≡◌, ◌∙◌, ap, false, Option, none, List, [], ◌∷◌, arith, ltb,
}
use arl_hierarchical_multisc.Base.Effect.{
  Ensures-returns, ok, Ensures, Ensures->>=, Ensures-pure, Ensures-throw, Ensures-if,
}
use arl_hierarchical_multisc.ModelPackage.{ModelPackage, Handle, Priority, log_timestamp}
use arl_hierarchical_multisc.Command.{Command, is_speculative, get_wall_clock_time}
use arl_hierarchical_multisc.Scheduler.Basic.Accounts.{log_timestamp_keeps}
use arl_hierarchical_multisc.Broker.{Environment, Filtered, value, io_failed}
use arl_hierarchical_multisc.Broker.Filters.{
  Verdict, completed, failed, package_of, complete, judge, filter_command, apply_output_filters,
}

-- What of a package neither an evaluation nor a filter changes.
abbrev pub Address : Type 0
Address = record { id : ℕ; communicator_ids : List ℕ; priority : Priority }

abbrev pub address : ModelPackage → Address
address p = record { id = p.id; communicator_ids = p.communicator_ids; priority = p.priority }

-- A package has failed only if it is not speculative and may be evaluated again.
abbrev pub IsJustified : Command → Verdict → Type 0
IsJustified c (completed p) = p.wall_clock_time ≡ get_wall_clock_time c
IsJustified c (failed p) = (is_speculative c ≡ false) × (p.number_evaluations ≤ 5)

pub record Judged (c : Command) (v : Verdict) : Type 0 where
  pub counted : (package_of v).number_evaluations ≡ c.model_package.number_evaluations + 1
  pub same_address : address (package_of v) ≡ address c.model_package
  pub justified : IsJustified c v

-- A verdict for each command, in order.
abbrev pub AllJudged : List Command → List Verdict → Type 0
AllJudged [] [] = Unit
AllJudged [] (v ∷ vs) = ⊥
AllJudged (c ∷ cs) [] = ⊥
AllJudged (c ∷ cs) (v ∷ vs) = Judged c v × AllJudged cs vs

module _ {W : Type 0} (env : Environment W) where
  complete-Judged :
      (c : Command) (p : ModelPackage) (v : Option Handle)
      → p.number_evaluations ≡ c.model_package.number_evaluations + 1
      → address p ≡ address c.model_package
      → Ensures (complete env c p v) (Judged c)
  unfolding complete
  complete-Judged c p v counted same =
      let p₁ : ModelPackage = record p { wall_clock_time = get_wall_clock_time c; value = v } in
      Ensures->>= (log_timestamp env.clock p₁ "End output filter")
        (log_timestamp_keeps env.clock p₁ "End output filter")
        λ p' logged. Ensures-pure (completed p') (record {
          counted = ap (λ q. q.number_evaluations) logged ∙ counted;
          same_address = ap address logged ∙ same;
          justified = ap (λ q. q.wall_clock_time) logged;
        })

  judge-Judged :
      (c : Command) (p : ModelPackage) (r : Filtered)
      → p.number_evaluations ≡ c.model_package.number_evaluations + 1
      → address p ≡ address c.model_package
      → Ensures (judge env c p r) (Judged c)
  unfolding judge
  judge-Judged c p (value v) counted same = complete-Judged c p v counted same
  judge-Judged c p io_failed counted same =
      Ensures-if (is_speculative c) (λ _. complete-Judged c p none counted same)
        λ regular.
          Ensures-if (ltb 5 p.number_evaluations) (λ _. Ensures-throw _)
            λ few. Ensures-pure (failed p) (record {
              counted = counted;
              same_address = same;
              justified = (regular, ground arith);
            })

  filter_command-Judged : (c : Command) → Ensures (filter_command env c) (Judged c)
  unfolding filter_command
  filter_command-Judged c =
      let p : ModelPackage = c.model_package in
      let p₀ : ModelPackage = record p { number_evaluations = p.number_evaluations + 1 } in
      Ensures->>= (log_timestamp env.clock p₀ "Start output filter")
        (log_timestamp_keeps env.clock p₀ "Start output filter")
        λ p₁ logged.
          Ensures->>= {P = λ _. Unit} _ (record { run = λ w a e. tt })
            λ (r, argument) _.
              judge-Judged c (record p₁ { argument = argument }) r
                (ap (λ q. q.number_evaluations) logged) (ap address logged)

  pub apply_output_filters-AllJudged :
      (cs : List Command) → Ensures (apply_output_filters env cs) (AllJudged cs)
  unfolding apply_output_filters
  apply_output_filters-AllJudged [] = Ensures-pure [] tt
  apply_output_filters-AllJudged (c ∷ cs) =
      Ensures->>= (filter_command env c) (filter_command-Judged c) λ v judged.
        Ensures->>= (apply_output_filters env cs) (apply_output_filters-AllJudged cs)
          λ vs rest. Ensures-pure (v ∷ vs) (judged, rest)

  -- When a call that applies the output filters returns, there is a verdict for each completed
  -- command, in order. Its package has been evaluated once more, with its id, communicator ids and
  -- priority as before. A package is completed with the wall clock time of its command, or has
  -- failed, and then its command is not speculative and it has been evaluated at most five times.
  pub apply_output_filters_judge :
      (cs : List Command) (vs : List Verdict) (w w' : W)
      → apply_output_filters env cs w ≡ (ok vs, w')
      → AllJudged cs vs
  apply_output_filters_judge cs vs w w' e =
      Ensures-returns (apply_output_filters-AllJudged cs) w w' vs e
