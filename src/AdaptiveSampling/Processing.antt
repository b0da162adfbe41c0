-- ===== src/AdaptiveSampling/Processing.antt =====
-- Each branch of valueProcessingThread ends in one of the outcomes.
use arl_hierarchical_multisc.Base.{
  sym, ℕ, ◌≡◌, refl, ◌∙◌, false, Option, some, none, List, [], ◌∷◌, ◌++◌, map, length, arith, ◌==◌,
}
use arl_hierarchical_multisc.Base.Int.{add_zero, ◌+ℤ◌, ℤ, pos, negsuc, ◌+ℤ◌}
use arl_hierarchical_multisc.Base.Effect.{
  Ensures, Ensures->>=, Ensures-pure, Ensures-throw, Ensures-if, Ensures-mono,
}
use arl_hierarchical_multisc.ModelPackage.{ModelPackage, log_timestamp}
use arl_hierarchical_multisc.AdaptiveSampling.{Processor, Services, Shared}
use arl_hierarchical_multisc.AdaptiveSampling.Values.{
  is_speculative, new_model_package, ship, start_additional_evaluations, process_request, add_model,
  process_additional, process_with, process,
}
use arl_hierarchical_multisc.AdaptiveSampling.Tally.{IsSame, Ensures-any, log_timestamp-IsSame}
use arl_hierarchical_multisc.AdaptiveSampling.Outcome.{
  speculative_kept, request_shipped, request_started, additional_awaited, additional_completed,
  Processed, completed_after, after_speculative, after_regular, trans-IsSame, additional-new,
  IsSetAt-id,
}

module _ {W : Type 0} (services : Services W) where
  start_additional_evaluations-Processed :
      (v : Processor) (s : Shared) (p q : ModelPackage) (hint : ℤ)
      → is_speculative p.priority ≡ false
      → v.additional_evaluations p.id ≡ none
      → IsSame p q
      → Ensures
          (start_additional_evaluations services v s q hint)
          (Processed v.number_completed_evaluations v s p)
  unfolding start_additional_evaluations
  start_additional_evaluations-Processed v s p q hint regular unknown h =
      Ensures->>= (log_timestamp services.clock q _) (log_timestamp-IsSame services.clock q _)
        λ q' same.
          Ensures->>= (services.database.generate_sample_arguments q'.argument) Ensures-any
            λ arguments _. Ensures-pure _ (record {
              receive_pile = refl;
              to_process = refl;
              is_visiting = refl;
              completed = refl;
              more = map (new_model_package q' hint) arguments;
              evaluation_pile = refl;
              additional = additional-new p q' hint arguments (trans-IsSame h same);
              number = refl;
              outcome =
                  request_started (record q' { hint = hint }) q'
                    (map (new_model_package q' hint) arguments) regular unknown
                    (trans-IsSame h (record { id = same.id; priority = same.priority }))
                    (additional-new p q' hint arguments (trans-IsSame h same))
                    (IsSetAt-id q'.id p.id _ v.additional_evaluations _ (same.id ∙ h.id)
                      (λ j. refl))
                    refl refl;
            })

  ship-Processed :
      (v : Processor) (s : Shared) (p q : ModelPackage) (hint : ℤ)
      → is_speculative p.priority ≡ false
      → v.additional_evaluations p.id ≡ none
      → IsSame p q
      → Processed v.number_completed_evaluations v s p (v, ship q hint s)
  ship-Processed v s p q hint regular unknown h = record {
    receive_pile = refl;
    to_process = refl;
    is_visiting = refl;
    completed = refl;
    more = [];
    evaluation_pile = refl;
    additional = tt;
    number = add_zero s.number_evaluations;
    outcome =
        request_shipped (record q { hint = hint }) regular unknown
          (record { id = h.id; priority = h.priority }) refl refl refl;
  }

  process_request-Processed :
      (v : Processor) (s : Shared) (p : ModelPackage)
      → is_speculative p.priority ≡ false
      → v.additional_evaluations p.id ≡ none
      → Ensures (process_request services v s p) (Processed v.number_completed_evaluations v s p)
  unfolding process_request
  process_request-Processed v s p regular unknown =
      Ensures->>= (services.generator.update p) Ensures-any λ _ _.
        Ensures->>= (log_timestamp services.clock p _) (log_timestamp-IsSame services.clock p _)
          λ a ha.
            Ensures->>= (services.database.insert a.argument a.value a.hint) Ensures-any λ r _.
              Ensures->>= (log_timestamp services.clock a _)
                (log_timestamp-IsSame services.clock a _)
                λ b hb.
                  Ensures-if r.0
                    (λ _.
                      Ensures-pure _
                        (ship-Processed v s p b r.1 regular unknown (trans-IsSame ha hb)))
                    (λ _.
                      Ensures->>= (services.database.interpolate b.argument (negsuc 0)) Ensures-any
                        λ o _.
                          Ensures-if o.0.0
                            (λ _.
                              Ensures-pure _
                                (ship-Processed v s p b r.1 regular unknown (trans-IsSame ha hb)))
                            (λ _.
                              start_additional_evaluations-Processed v s p b r.1 regular unknown
                                (trans-IsSame ha hb)))

  process_additional-Processed :
      (v : Processor) (s : Shared) (p : ModelPackage) (n : ℕ) (qs : List ModelPackage)
      → is_speculative p.priority ≡ false
      → v.additional_evaluations p.id ≡ some (n, qs)
      → Ensures
          (process_additional services v s p (n, qs))
          (Processed v.number_completed_evaluations v s p)
  unfolding process_additional add_model
  process_additional-Processed v s p n qs regular known =
      Ensures-if (length (qs ++ p ∷ []) == n)
        (λ last. Ensures->>= (log_timestamp services.clock p _) Ensures-any λ _ _.
          Ensures->>= (services.database.add_new_model _ _ p.hint) Ensures-any λ r _.
            Ensures-if r.0
              (λ _. Ensures-pure _ (record {
                receive_pile = refl;
                to_process = refl;
                is_visiting = refl;
                completed = refl;
                more = [];
                evaluation_pile = refl;
                additional = tt;
                number = add_zero s.number_evaluations;
                outcome =
                    additional_completed n qs regular known (ground (arith, last)) (λ j. refl) refl
                      refl;
              }))
              (λ _. Ensures-throw _))
        (λ _. Ensures-pure _ (record {
          receive_pile = refl;
          to_process = refl;
          is_visiting = refl;
          completed = refl;
          more = [];
          evaluation_pile = refl;
          additional = tt;
          number = add_zero s.number_evaluations;
          outcome = additional_awaited n qs regular known (λ j. refl) refl refl;
        }))

  process_with-Processed :
      (v : Processor) (s : Shared) (p : ModelPackage) (o : Option (ℕ × List ModelPackage))
      → is_speculative p.priority ≡ false
      → v.additional_evaluations p.id ≡ o
      → Ensures (process_with services v s p o) (Processed v.number_completed_evaluations v s p)
  process_with-Processed v s p none regular e = process_request-Processed v s p regular e
  process_with-Processed v s p (some (n, qs)) regular e =
      process_additional-Processed v s p n qs regular e

  pub process-Processed :
      (v : Processor) (s : Shared) (p : ModelPackage)
      → Ensures (process services v s p) (Processed (completed_after v p) v s p)
  unfolding process
  process-Processed v s p =
      Ensures-if (is_speculative p.priority)
        (λ e. Ensures-pure _ (record {
          receive_pile = refl;
          to_process = refl;
          is_visiting = refl;
          completed = sym (after_speculative v p e);
          more = [];
          evaluation_pile = refl;
          additional = tt;
          number = add_zero s.number_evaluations;
          outcome = speculative_kept e refl refl refl;
        }))
        (λ e.
          Ensures-mono
            (λ r h. record {
              receive_pile = h.receive_pile;
              to_process = h.to_process;
              is_visiting = h.is_visiting;
              completed = h.completed ∙ sym (after_regular v p e);
              more = h.more;
              evaluation_pile = h.evaluation_pile;
              additional = h.additional;
              number = h.number;
              outcome = h.outcome;
            })
            (process_with-Processed
              (record v { number_completed_evaluations = v.number_completed_evaluations +ℤ pos 1 })
              s p (v.additional_evaluations p.id) e refl))
