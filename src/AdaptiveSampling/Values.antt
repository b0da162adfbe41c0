-- ===== src/AdaptiveSampling/Values.antt =====
-- AdaptiveSampling.cc, valueProcessingThread: results go to the algorithm and into the database.
use arl_hierarchical_multisc.Base.{
  ℕ, ◌+◌, Bool, true, false, Option, none, some, List, [], ◌∷◌, ◌++◌, map, length, ◌==◌,
  if◌then◌else◌,
}
use arl_hierarchical_multisc.Base.Int.{ℤ, pos, negsuc, ◌-ℤ◌, ◌+ℤ◌}
use arl_hierarchical_multisc.Base.Effect.{M, invalid_argument, pure, throw, ◌>>=◌, ◌>>◌}
use arl_hierarchical_multisc.ModelPackage.{
  Argument, ModelPackage, Priority, speculative, highest, new, log_timestamp,
}
use arl_hierarchical_multisc.AdaptiveSampling.{Processor, Services, Shared}

abbrev pub is_speculative : Priority → Bool
is_speculative speculative = true
is_speculative _ = false

abbrev pub set_at : ℕ → Option (ℕ × List ModelPackage) → Processor → Processor
set_at id entry v = record v {
  additional_evaluations = λ j. if j == id then entry else v.additional_evaluations j;
}

-- The packages for a new interpolation model: they have the id of the package that needs it.
abbrev pub new_model_package : ModelPackage → ℤ → Argument → ModelPackage
new_model_package p hint argument = record (new p.model p.input_filter p.output_filter argument) {
  priority = highest;
  id = p.id;
  hint = hint;
}

-- The package is handed to the warehouse.
abbrev pub ship : ModelPackage → ℤ → Shared → Shared
ship p hint s = record s { shipped = s.shipped ++ record p { hint = hint } ∷ [] }

module _ {W : Type 0} (services : Services W) where
  unfoldable pub start_additional_evaluations :
      Processor → Shared → ModelPackage → ℤ → M W (Processor × Shared)
  start_additional_evaluations v s p hint = do
    p' ← log_timestamp services.clock p "Start Additional Evaluations"
    arguments ← services.database.generate_sample_arguments p'.argument
    let ps = map (new_model_package p' hint) arguments
    pure (
      set_at p'.id (some (length ps + 1, p' ∷ [])) v,
      ship p' hint (record s {
        number_additional_points = s.number_additional_points +ℤ pos (length arguments);
        number_evaluations = s.number_evaluations +ℤ pos (length ps);
        evaluation_pile = ps ++ s.evaluation_pile;
      }),
    )

  -- The package is not in the map of additional evaluations.
  unfoldable pub process_request : Processor → Shared → ModelPackage → M W (Processor × Shared)
  unfolding start_additional_evaluations
  process_request v s p = do
    services.generator.update p
    p' ← log_timestamp services.clock p "Add to Database"
    (inserted, hint) ← services.database.insert p'.argument p'.value p'.hint
    p'' ← log_timestamp services.clock p' "End Add to Database"
    if inserted then pure (v, ship p'' hint s) else (do
      (result, foo_hint) ← services.database.interpolate p''.argument (negsuc 0)
      if result.0 then pure (v, ship p'' hint s) else start_additional_evaluations v s p'' hint)

  unfoldable pub add_model :
      Processor → Shared → ModelPackage → List ModelPackage → M W (Processor × Shared)
  add_model v s p ps = do
    log_timestamp services.clock p "End Additional Evaluations"
    (inserted, hint) ←
        services.database.add_new_model (map (λ q. q.argument) ps) (map (λ q. q.value) ps) p.hint
    if inserted then pure (set_at p.id none v, s) else throw invalid_argument

  -- The package is an additional evaluation: the last one of its id makes the model.
  unfoldable pub process_additional :
      Processor → Shared → ModelPackage → ℕ × List ModelPackage → M W (Processor × Shared)
  unfolding add_model
  process_additional v s p (n, ps) =
      if length (ps ++ p ∷ []) == n
      then add_model v s p (ps ++ p ∷ [])
      else pure (set_at p.id (some (n, ps ++ p ∷ [])) v, s)

  abbrev pub process_with :
      Processor → Shared → ModelPackage → Option (ℕ × List ModelPackage) → M W (Processor × Shared)
  process_with v s p none = process_request v s p
  process_with v s p (some entry) = process_additional v s p entry

  -- The round of the inner loop for a package.
  unfoldable pub process : Processor → Shared → ModelPackage → M W (Processor × Shared)
  unfolding process_request process_additional
  process v s p =
      if is_speculative p.priority
      then pure (
        record v {
          number_completed_speculative_evaluations =
              v.number_completed_speculative_evaluations +ℤ pos 1;
          speculative_evaluations = v.speculative_evaluations ++ p ∷ [];
        },
        s,
      )
      else process_with
          (record v { number_completed_evaluations = v.number_completed_evaluations +ℤ pos 1 }) s p
          (v.additional_evaluations p.id)

  unfoldable pub insert_speculative : Shared → ModelPackage → M W (Bool × Shared)
  insert_speculative s p = do
    (result, foo_hint) ← services.database.interpolate p.argument (negsuc 0)
    if result.0 then pure (false, s) else (do
      (inserted, hint) ← services.database.insert p.argument p.value p.hint
      pure (
          if inserted
          then (
            false,
            record s {
              number_inserted_speculative_evaluations =
                  s.number_inserted_speculative_evaluations +ℤ pos 1;
            },
          )
          else (true, s)))

  -- Whether the package is kept for another try.
  unfoldable pub use_speculative : Shared → ModelPackage → M W (Bool × Shared)
  unfolding insert_speculative
  use_speculative s p = elim p.value [
    | none ↦ pure (
      false,
      record s {
        number_completed_speculative_evaluations =
            s.number_completed_speculative_evaluations -ℤ pos 1;
      },
    )
    | some value ↦ insert_speculative s p
  ]

  unfoldable pub use_all_speculative : Shared → List ModelPackage → M W (List ModelPackage × Shared)
  unfolding use_speculative
  use_all_speculative s [] = pure ([], s)
  use_all_speculative s (p ∷ ps) = do
    (failed, s') ← use_speculative s p
    (rest, s'') ← use_all_speculative s' ps
    pure (if failed then p ∷ rest else rest, s'')

  -- The round's counters.
  abbrev pub count_completed : Processor → Shared → Shared
  count_completed v s = record s {
    number_evaluations = s.number_evaluations -ℤ v.number_completed_evaluations;
    number_speculative_evaluations =
        s.number_speculative_evaluations -ℤ v.number_completed_speculative_evaluations;
    number_completed_speculative_evaluations =
        s.number_completed_speculative_evaluations +ℤ v.number_completed_speculative_evaluations;
  }

  -- The end of the round for a broker.
  unfoldable pub settle : Processor → Shared → M W (Processor × Shared)
  unfolding use_all_speculative
  settle v s = do
    (failed, s') ← use_all_speculative (count_completed v s) v.speculative_evaluations
    pure (record v { is_visiting = false; speculative_evaluations = failed }, s')

  -- The beginning of the round for a broker, with what it has returned.
  unfoldable pub collect : Processor → List ModelPackage → M W Processor
  collect v ps = do
    services.scheduler.update ps
    pure (record v {
      is_visiting = true;
      to_process = ps;
      number_completed_evaluations = pos 0;
      number_completed_speculative_evaluations = pos 0;
    })
