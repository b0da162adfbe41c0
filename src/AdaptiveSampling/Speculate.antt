-- ===== src/AdaptiveSampling/Speculate.antt =====
-- AdaptiveSampling.cc, the end of adaptiveSamplingThread's round: evaluations that nobody has asked
-- for, where the database has no answer.
use arl_hierarchical_multisc.Base.{none, some, List, [], ◌∷◌, ◌++◌, length, if◌then◌else◌}
use arl_hierarchical_multisc.Base.Int.{pos, to_unsigned, ◌-ℤ◌, ◌+ℤ◌}
use arl_hierarchical_multisc.Base.Effect.{M, pure, ◌>>=◌}
use arl_hierarchical_multisc.ModelPackage.{ModelPackage, speculative}
use arl_hierarchical_multisc.AdaptiveSampling.{Sampler, Services, Shared}
use arl_hierarchical_multisc.AdaptiveSampling.Interpolate.{generator_of}

module _ {W : Type 0} (services : Services W) where
  -- Those of the packages that the database cannot answer.
  unfoldable pub failed_speculative_evaluations : List ModelPackage → M W (List ModelPackage)
  failed_speculative_evaluations [] = pure []
  failed_speculative_evaluations (p ∷ ps) = do
    (result, hint) ← services.database.interpolate p.argument p.hint
    rest ← failed_speculative_evaluations ps
    pure (if result.0 then rest else record p { priority = speculative; hint = hint } ∷ rest)

  unfoldable pub speculate_from : Sampler → Shared → ModelPackage → M W Shared
  unfolding failed_speculative_evaluations
  speculate_from t s template = do
    ps ←
        (generator_of services t).generate template
          (to_unsigned (s.speculative_evaluation_limit -ℤ s.number_speculative_evaluations))
    failed ← failed_speculative_evaluations ps
    pure (record s {
      evaluation_pile = s.evaluation_pile ++ failed;
      number_speculative_evaluations = s.number_speculative_evaluations +ℤ pos (length failed);
    })

  unfoldable pub speculate : Sampler → Shared → M W Shared
  unfolding speculate_from
  speculate t s = elim t.model_package_template [
    | none ↦ pure s
    | some template ↦ speculate_from t s template
  ]
