-- ===== src/AdaptiveSampling/Conservation/Rounds.antt =====
-- The beginning and the end of the value processing thread's round for a broker move no package.
use arl_hierarchical_multisc.Base.{
  ◌≡◌, refl, ◌∙◌, Bool, true, false, Option, some, none, List, [], ◌∷◌, if◌then◌else◌,
}
use arl_hierarchical_multisc.Base.Int.{◌+ℤ◌, pos, negsuc, ◌-ℤ◌}
use arl_hierarchical_multisc.Base.Effect.{M, pure, Ensures, Ensures->>=, Ensures-pure, Ensures-if}
use arl_hierarchical_multisc.ModelPackage.{Handle, ModelPackage}
use arl_hierarchical_multisc.AdaptiveSampling.{Processor, Services, Shared}
use arl_hierarchical_multisc.AdaptiveSampling.Values.{
  collect, settle, count_completed, use_all_speculative, use_speculative, insert_speculative,
}
use arl_hierarchical_multisc.AdaptiveSampling.Tally.{Ensures-any}

-- The same packages at all places.
pub record IsLike (s s' : Shared) : Type 0 where
  pub receive_pile : s'.algorithm_receive_pile ≡ s.algorithm_receive_pile
  pub evaluation_pile : s'.evaluation_pile ≡ s.evaluation_pile
  pub shipped : s'.shipped ≡ s.shipped
  pub number : s'.number_evaluations ≡ s.number_evaluations

like : {s : Shared} → IsLike s s
like = record { receive_pile = refl; evaluation_pile = refl; shipped = refl; number = refl }

IsLike-trans : {s t u : Shared} → IsLike s t → IsLike t u → IsLike s u
IsLike-trans h k = record {
  receive_pile = k.receive_pile ∙ h.receive_pile;
  evaluation_pile = k.evaluation_pile ∙ h.evaluation_pile;
  shipped = k.shipped ∙ h.shipped;
  number = k.number ∙ h.number;
}

module _ {W : Type 0} (services : Services W) where
  insert_speculative-IsLike :
      (s : Shared) (p : ModelPackage)
      → Ensures (insert_speculative services s p) (λ r. IsLike s r.1)
  unfolding insert_speculative
  insert_speculative-IsLike s p =
      Ensures->>= (services.database.interpolate p.argument (negsuc 0)) Ensures-any λ o _.
        Ensures-if o.0.0 (λ _. Ensures-pure _ like)
          (λ _.
            Ensures->>= (services.database.insert p.argument p.value p.hint) Ensures-any
              λ r _. Ensures-pure _ (inserted-IsLike r.0))
    where
      inserted-IsLike :
          (b : Bool)
          → IsLike s
              ((if◌then◌else◌ {A = Bool × Shared}) b
                (
                  false,
                  record s {
                    number_inserted_speculative_evaluations =
                        s.number_inserted_speculative_evaluations +ℤ pos 1;
                  },
                )
                (true, s)).1
      inserted-IsLike true = record {
        receive_pile = refl;
        evaluation_pile = refl;
        shipped = refl;
        number = refl;
      }
      inserted-IsLike false = like

  use_speculative-IsLike :
      (s : Shared) (p : ModelPackage) → Ensures (use_speculative services s p) (λ r. IsLike s r.1)
  unfolding use_speculative
  use_speculative-IsLike s p = at p.value
    where
      at :
          (o : Option Handle)
          → Ensures
              (elim o as (λ _. M W (Bool × Shared)) [
                | none ↦ pure (
                  false,
                  record s {
                    number_completed_speculative_evaluations =
                        s.number_completed_speculative_evaluations -ℤ pos 1;
                  },
                )
                | some value ↦ insert_speculative services s p
              ])
              (λ r. IsLike s r.1)
      at none =
          Ensures-pure _
            (record { receive_pile = refl; evaluation_pile = refl; shipped = refl; number = refl })
      at (some value) = insert_speculative-IsLike s p

  use_all_speculative-IsLike :
      (s : Shared) (ps : List ModelPackage)
      → Ensures (use_all_speculative services s ps) (λ r. IsLike s r.1)
  unfolding use_all_speculative
  use_all_speculative-IsLike s [] = Ensures-pure _ like
  use_all_speculative-IsLike s (p ∷ ps) =
      Ensures->>= (use_speculative services s p) (use_speculative-IsLike s p) λ r h.
        Ensures->>= (use_all_speculative services r.1 ps) (use_all_speculative-IsLike r.1 ps)
          λ q k. Ensures-pure _ (IsLike-trans h k)

  pub settle-IsLike :
      (v : Processor) (s : Shared)
      → Ensures (settle services v s) (λ r.
        IsLike (count_completed services v s) r.1
        × (r.0.additional_evaluations ≡ v.additional_evaluations)
        × (r.0.to_process ≡ v.to_process)
        × (r.0.is_visiting ≡ false)
        × (r.0.number_completed_evaluations ≡ v.number_completed_evaluations))
  unfolding settle
  settle-IsLike v s =
      Ensures->>=
        (use_all_speculative services (count_completed services v s) v.speculative_evaluations)
        (use_all_speculative-IsLike (count_completed services v s) v.speculative_evaluations)
        λ r h. Ensures-pure _ (h, refl, refl, refl, refl)

  pub collect-takes :
      (v : Processor) (ps : List ModelPackage)
      → Ensures (collect services v ps) (λ r.
        (r.additional_evaluations ≡ v.additional_evaluations)
        × (r.to_process ≡ ps)
        × (r.is_visiting ≡ true)
        × (r.number_completed_evaluations ≡ pos 0))
  unfolding collect
  collect-takes v ps =
      Ensures->>= (services.scheduler.update ps) Ensures-any
        λ _ _. Ensures-pure _ (refl, refl, refl, refl)
