-- ===== src/AdaptiveSampling/Outcome.antt =====
-- What becomes of a package that a broker has returned: the branches of valueProcessingThread.
use arl_hierarchical_multisc.Base.{
  subst, ℕ, ◌+◌, ◌≡◌, refl, subst, ◌∙◌, true, false, Option, some, none, List, [], ◌∷◌, ◌++◌, map,
  length, All, ◌==◌, if◌then◌else◌,
}
use arl_hierarchical_multisc.Base.Int.{◌+ℤ◌, ℤ, pos, ◌+ℤ◌}
use arl_hierarchical_multisc.ModelPackage.{Argument, ModelPackage, highest}
use arl_hierarchical_multisc.AdaptiveSampling.{Processor, Shared}
use arl_hierarchical_multisc.AdaptiveSampling.Values.{is_speculative, new_model_package}
use arl_hierarchical_multisc.AdaptiveSampling.Tally.{IsSame}

abbrev pub Additional : Type 0
Additional = ℕ → Option (ℕ × List ModelPackage)

-- The map with an entry replaced.
abbrev pub IsSetAt : ℕ → Option (ℕ × List ModelPackage) → Additional → Additional → Type 0
IsSetAt id entry m m' = (j : ℕ) → m' j ≡ (if j == id then entry else m j)

-- A package of the highest priority for the same id.
abbrev pub IsAdditionalOf : ModelPackage → ModelPackage → Type 0
IsAdditionalOf p q = (q.id ≡ p.id) × (q.priority ≡ highest)

-- The outcomes, by the map and the shared data before and after.
pub data Outcome (p : ModelPackage) (m : Additional) (s : Shared) (m' : Additional) (s' : Shared)
    : Type 0 where
  speculative_kept :
      is_speculative p.priority ≡ true
      → m' ≡ m
      → s'.evaluation_pile ≡ s.evaluation_pile
      → s'.shipped ≡ s.shipped
      → Outcome p m s m' s'
  request_shipped :
      (q : ModelPackage)
      → is_speculative p.priority ≡ false
      → m p.id ≡ none
      → IsSame p q
      → m' ≡ m
      → s'.evaluation_pile ≡ s.evaluation_pile
      → s'.shipped ≡ s.shipped ++ q ∷ []
      → Outcome p m s m' s'
  request_started :
      (q first : ModelPackage) (qs : List ModelPackage)
      → is_speculative p.priority ≡ false
      → m p.id ≡ none
      → IsSame p q
      → All (IsAdditionalOf p) qs
      → IsSetAt p.id (some (length qs + 1, first ∷ [])) m m'
      → s'.evaluation_pile ≡ qs ++ s.evaluation_pile
      → s'.shipped ≡ s.shipped ++ q ∷ []
      → Outcome p m s m' s'
  additional_awaited :
      (n : ℕ) (qs : List ModelPackage)
      → is_speculative p.priority ≡ false
      → m p.id ≡ some (n, qs)
      → IsSetAt p.id (some (n, qs ++ p ∷ [])) m m'
      → s'.evaluation_pile ≡ s.evaluation_pile
      → s'.shipped ≡ s.shipped
      → Outcome p m s m' s'
  additional_completed :
      (n : ℕ) (qs : List ModelPackage)
      → is_speculative p.priority ≡ false
      → m p.id ≡ some (n, qs)
      → length (qs ++ p ∷ []) ≡ n
      → IsSetAt p.id none m m'
      → s'.evaluation_pile ≡ s.evaluation_pile
      → s'.shipped ≡ s.shipped
      → Outcome p m s m' s'

-- With what no outcome changes.
pub record Processed (n : ℤ) (v : Processor) (s : Shared) (p : ModelPackage)
    (r : Processor × Shared) : Type 0 where
  pub receive_pile : r.1.algorithm_receive_pile ≡ s.algorithm_receive_pile
  pub to_process : r.0.to_process ≡ v.to_process
  pub is_visiting : r.0.is_visiting ≡ v.is_visiting
  pub completed : r.0.number_completed_evaluations ≡ n
  pub more : List ModelPackage
  pub evaluation_pile : r.1.evaluation_pile ≡ more ++ s.evaluation_pile
  pub additional : All (IsAdditionalOf p) more
  pub number : r.1.number_evaluations ≡ s.number_evaluations +ℤ pos (length more)
  pub outcome : Outcome p v.additional_evaluations s r.0.additional_evaluations r.1

-- The counter of the round, after a package that came back.
abbrev pub completed_after : Processor → ModelPackage → ℤ
completed_after v p =
    if is_speculative p.priority
    then v.number_completed_evaluations
    else v.number_completed_evaluations +ℤ pos 1

pub after_speculative :
    (v : Processor) (p : ModelPackage)
    → is_speculative p.priority ≡ true
    → completed_after v p ≡ v.number_completed_evaluations
after_speculative v p e = rw e

pub after_regular :
    (v : Processor) (p : ModelPackage)
    → is_speculative p.priority ≡ false
    → completed_after v p ≡ v.number_completed_evaluations +ℤ pos 1
after_regular v p e = rw e

pub trans-IsSame : {p q r : ModelPackage} → IsSame p q → IsSame q r → IsSame p r
trans-IsSame h k = record { id = k.id ∙ h.id; priority = k.priority ∙ h.priority }

pub additional-new :
    (p p' : ModelPackage) (hint : ℤ) (arguments : List Argument)
    → IsSame p p'
    → All (IsAdditionalOf p) (map (new_model_package p' hint) arguments)
additional-new p p' hint [] h = tt
additional-new p p' hint (a ∷ as') h = ((h.id, refl), additional-new p p' hint as' h)

pub IsSetAt-id :
    (i j : ℕ) (e : Option (ℕ × List ModelPackage)) (m m' : Additional)
    → i ≡ j
    → IsSetAt i e m m'
    → IsSetAt j e m m'
IsSetAt-id i j e m m' h = subst (λ k. IsSetAt k e m m') h
