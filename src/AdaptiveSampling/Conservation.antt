-- ===== src/AdaptiveSampling/Conservation.antt =====
-- What each round of a thread does to the packages of a kind: it moves them on.
pub mod Requests
pub mod Rounds
pub mod Ids
pub mod Here
pub mod Outcomes
pub mod Steps
pub mod Answers
pub mod Moves
pub mod Counters
pub mod Counting
use arl_hierarchical_multisc.Base.{
  ℕ, ◌+◌, ◌≤◌, ◌≡◌, refl, ap, sym, ◌∙◌, Bool, true, false, Option, some, none, List, [], ◌∷◌, ◌++◌,
  length, take, drop, take-append-drop, count_if-append, arith, Bool-cases, inl, inr, if◌then◌else◌,
}
use arl_hierarchical_multisc.Base.Int.{ltb_ℤ, ◌+ℤ◌, pos}
use arl_hierarchical_multisc.Base.Effect.{
  M, Ensures, Ensures->>=, Ensures-pure, Ensures-lift, Ensures-if, pure, throw, lift, ◌>>=◌,
}
use arl_hierarchical_multisc.ModelPackage.{
  Handle, ModelPackage, log_timestamp, pop_timestamp, speculative,
}
use arl_hierarchical_multisc.AdaptiveSampling.{ℤ, Processor, Sampler, Services, Shared}
use arl_hierarchical_multisc.AdaptiveSampling.Interpolate.{
  extract, chunk_size, generator_of, answered, unanswered, process_interpolation_result,
  try_package,
}
use arl_hierarchical_multisc.AdaptiveSampling.Speculate.{
  failed_speculative_evaluations, speculate, speculate_from,
}
use arl_hierarchical_multisc.AdaptiveSampling.Evaluate.{assign, drain}
use arl_hierarchical_multisc.AdaptiveSampling.Tally.{
  IsSame, IsKind, Ensures-any, log_timestamp-IsSame, pop_timestamp-IsSame, tally, packages,
  assign-packages,
}

module _ (f : ModelPackage → Bool) (kind : IsKind f) where
  abbrev pub one : ModelPackage → ℕ
  one p = tally f (p ∷ [])

  pub one-IsSame : (p q : ModelPackage) → IsSame p q → one q ≡ one p
  one-IsSame p q h = ap (λ b. (if b then 1 else 0) + 0) (kind.same p q h)

  -- What becomes of a package that is tried: it is held, on the evaluation pile or shipped.
  pub record Tried (t : Sampler) (s : Shared) (p : ModelPackage) (r : Sampler × Shared)
      : Type 0 where
    pub receive_pile : r.1.algorithm_receive_pile ≡ s.algorithm_receive_pile
    pub to_try : r.0.to_try ≡ t.to_try
    pub total :
        tally f r.0.held_evaluations + tally f r.1.evaluation_pile + tally f r.1.shipped
        ≡ tally f t.held_evaluations + tally f s.evaluation_pile + tally f s.shipped + one p
    pub held : tally f t.held_evaluations ≤ tally f r.0.held_evaluations
    pub evaluation_pile : tally f s.evaluation_pile ≤ tally f r.1.evaluation_pile
    pub shipped : tally f s.shipped ≤ tally f r.1.shipped

  module _ {W : Type 0} (services : Services W) where
    answered-Tried :
        (t : Sampler) (s : Shared) (p q : ModelPackage) (value : Option Handle)
        → IsSame p q
        → Ensures (answered services t s q value) (Tried t s p)
    unfolding answered
    answered-Tried t s p q value h =
        Ensures->>= ((generator_of services t).update _) Ensures-any λ _ _. Ensures-pure _ (record {
          receive_pile = refl;
          to_try = refl;
          total =
              omega (arith, count_if-append f s.shipped (record q { value = value } ∷ []), same);
          held = omega arith;
          evaluation_pile = omega arith;
          shipped = omega (arith, count_if-append f s.shipped (record q { value = value } ∷ []));
        })
      where
        same : one (record q { value = value }) ≡ one p
        same = one-IsSame p _ (record { id = h.id; priority = h.priority })

    unanswered-Tried :
        (seen : ℤ) (t : Sampler) (s : Shared) (p q : ModelPackage)
        → IsSame p q
        → Ensures (unanswered services seen t s q) (Tried t s p)
    unfolding unanswered
    unanswered-Tried seen t s p q h =
        Ensures-if (ltb_ℤ seen s.evaluation_limit)
          (λ _. Ensures-pure _ (record {
            receive_pile = refl;
            to_try = refl;
            total = omega (arith, count_if-append f s.evaluation_pile (q ∷ []), one-IsSame p q h);
            held = omega arith;
            evaluation_pile = omega (arith, count_if-append f s.evaluation_pile (q ∷ []));
            shipped = omega arith;
          }))
          (λ _.
            Ensures->>= (lift (pop_timestamp q)) (Ensures-lift _ λ a e. pop_timestamp-IsSame q a e)
              λ a same.
                Ensures->>= (lift (pop_timestamp a))
                  (Ensures-lift _ λ b e. pop_timestamp-IsSame a b e)
                  λ b same'. Ensures-pure _ (record {
                    receive_pile = refl;
                    to_try = refl;
                    total = omega (
                      arith,
                      count_if-append f t.held_evaluations (b ∷ []),
                      one-IsSame p q h,
                      one-IsSame q a same,
                      one-IsSame a b same',
                    );
                    held = omega (arith, count_if-append f t.held_evaluations (b ∷ []));
                    evaluation_pile = omega arith;
                    shipped = omega arith;
                  }))

    process_interpolation_result-Tried :
        (seen : ℤ) (t : Sampler) (s : Shared) (p q : ModelPackage) (result : Bool × Option Handle)
        → IsSame p q
        → Ensures (process_interpolation_result services seen t s q result) (Tried t s p)
    unfolding process_interpolation_result
    process_interpolation_result-Tried seen t s p q (true, value) h =
        Ensures->>= (log_timestamp services.clock q _) (log_timestamp-IsSame services.clock q _)
          λ a same.
            answered-Tried t s p a value
              (record { id = same.id ∙ h.id; priority = same.priority ∙ h.priority })
    process_interpolation_result-Tried seen t s p q (false, value) h =
        Ensures->>= (log_timestamp services.clock q _) (log_timestamp-IsSame services.clock q _)
          λ a same.
            unanswered-Tried seen t s p a
              (record { id = same.id ∙ h.id; priority = same.priority ∙ h.priority })

    pub try_package-Tried :
        (seen : ℤ) (t : Sampler) (s : Shared) (p : ModelPackage)
        → Ensures (try_package services seen t s p) (Tried t s p)
    unfolding try_package
    try_package-Tried seen t s p =
        Ensures->>= (log_timestamp services.clock p _) (log_timestamp-IsSame services.clock p _)
          λ a same. Ensures->>= (services.database.interpolate a.argument a.hint) Ensures-any λ r _.
            process_interpolation_result-Tried seen t s p (record a { hint = r.1 }) r.0
              (record { id = same.id; priority = same.priority })

    failed_speculative_evaluations-tally :
        (ps : List ModelPackage)
        → Ensures (failed_speculative_evaluations services ps) (λ r. tally f r ≡ 0)
    unfolding failed_speculative_evaluations
    failed_speculative_evaluations-tally [] = Ensures-pure _ refl
    failed_speculative_evaluations-tally (p ∷ ps) =
        Ensures->>= (services.database.interpolate p.argument p.hint) Ensures-any λ r _.
          Ensures->>= (failed_speculative_evaluations services ps)
            (failed_speculative_evaluations-tally ps)
            λ rest h. Ensures-pure _ (elim (Bool-cases r.0.0) [
              | inl e ↦ rw (e, h)
              | inr e ↦
                  rw (e, kind.regular (record p { priority = speculative; hint = r.1 }) refl, h)
            ])

    -- Speculative packages are of no kind.
    pub speculate-tally :
        (t : Sampler) (s : Shared)
        → Ensures (speculate services t s) (λ r.
          (r.algorithm_receive_pile ≡ s.algorithm_receive_pile)
          × (tally f r.evaluation_pile ≡ tally f s.evaluation_pile)
          × (r.shipped ≡ s.shipped)
          × (r.number_evaluations ≡ s.number_evaluations))
    unfolding speculate speculate_from
    speculate-tally t s = at t.model_package_template
      where
        at :
            (o : Option ModelPackage)
            → Ensures
                (elim o as (λ _. M W Shared) [
                  | none ↦ pure s
                  | some template ↦ speculate_from services t s template
                ])
                (λ r.
                  (r.algorithm_receive_pile ≡ s.algorithm_receive_pile)
                  × (tally f r.evaluation_pile ≡ tally f s.evaluation_pile)
                  × (r.shipped ≡ s.shipped)
                  × (r.number_evaluations ≡ s.number_evaluations))
        at none = Ensures-pure _ (refl, refl, refl, refl)
        at (some template) =
            Ensures->>= ((generator_of services t).generate template _) Ensures-any λ ps _.
              Ensures->>= (failed_speculative_evaluations services ps)
                (failed_speculative_evaluations-tally ps)
                λ failed h.
                  Ensures-pure _
                    (refl, omega (arith, h, count_if-append f s.evaluation_pile failed), refl, refl)

    pub drain-tally :
        (s : Shared)
        → Ensures (drain services s) (λ r.
          (r.1.algorithm_receive_pile ≡ s.algorithm_receive_pile)
          × (tally f (packages r.0) + tally f r.1.evaluation_pile ≡ tally f s.evaluation_pile)
          × (r.1.shipped ≡ s.shipped)
          × (r.1.number_evaluations ≡ s.number_evaluations))
    unfolding drain
    drain-tally s = Ensures->>= (services.scheduler.schedule s.evaluation_pile) Ensures-any λ ids _.
        Ensures->>= (lift (assign s.evaluation_pile ids))
          (Ensures-lift _ (assign-packages s.evaluation_pile ids))
          λ a e. Ensures-pure _ (refl, omega (arith, ap (tally f) e), refl, refl)

  pub extract-tally :
      (t : Sampler) (s : Shared)
      → t.to_try ≡ []
      → (let (t', s') = extract t s in
          (tally f t'.to_try + tally f t'.held_evaluations + tally f s'.algorithm_receive_pile
            ≡ tally f t.to_try + tally f t.held_evaluations + tally f s.algorithm_receive_pile)
          × (s'.evaluation_pile ≡ s.evaluation_pile)
          × (s'.shipped ≡ s.shipped))
  unfolding extract
  extract-tally t s e =
      let pile = s.algorithm_receive_pile in
      let n = chunk_size (length pile) in
      (
        omega (
          arith,
          ap (tally f) e,
          count_if-append f (take n pile) t.held_evaluations,
          count_if-append f (take n pile) (drop n pile),
          ap (tally f) (take-append-drop n pile),
        ),
        refl,
        refl,
      )
