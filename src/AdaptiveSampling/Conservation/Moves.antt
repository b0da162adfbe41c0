-- ===== src/AdaptiveSampling/Conservation/Moves.antt =====
-- What a try of a package does to the counter of evaluations, and that all packages that wait to be
-- tried are requests.
use arl_hierarchical_multisc.Base.{
  ℕ, ◌+◌, ◌%◌, ◌^◌, ◌≡◌, refl, ap, sym, subst, ◌∙◌, Bool, true, false, Option, List, [], ◌∷◌, ◌++◌,
  length, take, drop, take-append-drop, All, All-append, All-split,
}
use arl_hierarchical_multisc.Base.Int.{ltb_ℤ}
use arl_hierarchical_multisc.Base.Effect.{
  Ensures, Ensures->>=, Ensures-pure, Ensures-lift, Ensures-if, lift,
}
use arl_hierarchical_multisc.ModelPackage.{Handle, ModelPackage, log_timestamp, pop_timestamp}
use arl_hierarchical_multisc.AdaptiveSampling.{ℤ, Sampler, Services, Shared}
use arl_hierarchical_multisc.AdaptiveSampling.Receive.{set_ids, accept}
use arl_hierarchical_multisc.AdaptiveSampling.Interpolate.{
  extract, chunk_size, generator_of, answered, unanswered, process_interpolation_result,
  try_package,
}
use arl_hierarchical_multisc.AdaptiveSampling.System.{IsRequest}
use arl_hierarchical_multisc.AdaptiveSampling.Values.{is_speculative}
use arl_hierarchical_multisc.AdaptiveSampling.Tally.{
  IsSame, Ensures-any, log_timestamp-IsSame, pop_timestamp-IsSame,
}

-- The counter stays; a package that comes onto the evaluation pile has yet to be counted.
pub data Move (t : Sampler) (s : Shared) (p : ModelPackage) (r : Sampler × Shared) : Type 0 where
  is_answered :
      r.1.evaluation_pile ≡ s.evaluation_pile
      → r.1.number_evaluations ≡ s.number_evaluations
      → r.0.to_count ≡ t.to_count
      → r.0.held_evaluations ≡ t.held_evaluations
      → Move t s p r
  is_queued :
      (q : ModelPackage)
      → IsSame p q
      → r.1.evaluation_pile ≡ s.evaluation_pile ++ q ∷ []
      → r.1.number_evaluations ≡ s.number_evaluations
      → r.0.to_count ≡ true
      → r.0.held_evaluations ≡ t.held_evaluations
      → Move t s p r
  is_held :
      (q : ModelPackage)
      → IsSame p q
      → r.1.evaluation_pile ≡ s.evaluation_pile
      → r.1.number_evaluations ≡ s.number_evaluations
      → r.0.to_count ≡ t.to_count
      → r.0.held_evaluations ≡ t.held_evaluations ++ q ∷ []
      → Move t s p r

IsSame-IsSame : {p q r : ModelPackage} → IsSame p q → IsSame q r → IsSame p r
IsSame-IsSame h k = record { id = k.id ∙ h.id; priority = k.priority ∙ h.priority }

pub IsSame-IsRequest : {p q : ModelPackage} → IsSame p q → IsRequest p → IsRequest q
IsSame-IsRequest h r = ap is_speculative h.priority ∙ r

module _ {W : Type 0} (services : Services W) where
  unanswered-Move :
      (seen : ℤ) (t : Sampler) (s : Shared) (p q : ModelPackage)
      → IsSame p q
      → Ensures (unanswered services seen t s q) (Move t s p)
  unfolding unanswered
  unanswered-Move seen t s p q h =
      Ensures-if (ltb_ℤ seen s.evaluation_limit)
        (λ _. Ensures-pure _ (is_queued q h refl refl refl refl))
        (λ _.
          Ensures->>= (lift (pop_timestamp q)) (Ensures-lift _ λ a e. pop_timestamp-IsSame q a e)
            λ a ha.
              Ensures->>= (lift (pop_timestamp a))
                (Ensures-lift _ λ b e. pop_timestamp-IsSame a b e)
                λ b hb.
                  Ensures-pure _
                    (is_held b (IsSame-IsSame h (IsSame-IsSame ha hb)) refl refl refl refl))

  answered-Move :
      (t : Sampler) (s : Shared) (p q : ModelPackage) (value : Option Handle)
      → Ensures (answered services t s q value) (Move t s p)
  unfolding answered
  answered-Move t s p q value =
      Ensures->>= ((generator_of services t).update _) Ensures-any
        λ _ _. Ensures-pure _ (is_answered refl refl refl refl)

  process_interpolation_result-Move :
      (seen : ℤ) (t : Sampler) (s : Shared) (p q : ModelPackage) (result : Bool × Option Handle)
      → IsSame p q
      → Ensures (process_interpolation_result services seen t s q result) (Move t s p)
  unfolding process_interpolation_result
  process_interpolation_result-Move seen t s p q (true, value) h =
      Ensures->>= (log_timestamp services.clock q _) Ensures-any λ a _. answered-Move t s p a value
  process_interpolation_result-Move seen t s p q (false, value) h =
      Ensures->>= (log_timestamp services.clock q _) (log_timestamp-IsSame services.clock q _)
        λ a same. unanswered-Move seen t s p a (IsSame-IsSame h same)

  pub try_package-Move :
      (seen : ℤ) (t : Sampler) (s : Shared) (p : ModelPackage)
      → Ensures (try_package services seen t s p) (Move t s p)
  unfolding try_package
  try_package-Move seen t s p =
      Ensures->>= (log_timestamp services.clock p _) (log_timestamp-IsSame services.clock p _)
        λ a same. Ensures->>= (services.database.interpolate a.argument a.hint) Ensures-any λ r _.
          process_interpolation_result-Move seen t s p (record a { hint = r.1 }) r.0
            (record { id = same.id; priority = same.priority })

  set_ids-IsRequest :
      (k : ℕ) (ps : List ModelPackage)
      → All IsRequest ps
      → Ensures (set_ids services k ps) (λ r. All IsRequest r.0)
  unfolding set_ids
  set_ids-IsRequest k [] hs = Ensures-pure _ tt
  set_ids-IsRequest k (p ∷ ps) (h, hs) =
      Ensures->>= (log_timestamp services.clock p _) (log_timestamp-IsSame services.clock p _)
        λ a same.
          Ensures->>= (set_ids services ((k + 1) % 2 ^ 64) ps)
            (set_ids-IsRequest ((k + 1) % 2 ^ 64) ps hs)
            λ r m. Ensures-pure _ (ap is_speculative same.priority ∙ h, m)

  pub accept-IsRequest :
      (k : ℕ) (ps : List ModelPackage) (s : Shared)
      → All IsRequest ps
      → All IsRequest s.algorithm_receive_pile
      → Ensures (accept services k ps s) (λ r.
        All IsRequest r.1.algorithm_receive_pile
        × (r.1.number_evaluations ≡ s.number_evaluations)
        × (r.1.evaluation_pile ≡ s.evaluation_pile))
  unfolding accept
  accept-IsRequest k ps s hs pile =
      Ensures->>= (set_ids services k ps) (set_ids-IsRequest k ps hs)
        λ r m. Ensures-pure _ (All-append IsRequest s.algorithm_receive_pile r.0 pile m, refl, refl)

pub extract-IsRequest :
    (t : Sampler) (s : Shared)
    → All IsRequest t.held_evaluations
    → All IsRequest s.algorithm_receive_pile
    → (let (t', s') = extract t s in
        (t'.to_count ≡ t.to_count)
        × All IsRequest t'.to_try
        × All IsRequest t'.held_evaluations
        × All IsRequest s'.algorithm_receive_pile
        × (s'.number_evaluations ≡ s.number_evaluations)
        × (s'.evaluation_pile ≡ s.evaluation_pile))
unfolding extract
extract-IsRequest t s held pile =
    let n = chunk_size (length s.algorithm_receive_pile) in
    let (front, back) =
      All-split IsRequest (take n s.algorithm_receive_pile) (drop n s.algorithm_receive_pile)
        (subst (All IsRequest) (sym (take-append-drop n s.algorithm_receive_pile)) pile) in
    (
      refl,
      All-append IsRequest (take n s.algorithm_receive_pile) t.held_evaluations front held,
      tt,
      back,
      refl,
      refl,
    )
