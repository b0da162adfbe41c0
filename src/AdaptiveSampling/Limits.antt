-- ===== src/AdaptiveSampling/Limits.antt =====
-- The limit on speculative evaluations.
use arl_hierarchical_multisc.Base.{
  ℕ, ◌≤◌, ◌≡◌, Bool, true, false, Option, none, some, List, [], ◌∷◌, length, arith, if◌then◌else◌,
}
use arl_hierarchical_multisc.Base.Int.{ℤ, pos, negsuc, ltb_ℤ, to_unsigned, ◌-ℤ◌, ◌+ℤ◌}
use arl_hierarchical_multisc.Base.Effect.{
  M, ok, pure, Ensures, Ensures->>=, Ensures-pure, Ensures-returns,
}
use arl_hierarchical_multisc.ModelPackage.{ModelPackage, speculative}
use arl_hierarchical_multisc.AdaptiveSampling.{Generator, Sampler, Services, Shared, null_generator}
use arl_hierarchical_multisc.AdaptiveSampling.Interpolate.{generator_of}
use arl_hierarchical_multisc.AdaptiveSampling.Speculate.{
  failed_speculative_evaluations, speculate_from, speculate,
}
use arl_hierarchical_multisc.AdaptiveSampling.Tally.{Ensures-any}

-- A generator makes at most as many packages as it is asked for.
pub record IsModest {W : Type 0} (generator : Generator W) : Type 0 where
  pub generates :
      (t : ModelPackage) (n : ℕ) → Ensures (generator.generate t n) (λ ps. length ps ≤ n)

-- A number that is at most another.
abbrev pub IsWithin : ℤ → ℤ → Type 0
IsWithin limit n = ltb_ℤ limit n ≡ false

IsWithin-add : (l n : ℤ) (k : ℕ) → IsWithin l n → k ≤ to_unsigned (l -ℤ n) → IsWithin l (n +ℤ pos k)
unfolding ◌-ℤ◌ ◌+ℤ◌
IsWithin-add (pos l) (pos n) k h m = ground arith
IsWithin-add (pos l) (negsuc n) k h m = ground arith
IsWithin-add (negsuc l) (pos n) k h m = ground arith
IsWithin-add (negsuc l) (negsuc n) k h m = ground arith

module _ {W : Type 0} (services : Services W) (modest : IsModest services.generator) where
  generator_of-IsModest :
      (t : Sampler) (p : ModelPackage) (n : ℕ)
      → Ensures ((generator_of services t).generate p n) (λ ps. length ps ≤ n)
  generator_of-IsModest t p n = at t.is_first
    where
      at :
          (b : Bool)
          → Ensures
              ((if b then services.generator else null_generator).generate p n)
              (λ ps. length ps ≤ n)
      at true = modest.generates p n
      at false = Ensures-pure [] (omega arith)

  failed-length :
      (ps : List ModelPackage)
      → Ensures (failed_speculative_evaluations services ps) (λ r. length r ≤ length ps)
  unfolding failed_speculative_evaluations
  failed-length [] = Ensures-pure _ (omega arith)
  failed-length (p ∷ ps) =
      Ensures->>= (services.database.interpolate p.argument p.hint) Ensures-any λ r _.
        Ensures->>= (failed_speculative_evaluations services ps) (failed-length ps) λ rest h.
          Ensures-pure _ (kept r.0.0 (record p { priority = speculative; hint = r.1 }) rest h)
    where
      kept :
          (b : Bool) (q : ModelPackage) (rest : List ModelPackage)
          → length rest ≤ length ps
          → length (if b then rest else q ∷ rest) ≤ length (p ∷ ps)
      kept true q rest h = omega (arith, h)
      kept false q rest h = omega (arith, h)

  speculate-Ensures :
      (t : Sampler) (s : Shared)
      → IsWithin s.speculative_evaluation_limit s.number_speculative_evaluations
      → Ensures
          (speculate services t s)
          (λ r. IsWithin r.speculative_evaluation_limit r.number_speculative_evaluations)
  unfolding speculate speculate_from
  speculate-Ensures t s h = at t.model_package_template
    where
      at :
          (o : Option ModelPackage)
          → Ensures
              (elim o as (λ _. M W Shared) [
                | none ↦ pure s
                | some template ↦ speculate_from services t s template
              ])
              (λ r. IsWithin r.speculative_evaluation_limit r.number_speculative_evaluations)
      at none = Ensures-pure _ h
      at (some template) =
          Ensures->>= ((generator_of services t).generate template _)
            (generator_of-IsModest t template _)
            λ ps m.
              Ensures->>= (failed_speculative_evaluations services ps) (failed-length ps)
                λ failed k. Ensures-pure _ (
                  IsWithin-add s.speculative_evaluation_limit s.number_speculative_evaluations
                    (length failed) h (omega (arith, m, k)))

  -- The speculative part of an interpolation thread's round, which alone raises
  -- `d_numberSpeculativeEvaluations`, never takes it past the limit: if it is not above the limit before
  -- the round, it is not above it when the round returns. The generator makes at most as many packages
  -- as it is asked for. The difference that it is asked for is an `int` made `unsigned int`.
  pub speculate-IsWithin :
      (t : Sampler) (s s' : Shared) (w w' : W)
      → IsWithin s.speculative_evaluation_limit s.number_speculative_evaluations
      → speculate services t s w ≡ (ok s', w')
      → IsWithin s'.speculative_evaluation_limit s'.number_speculative_evaluations
  speculate-IsWithin t s s' w w' h e = Ensures-returns (speculate-Ensures t s h) w w' s' e
