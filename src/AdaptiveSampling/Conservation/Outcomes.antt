-- ===== src/AdaptiveSampling/Conservation/Outcomes.antt =====
-- The outcomes of a returned package keep the account of every id.
use arl_hierarchical_multisc.Base.{
  ℕ, ◌+◌, ◌≡◌, ap, subst, ◌∙◌, false, [], ◌∷◌, count_if-append, arith, Bool-cases, inl, inr, ◌==◌,
}
use arl_hierarchical_multisc.ModelPackage.{ModelPackage}
use arl_hierarchical_multisc.AdaptiveSampling.{Shared}
use arl_hierarchical_multisc.AdaptiveSampling.Tally.{tally}
use arl_hierarchical_multisc.AdaptiveSampling.Outcome.{
  speculative_kept, request_shipped, request_started, additional_awaited, additional_completed,
  Additional, Outcome,
}
use arl_hierarchical_multisc.AdaptiveSampling.Conservation.{one-IsSame}
use arl_hierarchical_multisc.AdaptiveSampling.Conservation.Requests.{
  Fits-move, has_id, has_id-IsKind, Fits,
}
use arl_hierarchical_multisc.AdaptiveSampling.Conservation.Ids.{
  ones, ones-elsewhere, none_here, not_set,
}
use arl_hierarchical_multisc.AdaptiveSampling.Conservation.Here.{Outcome-here}

module _ (p : ModelPackage) where
  Outcome-elsewhere :
      (i b rest k : ℕ) (m m' : Additional) (s s' : Shared)
      → (p.id == i) ≡ false
      → Outcome p m s m' s'
      → (m' i ≡ m i)
        × (tally (has_id i) s'.evaluation_pile ≡ tally (has_id i) s.evaluation_pile)
        × (tally (has_id i) s'.shipped ≡ tally (has_id i) s.shipped)
  Outcome-elsewhere i b rest k m m' s s' o (speculative_kept spec em ep es) =
      (ap (λ n. n i) em, ap (tally (has_id i)) ep, ap (tally (has_id i)) es)
  Outcome-elsewhere i b rest k m m' s s' o (request_shipped q regular unknown same em ep es) = (
    ap (λ n. n i) em,
    ap (tally (has_id i)) ep,
    omega (
      arith,
      ap (tally (has_id i)) es,
      count_if-append (has_id i) s.shipped (q ∷ []),
      one-IsSame (has_id i) (has_id-IsKind i) p q same,
      ones-elsewhere p i o,
    ),
  )
  Outcome-elsewhere i b rest k m m' s s' o
        (request_started q first qs regular unknown same new em ep es) =
      (
        em i ∙ not_set p i m _ o,
        omega (
          arith,
          ap (tally (has_id i)) ep,
          count_if-append (has_id i) qs s.evaluation_pile,
          none_here p i qs new o,
        ),
        omega (
          arith,
          ap (tally (has_id i)) es,
          count_if-append (has_id i) s.shipped (q ∷ []),
          one-IsSame (has_id i) (has_id-IsKind i) p q same,
          ones-elsewhere p i o,
        ),
      )
  Outcome-elsewhere i b rest k m m' s s' o (additional_awaited n qs regular known em ep es) =
      (em i ∙ not_set p i m _ o, ap (tally (has_id i)) ep, ap (tally (has_id i)) es)
  Outcome-elsewhere i b rest k m m' s s' o (additional_completed n qs regular known size em ep es) =
      (em i ∙ not_set p i m _ o, ap (tally (has_id i)) ep, ap (tally (has_id i)) es)

  pub Outcome-Fits :
      (i b rest k : ℕ) (m m' : Additional) (s s' : Shared)
      → Outcome p m s m' s'
      → Fits b
          (tally (has_id i) s.evaluation_pile + rest + ones i p)
          (tally (has_id i) s.shipped)
          (m i)
          i
          k
      → Fits b (tally (has_id i) s'.evaluation_pile + rest) (tally (has_id i) s'.shipped) (m' i) i k
  Outcome-Fits i b rest k m m' s s' out h = elim (Bool-cases (p.id == i)) [
    | inl here ↦ at_id i (ground (arith, here)) h
    | inr other ↦
        let (em, ep, es) = Outcome-elsewhere i b rest k m m' s s' other out in
        Fits-move b (tally (has_id i) s.evaluation_pile + rest + ones i p)
          (tally (has_id i) s.shipped) b _ _ i k (m i) (m' i) h em
          (omega (arith, ep, es, ones-elsewhere p i other)) (omega arith)
          (omega (arith, ep, ones-elsewhere p i other)) (omega (arith, es))
  ]
    where
      at_id :
          (j : ℕ)
          → p.id ≡ j
          → Fits b
              (tally (has_id j) s.evaluation_pile + rest + ones j p)
              (tally (has_id j) s.shipped)
              (m j)
              j
              k
          → Fits b
              (tally (has_id j) s'.evaluation_pile + rest)
              (tally (has_id j) s'.shipped)
              (m' j)
              j
              k
      at_id j e =
          subst
            (λ j.
              Fits b (tally (has_id j) s.evaluation_pile + rest + ones j p)
                (tally (has_id j) s.shipped) (m j) j k
              → Fits b (tally (has_id j) s'.evaluation_pile + rest) (tally (has_id j) s'.shipped)
                  (m' j) j k)
            e (Outcome-here p b rest k m m' s s' out)
