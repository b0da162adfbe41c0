-- ===== src/AdaptiveSampling/Conservation/Here.antt =====
-- The outcomes of a returned package keep the account of its own id.
use arl_hierarchical_multisc.Base.{
  ℕ, ◌+◌, ◌<◌, ◌≡◌, ap, sym, subst, ◌∙◌, List, [], ◌∷◌, length, ltb, count_if-append, length-append,
  arith, if◌then◌else◌,
}
use arl_hierarchical_multisc.ModelPackage.{ModelPackage}
use arl_hierarchical_multisc.AdaptiveSampling.{Shared}
use arl_hierarchical_multisc.AdaptiveSampling.Tally.{tally}
use arl_hierarchical_multisc.AdaptiveSampling.Outcome.{
  speculative_kept, request_shipped, request_started, additional_awaited, additional_completed,
  Additional, Outcome,
}
use arl_hierarchical_multisc.AdaptiveSampling.Conservation.{one-IsSame}
use arl_hierarchical_multisc.AdaptiveSampling.Conservation.Requests.{
  Fits-move, has_id, has_id-IsKind, Fits,
}
use arl_hierarchical_multisc.AdaptiveSampling.Conservation.Ids.{
  ones, ones-here, tally-additional, is_set,
}

module _ (p : ModelPackage) where
  -- The id of the package.
  pub Outcome-here :
      (b rest k : ℕ) (m m' : Additional) (s s' : Shared)
      → Outcome p m s m' s'
      → Fits b
          (tally (has_id p.id) s.evaluation_pile + rest + ones p.id p)
          (tally (has_id p.id) s.shipped)
          (m p.id)
          p.id
          k
      → Fits b
          (tally (has_id p.id) s'.evaluation_pile + rest)
          (tally (has_id p.id) s'.shipped)
          (m' p.id)
          p.id
          k
  Outcome-here b rest k m m' s s' (speculative_kept spec em ep es) h =
      Fits-move b _ _ b _ _ p.id k (m p.id) (m' p.id) h (ap (λ n. n p.id) em)
        (omega (arith, count ep, count es, no_one)) (omega arith) (omega (arith, count ep, no_one))
        (omega (arith, count es))
    where
      count :
          {xs ys : List ModelPackage} → xs ≡ ys → tally (has_id p.id) xs ≡ tally (has_id p.id) ys
      count e = ap (tally (has_id p.id)) e

      no_one : ones p.id p ≡ 0
      no_one = rw ((has_id-IsKind p.id).regular p spec)
  Outcome-here b rest k m m' s s' (request_shipped q regular unknown same em ep es) h =
      subst (λ o. Fits b (count s'.evaluation_pile + rest) (count s'.shipped) o p.id k)
        (sym (ap (λ n. n p.id) em ∙ unknown))
        (omega (
          arith,
          was,
          ap count ep,
          ap count es,
          count_if-append (has_id p.id) s.shipped (q ∷ []),
          one-IsSame (has_id p.id) (has_id-IsKind p.id) p q same,
        ))
    where
      count : List ModelPackage → ℕ
      count xs = tally (has_id p.id) xs

      was :
          b + (count s.evaluation_pile + rest + ones p.id p) + count s.shipped
          ≡ (if ltb p.id k then 1 else 0)
      was =
          subst
            (λ o. Fits b (count s.evaluation_pile + rest + ones p.id p) (count s.shipped) o p.id k)
            unknown h
  Outcome-here b rest k m m' s s' (request_started q first qs regular unknown same new em ep es) h =
      subst (λ o. Fits b (count s'.evaluation_pile + rest) (count s'.shipped) o p.id k)
        (sym (em p.id ∙ is_set p m _))
        (
          ground (arith, was, one),
          ground (arith, was, one, answered),
          ground (arith, was, one, more, tally-additional p p.id qs new),
          ground (arith, was, one),
        )
    where
      count : List ModelPackage → ℕ
      count xs = tally (has_id p.id) xs

      was :
          b + (count s.evaluation_pile + rest + ones p.id p) + count s.shipped
          ≡ (if ltb p.id k then 1 else 0)
      was =
          subst
            (λ o. Fits b (count s.evaluation_pile + rest + ones p.id p) (count s.shipped) o p.id k)
            unknown h

      one : ones p.id p ≡ 1
      one = ones-here p regular

      answered : count s'.shipped ≡ count s.shipped + ones p.id p
      answered = omega (
        arith,
        ap count es,
        count_if-append (has_id p.id) s.shipped (q ∷ []),
        one-IsSame (has_id p.id) (has_id-IsKind p.id) p q same,
      )

      more : count s'.evaluation_pile ≡ count qs + count s.evaluation_pile
      more = ap count ep ∙ count_if-append (has_id p.id) qs s.evaluation_pile
  Outcome-here b rest k m m' s s' (additional_awaited n qs regular known em ep es) h =
      subst (λ o. Fits b (count s'.evaluation_pile + rest) (count s'.shipped) o p.id k)
        (sym (em p.id ∙ is_set p m _))
        (
          was.0,
          ap count es ∙ was.1,
          omega (arith, was.2, ap count ep, ones-here p regular, length-append qs (p ∷ [])),
          was.3,
        )
    where
      count : List ModelPackage → ℕ
      count xs = tally (has_id p.id) xs

      was :
          (b ≡ 0)
          × (count s.shipped ≡ 1)
          × (count s.evaluation_pile + rest + ones p.id p + length qs ≡ n)
          × (p.id < k)
      was =
          subst
            (λ o. Fits b (count s.evaluation_pile + rest + ones p.id p) (count s.shipped) o p.id k)
            known h
  Outcome-here b rest k m m' s s' (additional_completed n qs regular known size em ep es) h =
      subst (λ o. Fits b (count s'.evaluation_pile + rest) (count s'.shipped) o p.id k)
        (sym (em p.id ∙ is_set p m _))
        (ground (
          arith,
          was.0,
          was.1,
          was.2,
          was.3,
          size,
          ap count ep,
          ap count es,
          ones-here p regular,
          length-append qs (p ∷ []),
        ))
    where
      count : List ModelPackage → ℕ
      count xs = tally (has_id p.id) xs

      was :
          (b ≡ 0)
          × (count s.shipped ≡ 1)
          × (count s.evaluation_pile + rest + ones p.id p + length qs ≡ n)
          × (p.id < k)
      was =
          subst
            (λ o. Fits b (count s.evaluation_pile + rest + ones p.id p) (count s.shipped) o p.id k)
            known h
