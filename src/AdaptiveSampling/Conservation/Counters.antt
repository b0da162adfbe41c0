-- ===== src/AdaptiveSampling/Conservation/Counters.antt =====
-- How the counter of outstanding evaluations goes with the packages under evaluation.
use arl_hierarchical_multisc.Base.{
  ◌≤◌, ℕ, ◌+◌, ◌≡◌, refl, ap, sym, subst, ◌∙◌, Bool, true, false, not, List, [], ◌∷◌, ◌++◌, length,
  All, All-append, All-split, count_if-append, arith, Bool-cases, inl, inr, if◌then◌else◌,
}
use arl_hierarchical_multisc.Base.Int.{◌-ℤ◌, sub-both, ℤ, pos, ◌+ℤ◌, pos-add}
use arl_hierarchical_multisc.ModelPackage.{ModelPackage}
use arl_hierarchical_multisc.AdaptiveSampling.{Processor, Sampler, Shared}
use arl_hierarchical_multisc.AdaptiveSampling.Values.{is_speculative}
use arl_hierarchical_multisc.AdaptiveSampling.System.{Client, IsRequest}
use arl_hierarchical_multisc.AdaptiveSampling.Tally.{IsKind, tally, at_brokers, packages}
use arl_hierarchical_multisc.AdaptiveSampling.Outcome.{
  IsAdditionalOf, after_regular, after_speculative, completed_after,
}
use arl_hierarchical_multisc.AdaptiveSampling.Conservation.Moves.{
  Move, is_answered, is_queued, is_held, IsSame-IsRequest,
}

abbrev pub is_regular : ModelPackage → Bool
is_regular p = not (is_speculative p.priority)

pub is_regular-IsKind : IsKind is_regular
is_regular-IsKind = record { same = λ p q h. rw h.priority; regular = λ p e. rw e }

-- The packages that are not speculative and not yet processed after their evaluation.
abbrev pub outstanding : Client → ℕ
outstanding c =
    tally is_regular c.shared.evaluation_pile
    + tally is_regular (packages c.assigned)
    + tally is_regular (at_brokers c.brokers)
    + tally is_regular c.processor.to_process

abbrev pub AllRequests : Sampler → Type 0
AllRequests t = All IsRequest t.to_try × All IsRequest t.held_evaluations

-- The interpolation threads that have put a package on the evaluation pile and not yet counted it.
abbrev pub number_of : Bool → ℕ
number_of b = if b then 1 else 0

abbrev pub owes : Sampler → ℕ
owes t = number_of t.to_count

abbrev pub owing : List Sampler → ℕ
owing [] = 0
owing (t ∷ ts) = owes t + owing ts

pub owing-at :
    (front back : List Sampler) (t : Sampler)
    → owing (front ++ t ∷ back) ≡ owes t + (owing front + owing back)
owing-at [] back t = omega arith
owing-at (u ∷ us) back t = omega (arith, owing-at us back t)

-- A thread is replaced by what it has become, and owes as much as before.
pub owing-same :
    (front back : List Sampler) (t u : Sampler) {ts : List Sampler}
    → ts ≡ front ++ t ∷ back
    → u.to_count ≡ t.to_count
    → owing ts ≡ owing (front ++ u ∷ back)
owing-same front back t u e same =
    ap owing e ∙ omega (arith, owing-at front back t, owing-at front back u, ap number_of same)

pub owing-length : (ts : List Sampler) → owing ts ≤ length ts
owing-length [] = omega arith
owing-length (t ∷ ts) = ground (arith, owing-length ts)

-- Those that the value processing thread has processed in this round are still counted.
abbrev pub uncounted : Bool → ℕ → ℕ
uncounted visiting n = if visiting then n else 0

pub record IsCounted (c : Client) : Type 0 where
  pub pile : All IsRequest c.shared.algorithm_receive_pile
  pub samplers : All AllRequests c.samplers
  pub completed : ℕ
  pub completed_evaluations : c.processor.number_completed_evaluations ≡ pos completed
  pub idle : c.processor.is_visiting ≡ false → c.processor.to_process ≡ []
  pub number :
      c.shared.number_evaluations
      ≡ pos (outstanding c + uncounted c.processor.is_visiting completed) -ℤ pos (owing c.samplers)

regular_one : (p : ModelPackage) → IsRequest p → tally is_regular (p ∷ []) ≡ 1
regular_one p h = rw h

speculative_one :
    (p : ModelPackage) → is_speculative p.priority ≡ true → tally is_regular (p ∷ []) ≡ 0
speculative_one p h = rw h

-- A step that leaves the counter and the number of outstanding packages.
pub steady :
    (a b : ℤ) (m n u k : ℕ) → a ≡ pos (m + u) -ℤ pos k → b ≡ a → n ≡ m → b ≡ pos (n + u) -ℤ pos k
steady a b m n u k e h same = h ∙ e ∙ ap (λ n. pos (n + u) -ℤ pos k) (sym same)

pub sampler_of :
    (front back : List Sampler) (t : Sampler) {ts : List Sampler}
    → ts ≡ front ++ t ∷ back
    → All AllRequests ts
    → All AllRequests front × AllRequests t × All AllRequests back
sampler_of front back t e hs =
    let (h, k) = All-split AllRequests front (t ∷ back) (subst (All AllRequests) e hs) in
    (h, k.0, k.1)

pub additional-tally :
    (p : ModelPackage) (qs : List ModelPackage)
    → All (IsAdditionalOf p) qs
    → tally is_regular qs ≡ length qs
additional-tally p [] hs = refl
additional-tally p (q ∷ qs) ((hid, hp), hs) = rw hp (omega (arith, additional-tally p qs hs))

pub visiting_not_off : {b : Bool} → b ≡ true → b ≡ false → ⊥
visiting_not_off on off = cc

-- The thread has packages to process only within a round.
pub visiting_when_busy :
    {c : Client} (h : IsCounted c) (p : ModelPackage) (ps : List ModelPackage)
    → c.processor.to_process ≡ p ∷ ps
    → c.processor.is_visiting ≡ true
visiting_when_busy {c} h p ps e = elim (Bool-cases c.processor.is_visiting) [
  | inl on ↦ on
  | inr off ↦ absurd (not_empty e (h.idle off))
]
  where
    not_empty : {qs : List ModelPackage} → qs ≡ p ∷ ps → qs ≡ [] → ⊥
    not_empty e f = cc

pub completed_count :
    (v : Processor) (p : ModelPackage) (k : ℕ)
    → v.number_completed_evaluations ≡ pos k
    → completed_after v p ≡ pos (k + tally is_regular (p ∷ []))
completed_count v p k h = elim (Bool-cases (is_speculative p.priority)) [
  | inl is_spec ↦
      after_speculative v p is_spec ∙ h ∙ ap pos (omega (arith, speculative_one p is_spec))
  | inr regular ↦
      after_regular v p regular
      ∙ ap (λ z. z +ℤ pos 1) h
      ∙ pos-add k 1
      ∙ ap pos (omega (arith, regular_one p regular))
]

pub recount :
    (n others : ℕ) {a b : Bool}
    → a ≡ b
    → pos n -ℤ pos (number_of a + others) ≡ pos n -ℤ pos (number_of b + others)
recount n others e = ap (λ c. pos n -ℤ pos (number_of c + others)) e

pub Move-number :
    (t : Sampler) (s : Shared) (p : ModelPackage) (r : Sampler × Shared) (u rest others : ℕ)
    → Move t s p r
    → IsRequest p
    → t.to_count ≡ false
    → s.number_evaluations
      ≡ pos (tally is_regular s.evaluation_pile + rest + u) -ℤ pos (owes t + others)
    → r.1.number_evaluations
      ≡ pos (tally is_regular r.1.evaluation_pile + rest + u) -ℤ pos (owes r.0 + others)
Move-number t s p r u rest others (is_answered pile n count held) regular idle h =
    steady s.number_evaluations r.1.number_evaluations _ _ u (owes t + others) h n
      (omega (arith, ap (tally is_regular) pile))
    ∙ recount (tally is_regular r.1.evaluation_pile + rest + u) others (sym count)
Move-number t s p r u rest others (is_queued q same pile n count held) regular idle h =
    let before = tally is_regular s.evaluation_pile + rest + u in
    n
    ∙ h
    ∙ recount before others idle
    ∙ sym (sub-both before others)
    ∙ recount (before + 1) others (sym count)
    ∙ ap (λ k. pos k -ℤ pos (owes r.0 + others))
        (omega (
          arith,
          ap (tally is_regular) pile,
          count_if-append is_regular s.evaluation_pile (q ∷ []),
          regular_one q (IsSame-IsRequest same regular),
        ))
Move-number t s p r u rest others (is_held q same pile n count held) regular idle h =
    steady s.number_evaluations r.1.number_evaluations _ _ u (owes t + others) h n
      (omega (arith, ap (tally is_regular) pile))
    ∙ recount (tally is_regular r.1.evaluation_pile + rest + u) others (sym count)

pub Move-held :
    (t : Sampler) (s : Shared) (p : ModelPackage) (r : Sampler × Shared)
    → Move t s p r
    → IsRequest p
    → All IsRequest t.held_evaluations
    → All IsRequest r.0.held_evaluations
Move-held t s p r (is_answered pile n count held) regular h = subst (All IsRequest) (sym held) h
Move-held t s p r (is_queued q same pile n count held) regular h =
    subst (All IsRequest) (sym held) h
Move-held t s p r (is_held q same pile n count held) regular h =
    subst (All IsRequest) (sym held)
      (All-append IsRequest t.held_evaluations (q ∷ []) h (IsSame-IsRequest same regular, tt))

-- The sum of all that stays where it is when the evaluation pile changes.
pub regroup : (a b c d u : ℕ) → a + b + c + d + u ≡ a + (b + c + d) + u
regroup a b c d u = omega arith
