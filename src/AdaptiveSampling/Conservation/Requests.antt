-- ===== src/AdaptiveSampling/Conservation/Requests.antt =====
-- Where a request is, by its id: before its evaluation, under evaluation, or answered.
use arl_hierarchical_multisc.Base.{
  sym, subst, ℕ, ◌+◌, ◌%◌, ◌^◌, ◌<◌, ◌≤◌, ◌≡◌, refl, ap, ◌∙◌, Bool, not, ◌&&◌, Option, some, none,
  List, [], ◌∷◌, length, All, ltb, count_if-append, arith, ◌==◌, if◌then◌else◌,
}
use arl_hierarchical_multisc.Base.Effect.{Ensures, Ensures->>=, Ensures-pure}
use arl_hierarchical_multisc.ModelPackage.{ModelPackage, log_timestamp}
use arl_hierarchical_multisc.AdaptiveSampling.{Services, Shared}
use arl_hierarchical_multisc.AdaptiveSampling.Receive.{set_ids, accept}
use arl_hierarchical_multisc.AdaptiveSampling.Values.{is_speculative}
use arl_hierarchical_multisc.AdaptiveSampling.System.{Client, IsRequest}
use arl_hierarchical_multisc.AdaptiveSampling.Tally.{
  IsKind, log_timestamp-IsSame, tally, waiting, at_brokers, packages,
}

-- Packages with the id that are not speculative.
abbrev pub has_id : ℕ → ModelPackage → Bool
has_id i p = not (is_speculative p.priority) && p.id == i

pub has_id-IsKind : (i : ℕ) → IsKind (has_id i)
has_id-IsKind i = record { same = λ p q h. rw (h.id, h.priority); regular = λ p e. rw e }

abbrev pub before : ℕ → Client → ℕ
before i c =
    tally (has_id i) c.shared.algorithm_receive_pile + tally (has_id i) (waiting c.samplers)

abbrev pub under_evaluation : ℕ → Client → ℕ
under_evaluation i c =
    tally (has_id i) c.shared.evaluation_pile
    + tally (has_id i) (packages c.assigned)
    + tally (has_id i) (at_brokers c.brokers)
    + tally (has_id i) c.processor.to_process

abbrev pub answers : ℕ → Client → ℕ
answers i c = tally (has_id i) c.shared.shipped

-- How the three numbers fit the entry of the map, for the ids below the counter.
abbrev pub Fits : ℕ → ℕ → ℕ → Option (ℕ × List ModelPackage) → ℕ → ℕ → Type 0
Fits b u a none i k = b + u + a ≡ (if ltb i k then 1 else 0)
Fits b u a (some (n, qs)) i k = (b ≡ 0) × (a ≡ 1) × (u + length qs ≡ n) × (i < k)

-- Every request that was received is, while it has no entry in the map of additional evaluations, at
-- exactly one place; one with an entry is answered, and the packages under evaluation with its id are
-- those that its entry waits for.
abbrev pub IsAccounted : Client → Type 0
IsAccounted c =
    (i : ℕ)
    → Fits (before i c) (under_evaluation i c) (answers i c) (c.processor.additional_evaluations i)
        i c.id_counter

-- Packages that move on.
Fits-move_on :
    (b u a b' u' a' i k : ℕ) (o : Option (ℕ × List ModelPackage))
    → Fits b u a o i k
    → b' + u' + a' ≡ b + u + a
    → b' ≤ b
    → u ≤ u'
    → a ≤ a'
    → Fits b' u' a' o i k
Fits-move_on b u a b' u' a' i k none h e hb hu ha = e ∙ h
Fits-move_on b u a b' u' a' i k (some (n, qs)) (hb0, ha1, hu0, hi) e hb hu ha =
    (omega arith, omega arith, omega arith, hi)

pub Fits-move :
    (b u a b' u' a' i k : ℕ) (o o' : Option (ℕ × List ModelPackage))
    → Fits b u a o i k
    → o' ≡ o
    → b' + u' + a' ≡ b + u + a
    → b' ≤ b
    → u ≤ u'
    → a ≤ a'
    → Fits b' u' a' o' i k
Fits-move b u a b' u' a' i k o o' h eo e hb hu ha =
    subst (λ x. Fits b' u' a' x i k) (sym eo) (Fits-move_on b u a b' u' a' i k o h e hb hu ha)

-- New requests.
pub Fits-receive :
    (b u a b' u' a' new i k k' : ℕ) (o : Option (ℕ × List ModelPackage))
    → Fits b u a o i k
    → b' ≡ b + new
    → u' ≡ u
    → a' ≡ a
    → k ≤ k'
    → new ≡ (if ltb i k then 0 else if ltb i k' then 1 else 0)
    → Fits b' u' a' o i k'
Fits-receive b u a b' u' a' new i k k' none h e hu ha hk hn = ground arith
Fits-receive b u a b' u' a' new i k k' (some (n, qs)) (hb0, ha1, hu0, hi) e hu ha hk hn =
    (ground arith, ha ∙ ha1, omega arith, omega arith)

wrap : (k : ℕ) → k + 1 < 2 ^ 64 → (k + 1) % 2 ^ 64 ≡ k + 1
wrap k h = omega arith

module _ {W : Type 0} (services : Services W) where
  set_ids-tally :
      (i k : ℕ) (ps : List ModelPackage)
      → All IsRequest ps
      → k + length ps < 2 ^ 64
      → Ensures (set_ids services k ps) (λ r.
        (r.1 ≡ k + length ps)
        × (tally (has_id i) r.0 ≡ (if ltb i k then 0 else if ltb i (k + length ps) then 1 else 0)))
  unfolding set_ids
  set_ids-tally i k [] hs room = Ensures-pure _ (omega arith, ground arith)
  set_ids-tally i k (p ∷ ps) (hp, hs) room =
      Ensures->>= (log_timestamp services.clock p _) (log_timestamp-IsSame services.clock p _)
        λ a same.
          Ensures->>= (set_ids services ((k + 1) % 2 ^ 64) ps)
            (set_ids-tally i ((k + 1) % 2 ^ 64) ps hs (omega arith))
            λ r h. Ensures-pure _ (
              omega (arith, h.0),
              ground (arith, h.1, ap is_speculative same.priority ∙ hp, wrap k (omega arith)),
            )

  pub accept-tally :
      (i k : ℕ) (ps : List ModelPackage) (s : Shared)
      → All IsRequest ps
      → k + length ps < 2 ^ 64
      → Ensures (accept services k ps s) (λ r.
        (r.0 ≡ k + length ps)
        × (tally (has_id i) r.1.algorithm_receive_pile
            ≡ tally (has_id i) s.algorithm_receive_pile
              + (if ltb i k then 0 else if ltb i (k + length ps) then 1 else 0))
        × (r.1.evaluation_pile ≡ s.evaluation_pile)
        × (r.1.shipped ≡ s.shipped))
  unfolding accept
  accept-tally i k ps s hs room =
      Ensures->>= (set_ids services k ps) (set_ids-tally i k ps hs room) λ r h. Ensures-pure _ (
        h.0,
        omega (arith, h.1, count_if-append (has_id i) s.algorithm_receive_pile r.0),
        refl,
        refl,
      )
