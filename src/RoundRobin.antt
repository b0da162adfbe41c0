-- ===== src/RoundRobin.antt =====
-- adaptive_sampling/AdaptiveSamplingRoundRobinScheduler.cc: brokers are taken in turn.
use arl_hierarchical_multisc.Base.{
  All, ◌∙◌, some, get_elem?, ℕ, suc, zero, ◌+◌, ◌%◌, ◌<◌, ◌≡◌, refl, List, [], ◌∷◌, length, arith,
  ◌==◌, if◌then◌else◌, ap,
}
use native.Mathlib.Nat.{mod-eq_of_lt, mod-add-mod}
use arl_hierarchical_multisc.ModelPackage.{ModelPackage}

pub record RoundRobin : Type 0 where
  pub current_broker_id : ℕ
  pub number_brokers : ℕ

abbrev pub new : ℕ → RoundRobin
new n = record { current_broker_id = 0; number_brokers = n }

advance : RoundRobin → RoundRobin
advance s =
    let next = s.current_broker_id + 1 in
    record s { current_broker_id = if next == s.number_brokers then 0 else next }

-- The scheduler after the call, and a broker for each package.
pub schedule : RoundRobin → List ModelPackage → RoundRobin × List ℕ
unfolding advance
schedule s [] = (s, [])
schedule s (p ∷ ps) = let (s', ids) = schedule (advance s) ps in (s', s.current_broker_id ∷ ids)

abbrev pub IsReady : RoundRobin → Type 0
IsReady s = s.current_broker_id < s.number_brokers

advance-IsReady : (s : RoundRobin) → IsReady s → IsReady (advance s)
unfolding advance
advance-IsReady s h = ground arith

advance-number : (s : RoundRobin) → (advance s).number_brokers ≡ s.number_brokers
unfolding advance
advance-number s = refl

-- The next turn, and the ones after it.
advance-turn :
    (s : RoundRobin) (i : ℕ)
    → IsReady s
    → ((advance s).current_broker_id + i) % s.number_brokers
      ≡ (s.current_broker_id + suc i) % s.number_brokers
unfolding advance
advance-turn s i h = grind (arith, mod-add-mod)

-- With a current broker below the number of brokers, the package at position `i` goes to broker
-- (current + i) modulo the number of brokers, and the next call goes on where this one ended.
pub schedule_in_turn :
    (s : RoundRobin) (ps : List ModelPackage)
    → IsReady s
    → ((i : ℕ)
        → i < length ps
        → get_elem? (schedule s ps).1 i ≡ some ((s.current_broker_id + i) % s.number_brokers))
      × ((schedule s ps).0.current_broker_id ≡ (s.current_broker_id + length ps) % s.number_brokers)
      × (length (schedule s ps).1 ≡ length ps)
unfolding schedule
schedule_in_turn s [] h = (λ i lt. elim lt [ ], grind (arith, mod-eq_of_lt), refl)
schedule_in_turn s (p ∷ ps) h =
    let (each, last, size) = schedule_in_turn (advance s) ps (advance-IsReady s h) in
    (turn each, last ∙ advance-turn s (length ps) h, ap suc size)
  where
    turn :
        ((i : ℕ)
          → i < length ps
          → get_elem? (schedule (advance s) ps).1 i
            ≡ some (((advance s).current_broker_id + i) % s.number_brokers))
        → (i : ℕ) → i < suc (length ps)
        → get_elem? (s.current_broker_id ∷ (schedule (advance s) ps).1) i
          ≡ some ((s.current_broker_id + i) % s.number_brokers)
    turn each zero lt = grind (arith, mod-eq_of_lt)
    turn each (suc i) lt = each i (omega arith) ∙ ap some (advance-turn s i h)

-- Every package goes to one of the brokers.
pub schedule-IsBelow :
    (s : RoundRobin) (ps : List ModelPackage)
    → IsReady s
    → All (λ id. id < s.number_brokers) (schedule s ps).1
unfolding schedule
schedule-IsBelow s [] h = tt
schedule-IsBelow s (p ∷ ps) h = (h, schedule-IsBelow (advance s) ps (advance-IsReady s h))
