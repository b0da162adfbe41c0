-- ===== src/AdaptiveSampling/System.antt =====
-- AdaptiveSampling.cc: the threads of a client over their shared data, and the brokers. A step is a
-- round of a thread's innermost loop or the code between two of its loops; the critical sections lie
-- within such steps. Where an interpolation thread puts a package on the evaluation pile and counts it,
-- under two locks, these are two steps; the value of the counter that it has compared with the limit
-- before that, without a lock, is any value. The counter keeps to the values of an `int`. What the other
-- calls see of the outside world is open: a step runs in any world.
use arl_hierarchical_multisc.Base.{
  ℕ, zero, suc, ◌+◌, ◌^◌, ◌<◌, ◌≡◌, Bool, true, false, List, [], ◌∷◌, ◌++◌, length, All,
}
use arl_hierarchical_multisc.Base.Int.{ℤ, pos, ◌+ℤ◌, IsInt}
use arl_hierarchical_multisc.Base.Effect.{ok}
use arl_hierarchical_multisc.ModelPackage.{ModelPackage}
use arl_hierarchical_multisc.AdaptiveSampling.{
  Processor, Sampler, Services, Shared, new, new_processor, new_sampler,
}
use arl_hierarchical_multisc.AdaptiveSampling.Receive.{accept}
use arl_hierarchical_multisc.AdaptiveSampling.Interpolate.{extract, count_evaluation, try_package}
use arl_hierarchical_multisc.AdaptiveSampling.Speculate.{speculate}
use arl_hierarchical_multisc.AdaptiveSampling.Evaluate.{BrokerLink, drain, send}
use arl_hierarchical_multisc.AdaptiveSampling.Values.{collect, is_speculative, process, settle}

-- The receive thread's counter, and the packages that the evaluation thread still has to send.
pub record Client : Type 0 where
  pub shared : Shared
  pub id_counter : ℕ
  pub samplers : List Sampler
  pub assigned : List (ModelPackage × ℕ)
  pub brokers : List BrokerLink
  pub processor : Processor

abbrev pub samplers_from : Bool → ℕ → List Sampler
samplers_from is_first zero = []
samplers_from is_first (suc n) = new_sampler is_first ∷ samplers_from false n

abbrev pub links : ℕ → List BrokerLink
links zero = []
links (suc n) = record { to_broker = []; from_broker = [] } ∷ links n

-- The client as the constructor starts it: the first interpolation thread has the generator.
abbrev pub start : ℤ → ℕ → ℕ → Client
start evaluation_limit number_interpolation_threads number_brokers = record {
  shared = new evaluation_limit;
  id_counter = 0;
  samplers = samplers_from true number_interpolation_threads;
  assigned = [];
  brokers = links number_brokers;
  processor = new_processor;
}

-- What an algorithm sends.
abbrev pub IsRequest : ModelPackage → Type 0
IsRequest p = is_speculative p.priority ≡ false

module _ {W : Type 0} (services : Services W) where
  -- A broker returns a package with its id and its priority, in any order.
  pub data Step (c : Client) : Client → Type 0 where
    receives :
        (ps : List ModelPackage) (w w' : W) (r : ℕ × Shared)
        → All IsRequest ps
        → c.id_counter + length ps < 2 ^ 64
        → accept services c.id_counter ps c.shared w ≡ (ok r, w')
        → Step c (record c { id_counter = r.0; shared = r.1 })
    extracts :
        (front back : List Sampler) (t : Sampler)
        → c.samplers ≡ front ++ t ∷ back
        → t.to_try ≡ []
        → t.to_count ≡ false
        → Step c (
            let (t', s) = extract t c.shared in
            record c { samplers = front ++ t' ∷ back; shared = s })
    tries :
        (seen : ℤ) (front back : List Sampler) (t : Sampler) (p : ModelPackage)
        (ps : List ModelPackage) (w w' : W) (r : Sampler × Shared)
        → c.samplers ≡ front ++ t ∷ back
        → t.to_try ≡ p ∷ ps
        → t.to_count ≡ false
        → try_package services seen (record t { to_try = ps }) c.shared p w ≡ (ok r, w')
        → Step c (record c { samplers = front ++ r.0 ∷ back; shared = r.1 })
    counts :
        (front back : List Sampler) (t : Sampler)
        → c.samplers ≡ front ++ t ∷ back
        → t.to_count ≡ true
        → IsInt (c.shared.number_evaluations +ℤ pos 1)
        → Step c (
            let (t', s) = count_evaluation t c.shared in
            record c { samplers = front ++ t' ∷ back; shared = s })
    speculates :
        (front back : List Sampler) (t : Sampler) (w w' : W) (s : Shared)
        → c.samplers ≡ front ++ t ∷ back
        → t.to_try ≡ []
        → t.to_count ≡ false
        → speculate services t c.shared w ≡ (ok s, w')
        → Step c (record c { shared = s })
    drains :
        (w w' : W) (r : List (ModelPackage × ℕ) × Shared)
        → c.assigned ≡ []
        → drain services c.shared w ≡ (ok r, w')
        → Step c (record c { assigned = r.0; shared = r.1 })
    dispatches :
        (p : ModelPackage) (i : ℕ) (rest : List (ModelPackage × ℕ)) (bs : List BrokerLink)
        → c.assigned ≡ (p, i) ∷ rest
        → send i p c.brokers ≡ ok bs
        → Step c (record c { assigned = rest; brokers = bs })
    evaluates :
        (front back : List BrokerLink) (b : BrokerLink) (xs ys : List ModelPackage)
        (p q : ModelPackage)
        → c.brokers ≡ front ++ b ∷ back
        → b.to_broker ≡ xs ++ p ∷ ys
        → q.id ≡ p.id
        → q.priority ≡ p.priority
        → Step c (record c {
          brokers =
              front
              ++ record { to_broker = xs ++ ys; from_broker = b.from_broker ++ q ∷ [] } ∷ back;
        })
    collects :
        (front back : List BrokerLink) (b : BrokerLink) (w w' : W) (v : Processor)
        → c.brokers ≡ front ++ b ∷ back
        → c.processor.is_visiting ≡ false
        → c.processor.to_process ≡ []
        → collect services c.processor b.from_broker w ≡ (ok v, w')
        → Step c
            (record c { brokers = front ++ record b { from_broker = [] } ∷ back; processor = v })
    processes :
        (p : ModelPackage) (ps : List ModelPackage) (w w' : W) (r : Processor × Shared)
        → c.processor.to_process ≡ p ∷ ps
        → process services (record c.processor { to_process = ps }) c.shared p w ≡ (ok r, w')
        → IsInt r.1.number_evaluations
        → Step c (record c { processor = r.0; shared = r.1 })
    settles :
        (w w' : W) (r : Processor × Shared)
        → c.processor.is_visiting ≡ true
        → c.processor.to_process ≡ []
        → settle services c.processor c.shared w ≡ (ok r, w')
        → Step c (record c { processor = r.0; shared = r.1 })

  pub data Reach (c : Client) : Client → Type 0 where
    here : Reach c c
    next : {d e : Client} → Reach c d → Step d e → Reach c e
