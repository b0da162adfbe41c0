-- ===== src/Tests/Sampling.antt =====
-- A client with one broker, whose database knows nothing and wants one additional evaluation for a model.
use arl_hierarchical_multisc.Base.{
  zero, suc, length, take, ◌≡◌, ◌≤◌, Bool, ltb, if◌then◌else◌, ℕ, refl, true, false, some, List, [],
  ◌∷◌, arith,
}
use arl_hierarchical_multisc.Base.Int.{◌+ℤ◌, pos, ◌-ℤ◌}
use arl_hierarchical_multisc.Base.Effect.{Ensures-pure, M, Result, ok, err, pure, ◌>>=◌}
use arl_hierarchical_multisc.ModelPackage.{ModelPackage, log_timestamp}
use arl_hierarchical_multisc.AdaptiveSampling
use arl_hierarchical_multisc.AdaptiveSampling.{
  Shared, new_sampler, new_processor, Sampler, Services, null_generator,
}
use arl_hierarchical_multisc.AdaptiveSampling.Receive.{accept, set_ids}
use arl_hierarchical_multisc.AdaptiveSampling.Interpolate
use arl_hierarchical_multisc.AdaptiveSampling.Interpolate.{
  try_package, process_interpolation_result, unanswered, answered,
}
use arl_hierarchical_multisc.AdaptiveSampling.Evaluate.{BrokerLink, assign, send}
use arl_hierarchical_multisc.AdaptiveSampling.Evaluate
use arl_hierarchical_multisc.AdaptiveSampling.Values
use arl_hierarchical_multisc.AdaptiveSampling.Values.{process_request, start_additional_evaluations}
use arl_hierarchical_multisc.AdaptiveSampling.System
use arl_hierarchical_multisc.AdaptiveSampling.System.{Client, Reach, Step, start, here, next}
use arl_hierarchical_multisc.AdaptiveSampling.Conservation.Requests.{
  before, under_evaluation, answers, Fits,
}
use arl_hierarchical_multisc.AdaptiveSampling.Conservation.Answers.{
  each_request_accounted, at_most_one_answer,
}
use arl_hierarchical_multisc.AdaptiveSampling.Conservation.Counters.{owing, outstanding}
use arl_hierarchical_multisc.AdaptiveSampling.Conservation.Counting.{number_evaluations_exact}
use arl_hierarchical_multisc.AdaptiveSampling.Limits.{IsModest, IsWithin, speculate-IsWithin}
use arl_hierarchical_multisc.AdaptiveSampling.Speculate.{
  speculate, speculate_from, failed_speculative_evaluations,
}
use arl_hierarchical_multisc.Tests.{World, clock, work, argument}

-- Whether the database can interpolate.
abbrev services : Bool → Services World
services known = record {
  clock = clock;
  database = record {
    interpolate = λ a hint. pure ((known, some 3), hint);
    insert = λ a value hint. pure (false, hint);
    generate_sample_arguments = λ a. pure (argument ∷ []);
    add_new_model = λ as' values hint. pure (true, hint);
  };
  generator = null_generator;
  scheduler = record { schedule = all_to_first; update = λ ps. pure tt };
}
  where
    zeros : List ModelPackage → List ℕ
    zeros [] = []
    zeros (p ∷ ps) = 0 ∷ zeros ps

    all_to_first : List ModelPackage → M World (List ℕ)
    all_to_first ps = pure (zeros ps)

abbrev started : Client
started = start (pos 5) 1 1

-- What a run that returns has returned.
abbrev result : {A : Type 0} → A → Result A × World → A
result default (ok a, w) = a
result default (err e, w) = default

-- The head of a list that has one.
abbrev first : {A : Type 0} → A → List A → A
first default [] = default
first default (x ∷ xs) = x

abbrev received : Bool → Client
received known =
    let r =
      result (0, started.shared) (accept (services known) 0 (work 1 ∷ []) started.shared tt) in
    record started { id_counter = r.0; shared = r.1 }

abbrev sampler : Sampler
sampler = new_sampler true

abbrev extracted : Bool → Client
extracted known =
    let (t, s) = Interpolate.extract sampler (received known).shared in
    record (received known) { samplers = t ∷ []; shared = s }

abbrev tried : Bool → Client
tried known =
    let t = (Interpolate.extract sampler (received known).shared).0 in
    let r =
      result (t, (extracted known).shared)
        (try_package (services known) (pos 0) (record t { to_try = [] }) (extracted known).shared
          (first (work 1) t.to_try) tt) in
    record (extracted known) { samplers = r.0 ∷ []; shared = r.1 }

abbrev drained : Client
drained =
    let r =
      result ([], (tried false).shared) (Evaluate.drain (services false) (tried false).shared tt) in
    record (tried false) { assigned = r.0; shared = r.1 }

abbrev request : ModelPackage
request = first (work 1) (tried false).shared.evaluation_pile

abbrev evaluated_request : ModelPackage
evaluated_request = record request { value = some 7 }

abbrev broker : List ModelPackage → List ModelPackage → BrokerLink
broker to from = record { to_broker = to; from_broker = from }

abbrev dispatched : Client
dispatched = record drained { assigned = []; brokers = broker (request ∷ []) [] ∷ [] }

abbrev evaluated : Client
evaluated = record dispatched { brokers = broker [] (evaluated_request ∷ []) ∷ [] }

abbrev collected : Client
collected = record evaluated {
  brokers = broker [] [] ∷ [];
  processor =
      result new_processor
        (Values.collect (services false) new_processor (evaluated_request ∷ []) tt);
}

abbrev processed : Client
processed =
    let r =
      result (new_processor, collected.shared)
        (Values.process (services false) (record collected.processor { to_process = [] })
          collected.shared evaluated_request tt) in
    record collected { processor = r.0; shared = r.1 }

received-Reach : (known : Bool) → Reach (services known) started (received known)
unfolding accept set_ids log_timestamp ◌>>=◌
received-Reach known =
    next here (System.receives (work 1 ∷ []) tt tt _ (refl, tt) (omega arith) refl)

extracted-Reach : (known : Bool) → Reach (services known) started (extracted known)
unfolding accept set_ids log_timestamp ◌>>=◌ Interpolate.extract
extracted-Reach known = next (received-Reach known) (System.extracts [] [] sampler refl refl refl)

tried-Reach : (known : Bool) → Reach (services known) started (tried known)
unfolding accept set_ids log_timestamp ◌>>=◌ Interpolate.extract try_package
    process_interpolation_result unanswered answered
tried-Reach false = next (extracted-Reach false) (
    System.tries (pos 0) [] [] (first sampler (extracted false).samplers)
      (first (work 1) (first sampler (extracted false).samplers).to_try) [] tt tt _ refl refl refl
      refl)
tried-Reach true = next (extracted-Reach true) (
    System.tries (pos 0) [] [] (first sampler (extracted true).samplers)
      (first (work 1) (first sampler (extracted true).samplers).to_try) [] tt tt _ refl refl refl
      refl)

dispatched-Reach : Reach (services false) started dispatched
unfolding accept set_ids log_timestamp ◌>>=◌ Interpolate.extract try_package
    process_interpolation_result unanswered Evaluate.drain assign send
dispatched-Reach =
    next (next (tried-Reach false) (System.drains tt tt _ refl refl))
      (System.dispatches request 0 [] _ refl refl)

collected-Reach : Reach (services false) started collected
unfolding accept set_ids log_timestamp ◌>>=◌ Interpolate.extract try_package
    process_interpolation_result unanswered Evaluate.drain assign send Values.collect
collected-Reach =
    next
      (next dispatched-Reach (
        System.evaluates [] [] (broker (request ∷ []) []) [] [] request evaluated_request refl refl
          refl refl))
      (System.collects [] [] (broker [] (evaluated_request ∷ [])) tt tt _ refl refl refl refl)

processed-Reach : Reach (services false) started processed
unfolding accept set_ids log_timestamp ◌>>=◌ Interpolate.extract try_package
    process_interpolation_result unanswered Evaluate.drain assign send Values.collect Values.process
    process_request start_additional_evaluations ◌+ℤ◌
processed-Reach =
    next collected-Reach
      (System.processes evaluated_request [] tt tt _ refl refl (omega arith, omega arith))

-- The request is answered, and an additional evaluation is on the pile.
each_request_accounted_example :
    Fits
      (before 0 processed)
      (under_evaluation 0 processed)
      (answers 0 processed)
      (processed.processor.additional_evaluations 0)
      0
      processed.id_counter
each_request_accounted_example =
    each_request_accounted (services false) (pos 5) 1 1 processed 0 processed-Reach

at_most_one_answer_example : answers 0 processed ≤ (if ltb 0 processed.id_counter then 1 else 0)
at_most_one_answer_example =
    at_most_one_answer (services false) (pos 5) 1 1 processed 0 processed-Reach

-- The package is at the broker, and has not been counted yet.
number_evaluations_exact_example :
    (dispatched.shared.number_evaluations
      ≡ pos (outstanding dispatched) -ℤ pos (owing dispatched.samplers))
    × (owing dispatched.samplers ≤ length dispatched.samplers)
unfolding accept set_ids log_timestamp ◌>>=◌ Interpolate.extract try_package
    process_interpolation_result unanswered Evaluate.drain assign send
number_evaluations_exact_example =
    number_evaluations_exact (services false) (pos 5) 1 1 dispatched dispatched-Reach refl

-- A generator that has three packages, of which it gives as many as it is asked for.
abbrev eager : Services World
eager = record (services false) {
  generator = record { generate = λ t n. pure (take n (t ∷ t ∷ t ∷ [])); update = λ p. pure tt };
}

length-take : (n : ℕ) (ps : List ModelPackage) → length (take n ps) ≤ n
length-take zero ps = omega arith
length-take (suc n) [] = omega arith
length-take (suc n) (p ∷ ps) = omega (arith, length-take n ps)

eager-IsModest : IsModest eager.generator
eager-IsModest = record { generates = λ t n. Ensures-pure _ (length-take n (t ∷ t ∷ t ∷ [])) }

abbrev templated : Sampler
templated = record sampler { model_package_template = some (work 1) }

abbrev two_allowed : Shared
two_allowed = AdaptiveSampling.new (pos 2)

abbrev two_made : Shared
two_made = result two_allowed (speculate eager templated two_allowed tt)

speculate-IsWithin_example : IsWithin (pos 2) two_made.number_speculative_evaluations
unfolding speculate speculate_from failed_speculative_evaluations ◌>>=◌ ◌-ℤ◌
speculate-IsWithin_example =
    speculate-IsWithin eager eager-IsModest templated two_allowed two_made tt tt refl refl
