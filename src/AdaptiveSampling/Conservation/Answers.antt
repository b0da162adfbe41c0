-- ===== src/AdaptiveSampling/Conservation/Answers.antt =====
-- The requests of a client that has run for any number of steps.
use arl_hierarchical_multisc.Base.{
  ℕ, zero, suc, ◌≤◌, ◌≡◌, refl, Bool, true, false, Option, some, none, List, ltb, arith,
  if◌then◌else◌,
}
use arl_hierarchical_multisc.Base.Int.{ℤ}
use arl_hierarchical_multisc.ModelPackage.{ModelPackage}
use arl_hierarchical_multisc.AdaptiveSampling.{Services}
use arl_hierarchical_multisc.AdaptiveSampling.System.{
  here, next, samplers_from, links, Client, Reach, start,
}
use arl_hierarchical_multisc.AdaptiveSampling.Tally.{tally, waiting, at_brokers}
use arl_hierarchical_multisc.AdaptiveSampling.Conservation.Requests.{
  has_id, before, under_evaluation, answers, Fits, IsAccounted,
}
use arl_hierarchical_multisc.AdaptiveSampling.Conservation.Steps.{Step-IsAccounted}

waiting-samplers : (i n : ℕ) (b : Bool) → tally (has_id i) (waiting (samplers_from b n)) ≡ 0
waiting-samplers i zero b = refl
waiting-samplers i (suc n) b = waiting-samplers i n false

at_brokers-links : (i n : ℕ) → tally (has_id i) (at_brokers (links n)) ≡ 0
at_brokers-links i zero = refl
at_brokers-links i (suc n) = at_brokers-links i n

start-IsAccounted : (limit : ℤ) (n m : ℕ) → IsAccounted (start limit n m)
start-IsAccounted limit n m i = ground (arith, waiting-samplers i n true, at_brokers-links i m)

Reach-IsAccounted :
    {W : Type 0} (services : Services W) (limit : ℤ) (threads brokers : ℕ) (c : Client)
    → Reach services (start limit threads brokers) c
    → IsAccounted c
Reach-IsAccounted services limit threads brokers c here = start-IsAccounted limit threads brokers
Reach-IsAccounted services limit threads brokers c (next {d = d} r s) =
    Step-IsAccounted services d c s (Reach-IsAccounted services limit threads brokers d r)

-- In a client that has run for any number of steps of its threads, in any order, a request with an id
-- below the counter is at exactly one place (before its evaluation, under evaluation, or answered), as
-- long as no additional evaluations are awaited for its id. When some are, it is answered, and those
-- that are under evaluation are as many as still have to come. Requests are not speculative, and there
-- are fewer than 2^64.
pub each_request_accounted :
    {W : Type 0} (services : Services W) (limit : ℤ) (threads brokers : ℕ) (c : Client) (i : ℕ)
    → Reach services (start limit threads brokers) c
    → Fits
        (before i c)
        (under_evaluation i c)
        (answers i c)
        (c.processor.additional_evaluations i)
        i
        c.id_counter
each_request_accounted services limit threads brokers c i r =
    Reach-IsAccounted services limit threads brokers c r i

answers_of :
    (b u a i k : ℕ) (o : Option (ℕ × List ModelPackage))
    → Fits b u a o i k
    → a ≤ (if ltb i k then 1 else 0)
answers_of b u a i k none h = omega (arith, h)
answers_of b u a i k (some (n, qs)) (h0, h1, h2, h3) = ground arith

-- No request is answered twice, and nothing is answered that was not received: of the packages with a
-- certain id that are not speculative, a client that has run for any number of steps in any order has
-- shipped at most one, and none when the id was not given out yet.
pub at_most_one_answer :
    {W : Type 0} (services : Services W) (limit : ℤ) (threads brokers : ℕ) (c : Client) (i : ℕ)
    → Reach services (start limit threads brokers) c
    → answers i c ≤ (if ltb i c.id_counter then 1 else 0)
at_most_one_answer services limit threads brokers c i r =
    answers_of _ _ _ i c.id_counter (c.processor.additional_evaluations i)
      (Reach-IsAccounted services limit threads brokers c r i)
