-- ===== src/LoadScheduler.antt =====
-- adaptive_sampling/AdaptiveSamplingLoadScheduler.cc: each package goes to the broker with the greatest
-- share of free resources, by what the brokers report. An `int` that is made of an `unsigned int` is
-- taken to be below 2^31.
pub mod Order
pub mod Assignment
pub mod Delivery
use arl_hierarchical_multisc.Base.{
  ◌&&◌, ℕ, zero, suc, ◌+◌, ◌≡◌, Bool, true, false, not, ◌||◌, Option, none, some, List, [], ◌∷◌,
  ◌++◌, length, count_if, ltb, ◌==◌, if◌then◌else◌,
}
use arl_hierarchical_multisc.Base.Int.{ℤ, pos, negsuc, pos_part, ltb_ℤ, ◌-ℤ◌}
use arl_hierarchical_multisc.Base.Effect.{
  cons_ok, M, Result, ok, err, io_error, undefined, pure, throw, lift, ◌>>=◌, ◌>>◌,
}
use arl_hierarchical_multisc.LoadQuery.{LoadQuery}
use arl_hierarchical_multisc.ModelPackage.{ModelPackage}

-- `double`, as far as it is used.
pub record Doubles (D : Type 0) : Type 0 where
  pub divide : ℕ → ℕ → D
  pub differ : D → D → Bool
  pub less : D → D → Bool

abbrev pub Response : Type 0
Response = LoadQuery × ℕ

unfoldable pub load_sorter : {D : Type 0} → Doubles D → Response → Response → Bool
load_sorter doubles i j =
    let free_i = doubles.divide i.0.number_free_resources i.0.number_total_resources in
    let free_j = doubles.divide j.0.number_free_resources j.0.number_total_resources in
    if doubles.differ free_i free_j
    then doubles.less free_j free_i
    else doubles.less (doubles.divide i.0.number_queued_jobs_all_users i.0.number_total_resources)
        (doubles.divide j.0.number_queued_jobs_all_users j.0.number_total_resources)

-- What `std::sort` asks of a comparator: a strict weak order on the items, of which `p` holds.
pub record IsStrictWeak (p : Response → Bool) (less : Response → Response → Bool) : Type 0 where
  pub asymmetric : (a b : Response) → p a ≡ true → p b ≡ true → less a b ≡ true → less b a ≡ false
  pub not_less-trans :
      (a b c : Response)
      → p a ≡ true
      → p b ≡ true
      → p c ≡ true
      → less a b ≡ false
      → less b c ≡ false
      → less a c ≡ false

-- `std::sort`: it moves the items, where the comparator is a strict weak order on them; otherwise it is
-- undefined, and nothing is known of it.
pub record Sorter : Type 0 where
  pub sort : (Response → Response → Bool) → List Response → List Response
  pub sort_counts :
      (p : Response → Bool) (less : Response → Response → Bool)
      → IsStrictWeak p less
      → (f : Response → Bool) (rs : List Response) → count_if (λ r. not (p r)) rs ≡ 0
      → count_if f (sort less rs) ≡ count_if f rs

-- The clock in seconds, the log, and the connections: `log_header` and `log_load` write, `send` sends a
-- query to a broker, and `receive` returns the answers of one that have come.
pub record Brokers (W : Type 0) : Type 0 where
  pub time : M W ℤ
  pub open_log : M W Bool
  pub log_header : M W (Unit {0})
  pub log_load : ℤ → List (Option Response) → M W (Unit {0})
  pub send : ℕ → M W (Unit {0})
  pub receive : ℕ → M W (List LoadQuery)

pub record LoadScheduler : Type 0 where
  pub number_brokers : ℕ
  pub time_between_logs : ℤ
  pub log_is_open : Bool
  pub initial_time : ℤ
  pub last_log_time : ℤ

-- What the winner's load is after a package.
abbrev pub adjust : ModelPackage → LoadQuery → LoadQuery
adjust p q = record q {
  number_queued_jobs_all_users = q.number_queued_jobs_all_users + 1;
  number_free_resources = pos_part (pos q.number_free_resources -ℤ p.model.resource_amount);
}

abbrev last_or : Option Response → ℕ → List LoadQuery → Option Response
last_or r i [] = r
last_or r i (q ∷ qs) = last_or (some (q, i)) i qs

-- A response is there for each broker.
unfoldable pub all_there : List (Option Response) → Result (List Response)
all_there [] = ok []
all_there (none ∷ rs) = err undefined
all_there (some r ∷ rs) = cons_ok r (all_there rs)

-- `responses(d_brokers.size())`, of absent pointers.
abbrev pub absent : ℕ → List (Option Response)
absent zero = []
absent (suc n) = none ∷ absent n

module _ {W D : Type 0} (doubles : Doubles D) (sorter : Sorter) (brokers : Brokers W) where
  -- The broker of the winning response, and the responses with its load adjusted.
  abbrev pub win : ModelPackage → List Response → Result (ℕ × List Response)
  win p [] = err undefined
  win p (r ∷ rs) = ok (r.1, (adjust p r.0, r.1) ∷ rs)

  unfoldable pub assign_all : List ModelPackage → List Response → M W (List ℕ)
  assign_all [] rs = pure []
  assign_all (p ∷ ps) rs = do
    (id, rs') ← lift (win p (sorter.sort (load_sorter doubles) rs))
    ids ← assign_all ps rs'
    pure (id ∷ ids)

  unfoldable pub send_all : ℕ → ℕ → M W (Unit {0})
  send_all i zero = pure tt
  send_all i (suc n) = do brokers.send i; send_all (suc i) n

  -- The inner loop: the answers that have come, and how many brokers have answered in this round.
  unfoldable pub receive_all : ℕ → List (Option Response) → M W (List (Option Response) × ℕ)
  receive_all i [] = pure ([], 0)
  receive_all i (r ∷ rs) = do
    queries ← brokers.receive i
    (others, n) ← receive_all (suc i) rs
    pure (last_or r i queries ∷ others, if length queries == 0 then n else suc n)

  -- The outer loop ends at the exact number of answers, with fuel for its rounds.
  unfoldable pub collect_responses : ℕ → ℕ → List (Option Response) → M W (List (Option Response))
  unfolding receive_all
  collect_responses zero answers rs = throw undefined
  collect_responses (suc fuel) answers rs =
      if answers == length rs
      then pure rs
      else (do (rs', n) ← receive_all 0 rs; collect_responses fuel (answers + n) rs')

  unfoldable pub start_log : LoadScheduler → M W (LoadScheduler × Bool × ℤ)
  start_log s = do
    first ← brokers.time
    last ← brokers.time
    brokers.log_header
    pure (record s { log_is_open = true; initial_time = first; last_log_time = last }, true, pos 0)

  unfoldable pub go_on_log : LoadScheduler → M W (LoadScheduler × Bool × ℤ)
  go_on_log s = do
    now ← brokers.time
    let due = not (ltb_ℤ (now -ℤ s.last_log_time) s.time_between_logs)
    pure (
      record s { last_log_time = if due then now else s.last_log_time },
      due,
      now -ℤ s.initial_time,
    )

  -- The times of the log: the scheduler, whether it logs, and the time since the start.
  unfoldable pub check_log : LoadScheduler → M W (LoadScheduler × Bool × ℤ)
  unfolding start_log go_on_log
  check_log s =
      if ltb_ℤ s.time_between_logs (pos 0)
      then pure (s, false, pos 0)
      else if s.log_is_open
      then go_on_log s
      else (do opened ← brokers.open_log; if opened then start_log s else throw io_error)

  abbrev pub is_empty : List ModelPackage → Bool
  is_empty [] = true
  is_empty (p ∷ ps) = false

  unfoldable pub query_and_assign : ℕ → LoadScheduler → Bool → ℤ → List ModelPackage → M W (List ℕ)
  unfolding send_all collect_responses assign_all all_there
  query_and_assign fuel s log_load app_time ps = do
    send_all 0 s.number_brokers
    answers ← collect_responses fuel 0 (absent s.number_brokers)
    if log_load then brokers.log_load app_time answers else pure tt
    responses ← lift (all_there answers)
    assign_all ps responses

  unfoldable pub schedule : ℕ → LoadScheduler → List ModelPackage → M W (List ℕ × LoadScheduler)
  unfolding check_log query_and_assign
  schedule fuel s ps = do
    (s', log_load, app_time) ← check_log s
    ids ←
        if is_empty ps && not log_load
        then pure []
        else query_and_assign fuel s' log_load app_time ps
    pure (ids, s')
