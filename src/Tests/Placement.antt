-- ===== src/Tests/Placement.antt =====
-- Two brokers of which the second has more free resources, and a file with two hosts.
use arl_hierarchical_multisc.Base.{
  arith, ℕ, ◌+◌, ◌≡◌, refl, Bool, true, false, not, some, List, [], ◌∷◌, ltb, ◌==◌, count_if,
}
use arl_hierarchical_multisc.Base.Int.{◌-ℤ◌, pos, negsuc}
use arl_hierarchical_multisc.Base.Effect.{Ensures-pure, ok, pure, ◌>>=◌}
use arl_hierarchical_multisc.ModelPackage.{ModelPackage}
use arl_hierarchical_multisc.AdaptiveSampling.Evaluate.{BrokerLink, assign, dispatch_all}
use arl_hierarchical_multisc.AdaptiveSampling.Tally.{tally, at_brokers}
use arl_hierarchical_multisc.LoadQuery.{LoadQuery}
use arl_hierarchical_multisc.LoadScheduler.{
  IsStrictWeak, Doubles, Response, Sorter, Brokers, LoadScheduler, load_sorter, schedule, check_log,
  query_and_assign, send_all, receive_all, collect_responses, all_there, assign_all,
}
use arl_hierarchical_multisc.LoadScheduler.Order.{
  IsNumeric, with_total, is_positive, load_sorter-IsStrictWeak,
}
use arl_hierarchical_multisc.LoadScheduler.Delivery.{scheduled_packages_sent}
use arl_hierarchical_multisc.Machinefile.{
  Text, Files, machinefile_text, generate, generate_resources,
}
use arl_hierarchical_multisc.Machinefile.RoundTrip.{host, generate_resources-generate}
use arl_hierarchical_multisc.Tests.{World, work}

-- Free parts of the same total.
abbrev doubles : Doubles ℕ
doubles = record { divide = λ a b. a; differ = λ a b. not (a == b); less = ltb }

-- Sorts the first two, which are all here.
abbrev order_two : Bool → Response → Response → List Response → List Response
order_two true a b rs = b ∷ a ∷ rs
order_two false a b rs = a ∷ b ∷ rs

abbrev sort_two : (Response → Response → Bool) → List Response → List Response
sort_two less [] = []
sort_two less (a ∷ []) = a ∷ []
sort_two less (a ∷ b ∷ rs) = order_two (less b a) a b rs

order_two-counts :
    (o : Bool) (f : Response → Bool) (a b : Response) (rs : List Response)
    → count_if f (order_two o a b rs) ≡ count_if f (a ∷ b ∷ rs)
order_two-counts true f a b rs = omega arith
order_two-counts false f a b rs = refl

sort_two-counts :
    (p : Response → Bool) (less : Response → Response → Bool)
    → IsStrictWeak p less
    → (f : Response → Bool) (rs : List Response) → count_if (λ r. not (p r)) rs ≡ 0
    → count_if f (sort_two less rs) ≡ count_if f rs
sort_two-counts p less weak f [] h = refl
sort_two-counts p less weak f (a ∷ []) h = refl
sort_two-counts p less weak f (a ∷ b ∷ rs) h = order_two-counts (less b a) f a b rs

abbrev sorter : Sorter
sorter = record { sort = sort_two; sort_counts = sort_two-counts }

abbrev load : ℕ → LoadQuery
load free = record {
  number_free_resources = free;
  number_queued_jobs = 0;
  number_queued_jobs_all_users = 0;
  number_used_resources = 0;
  number_total_resources = 8;
}

abbrev brokers : Brokers World
brokers = record {
  time = pure (pos 0);
  open_log = pure true;
  log_header = pure tt;
  log_load = λ time loads. pure tt;
  send = λ i. pure tt;
  receive = λ i. pure (load (i + 2) ∷ []);
}

abbrev two_brokers : LoadScheduler
two_brokers = record {
  number_brokers = 2;
  time_between_logs = negsuc 0;
  log_is_open = false;
  initial_time = pos 0;
  last_log_time = pos 0;
}

abbrev works : List ModelPackage
works = work 2 ∷ work 2 ∷ []

numeric : IsNumeric doubles
numeric = record {
  is_number = λ a. true;
  quotient = λ n t h. refl;
  same = λ a b ha hb e. ground arith;
  reflexive = λ a h. ground arith;
  compares = λ a b ha hb d e. ground arith;
  asymmetric = λ a b ha hb e. ground arith;
  not_less-trans = λ a b c ha hb hc e f. ground arith;
}

load_sorter-IsStrictWeak_example : IsStrictWeak (with_total is_positive) (load_sorter doubles)
load_sorter-IsStrictWeak_example = load_sorter-IsStrictWeak doubles numeric

works-schedule :
    schedule doubles sorter brokers 2 two_brokers works tt ≡ (ok (1 ∷ 0 ∷ [], two_brokers), tt)
unfolding schedule check_log query_and_assign send_all collect_responses receive_all all_there
    assign_all load_sorter ◌>>=◌ ◌-ℤ◌
works-schedule = refl

abbrev links : List BrokerLink
links =
    record { to_broker = []; from_broker = [] } ∷ record { to_broker = []; from_broker = [] } ∷ []

scheduled_packages_sent_example :
    (r : List (ModelPackage × ℕ)) × (cs : List BrokerLink) × (assign works (1 ∷ 0 ∷ []) ≡ ok r)
    × (dispatch_all r links ≡ ok cs)
    × ((f : ModelPackage → Bool)
        → tally f (at_brokers cs) ≡ tally f works + tally f (at_brokers links))
scheduled_packages_sent_example =
    scheduled_packages_sent doubles sorter brokers 2 two_brokers two_brokers works (1 ∷ 0 ∷ []) tt
      tt links is_positive (load_sorter-IsStrictWeak doubles numeric)
      (λ j. Ensures-pure _ (ground arith, tt)) works-schedule refl

-- n1 and n2.
abbrev hosts : List Text
hosts = (110 ∷ 49 ∷ []) ∷ (110 ∷ 50 ∷ []) ∷ []

-- The world is the text of the one file.
abbrev files : Files Text
files = record { write = λ path text w. (ok true, text); read = λ path w. (ok (some w), w) }

generate_resources-generate_example :
    (generate files "machinefile" hosts [] ≡ (ok tt, machinefile_text hosts))
    × (generate_resources files "machinefile" (machinefile_text hosts)
        ≡ (ok hosts, machinefile_text hosts))
generate_resources-generate_example =
    generate_resources-generate files "machinefile" hosts [] (machinefile_text hosts)
      (machinefile_text hosts) (machinefile_text hosts)
      (host 110 (49 ∷ []) refl (refl, (refl, tt)), (host 110 (50 ∷ []) refl (refl, (refl, tt)), tt))
      refl refl
