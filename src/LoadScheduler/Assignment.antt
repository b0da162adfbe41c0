-- ===== src/LoadScheduler/Assignment.antt =====
-- Each package gets one of the brokers.
use arl_hierarchical_multisc.Base.{
  ℕ, zero, suc, ◌+◌, ◌<◌, ◌≡◌, refl, ap, sym, subst, ◌∙◌, Bool, true, not, ◌&&◌, Option, none, some,
  List, [], ◌∷◌, length, count_if, All, ltb, ◌==◌, arith, if◌then◌else◌,
}
use arl_hierarchical_multisc.Base.Int.{ltb_ℤ, ℤ, pos}
use arl_hierarchical_multisc.Base.Effect.{
  cons_ok-inverse, ok, pure, lift, Ensures, Ensures->>=, Ensures-pure, Ensures-throw, Ensures-lift,
  Ensures-if, Ensures-mono, Ensures-returns, ok-injective,
}
use arl_hierarchical_multisc.AdaptiveSampling.Tally.{Ensures-any}
use arl_hierarchical_multisc.LoadQuery.{LoadQuery}
use arl_hierarchical_multisc.ModelPackage.{ModelPackage}
use arl_hierarchical_multisc.LoadScheduler.Order.{with_total}
use arl_hierarchical_multisc.LoadScheduler.{
  IsStrictWeak, Doubles, Response, Sorter, Brokers, LoadScheduler, last_or, all_there, absent, win,
  assign_all, send_all, receive_all, collect_responses, load_sorter, start_log, go_on_log,
  check_log, is_empty, query_and_assign, schedule,
}

abbrev pub IsBelow : ℕ → ℕ → Type 0
IsBelow n i = i < n

-- One broker for each package.
pub record Assigned (n : ℕ) (ps : List ModelPackage) (ids : List ℕ) : Type 0 where
  pub one_each : length ids ≡ length ps
  pub in_range : All (IsBelow n) ids

abbrev out_of_range : ℕ → Response → Bool
out_of_range n r = not (ltb r.1 n)

abbrev without_total : (ℕ → Bool) → Response → Bool
without_total p r = not (with_total p r)

-- The loads that a broker reports have such totals.
abbrev pub HaveTotal : (ℕ → Bool) → List LoadQuery → Type 0
HaveTotal p qs = All (λ q. p q.number_total_resources ≡ true) qs

-- The responses that have come are in the places of their brokers, and have such totals.
abbrev InPlace : (ℕ → Bool) → ℕ → List (Option Response) → Type 0
InPlace p i [] = Unit
InPlace p i (none ∷ rs) = InPlace p (suc i) rs
InPlace p i (some r ∷ rs) = (r.1 ≡ i) × (p r.0.number_total_resources ≡ true) × InPlace p (suc i) rs

absent-InPlace : (p : ℕ → Bool) (i n : ℕ) → InPlace p i (absent n) × (length (absent n) ≡ n)
absent-InPlace p i zero = (tt, refl)
absent-InPlace p i (suc n) = let (h, e) = absent-InPlace p (suc i) n in (h, ap suc e)

last_or-InPlace :
    (p : ℕ → Bool) (r : Option Response) (i : ℕ) (qs : List LoadQuery)
    (rs rs' : List (Option Response))
    → HaveTotal p qs
    → InPlace p i (r ∷ rs)
    → InPlace p (suc i) rs'
    → InPlace p i (last_or r i qs ∷ rs')
last_or-InPlace p none i [] rs rs' total h k = k
last_or-InPlace p (some r) i [] rs rs' total h k = (h.0, h.1, k)
last_or-InPlace p r i (q ∷ qs) rs rs' (some_total, total) h k =
    last_or-InPlace p (some (q, i)) i qs rs' rs' total (refl, some_total, k) k

InPlace-tail :
    (p : ℕ → Bool) (r : Option Response) (i : ℕ) (rs : List (Option Response))
    → InPlace p i (r ∷ rs)
    → InPlace p (suc i) rs
InPlace-tail p none i rs h = h
InPlace-tail p (some r) i rs h = h.2

in_place : (n : ℕ) (r : Response) → r.1 < n → count_if (out_of_range n) (r ∷ []) ≡ 0
in_place n r h = ground arith

one_with_total :
    (p : ℕ → Bool) (r : Response)
    → p r.0.number_total_resources ≡ true
    → count_if (without_total p) (r ∷ []) ≡ 0
one_with_total p r h = rw h refl

nothing : (n : ℕ) (ps : List ModelPackage) → ps ≡ [] → Assigned n ps []
nothing n ps e = record { one_each = sym (ap length e); in_range = tt }

all_there-range :
    (p : ℕ → Bool) (i n : ℕ) (rs : List (Option Response)) (us : List Response)
    → InPlace p i rs
    → i + length rs ≡ n
    → all_there rs ≡ ok us
    → (count_if (out_of_range n) us ≡ 0) × (count_if (without_total p) us ≡ 0)
unfolding all_there
all_there-range p i n [] us h size e = (
  ap (count_if (out_of_range n)) (sym (ok-injective e)),
  ap (count_if (without_total p)) (sym (ok-injective e)),
)
all_there-range p i n (none ∷ rs) us h size e = absurd (cc)
all_there-range p i n (some r ∷ rs) us (h, total, hs) size e =
    let (ys, es, split) = cons_ok-inverse r (all_there rs) us e in
    let (ranges, totals) = all_there-range p (suc i) n rs ys hs (omega arith) es in
    (
      ap (count_if (out_of_range n)) split ∙ omega (arith, in_place n r (omega (arith, h)), ranges),
      ap (count_if (without_total p)) split ∙ omega (arith, one_with_total p r total, totals),
    )

receive_all-InPlace :
    {W D : Type 0} (doubles : Doubles D) (sorter : Sorter) (brokers : Brokers W) (p : ℕ → Bool)
    (i : ℕ) (rs : List (Option Response))
    → ((j : ℕ) → Ensures (brokers.receive j) (HaveTotal p))
    → InPlace p i rs
    → Ensures
        (receive_all doubles sorter brokers i rs)
        (λ r. InPlace p i r.0 × (length r.0 ≡ length rs))
unfolding receive_all
receive_all-InPlace doubles sorter brokers p i [] total h = Ensures-pure _ (tt, refl)
receive_all-InPlace doubles sorter brokers p i (r ∷ rs) total h =
    Ensures->>= (brokers.receive i) (total i) λ qs totals.
      Ensures->>= (receive_all doubles sorter brokers (suc i) rs)
        (receive_all-InPlace doubles sorter brokers p (suc i) rs total (InPlace-tail p r i rs h))
        λ others k. Ensures-pure _ (last_or-InPlace p r i qs rs others.0 totals h k.0, ap suc k.1)

-- Suppose that the comparator is what `std::sort` asks for on loads with totals of a kind, and that the
-- brokers report such totals.
module _ {W D : Type 0} (doubles : Doubles D) (sorter : Sorter) (brokers : Brokers W) (p : ℕ → Bool)
    (weak : IsStrictWeak (with_total p) (load_sorter doubles))
    (total : (j : ℕ) → Ensures (brokers.receive j) (HaveTotal p)) where
  collect_responses-InPlace :
      (fuel answers : ℕ) (rs : List (Option Response))
      → InPlace p 0 rs
      → Ensures
          (collect_responses doubles sorter brokers fuel answers rs)
          (λ us. InPlace p 0 us × (length us ≡ length rs))
  unfolding collect_responses
  collect_responses-InPlace zero answers rs h = Ensures-throw _
  collect_responses-InPlace (suc fuel) answers rs h =
      Ensures-if (answers == length rs) (λ _. Ensures-pure _ (h, refl))
        λ _.
          Ensures->>= (receive_all doubles sorter brokers 0 rs)
            (receive_all-InPlace doubles sorter brokers p 0 rs total h)
            λ r k.
              Ensures-mono (λ us m. (m.0, m.1 ∙ k.1))
                (collect_responses-InPlace fuel (answers + r.1) r.0 k.0)

  win-range :
      (n : ℕ) (q : ModelPackage) (rs : List Response) (r : ℕ × List Response)
      → count_if (out_of_range n) rs ≡ 0
      → count_if (without_total p) rs ≡ 0
      → win doubles sorter brokers q rs ≡ ok r
      → (r.0 < n) × (count_if (out_of_range n) r.1 ≡ 0) × (count_if (without_total p) r.1 ≡ 0)
  win-range n q [] r h t e = absurd (cc)
  win-range n q (_ ∷ rs) r h t e =
      subst
        (λ r.
          (r.0 < n) × (count_if (out_of_range n) r.1 ≡ 0) × (count_if (without_total p) r.1 ≡ 0))
        (ok-injective e) (ground (arith, h), h, t)

  moved :
      (f : Response → Bool) (rs : List Response)
      → count_if (without_total p) rs ≡ 0
      → count_if f (sorter.sort (load_sorter doubles) rs) ≡ count_if f rs
  moved f rs t = sorter.sort_counts (with_total p) (load_sorter doubles) weak f rs t

  assign_all-Assigned :
      (n : ℕ) (ps : List ModelPackage) (rs : List Response)
      → count_if (out_of_range n) rs ≡ 0
      → count_if (without_total p) rs ≡ 0
      → Ensures (assign_all doubles sorter brokers ps rs) (Assigned n ps)
  unfolding assign_all
  assign_all-Assigned n [] rs h t = Ensures-pure _ (record { one_each = refl; in_range = tt })
  assign_all-Assigned n (q ∷ ps) rs h t =
      Ensures->>= (lift (win doubles sorter brokers q (sorter.sort (load_sorter doubles) rs)))
        (Ensures-lift _ λ r e.
          win-range n q _ r (moved (out_of_range n) rs t ∙ h) (moved (without_total p) rs t ∙ t) e)
        λ r k.
          Ensures->>= (assign_all doubles sorter brokers ps r.1)
            (assign_all-Assigned n ps r.1 k.1 k.2)
            λ ids m.
              Ensures-pure _ (record { one_each = ap suc m.one_each; in_range = (k.0, m.in_range) })

  query_and_assign-Assigned :
      (fuel : ℕ) (s : LoadScheduler) (log_load : Bool) (app_time : ℤ) (ps : List ModelPackage)
      → Ensures
          (query_and_assign doubles sorter brokers fuel s log_load app_time ps)
          (Assigned s.number_brokers ps)
  unfolding query_and_assign
  query_and_assign-Assigned fuel s log_load app_time ps =
      let (h, size) = absent-InPlace p 0 s.number_brokers in
      Ensures->>= (send_all doubles sorter brokers 0 s.number_brokers) Ensures-any λ _ _.
        Ensures->>= (collect_responses doubles sorter brokers fuel 0 (absent s.number_brokers))
          (collect_responses-InPlace fuel 0 (absent s.number_brokers) h)
          λ answers k.
            Ensures->>= (if log_load then brokers.log_load app_time answers else pure tt)
              Ensures-any
              λ _ _.
                Ensures->>= (lift (all_there answers))
                  (Ensures-lift _ λ us e.
                    all_there-range p 0 s.number_brokers answers us k.0 (omega (arith, k.1, size))
                      e)
                  λ rs m. assign_all-Assigned s.number_brokers ps rs m.0 m.1

  start_log-brokers :
      (s : LoadScheduler)
      → Ensures (start_log doubles sorter brokers s) (λ r. r.0.number_brokers ≡ s.number_brokers)
  unfolding start_log
  start_log-brokers s = Ensures->>= brokers.time Ensures-any λ _ _.
      Ensures->>= brokers.time Ensures-any
        λ _ _. Ensures->>= brokers.log_header Ensures-any λ _ _. Ensures-pure _ refl

  go_on_log-brokers :
      (s : LoadScheduler)
      → Ensures (go_on_log doubles sorter brokers s) (λ r. r.0.number_brokers ≡ s.number_brokers)
  unfolding go_on_log
  go_on_log-brokers s = Ensures->>= brokers.time Ensures-any λ _ _. Ensures-pure _ refl

  check_log-brokers :
      (s : LoadScheduler)
      → Ensures (check_log doubles sorter brokers s) (λ r. r.0.number_brokers ≡ s.number_brokers)
  unfolding check_log
  check_log-brokers s =
      Ensures-if (ltb_ℤ s.time_between_logs (pos 0)) (λ _. Ensures-pure _ refl)
        λ _.
          Ensures-if s.log_is_open (λ _. go_on_log-brokers s)
            λ _.
              Ensures->>= brokers.open_log Ensures-any
                λ opened _. Ensures-if opened (λ _. start_log-brokers s) (λ _. Ensures-throw _)

  is_empty_and :
      (ps : List ModelPackage) (b : Bool)
      → (is_empty doubles sorter brokers ps && not b) ≡ true
      → ps ≡ []
  is_empty_and [] b e = refl
  is_empty_and (p ∷ ps) b e = absurd (cc)

  schedule-Ensures :
      (fuel : ℕ) (s : LoadScheduler) (ps : List ModelPackage)
      → Ensures (schedule doubles sorter brokers fuel s ps) (λ r. Assigned s.number_brokers ps r.0)
  unfolding schedule
  schedule-Ensures fuel s ps =
      Ensures->>= (check_log doubles sorter brokers s) (check_log-brokers s) λ r same.
        Ensures->>=
          (if is_empty doubles sorter brokers ps && not r.1
            then pure []
            else query_and_assign doubles sorter brokers fuel r.0 r.1 r.2 ps)
          (Ensures-if (is_empty doubles sorter brokers ps && not r.1)
            (λ e. Ensures-pure _ (nothing s.number_brokers ps (is_empty_and ps r.1 e)))
            (λ _.
              Ensures-mono (λ ids m. subst (λ n. Assigned n ps ids) same m)
                (query_and_assign-Assigned fuel r.0 r.1 r.2 ps)))
          λ ids m. Ensures-pure _ m

  -- When `schedule` returns, each package has got exactly one id, and every id is that of one of the
  -- brokers, if the comparator is what
  -- `std::sort` asks for on the loads that they report, whichever answers come when, and with a log or
  -- without one.
  pub schedule-Assigned :
      (fuel : ℕ) (s s' : LoadScheduler) (ps : List ModelPackage) (ids : List ℕ) (w w' : W)
      → schedule doubles sorter brokers fuel s ps w ≡ (ok (ids, s'), w')
      → Assigned s.number_brokers ps ids
  schedule-Assigned fuel s s' ps ids w w' e =
      Ensures-returns (schedule-Ensures fuel s ps) w w' (ids, s') e
