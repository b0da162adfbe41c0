-- ===== src/AdaptiveSampling/Tally.antt =====
-- How often packages of a kind stand in a list, and what the calls on a package keep of its kind.
use arl_hierarchical_multisc.Base.{
  zero, suc, ℕ, ◌+◌, ◌≡◌, refl, ap, sym, ◌∙◌, Bool, true, false, List, [], ◌∷◌, ◌++◌, map, count_if,
  count_if-append, arith, String,
}
use arl_hierarchical_multisc.Base.Effect.{
  cons_ok-inverse, ok-injective, M, Result, ok, err, undefined, Ensures, Ensures->>=, Ensures-pure,
}
use arl_hierarchical_multisc.ModelPackage.{
  Clock, ModelPackage, Timespec, log_timestamp, pop_timestamp,
}
use arl_hierarchical_multisc.AdaptiveSampling.{Sampler}
use arl_hierarchical_multisc.AdaptiveSampling.Evaluate.{BrokerLink, assign, send}
use arl_hierarchical_multisc.AdaptiveSampling.Values.{is_speculative}

-- The same id and priority.
pub record IsSame (p q : ModelPackage) : Type 0 where
  pub id : q.id ≡ p.id
  pub priority : q.priority ≡ p.priority

-- A kind of packages that no speculative one is of.
pub record IsKind (f : ModelPackage → Bool) : Type 0 where
  pub same : (p q : ModelPackage) → IsSame p q → f q ≡ f p
  pub regular : (p : ModelPackage) → is_speculative p.priority ≡ true → f p ≡ false

pub Ensures-any : {W A : Type 0} {m : M W A} → Ensures m (λ _. Unit)
Ensures-any = record { run = λ w a e. tt }

pub log_timestamp-IsSame :
    {W : Type 0} (clock : Clock W) (p : ModelPackage) (m : String)
    → Ensures (log_timestamp clock p m) (IsSame p)
unfolding log_timestamp
log_timestamp-IsSame clock p m =
    Ensures->>= clock.get_time Ensures-any
      λ time _. Ensures-pure _ (record { id = refl; priority = refl })

pop_from-IsSame :
    (p q : ModelPackage) (ts : List (Timespec × String))
    → (elim ts as (λ _. Result ModelPackage) [
      | [] ↦ err undefined
      | t ∷ us ↦ ok (record p { timestamps = us })
    ])
      ≡ ok q
    → IsSame p q
pop_from-IsSame p q [] e = absurd (cc)
pop_from-IsSame p q (t ∷ ts) e = record {
  id = ap (λ r. r.id) (sym (ok-injective e));
  priority = ap (λ r. r.priority) (sym (ok-injective e));
}

pub pop_timestamp-IsSame : (p q : ModelPackage) → pop_timestamp p ≡ ok q → IsSame p q
pop_timestamp-IsSame p q e = pop_from-IsSame p q p.timestamps e

-- The packages of all the threads, and of all the connections to brokers.
abbrev pub waiting : List Sampler → List ModelPackage
waiting [] = []
waiting (t ∷ ts) = (t.to_try ++ t.held_evaluations) ++ waiting ts

abbrev pub at_brokers : List BrokerLink → List ModelPackage
at_brokers [] = []
at_brokers (b ∷ bs) = (b.to_broker ++ b.from_broker) ++ at_brokers bs

abbrev pub packages : List (ModelPackage × ℕ) → List ModelPackage
packages assigned = map (λ a. a.0) assigned

pub assign-packages :
    (ps : List ModelPackage) (ids : List ℕ) (r : List (ModelPackage × ℕ))
    → assign ps ids ≡ ok r
    → packages r ≡ ps
unfolding assign
assign-packages [] ids r e = sym (ap packages (ok-injective e))
assign-packages (p ∷ ps) [] r e = absurd (cc)
assign-packages (p ∷ ps) (i ∷ ids) r e =
    let (ys, h, split) = cons_ok-inverse (p, i) (assign ps ids) r e in
    ap packages split ∙ ap (◌∷◌ p) (assign-packages ps ids ys h)

module _ (f : ModelPackage → Bool) where
  abbrev pub tally : List ModelPackage → ℕ
  tally ps = count_if f ps

  pub tally-waiting :
      (front back : List Sampler) (t : Sampler)
      → tally (waiting (front ++ t ∷ back))
        ≡ tally (waiting (front ++ back)) + (tally t.to_try + tally t.held_evaluations)
  tally-waiting [] back t = omega (
    arith,
    count_if-append f (t.to_try ++ t.held_evaluations) (waiting back),
    count_if-append f t.to_try t.held_evaluations,
  )
  tally-waiting (u ∷ us) back t = omega (
    arith,
    count_if-append f (u.to_try ++ u.held_evaluations) (waiting (us ++ t ∷ back)),
    count_if-append f (u.to_try ++ u.held_evaluations) (waiting (us ++ back)),
    tally-waiting us back t,
  )

  pub tally-at_brokers :
      (front back : List BrokerLink) (b : BrokerLink)
      → tally (at_brokers (front ++ b ∷ back))
        ≡ tally (at_brokers (front ++ back)) + (tally b.to_broker + tally b.from_broker)
  tally-at_brokers [] back b = omega (
    arith,
    count_if-append f (b.to_broker ++ b.from_broker) (at_brokers back),
    count_if-append f b.to_broker b.from_broker,
  )
  tally-at_brokers (u ∷ us) back b = omega (
    arith,
    count_if-append f (u.to_broker ++ u.from_broker) (at_brokers (us ++ b ∷ back)),
    count_if-append f (u.to_broker ++ u.from_broker) (at_brokers (us ++ back)),
    tally-at_brokers us back b,
  )

  pub tally-send :
      (i : ℕ) (p : ModelPackage) (bs cs : List BrokerLink)
      → send i p bs ≡ ok cs
      → tally (at_brokers cs) ≡ tally (p ∷ []) + tally (at_brokers bs)
  unfolding send
  tally-send i p [] cs e = absurd (cc)
  tally-send zero p (b ∷ bs) cs e =
      ap (λ l. tally (at_brokers l)) (sym (ok-injective e))
      ∙ omega (
        arith,
        count_if-append f ((b.to_broker ++ p ∷ []) ++ b.from_broker) (at_brokers bs),
        count_if-append f (b.to_broker ++ b.from_broker) (at_brokers bs),
        count_if-append f (b.to_broker ++ p ∷ []) b.from_broker,
        count_if-append f b.to_broker b.from_broker,
        count_if-append f b.to_broker (p ∷ []),
      )
  tally-send (suc i) p (b ∷ bs) cs e =
      let (ys, h, split) = cons_ok-inverse b (send i p bs) cs e in
      ap (λ l. tally (at_brokers l)) split
      ∙ omega (
        arith,
        tally-send i p bs ys h,
        count_if-append f (b.to_broker ++ b.from_broker) (at_brokers bs),
        count_if-append f (b.to_broker ++ b.from_broker) (at_brokers ys),
      )
