-- ===== src/AdaptiveSampling/Conservation/Counting.antt =====
-- Each step of a client keeps its counter of outstanding evaluations right.
use arl_hierarchical_multisc.Base.{
  ap₂, ℕ, zero, suc, ◌+◌, ◌≤◌, ◌≡◌, refl, ap, sym, subst, ◌∙◌, Bool, true, false, [], ◌∷◌, ◌++◌,
  length, All, All-append, count_if-append, arith,
}
use arl_hierarchical_multisc.Base.Int.{ℤ, pos, ◌+ℤ◌, ◌-ℤ◌, sub_zero, sub-add, sub-sub, sub_suc-add}
use arl_hierarchical_multisc.Base.Effect.{Ensures-returns}
use arl_hierarchical_multisc.AdaptiveSampling.{Sampler, Services}
use arl_hierarchical_multisc.AdaptiveSampling.Interpolate.{extract, count_evaluation}
use arl_hierarchical_multisc.AdaptiveSampling.System.{
  Client, IsRequest, Reach, Step, start, samplers_from, links, here, next, receives, extracts,
  counts, tries, speculates, drains, dispatches, evaluates, collects, processes, settles,
}
use arl_hierarchical_multisc.AdaptiveSampling.Tally.{
  tally, at_brokers, packages, tally-at_brokers, tally-send,
}
use arl_hierarchical_multisc.AdaptiveSampling.Outcome.{}
use arl_hierarchical_multisc.AdaptiveSampling.Processing.{process-Processed}
use arl_hierarchical_multisc.AdaptiveSampling.Conservation.{
  one-IsSame, try_package-Tried, drain-tally, speculate-tally,
}
use arl_hierarchical_multisc.AdaptiveSampling.Conservation.Rounds.{settle-IsLike, collect-takes}
use arl_hierarchical_multisc.AdaptiveSampling.Conservation.Moves.{
  try_package-Move, accept-IsRequest, extract-IsRequest,
}
use arl_hierarchical_multisc.AdaptiveSampling.Conservation.Counters.{
  is_regular, is_regular-IsKind, outstanding, AllRequests, uncounted, number_of, owes, owing,
  owing-at, owing-same, owing-length, IsCounted, steady, sampler_of, additional-tally,
  visiting_not_off, visiting_when_busy, completed_count, Move-number, Move-held, regroup,
}

module _ {W : Type 0} (services : Services W) where
  Step-IsCounted : (c d : Client) → Step services c d → IsCounted c → IsCounted d
  unfolding count_evaluation
  Step-IsCounted c _ (receives ps w w' r hs room e) h =
      let (pile, n, ep) =
        Ensures-returns (accept-IsRequest services c.id_counter ps c.shared hs h.pile) w w' r e in
      record {
        pile = pile;
        samplers = h.samplers;
        completed = h.completed;
        completed_evaluations = h.completed_evaluations;
        idle = h.idle;
        number =
            steady _ _ (outstanding c) _ (uncounted c.processor.is_visiting h.completed)
              (owing c.samplers) h.number n (omega (arith, ap (tally is_regular) ep));
      }
  Step-IsCounted c _ (extracts front back t split e ready) h =
      let (before, (to_try, held), after) = sampler_of front back t split h.samplers in
      let (count, tr, he, pile, n, ep) = extract-IsRequest t c.shared held h.pile in
      record {
        pile = pile;
        samplers =
            All-append AllRequests front ((extract t c.shared).0 ∷ back) before ((tr, he), after);
        completed = h.completed;
        completed_evaluations = h.completed_evaluations;
        idle = h.idle;
        number =
            steady _ _ (outstanding c) _ (uncounted c.processor.is_visiting h.completed)
              (owing c.samplers) h.number n (omega (arith, ap (tally is_regular) ep))
            ∙ ap
                (λ k.
                  pos (
                    tally is_regular (extract t c.shared).1.evaluation_pile
                    + tally is_regular (packages c.assigned)
                    + tally is_regular (at_brokers c.brokers)
                    + tally is_regular c.processor.to_process
                    + uncounted c.processor.is_visiting h.completed)
                  -ℤ pos k)
                (owing-same front back t (extract t c.shared).0 split count);
      }
  Step-IsCounted c _ (counts front back t split owed room) h =
      let (before, same, after) = sampler_of front back t split h.samplers in
      let others = owing front + owing back in
      let t' = (count_evaluation t c.shared).0 in
      let total = outstanding c + uncounted c.processor.is_visiting h.completed in
      record {
        pile = h.pile;
        samplers = All-append AllRequests front (t' ∷ back) before (same, after);
        completed = h.completed;
        completed_evaluations = h.completed_evaluations;
        idle = h.idle;
        number =
            ap (λ z. z +ℤ pos 1)
              (h.number
                ∙ ap (λ k. pos total -ℤ pos k)
                    (ap owing split ∙ owing-at front back t ∙ ap (λ b. number_of b + others) owed))
            ∙ sub_suc-add total others
            ∙ ap (λ k. pos total -ℤ pos k) (sym (owing-at front back t'));
      }
  Step-IsCounted c _ (tries seen front back t p ps w w' r split e ready run) h =
      let (before, (to_try, held), after) = sampler_of front back t split h.samplers in
      let (regular, others) : IsRequest p × All IsRequest ps = subst (All IsRequest) e to_try in
      let rest : Sampler = record t { to_try = ps } in
      let u = uncounted c.processor.is_visiting h.completed in
      let a = tally is_regular (packages c.assigned) in
      let b = tally is_regular (at_brokers c.brokers) in
      let d = tally is_regular c.processor.to_process in
      let others_count = a + b + d in
      let total = tally is_regular c.shared.evaluation_pile + others_count + u in
      let move = Ensures-returns (try_package-Move services seen rest c.shared p) w w' r run in
      let out =
        Ensures-returns
          (try_package-Tried is_regular is_regular-IsKind services seen rest c.shared p) w w' r
          run in
      record {
        pile = subst (All IsRequest) (sym out.receive_pile) h.pile;
        samplers = All-append AllRequests front (r.0 ∷ back) before (
          (
            subst (All IsRequest) (sym out.to_try) others,
            Move-held rest c.shared p r move regular held,
          ),
          after,
        );
        completed = h.completed;
        completed_evaluations = h.completed_evaluations;
        idle = h.idle;
        number =
            Move-number rest c.shared p r u others_count (owing front + owing back) move regular
              ready
              (h.number
                ∙ ap (λ n. pos n -ℤ pos (owing c.samplers))
                    (regroup (tally is_regular c.shared.evaluation_pile) a b d u)
                ∙ ap (λ k. pos total -ℤ pos k) (ap owing split ∙ owing-at front back t))
            ∙ ap (λ n. pos n -ℤ pos (owes r.0 + (owing front + owing back)))
                (sym (regroup (tally is_regular r.1.evaluation_pile) a b d u))
            ∙ ap (λ k. pos (tally is_regular r.1.evaluation_pile + a + b + d + u) -ℤ pos k)
                (sym (owing-at front back r.0));
      }
  Step-IsCounted c _ (speculates front back t w w' s split e ready run) h =
      let (pile, ep, es, n) =
        Ensures-returns (speculate-tally is_regular is_regular-IsKind services t c.shared) w w' s
          run in
      record {
        pile = subst (All IsRequest) (sym pile) h.pile;
        samplers = h.samplers;
        completed = h.completed;
        completed_evaluations = h.completed_evaluations;
        idle = h.idle;
        number =
            steady _ _ (outstanding c) _ (uncounted c.processor.is_visiting h.completed)
              (owing c.samplers) h.number n (omega (arith, ep));
      }
  Step-IsCounted c _ (drains w w' r e run) h =
      let (pile, ep, es, n) =
        Ensures-returns (drain-tally is_regular is_regular-IsKind services c.shared) w w' r run in
      record {
        pile = subst (All IsRequest) (sym pile) h.pile;
        samplers = h.samplers;
        completed = h.completed;
        completed_evaluations = h.completed_evaluations;
        idle = h.idle;
        number =
            steady _ _ (outstanding c) _ (uncounted c.processor.is_visiting h.completed)
              (owing c.samplers) h.number n
              (omega (arith, ep, ap (λ l. tally is_regular (packages l)) e));
      }
  Step-IsCounted c _ (dispatches p j rest bs e run) h = record {
    pile = h.pile;
    samplers = h.samplers;
    completed = h.completed;
    completed_evaluations = h.completed_evaluations;
    idle = h.idle;
    number =
        steady _ _ (outstanding c) _ (uncounted c.processor.is_visiting h.completed)
          (owing c.samplers) h.number refl
          (omega (
            arith,
            tally-send is_regular j p c.brokers bs run,
            ap (λ l. tally is_regular (packages l)) e,
          ));
  }
  Step-IsCounted c _ (evaluates front back b xs ys p q split e hid hp) h = record {
    pile = h.pile;
    samplers = h.samplers;
    completed = h.completed;
    completed_evaluations = h.completed_evaluations;
    idle = h.idle;
    number =
        steady _ _ (outstanding c) _ (uncounted c.processor.is_visiting h.completed)
          (owing c.samplers) h.number refl
          (omega (
            arith,
            ap (λ l. tally is_regular (at_brokers l)) split,
            tally-at_brokers is_regular front back b,
            tally-at_brokers is_regular front back
                (record { to_broker = xs ++ ys; from_broker = b.from_broker ++ q ∷ [] }),
            one-IsSame is_regular is_regular-IsKind p q (record { id = hid; priority = hp }),
            ap (tally is_regular) e,
            count_if-append is_regular xs (p ∷ ys),
            count_if-append is_regular xs ys,
            count_if-append is_regular b.from_broker (q ∷ []),
          ));
  }
  Step-IsCounted c _ (collects front back b w w' v split quiet e run) h =
      let (em, taken, visiting, none_yet) =
        Ensures-returns (collect-takes services c.processor b.from_broker) w w' v run in
      record {
        pile = h.pile;
        samplers = h.samplers;
        completed = 0;
        completed_evaluations = none_yet;
        idle = λ off. absurd (visiting_not_off visiting off);
        number =
            h.number
            ∙ ap (λ n. pos n -ℤ pos (owing c.samplers))
                (omega (
                  arith,
                  ap (λ l. tally is_regular (at_brokers l)) split,
                  tally-at_brokers is_regular front back b,
                  tally-at_brokers is_regular front back (record b { from_broker = [] }),
                  ap (tally is_regular) taken,
                  ap (tally is_regular) e,
                  ap (λ b. uncounted b h.completed) quiet,
                  ap (λ b. uncounted b 0) visiting,
                ));
      }
  Step-IsCounted c _ (processes p ps w w' r e run room) h =
      let out =
        Ensures-returns
          (process-Processed services (record c.processor { to_process = ps }) c.shared p) w w' r
          run in
      let one = tally is_regular (p ∷ []) in
      let visiting = visiting_when_busy h p ps e in
      record {
        pile = subst (All IsRequest) (sym out.receive_pile) h.pile;
        samplers = h.samplers;
        completed = h.completed + one;
        completed_evaluations =
            out.completed
            ∙ completed_count (record c.processor { to_process = ps }) p h.completed
                h.completed_evaluations;
        idle = λ off. absurd (visiting_not_off (out.is_visiting ∙ visiting) off);
        number =
            out.number
            ∙ ap (λ z. z +ℤ pos (length out.more)) h.number
            ∙ sub-add _ (length out.more) (owing c.samplers)
            ∙ ap (λ n. pos n -ℤ pos (owing c.samplers))
                (omega (
                  arith,
                  ap (tally is_regular) out.evaluation_pile,
                  count_if-append is_regular out.more c.shared.evaluation_pile,
                  additional-tally p out.more out.additional,
                  ap (tally is_regular) out.to_process,
                  ap (tally is_regular) e,
                  ap (λ b. uncounted b h.completed) visiting,
                  ap (λ b. uncounted b (h.completed + one)) (out.is_visiting ∙ visiting),
                ));
      }
  Step-IsCounted c _ (settles w w' r visiting e run) h =
      let (like, em, same, done, n) =
        Ensures-returns (settle-IsLike services c.processor c.shared) w w' r run in
      record {
        pile = subst (All IsRequest) (sym like.receive_pile) h.pile;
        samplers = h.samplers;
        completed = h.completed;
        completed_evaluations = n ∙ h.completed_evaluations;
        idle = λ _. same ∙ e;
        number =
            like.number
            ∙ ap₂ (λ a b. a -ℤ b) h.number h.completed_evaluations
            ∙ ap
                (λ b.
                  (pos (outstanding c + uncounted b h.completed) -ℤ pos (owing c.samplers))
                  -ℤ pos h.completed)
                visiting
            ∙ sub-sub (outstanding c) h.completed (owing c.samplers)
            ∙ ap (λ n. pos n -ℤ pos (owing c.samplers))
                (omega (
                  arith,
                  ap (tally is_regular) like.evaluation_pile,
                  ap (tally is_regular) same,
                  ap (λ b. uncounted b h.completed) done,
                ));
      }

samplers_from-AllRequests : (b : Bool) (n : ℕ) → All AllRequests (samplers_from b n)
samplers_from-AllRequests b zero = tt
samplers_from-AllRequests b (suc n) = ((tt, tt), samplers_from-AllRequests false n)

samplers_from-owing : (b : Bool) (n : ℕ) → owing (samplers_from b n) ≡ 0
samplers_from-owing b zero = refl
samplers_from-owing b (suc n) = omega (arith, samplers_from-owing false n)

at_brokers-links : (n : ℕ) → tally is_regular (at_brokers (links n)) ≡ 0
at_brokers-links zero = refl
at_brokers-links (suc n) = at_brokers-links n

start-IsCounted : (limit : ℤ) (threads brokers : ℕ) → IsCounted (start limit threads brokers)
start-IsCounted limit threads brokers = record {
  pile = tt;
  samplers = samplers_from-AllRequests true threads;
  completed = 0;
  completed_evaluations = refl;
  idle = λ _. refl;
  number =
      sub_zero 0
      ∙ ap₂ (λ n k. pos n -ℤ pos k) (omega (arith, at_brokers-links brokers))
          (sym (samplers_from-owing true threads));
}

Reach-IsCounted :
    {W : Type 0} (services : Services W) (limit : ℤ) (threads brokers : ℕ) (c : Client)
    → Reach services (start limit threads brokers) c
    → IsCounted c
Reach-IsCounted services limit threads brokers c here = start-IsCounted limit threads brokers
Reach-IsCounted services limit threads brokers c (next {d = d} r s) =
    Step-IsCounted services d c s (Reach-IsCounted services limit threads brokers d r)

-- Whenever the value processing thread is between two rounds, `d_numberEvaluations`, which the
-- evaluation limit is compared with, is the number of packages, additional ones included and
-- speculative ones not, that are on the evaluation pile, on their way to a broker, at one or on their
-- way back, less one for each interpolation thread that has put a package on the pile and has not yet
-- taken the second lock, under which it counts it, of which there are at most as many as there are
-- interpolation threads: in a client that has run for any number of steps in any order, whose requests
-- are not speculative, and whose counter stays below 2^31 where it grows. Each interpolation thread may
-- have compared any value of the counter with the limit.
pub number_evaluations_exact :
    {W : Type 0} (services : Services W) (limit : ℤ) (threads brokers : ℕ) (c : Client)
    → Reach services (start limit threads brokers) c
    → c.processor.is_visiting ≡ false
    → (c.shared.number_evaluations ≡ pos (outstanding c) -ℤ pos (owing c.samplers))
      × (owing c.samplers ≤ length c.samplers)
number_evaluations_exact services limit threads brokers c r quiet =
    let h = Reach-IsCounted services limit threads brokers c r in
    (
      h.number
          ∙ ap (λ n. pos n -ℤ pos (owing c.samplers))
              (omega (arith, ap (λ b. uncounted b h.completed) quiet)),
      owing-length c.samplers,
    )
