-- ===== src/AdaptiveSampling/Conservation/Steps.antt =====
-- Each step of a client keeps the account of its requests.
use arl_hierarchical_multisc.Base.{
  ◌≤◌, Option, ℕ, ◌+◌, ◌≡◌, refl, ap, ◌∙◌, List, [], ◌∷◌, ◌++◌, length, ltb, count_if-append, arith,
  if◌then◌else◌,
}
use arl_hierarchical_multisc.Base.Effect.{Ensures-returns}
use arl_hierarchical_multisc.AdaptiveSampling.{ModelPackage, Sampler, Services}
use arl_hierarchical_multisc.AdaptiveSampling.Evaluate.{BrokerLink}
use arl_hierarchical_multisc.AdaptiveSampling.Interpolate.{count_evaluation, extract}
use arl_hierarchical_multisc.AdaptiveSampling.System.{
  receives, extracts, tries, counts, speculates, drains, dispatches, evaluates, collects, processes,
  settles, Client, Step,
}
use arl_hierarchical_multisc.AdaptiveSampling.Tally.{
  tally, waiting, at_brokers, packages, tally-waiting, tally-at_brokers, tally-send,
}
use arl_hierarchical_multisc.AdaptiveSampling.Processing.{process-Processed}
use arl_hierarchical_multisc.AdaptiveSampling.Conservation.{
  one-IsSame, try_package-Tried, extract-tally, drain-tally, speculate-tally,
}
use arl_hierarchical_multisc.AdaptiveSampling.Conservation.Requests.{
  Fits, has_id, has_id-IsKind, before, under_evaluation, answers, IsAccounted, Fits-move,
  Fits-receive, accept-tally,
}
use arl_hierarchical_multisc.AdaptiveSampling.Conservation.Outcomes.{Outcome-Fits}
use arl_hierarchical_multisc.AdaptiveSampling.Conservation.Rounds.{settle-IsLike, collect-takes}

module _ (i : ℕ) (front back : List Sampler) (t : Sampler) {samplers : List Sampler}
    (split : samplers ≡ front ++ t ∷ back) where
  tally-samplers :
      tally (has_id i) (waiting samplers)
      ≡ tally (has_id i) (waiting (front ++ back))
        + (tally (has_id i) t.to_try + tally (has_id i) t.held_evaluations)
  tally-samplers =
      ap (λ l. tally (has_id i) (waiting l)) split ∙ tally-waiting (has_id i) front back t

module _ (i : ℕ) (front back : List BrokerLink) (b : BrokerLink) {brokers : List BrokerLink}
    (split : brokers ≡ front ++ b ∷ back) where
  tally-brokers :
      tally (has_id i) (at_brokers brokers)
      ≡ tally (has_id i) (at_brokers (front ++ back))
        + (tally (has_id i) b.to_broker + tally (has_id i) b.from_broker)
  tally-brokers =
      ap (λ l. tally (has_id i) (at_brokers l)) split ∙ tally-at_brokers (has_id i) front back b

-- A step that moves packages on.
keeps :
    (c : Client) (i : ℕ)
    → IsAccounted c
    → (b u a : ℕ) (o : Option (ℕ × List ModelPackage)) → o ≡ c.processor.additional_evaluations i
    → b + u + a ≡ before i c + under_evaluation i c + answers i c
    → b ≤ before i c
    → under_evaluation i c ≤ u
    → answers i c ≤ a
    → Fits b u a o i c.id_counter
keeps c i h b u a o =
    Fits-move (before i c) (under_evaluation i c) (answers i c) b u a i c.id_counter
      (c.processor.additional_evaluations i) o (h i)

module _ {W : Type 0} (services : Services W) where
  pub Step-IsAccounted : (c d : Client) → Step services c d → IsAccounted c → IsAccounted d
  unfolding count_evaluation
  Step-IsAccounted c _ (receives ps w w' r hs room e) h i =
      let (counter, pile, ep, es) =
        Ensures-returns (accept-tally services i c.id_counter ps c.shared hs room) w w' r e in
      let ep' = ap (tally (has_id i)) ep in
      Fits-receive (before i c) (under_evaluation i c) (answers i c) _ _ _
        (if ltb i c.id_counter then 0 else if ltb i (c.id_counter + length ps) then 1 else 0) i
        c.id_counter r.0 (c.processor.additional_evaluations i) (h i) (omega (arith, pile))
        (omega (arith, ep')) (omega (arith, ap (tally (has_id i)) es)) (omega (arith, counter))
        (ground (arith, counter))
  Step-IsAccounted c _ (extracts front back t split e idle) h i =
      let f = has_id i in
      let (total, ep, es) = extract-tally f (has_id-IsKind i) t c.shared e in
      let was = tally-samplers i front back t split in
      let now = tally-waiting f front back (extract t c.shared).0 in
      keeps c i h _ _ _ _ refl (omega (arith, total, was, now, ap (tally f) ep, ap (tally f) es))
        (omega (arith, total, was, now)) (omega (arith, ap (tally f) ep))
        (omega (arith, ap (tally f) es))
  Step-IsAccounted c _ (tries seen front back t p ps w w' r split e idle run) h i =
      let f = has_id i in
      let out =
        Ensures-returns
          (try_package-Tried f (has_id-IsKind i) services seen (record t { to_try = ps }) c.shared
            p)
          w w' r run in
      let was = tally-samplers i front back t split in
      let now = tally-waiting f front back r.0 in
      let tried = ap (tally f) e in
      let left = ap (tally f) out.to_try in
      let pile = ap (tally f) out.receive_pile in
      keeps c i h _ _ _ _ refl (omega (arith, was, now, tried, left, pile, out.total))
        (omega (arith, was, now, tried, left, pile, out.total, out.evaluation_pile, out.shipped))
        (omega (arith, out.evaluation_pile)) (omega (arith, out.shipped))
  Step-IsAccounted c _ (counts front back t split owing room) h i =
      let f = has_id i in
      let was = tally-samplers i front back t split in
      let now = tally-waiting f front back (count_evaluation t c.shared).0 in
      keeps c i h _ _ _ _ refl (omega (arith, was, now)) (omega (arith, was, now)) (omega arith)
        (omega arith)
  Step-IsAccounted c _ (speculates front back t w w' s split e idle run) h i =
      let f = has_id i in
      let (pile, ep, es, _) =
        Ensures-returns (speculate-tally f (has_id-IsKind i) services t c.shared) w w' s run in
      let rp = ap (tally f) pile in
      let sh = ap (tally f) es in
      keeps c i h _ _ _ _ refl (omega (arith, rp, ep, sh)) (omega (arith, rp)) (omega (arith, ep))
        (omega (arith, sh))
  Step-IsAccounted c _ (drains w w' r e run) h i =
      let f = has_id i in
      let (pile, ep, es, _) =
        Ensures-returns (drain-tally f (has_id-IsKind i) services c.shared) w w' r run in
      let rp = ap (tally f) pile in
      let sh = ap (tally f) es in
      let none_left = ap (λ l. tally f (packages l)) e in
      keeps c i h _ _ _ _ refl (omega (arith, rp, ep, sh, none_left)) (omega (arith, rp))
        (omega (arith, ep, none_left)) (omega (arith, sh))
  Step-IsAccounted c _ (dispatches p j rest bs e run) h i =
      let f = has_id i in
      let sent = tally-send f j p c.brokers bs run in
      let left = ap (λ l. tally f (packages l)) e in
      keeps c i h _ _ _ _ refl (omega (arith, sent, left)) (omega arith) (omega (arith, sent, left))
        (omega arith)
  Step-IsAccounted c _ (evaluates front back b xs ys p q split e hid hp) h i =
      let f = has_id i in
      let after : BrokerLink = record {
        to_broker = xs ++ ys;
        from_broker = b.from_broker ++ q ∷ [];
      } in
      let unmoved : tally f (at_brokers (front ++ after ∷ back)) ≡ tally f (at_brokers c.brokers) =
        omega (
          arith,
          tally-brokers i front back b split,
          tally-at_brokers f front back after,
          one-IsSame f (has_id-IsKind i) p q (record { id = hid; priority = hp }),
          ap (tally f) e ∙ count_if-append f xs (p ∷ ys),
          count_if-append f xs ys,
          count_if-append f b.from_broker (q ∷ []),
        ) in
      keeps c i h _ _ _ _ refl (omega (arith, unmoved)) (omega arith) (omega (arith, unmoved))
        (omega arith)
  Step-IsAccounted c _ (collects front back b w w' v split idle e run) h i =
      let f = has_id i in
      let (em, taken, _, _) =
        Ensures-returns (collect-takes services c.processor b.from_broker) w w' v run in
      let was = tally-brokers i front back b split in
      let now = tally-at_brokers f front back (record b { from_broker = [] }) in
      let got = ap (tally f) taken in
      keeps c i h _ _ _ _ (ap (λ m. m i) em) (omega (arith, was, now, got, ap (tally f) e))
        (omega arith) (omega (arith, was, now, got, ap (tally f) e)) (omega arith)
  Step-IsAccounted c _ (processes p ps w w' r e run room) h i =
      let f = has_id i in
      let out =
        Ensures-returns
          (process-Processed services (record c.processor { to_process = ps }) c.shared p) w w' r
          run in
      let rest = tally f (packages c.assigned) + tally f (at_brokers c.brokers) + tally f ps in
      let b = before i c in
      let pile = ap (tally f) out.receive_pile in
      let left = ap (tally f) out.to_process in
      let was = ap (tally f) e in
      Fits-move b (tally f r.1.evaluation_pile + rest) (tally f r.1.shipped) _ _ _ i c.id_counter
        (r.0.additional_evaluations i) _
        (Outcome-Fits p i b rest c.id_counter c.processor.additional_evaluations
          r.0.additional_evaluations c.shared r.1 out.outcome
          (Fits-move b (under_evaluation i c) (answers i c) _ _ _ i c.id_counter
            (c.processor.additional_evaluations i) _ (h i) refl (omega (arith, was)) (omega arith)
            (omega (arith, was)) (omega arith)))
        refl (omega (arith, pile, left)) (omega (arith, pile)) (omega (arith, left)) (omega arith)
  Step-IsAccounted c _ (settles w w' r visiting e run) h i =
      let f = has_id i in
      let (like, em, same, _, _) =
        Ensures-returns (settle-IsLike services c.processor c.shared) w w' r run in
      let pile = ap (tally f) like.receive_pile in
      let ep = ap (tally f) like.evaluation_pile in
      let sh = ap (tally f) like.shipped in
      let left = ap (tally f) same in
      keeps c i h _ _ _ _ (ap (λ m. m i) em) (omega (arith, pile, ep, sh, left))
        (omega (arith, pile)) (omega (arith, ep, left)) (omega (arith, sh))
