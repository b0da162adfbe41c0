-- ===== src/LoadScheduler/Delivery.antt =====
-- The load scheduler with the evaluation thread of the client, which calls it.
use arl_hierarchical_multisc.Base.{
  subst, ℕ, zero, suc, ◌+◌, ◌<◌, ◌≡◌, refl, ap, sym, ◌∙◌, Bool, List, [], ◌∷◌, length, All, arith,
}
use arl_hierarchical_multisc.Base.Effect.{Ensures, ok, cons_ok}
use arl_hierarchical_multisc.ModelPackage.{ModelPackage}
use arl_hierarchical_multisc.AdaptiveSampling.Evaluate.{BrokerLink, assign, send, dispatch_all}
use arl_hierarchical_multisc.AdaptiveSampling.Tally.{tally, at_brokers, packages, tally-send}
use arl_hierarchical_multisc.LoadScheduler.{
  IsStrictWeak, load_sorter, Doubles, Sorter, Brokers, LoadScheduler, schedule,
}
use arl_hierarchical_multisc.LoadScheduler.Order.{with_total}
use arl_hierarchical_multisc.LoadScheduler.Assignment.{IsBelow, HaveTotal, schedule-Assigned}

send-ok :
    (i : ℕ) (p : ModelPackage) (bs : List BrokerLink)
    → i < length bs
    → (cs : List BrokerLink) × (send i p bs ≡ ok cs) × (length cs ≡ length bs)
unfolding send
send-ok i p [] h = absurd (omega arith)
send-ok zero p (b ∷ bs) h = (_, refl, refl)
send-ok (suc i) p (b ∷ bs) h =
    let (cs, e, size) = send-ok i p bs (omega arith) in (b ∷ cs, ap (cons_ok b) e, ap suc size)

assign-ok :
    (n : ℕ) (ps : List ModelPackage) (ids : List ℕ)
    → length ids ≡ length ps
    → All (IsBelow n) ids
    → (r : List (ModelPackage × ℕ)) × (assign ps ids ≡ ok r)
      × (packages r ≡ ps)
      × All (λ a. IsBelow n a.1) r
unfolding assign
assign-ok n [] [] size hs = ([], refl, refl, tt)
assign-ok n [] (i ∷ ids) size hs = absurd (omega (arith, size))
assign-ok n (p ∷ ps) [] size hs = absurd (omega (arith, size))
assign-ok n (p ∷ ps) (i ∷ ids) size (h, hs) =
    let (r, e, same, below) = assign-ok n ps ids (omega (arith, size)) hs in
    ((p, i) ∷ r, ap (cons_ok (p, i)) e, ap (◌∷◌ p) same, (h, below))

dispatch_all-ok :
    (r : List (ModelPackage × ℕ)) (bs : List BrokerLink)
    → All (λ a. IsBelow (length bs) a.1) r
    → (cs : List BrokerLink) × (dispatch_all r bs ≡ ok cs)
      × ((f : ModelPackage → Bool)
          → tally f (at_brokers cs) ≡ tally f (packages r) + tally f (at_brokers bs))
unfolding dispatch_all
dispatch_all-ok [] bs h = (bs, refl, λ f. omega arith)
dispatch_all-ok ((p, i) ∷ r) bs (h, hs) =
    let (cs, e, size) = send-ok i p bs h in
    let (ds, e', total) =
      dispatch_all-ok r cs (subst (λ n. All (λ a. IsBelow n a.1) r) (sym size) hs) in
    (ds, rw e e', λ f. omega (arith, total f, tally-send f i p bs cs e))

-- Suppose that `loadSorter` is what `std::sort` asks for, a strict weak order, on the loads whose total of
-- resources is of some kind, and that brokers report such totals; `std::sort` is undefined otherwise. When the load scheduler's
-- `schedule` returns for the packages of the evaluation pile, the evaluation
-- thread can send each of them: `brokerIds[i]` and `d_brokerCommunicators[brokerId]` are in range all the
-- time, if the client has as many communicators as the scheduler has brokers; afterwards the connections
-- hold each package once more than before, and nothing else is new there.
pub scheduled_packages_sent :
    {W D : Type 0} (doubles : Doubles D) (sorter : Sorter) (brokers : Brokers W) (fuel : ℕ)
    (s s' : LoadScheduler) (ps : List ModelPackage) (ids : List ℕ) (w w' : W) (bs : List BrokerLink)
    → (p : ℕ → Bool) → IsStrictWeak (with_total p) (load_sorter doubles)
    → ((j : ℕ) → Ensures (brokers.receive j) (HaveTotal p))
    → schedule doubles sorter brokers fuel s ps w ≡ (ok (ids, s'), w')
    → length bs ≡ s.number_brokers
    → (r : List (ModelPackage × ℕ)) × (cs : List BrokerLink) × (assign ps ids ≡ ok r)
      × (dispatch_all r bs ≡ ok cs)
      × ((f : ModelPackage → Bool) → tally f (at_brokers cs) ≡ tally f ps + tally f (at_brokers bs))
scheduled_packages_sent doubles sorter brokers fuel s s' ps ids w w' bs p weak total e size =
    let h = schedule-Assigned doubles sorter brokers p weak total fuel s s' ps ids w w' e in
    let (r, er, same, below) = assign-ok s.number_brokers ps ids h.one_each h.in_range in
    let (cs, ec, total) =
      dispatch_all-ok r bs (subst (λ n. All (λ a. IsBelow n a.1) r) (sym size) below) in
    (r, cs, er, ec, λ f. total f ∙ ap (λ l. tally f l + tally f (at_brokers bs)) same)
