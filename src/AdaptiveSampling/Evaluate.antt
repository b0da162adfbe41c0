-- ===== src/AdaptiveSampling/Evaluate.antt =====
-- AdaptiveSampling.cc, evaluationThread: the evaluation pile goes to the brokers that the scheduler
-- names.
use arl_hierarchical_multisc.Base.{ℕ, zero, suc, List, [], ◌∷◌, ◌++◌}
use arl_hierarchical_multisc.Base.Effect.{cons_ok, M, Result, ok, err, undefined, pure, lift, ◌>>=◌}
use arl_hierarchical_multisc.ModelPackage.{ModelPackage}
use arl_hierarchical_multisc.AdaptiveSampling.{Services, Shared}

-- A broker, by what is sent to it and what has come back.
pub record BrokerLink : Type 0 where
  pub to_broker : List ModelPackage
  pub from_broker : List ModelPackage

-- `d_brokerCommunicators[brokerId]->send(modelPackage)`.
unfoldable pub send : ℕ → ModelPackage → List BrokerLink → Result (List BrokerLink)
send i p [] = err undefined
send zero p (b ∷ bs) = ok (record b { to_broker = b.to_broker ++ p ∷ [] } ∷ bs)
send (suc i) p (b ∷ bs) = cons_ok b (send i p bs)

-- `brokerIds[i]` of each package.
unfoldable pub assign : List ModelPackage → List ℕ → Result (List (ModelPackage × ℕ))
assign [] ids = ok []
assign (p ∷ ps) [] = err undefined
assign (p ∷ ps) (i ∷ ids) = cons_ok (p, i) (assign ps ids)

abbrev send_rest :
    (List BrokerLink → Result (List BrokerLink))
    → Result (List BrokerLink)
    → Result (List BrokerLink)
send_rest go_on (ok bs) = go_on bs
send_rest go_on (err e) = err e

-- The loop of the round, when nothing comes between.
unfoldable pub dispatch_all : List (ModelPackage × ℕ) → List BrokerLink → Result (List BrokerLink)
unfolding send
dispatch_all [] bs = ok bs
dispatch_all ((p, i) ∷ rest) bs = send_rest (λ cs. dispatch_all rest cs) (send i p bs)

module _ {W : Type 0} (services : Services W) where
  -- The packages that the round sends, with the ids of their brokers.
  unfoldable pub drain : Shared → M W (List (ModelPackage × ℕ) × Shared)
  unfolding assign
  drain s = do
    ids ← services.scheduler.schedule s.evaluation_pile
    assigned ← lift (assign s.evaluation_pile ids)
    pure (assigned, record s { evaluation_pile = [] })
