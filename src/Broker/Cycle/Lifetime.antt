-- ===== src/Broker/Cycle/Lifetime.antt =====
-- What stays true of a broker with a basic scheduler over its whole run.
use arl_hierarchical_multisc.Base.{
  true, ℕ, zero, suc, ◌≡◌, refl, ◌∙◌, String, Bool, Option, none, some, List, if◌then◌else◌,
}
use arl_hierarchical_multisc.Base.Effect.{
  is_of_program, Ensures-returns, ok, Ensures-mono, Result, err, pure, ◌>>=◌, Ensures, Ensures->>=,
  Ensures-pure, Ensures-throw, Ensures-if,
}
use arl_hierarchical_multisc.ResourceList.{ResourceType}
use arl_hierarchical_multisc.ModelPackage.{ModelPackage}
use arl_hierarchical_multisc.Broker.{Environment}
use arl_hierarchical_multisc.Broker.Cycle.{
  Broker, Clients, round, cycle, answer_queries, send_to_all, handle, run,
}
use arl_hierarchical_multisc.Broker.Cycle.Accounts.{IsStocked, owned, evaluate-Balances}

-- A later state of the same broker: every resource is still free or lent, and is lent to whom asked.
pub record Follows (speculative : Bool) (b b' : Broker) : Type 0 where
  pub stocked : IsStocked speculative b'
  pub resources : (t : ResourceType) (q : String → Bool) → owned t q b' ≡ owned t q b

-- So does the state after a call, where the broker goes on.
abbrev pub Continues : Bool → Broker → Option Broker → Type 0
Continues speculative b none = Unit
Continues speculative b (some b') = Follows speculative b b'

module _ {W : Type 0} (env : Environment W) (clients : Clients W) (speculative : Bool) where
  round-Follows :
      (packages : List ModelPackage) (b : Broker)
      → IsStocked speculative b
      → Ensures (round env clients packages b) (Follows speculative b)
  unfolding round
  round-Follows packages b k =
      Ensures->>= _ (evaluate-Balances env clients speculative packages b k) λ (b', done) e.
        Ensures->>= {P = λ _. Unit} _ (record { run = λ w a h. tt })
          λ _ _. Ensures-pure _ (record { stocked = e.stocked; resources = e.resources })

  cycle-Continues :
      (b : Broker)
      → IsStocked speculative b
      → Ensures (cycle env clients b) (Continues speculative b)
  unfolding cycle
  cycle-Continues b k =
      Ensures->>= {P = λ _. Unit} _ (record { run = λ w a h. tt })
        λ received _.
          elim received
            as (λ o.
              Ensures
                (elim o [
                  | none ↦ pure none
                  | some (communicators, packages) ↦ do
                    b' ← round env clients packages (record b { communicators = communicators })
                    going ←
                        if b'.handle_load_query
                        then answer_queries env clients b'.client_communicators b'
                        else pure true
                    if going then pure (some b') else pure none
                ])
                (Continues speculative b)) [
                  | none ↦ Ensures-pure none tt
                  | some (communicators, packages) ↦
                      Ensures->>= _
                        (round-Follows packages (record b { communicators = communicators })
                          (record { scheme = k.scheme; consistent = k.consistent }))
                        λ b' f.
                          Ensures->>= {P = λ _. Unit} _ (record { run = λ w a h. tt })
                            λ going _.
                              Ensures-if going
                                (λ _.
                                  Ensures-pure _
                                    (record { stocked = f.stocked; resources = f.resources }))
                                (λ _. Ensures-pure none tt)
                ]

  rethrown :
      (b : Broker) (r : Result (Option Broker) × W) (b' : Option Broker)
      → (handle env clients b r).0 ≡ ok b'
      → r.0 ≡ ok b'
  rethrown b (ok o, w) b' e = e
  rethrown b (err x, w) b' e = absurd (
      (Ensures-if {Q = λ _. ⊥} (is_of_program x)
          (λ _.
            Ensures->>= {P = λ _. Unit} (send_to_all env clients b.client_communicators x)
              (record { run = λ w a h. tt }) (λ _ _. Ensures-throw {Q = λ _. ⊥} x))
          (λ _. Ensures-throw {Q = λ _. ⊥} x)).run
        w b' e)

  Continues-join :
      {b b' : Broker} (o : Option Broker)
      → Follows speculative b b'
      → Continues speculative b' o
      → Continues speculative b o
  Continues-join none f c = tt
  Continues-join (some b'') f c = record {
    stocked = c.stocked;
    resources = λ t q. c.resources t q ∙ f.resources t q;
  }

  later :
      (rounds : ℕ) (b : Broker) (o : Option Broker)
      → Continues speculative b o
      → ((b' : Broker)
          → IsStocked speculative b'
          → Ensures (run env clients rounds b') (Continues speculative b'))
      → Ensures {W = W}
          (elim o [ none ↦ pure none | some b' ↦ run env clients rounds b' ])
          (Continues speculative b)
  later rounds b none f h = Ensures-pure none tt
  later rounds b (some b') f h = Ensures-mono (λ o c. Continues-join o f c) (h b' f.stocked)

  pub run-Continues :
      (rounds : ℕ) (b : Broker)
      → IsStocked speculative b
      → Ensures (run env clients rounds b) (Continues speculative b)
  unfolding run
  run-Continues zero b k = Ensures-pure _ (record { stocked = k; resources = λ t q. refl })
  run-Continues (suc rounds) b k =
      Ensures->>= (λ w. handle env clients b (cycle env clients b w))
        (record {
          run = λ w o e. (cycle-Continues b k).run w o (rethrown b (cycle env clients b w) o e);
        })
        λ next c. later rounds b next c λ b'. run-Continues rounds b'

  -- Suppose that a broker has a basic scheduler, that each list of its manager stands under its
  -- own type, that queued commands hold nothing, and that each running command holds as many
  -- resources as it asks for, of the type that it asks for. After any number of rounds after which
  -- the broker would go on, all of that still holds, and the resources that are free or held by
  -- running commands are those that it had before the first round.
  pub run_keeps_resources :
      (rounds : ℕ) (b b' : Broker) (w w' : W)
      → IsStocked speculative b
      → run env clients rounds b w ≡ (ok (some b'), w')
      → Follows speculative b b'
  run_keeps_resources rounds b b' w w' k e =
      Ensures-returns (run-Continues rounds b k) w w' (some b') e
