-- ===== src/Scheduler/Batch/Parity.antt =====
-- Which queued commands a pass of the batch scheduler submits.
use arl_hierarchical_multisc.Base.{
  subst, ◌≡◌, refl, sym, ◌∙◌, ap, List, [], ◌∷◌, ◌++◌, append_assoc, append-nil, map, map-append,
}
use arl_hierarchical_multisc.Base.Effect.{
  Ensures-returns, ok, Ensures, Ensures->>=, Ensures-pure, Ensures-throw, Ensures-mono,
}
use arl_hierarchical_multisc.ResourceManager.{ResourceManager}
use arl_hierarchical_multisc.Queue.{Queue}
use arl_hierarchical_multisc.Command.{Command, CommandOps, ticket}
use arl_hierarchical_multisc.StateDb.{StateDb}
use arl_hierarchical_multisc.Scheduler.Batch.{submit, process_queue}

-- The list is dealt out in turn: the first item to the left one, the second to the right one.
pub data Deals {ℓ} {A : Type ℓ} : List A → List A → List A → Type ℓ where
  dealt : Deals [] [] []
  deal : {xs ls rs : List A} (l r : A) → Deals xs ls rs → Deals (l ∷ r ∷ xs) (l ∷ ls) (r ∷ rs)

-- The submitted commands stand behind the running ones, in order.
pub record Submitted (db db' : StateDb) : Type 0 where
  pub submitted : Queue Command
  pub dealt : Deals db.queued submitted db'.queued
  pub behind : map ticket db'.running ≡ map ticket db.running ++ map ticket submitted
  pub same_completed : db'.completed ≡ db.completed

-- The same for the loop, from a point on.
record Submits (passed running rest passed' running' : Queue Command) : Type 0 where
  submitted : Queue Command
  left : Queue Command
  deals : Deals rest submitted left
  behind : map ticket running' ≡ map ticket running ++ map ticket submitted
  kept : passed' ≡ passed ++ left

module _ {W : Type 0} (ops : CommandOps W) where
  submit-Submits :
      (passed running rest : Queue Command)
      → Ensures (submit ops passed running rest) (λ (q, r). Submits passed running rest q r)
  unfolding submit
  submit-Submits passed running [] =
      Ensures-pure (passed, running)
        (record {
          submitted = [];
          left = [];
          deals = dealt;
          behind = sym (append-nil (map ticket running));
          kept = sym (append-nil passed);
        })
  submit-Submits passed running (c ∷ []) =
      Ensures->>= {P = λ _. Unit} _ (record { run = λ w a e. tt }) λ c' _. Ensures-throw _
  submit-Submits passed running (c ∷ d ∷ rest) =
      Ensures->>= (ops.execute c) (ops.execute_keeps c) λ c' (same, _).
        Ensures-mono
          (λ (q, r) s. record {
            submitted = c ∷ s.submitted;
            left = d ∷ s.left;
            deals = deal c d s.deals;
            behind =
                s.behind
                ∙ ap (λ l. l ++ map ticket s.submitted) (map-append ticket running (c' ∷ []))
                ∙ append_assoc (map ticket running) (ticket c' ∷ []) (map ticket s.submitted)
                ∙ ap (λ t. map ticket running ++ t ∷ map ticket s.submitted) same;
            kept = s.kept ∙ append_assoc passed (d ∷ []) s.left;
          })
          (submit-Submits (passed ++ d ∷ []) (running ++ c' ∷ []) rest)

  pub process_queue-Submitted :
      (m : ResourceManager) (db : StateDb)
      → Ensures (process_queue ops m db) (λ (m', db'). Submitted db db' × (m' ≡ m))
  unfolding process_queue
  process_queue-Submitted m db = Ensures->>= _ (submit-Submits [] db.running db.queued) λ (q, r) s.
      Ensures-pure _ (
        record {
          submitted = s.submitted;
          dealt = subst (Deals db.queued s.submitted) (sym s.kept) s.deals;
          behind = s.behind;
          same_completed = refl;
        },
        refl,
      )

  -- When a pass of the batch scheduler returns, it has submitted the first, the third, and each
  -- further second queued command, in their order, behind the running ones, and the commands between
  -- them are still queued; so the number of queued commands was even. The completed queue and the
  -- resource manager are as before.
  pub process_queue_alternates :
      (m m' : ResourceManager) (db db' : StateDb) (w w' : W)
      → process_queue ops m db w ≡ (ok (m', db'), w')
      → Submitted db db' × (m' ≡ m)
  process_queue_alternates m m' db db' w w' e =
      Ensures-returns (process_queue-Submitted m db) w w' (m', db') e
