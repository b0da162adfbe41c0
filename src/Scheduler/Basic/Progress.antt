-- ===== src/Scheduler/Basic/Progress.antt =====
-- When a pass of the non-speculative scheme is sure to return.
use arl_hierarchical_multisc.Base.{String, ◌≡◌, false, not, [], ◌∷◌, ◌++◌, ◌==◌, All, arith, length}
use arl_hierarchical_multisc.Base.Int.{ltb_ℤ, pos, to_unsigned}
use arl_hierarchical_multisc.Base.Effect.{
  ok, Returns, Returns-pure, Returns-if, Returns->>=, Returns-lift,
}
use arl_hierarchical_multisc.ResourceList.{ResourceList}
use arl_hierarchical_multisc.ResourceManager
use arl_hierarchical_multisc.ResourceManager.{ResourceManager}
use arl_hierarchical_multisc.ResourceManager.Totals.{
  IsPossible, check_out-returns, check_out-IsPossible,
}
use arl_hierarchical_multisc.Queue.{Queue}
use arl_hierarchical_multisc.ModelPackage.{ModelPackage, Clock, log_timestamp}
use arl_hierarchical_multisc.Command.{Command, CommandOps, get_resource_type, get_resource_amount}
use arl_hierarchical_multisc.StateDb.{StateDb}
use arl_hierarchical_multisc.Scheduler.Basic.{launch, start, process, process_queue}

-- The command asks for something, and for no more than the manager was given of the type.
pub record IsServable (m : ResourceManager) (c : Command) : Type 0 where
  pub some_asked : ltb_ℤ (get_resource_amount c) (pos 1) ≡ false
  pub possible : IsPossible m (get_resource_type c) (to_unsigned (get_resource_amount c))

All-IsServable :
    (m m' : ResourceManager) (q : Queue Command)
    → ((c : Command) → IsServable m c → IsServable m' c)
    → All (IsServable m) q
    → All (IsServable m') q
All-IsServable m m' [] h a = tt
All-IsServable m m' (c ∷ q) h a = (h c a.0, All-IsServable m m' q h a.1)

-- Neither the clock nor the calls that start a command throw.
pub record IsCalm {W : Type 0} (clock : Clock W) (ops : CommandOps W) : Type 0 where
  pub get_time : Returns clock.get_time
  pub set_resources : (c : Command) (r : ResourceList) → Returns (ops.set_resources c r)
  pub execute : (c : Command) → Returns (ops.execute c)

module _ {W : Type 0} (clock : Clock W) (ops : CommandOps W) (calm : IsCalm clock ops) where
  log_timestamp-returns :
      (p : ModelPackage) (message : String) → Returns (log_timestamp clock p message)
  unfolding log_timestamp
  log_timestamp-returns p message = Returns->>= clock.get_time calm.get_time λ time. Returns-pure _

  launch-returns : (c : Command) (r : ResourceList) → Returns (launch clock ops c r)
  unfolding launch
  launch-returns c r = Returns->>= (ops.set_resources c r) (calm.set_resources c r) λ c₁.
      Returns->>= (log_timestamp clock c₁.model_package "Start execution")
        (log_timestamp-returns c₁.model_package "Start execution")
        λ p. calm.execute (record c₁ { model_package = p })

  start-returns :
      (m : ResourceManager) (skipped running rest : Queue Command)
      → All (IsServable m) rest
      → Returns (start clock ops m skipped running rest)
  unfolding start
  start-returns m skipped running [] a = Returns-pure _
  start-returns m skipped running (c ∷ rest) (servable, a) =
      Returns-if (ltb_ℤ (get_resource_amount c) (pos 1))
        (λ none_asked. absurd (ground (arith, none_asked, servable.some_asked)))
        λ _.
          let ((m', r), e) =
            check_out-returns m (get_resource_type c) (get_resource_amount c) servable.possible in
          let later =
            All-IsServable m m' rest
              (λ k s. record {
                some_asked = s.some_asked;
                possible =
                    check_out-IsPossible m (get_resource_type c) (get_resource_amount c) m' r e
                      (get_resource_type k) (to_unsigned (get_resource_amount k)) s.possible;
              })
              a in
          Returns-lift (m', r) _ e
            (Returns-if (length r.resources == 0)
              (λ _. start-returns m' (skipped ++ c ∷ []) running rest later)
              λ _. Returns->>= (launch clock ops c r) (launch-returns c r) λ c'.
                Returns-if (not (ResourceManager.has_resources_available m')) (λ _. Returns-pure _)
                  λ _. start-returns m' skipped (running ++ c' ∷ []) rest later)

  -- Suppose that each queued command asks for at least one resource and for no more than the total
  -- of a list of its type, and that neither the clock nor the calls that start a command throw. Then
  -- a pass of the non-speculative scheme returns.
  pub process_queue_returns :
      (m : ResourceManager) (db : StateDb) (w : W)
      → All (IsServable m) db.queued
      → (r : ResourceManager × StateDb) × (w' : W) × (process_queue clock ops false m db w
          ≡ (ok r, w'))
  unfolding process_queue process
  process_queue_returns m db w a =
      (Returns->>= _
          (Returns-if (not (ResourceManager.has_resources_available m)) (λ _. Returns-pure _)
            (λ _. start-returns m [] db.running db.queued a))
          (λ s. Returns-pure _)).run
        w
