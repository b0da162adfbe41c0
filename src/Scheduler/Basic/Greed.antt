-- ===== src/Scheduler/Basic/Greed.antt =====
-- Which commands a pass starts, and which it leaves.
use arl_hierarchical_multisc.Base.{
  ℕ, ◌≤◌, ◌<◌, ◌≡◌, refl, sym, subst, ◌∙◌, true, false, not, [], ◌∷◌, ◌++◌, arith, length, ◌⊎◌, inl,
  inr, All, All-append, append_assoc, append-nil, ◌==◌, count_if-true,
}
use arl_hierarchical_multisc.Base.Int.{IsInt, to_unsigned, ltb_ℤ, pos}
use arl_hierarchical_multisc.Base.Effect.{
  Ensures-returns, ok, Ensures, Ensures->>=, Ensures-pure, Ensures-throw, Ensures-lift, Ensures-if,
  Ensures-mono,
}
use arl_hierarchical_multisc.ResourceList.{ResourceType, ResourceList}
use arl_hierarchical_multisc.ResourceManager
use arl_hierarchical_multisc.ResourceManager.{ResourceManager}
use arl_hierarchical_multisc.ResourceManager.Accounts.{
  available, IsKeyed, CheckedOut, check_out-CheckedOut,
}
use arl_hierarchical_multisc.ResourceManager.Balance.{CheckedOut-balance}
use arl_hierarchical_multisc.Queue.{Queue}
use arl_hierarchical_multisc.ModelPackage.{Clock}
use arl_hierarchical_multisc.Command.{
  Command, CommandOps, ticket, get_resource_type, get_resource_amount,
}
use arl_hierarchical_multisc.Scheduler.Basic.{Pass, pass, start, launch, process, process_queue}
use arl_hierarchical_multisc.StateDb.{StateDb}
use arl_hierarchical_multisc.Scheduler.Basic.Accounts.{launch_keeps}

-- `queue` is `started` and `left` shuffled together, each in its order, up to what starting a
-- command changes.
pub data Shuffle : Queue Command → Queue Command → Queue Command → Type 0 where
  none_left : (left : Queue Command) → Shuffle [] left left
  start_next :
      {started left queue : Queue Command} {c c' : Command}
      → ticket c' ≡ ticket c
      → Shuffle started left queue
      → Shuffle (c' ∷ started) left (c ∷ queue)
  leave_next :
      {started left queue : Queue Command} {c : Command}
      → Shuffle started left queue
      → Shuffle started (c ∷ left) (c ∷ queue)

-- Fewer resources of the type are free than the command asks for.
abbrev pub IsShort : ResourceManager → Command → Type 0
IsShort m c = length (available (get_resource_type c) m) < to_unsigned (get_resource_amount c)

-- What the loop makes of the commands from the iterator on: some it started, in order, and it left
-- the others; and nothing is free, or no command of the queue could be served.
pub record Served (queue running left : Queue Command) (s : Pass) : Type 0 where
  pub started : Queue Command
  pub at_end : s.running ≡ running ++ started
  pub shuffle : Shuffle started left queue
  pub greedy :
      (ResourceManager.has_resources_available s.manager ≡ false) ⊎ All (IsShort s.manager) s.queued

-- A check-out leaves no more resources free than before.
length-available-le :
    (m : ResourceManager) (t : ResourceType) (amount : ℕ) (m' : ResourceManager) (r : ResourceList)
    → CheckedOut m t amount m' r
    → (u : ResourceType) → length (available u m') ≤ length (available u m)
length-available-le m t amount m' r out u = omega (
  arith,
  CheckedOut-balance out (λ _. true) u,
  count_if-true (available u m'),
  count_if-true (available u m),
)

All-IsShort :
    (m m' : ResourceManager) (q : Queue Command)
    → ((u : ResourceType) → length (available u m') ≤ length (available u m))
    → All (IsShort m) q
    → All (IsShort m') q
All-IsShort m m' [] h a = tt
All-IsShort m m' (c ∷ q) h a = (omega (arith, h (get_resource_type c)), All-IsShort m m' q h a.1)

-- A command that was lent nothing asks for more than is free: it asks for something.
IsShort-of :
    (m : ResourceManager) (c : Command) (m' : ResourceManager) (r : ResourceList)
    → CheckedOut m (get_resource_type c) (to_unsigned (get_resource_amount c)) m' r
    → IsInt (get_resource_amount c)
    → ltb_ℤ (get_resource_amount c) (pos 1) ≡ false
    → (length r.resources == 0) ≡ true
    → IsShort m' c
IsShort-of m c m' r out int some_asked none_lent =
    ground (arith, out.all_or_none, length-available-le m _ _ m' r out (get_resource_type c))

module _ {W : Type 0} (clock : Clock W) (ops : CommandOps W) where
  -- With the commands before the iterator all short of resources, so are they at the end.
  start-Served :
      (m : ResourceManager) (skipped running rest : Queue Command)
      → IsKeyed m
      → All (λ c. IsInt (get_resource_amount c)) rest
      → All (IsShort m) skipped
      → Ensures
          (start clock ops m skipped running rest)
          (λ s. (left : Queue Command) × (s.queued ≡ skipped ++ left) × Served rest running left s)
  unfolding start
  start-Served m skipped running [] k ints short = Ensures-pure _ (
    [],
    sym (append-nil skipped),
    record {
      started = [];
      at_end = sym (append-nil running);
      shuffle = none_left [];
      greedy = inr short;
    },
  )
  start-Served m skipped running (c ∷ rest) k ints short =
      Ensures-if (ltb_ℤ (get_resource_amount c) (pos 1)) (λ _. Ensures-throw _)
        λ some_asked.
          Ensures->>= _
            (Ensures-lift
              (ResourceManager.check_out m (get_resource_type c) (get_resource_amount c))
              λ (m', r) e.
                check_out-CheckedOut m (get_resource_type c) (get_resource_amount c) m' r k e)
            λ (m', r) out.
              let short' = All-IsShort m m' skipped (length-available-le m _ _ m' r out) short in
              Ensures-if (length r.resources == 0)
                (λ none_lent.
                  Ensures-mono
                    (λ s (left, split, v). (
                      c ∷ left,
                      split ∙ append_assoc skipped (c ∷ []) left,
                      record {
                        started = v.started;
                        at_end = v.at_end;
                        shuffle = leave_next v.shuffle;
                        greedy = v.greedy;
                      },
                    ))
                    (start-Served m' (skipped ++ c ∷ []) running rest out.keyed ints.1 (
                      All-append (IsShort m') skipped (c ∷ []) short'
                        (IsShort-of m c m' r out ints.0 some_asked none_lent, tt))))
                λ some_lent.
                  Ensures->>= (launch clock ops c r) (launch_keeps clock ops c r)
                    λ c' (same, holds).
                      Ensures-if (not (ResourceManager.has_resources_available m'))
                        (λ exhausted. Ensures-pure _ (
                          rest,
                          refl,
                          record {
                            started = c' ∷ [];
                            at_end = refl;
                            shuffle = start_next same (none_left rest);
                            greedy = inl (ground arith);
                          },
                        ))
                        λ _.
                          Ensures-mono
                            (λ s (left, split, v). (
                              left,
                              split,
                              record {
                                started = c' ∷ v.started;
                                at_end = v.at_end ∙ append_assoc running (c' ∷ []) v.started;
                                shuffle = start_next same v.shuffle;
                                greedy = v.greedy;
                              },
                            ))
                            (start-Served m' skipped (running ++ c' ∷ []) rest out.keyed ints.1
                              short')

  process-Served :
      (m : ResourceManager) (db : StateDb)
      → IsKeyed m
      → All (λ c. IsInt (get_resource_amount c)) db.queued
      → Ensures
          (process clock ops false (pass m db.queued db.running))
          (λ s. Served db.queued db.running s.queued s)
  unfolding process
  process-Served m db k ints =
      Ensures-if (not (ResourceManager.has_resources_available m))
        (λ exhausted. Ensures-pure _ (record {
          started = [];
          at_end = sym (append-nil db.running);
          shuffle = none_left db.queued;
          greedy = inl (ground arith);
        }))
        (λ _.
          Ensures-mono
            (λ s (left, split, v). subst (λ q. Served db.queued db.running q s) (sym split) v)
            (start-Served m [] db.running db.queued k ints tt))

  pub process_queue-Served :
      (m : ResourceManager) (db : StateDb)
      → IsKeyed m
      → All (λ c. IsInt (get_resource_amount c)) db.queued
      → Ensures
          (process_queue clock ops false m db)
          (λ (m', db'). Served db.queued db.running db'.queued (pass m' db'.queued db'.running))
  unfolding process_queue
  process_queue-Served m db k ints =
      Ensures->>= (process clock ops false (pass m db.queued db.running))
        (process-Served m db k ints) (λ s v. Ensures-pure _ v)

  -- Suppose that each list of the manager stands under its own type, and that the amounts that
  -- queued commands ask for are 32-bit `int`s. When a pass of the non-speculative scheme then
  -- returns, the running queue is the former one followed by the commands that the pass started;
  -- those and the commands still queued are the former queue, each part in its former order; and
  -- either no resource is free, or each command still queued asks for more resources of its type
  -- than are free.
  pub process_queue_serves :
      (m m' : ResourceManager) (db db' : StateDb) (w w' : W)
      → IsKeyed m
      → All (λ c. IsInt (get_resource_amount c)) db.queued
      → process_queue clock ops false m db w ≡ (ok (m', db'), w')
      → Served db.queued db.running db'.queued (pass m' db'.queued db'.running)
  process_queue_serves m m' db db' w w' k ints e =
      Ensures-returns (process_queue-Served m db k ints) w w' (m', db') e
