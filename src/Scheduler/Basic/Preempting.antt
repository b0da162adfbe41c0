-- ===== src/Scheduler/Basic/Preempting.antt =====
-- Which running commands the speculative scheme cancels.
use arl_hierarchical_multisc.Base.{
  lt→ltb, suc, ◌<◌, ℕ, ◌≤◌, ◌≡◌, refl, sym, subst, ◌∙◌, ap, true, false, [], ◌∷◌, ◌++◌, ◌⊎◌, inl,
  inr, append-nil, append_assoc, All, length, ltb, if◌then◌else◌, arith,
}
use arl_hierarchical_multisc.Base.Effect.{
  ok, Ensures, Ensures->>=, Ensures-pure, Ensures-if, Ensures-mono, Ensures-returns,
}
use arl_hierarchical_multisc.ResourceManager
use arl_hierarchical_multisc.ResourceManager.{ResourceManager}
use arl_hierarchical_multisc.ResourceManager.Accounts.{IsKeyed}
use arl_hierarchical_multisc.Queue.{Queue}
use arl_hierarchical_multisc.ModelPackage.{Clock}
use arl_hierarchical_multisc.Command.{Command, CommandOps, ticket, is_speculative}
use arl_hierarchical_multisc.StateDb.{StateDb}
use arl_hierarchical_multisc.Scheduler.Basic.{Pass, pass, cancel, preempt, process, process_queue}
use arl_hierarchical_multisc.Scheduler.Basic.Cancelling.{preempt-Released}
use arl_hierarchical_multisc.Scheduler.Basic.Greed.{Shuffle, none_left, start_next, leave_next}

-- How many commands stand before the first speculative one.
abbrev pub regular_front : Queue Command → ℕ
regular_front [] = 0
regular_front (c ∷ q) = if is_speculative c then 0 else suc (regular_front q)

-- Of the running commands some speculative ones, in order, were put behind the queue: as many as
-- there are commands at the front of the queue that are not speculative, or else all.
pub record Preempted (queue running queue' running' : Queue Command) : Type 0 where
  pub cancelled : Queue Command
  pub at_end : queue' ≡ queue ++ cancelled
  pub shuffle : Shuffle cancelled running' running
  pub speculative : All (λ c. is_speculative c ≡ true) cancelled
  pub bounded : length cancelled ≤ regular_front queue
  pub exhaustive :
      (length cancelled ≡ regular_front queue) ⊎ All (λ c. is_speculative c ≡ false) running'

-- The same for the loops, from a point on.
record Cancels (passed waiting kept rest : Queue Command) (s : Pass) : Type 0 where
  cancelled : Queue Command
  left : Queue Command
  at_end : s.queued ≡ (passed ++ waiting) ++ cancelled
  same_kept : s.running ≡ kept ++ left
  shuffle : Shuffle cancelled left rest
  speculative : All (λ c. is_speculative c ≡ true) cancelled
  bounded : length cancelled ≤ regular_front waiting
  exhaustive : (length cancelled ≡ regular_front waiting) ⊎ All (λ c. is_speculative c ≡ false) left

-- A speculative command at the end adds nothing to the front.
regular_front-append :
    (q : Queue Command) (c : Command)
    → is_speculative c ≡ true
    → regular_front (q ++ c ∷ []) ≡ regular_front q
regular_front-append [] c h = rw h
regular_front-append (d ∷ q) c h = ground (arith, regular_front-append q c h)

none_cancelled :
    (m : ResourceManager) (passed waiting kept rest : Queue Command)
    → (0 ≡ regular_front waiting) ⊎ All (λ c. is_speculative c ≡ false) rest
    → Cancels passed waiting kept rest (pass m (passed ++ waiting) (kept ++ rest))
none_cancelled m passed waiting kept rest h = record {
  cancelled = [];
  left = rest;
  at_end = sym (append-nil (passed ++ waiting));
  same_kept = refl;
  shuffle = none_left rest;
  speculative = tt;
  bounded = omega arith;
  exhaustive = h;
}

module _ (passed waiting kept rest : Queue Command) (q r r' : Command) (s : Pass)
    (regular : is_speculative q ≡ false) where
  cancel-next :
      ticket r' ≡ ticket r
      → is_speculative r ≡ true
      → Cancels (passed ++ q ∷ []) (waiting ++ r' ∷ []) kept rest s
      → Cancels passed (q ∷ waiting) kept (r ∷ rest) s
  cancel-next same spec c =
      let spec' = ap (λ k. is_speculative k) same ∙ spec in
      let front = regular_front-append waiting r' spec' in
      record {
        cancelled = r' ∷ c.cancelled;
        left = c.left;
        at_end = c.at_end ∙ simp append_assoc;
        same_kept = c.same_kept;
        shuffle = start_next same c.shuffle;
        speculative = (spec', c.speculative);
        bounded = ground (arith, regular, front, c.bounded);
        exhaustive = ground (arith, regular, front, c.exhaustive);
      }

  skip-next :
      is_speculative r ≡ false
      → Cancels passed (q ∷ waiting) (kept ++ r ∷ []) rest s
      → Cancels passed (q ∷ waiting) kept (r ∷ rest) s
  skip-next plain c = record {
    cancelled = c.cancelled;
    left = r ∷ c.left;
    at_end = c.at_end;
    same_kept = c.same_kept ∙ append_assoc kept (r ∷ []) c.left;
    shuffle = leave_next c.shuffle;
    speculative = c.speculative;
    bounded = c.bounded;
    exhaustive = ground (arith, plain, c.exhaustive);
  }

module _ {W : Type 0} (clock : Clock W) (ops : CommandOps W) where
  cancel-Cancels :
      (m : ResourceManager) (passed waiting kept rest : Queue Command)
      → IsKeyed m
      → Ensures (cancel ops m passed waiting kept rest) (Cancels passed waiting kept rest)
  unfolding cancel
  cancel-Cancels m passed waiting kept [] k = Ensures-pure _ (
      subst (λ l. Cancels passed waiting kept [] (pass m (passed ++ waiting) l)) (append-nil kept)
        (none_cancelled m passed waiting kept [] (inr tt)))
  cancel-Cancels m passed [] kept (r ∷ rest) k = Ensures-pure _ (
      subst (λ l. Cancels passed [] kept (r ∷ rest) (pass m l (kept ++ r ∷ rest)))
        (append-nil passed) (none_cancelled m passed [] kept (r ∷ rest) (inl refl)))
  cancel-Cancels m passed (q ∷ waiting) kept (r ∷ rest) k =
      Ensures-if (is_speculative q)
        (λ h. Ensures-pure _ (none_cancelled m passed (q ∷ waiting) kept (r ∷ rest) (inl (rw h))))
        λ regular.
          Ensures-if (is_speculative r)
            (λ spec. Ensures->>= (preempt ops m r) (preempt-Released ops m r k) λ (m', r') back.
              Ensures-mono
                (λ s c.
                  cancel-next passed waiting kept rest q r r' s regular back.same_ticket spec c)
                (cancel-Cancels m' (passed ++ q ∷ []) (waiting ++ r' ∷ []) kept rest back.keyed))
            (λ plain.
              Ensures-mono (λ s c. skip-next passed waiting kept rest q r r s regular plain c)
                (cancel-Cancels m passed (q ∷ waiting) (kept ++ r ∷ []) rest k))

  process-Cancels :
      (m : ResourceManager) (db : StateDb)
      → IsKeyed m
      → ltb (ResourceManager.get_number_free_resources m) 64 ≡ true
      → Ensures
          (process clock ops true (pass m db.queued db.running))
          (Cancels [] db.queued [] db.running)
  unfolding process
  process-Cancels m db k few =
      Ensures-if (ltb (ResourceManager.get_number_free_resources m) 64)
        (λ _. cancel-Cancels m [] db.queued [] db.running k)
        (λ many. absurd (ground (arith, few, many)))

  process_queue-Preempted :
      (m : ResourceManager) (db : StateDb)
      → IsKeyed m
      → ltb (ResourceManager.get_number_free_resources m) 64 ≡ true
      → Ensures
          (process_queue clock ops true m db)
          (λ (m', db'). Preempted db.queued db.running db'.queued db'.running)
  unfolding process_queue
  process_queue-Preempted m db k few = Ensures->>= _ (process-Cancels m db k few) λ s c.
      Ensures-pure _ (record {
        cancelled = c.cancelled;
        at_end = c.at_end;
        shuffle = subst (λ l. Shuffle c.cancelled l db.running) (sym c.same_kept) c.shuffle;
        speculative = c.speculative;
        bounded = c.bounded;
        exhaustive =
            subst
              (λ l.
                (length c.cancelled ≡ regular_front db.queued)
                ⊎ All (λ k. is_speculative k ≡ false) l)
              (sym c.same_kept) c.exhaustive;
      })

  -- Suppose that each list of the manager stands under its own type and that fewer than 64 resources
  -- are free. When a pass of the speculative scheme then returns, it has started nothing: it has moved
  -- running commands behind the queue, all of them speculative, one for each command before the first
  -- speculative one of the queue, or else all speculative ones that ran; both parts are in their former
  -- order.
  pub process_queue_preempts :
      (m m' : ResourceManager) (db db' : StateDb) (w w' : W)
      → IsKeyed m
      → ResourceManager.get_number_free_resources m < 64
      → process_queue clock ops true m db w ≡ (ok (m', db'), w')
      → Preempted db.queued db.running db'.queued db'.running
  process_queue_preempts m m' db db' w w' k few e =
      Ensures-returns (process_queue-Preempted m db k (lt→ltb _ 64 few)) w w' (m', db') e
