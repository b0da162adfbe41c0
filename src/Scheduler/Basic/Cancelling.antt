-- ===== src/Scheduler/Basic/Cancelling.antt =====
-- The loops that cancel speculative commands.
use arl_hierarchical_multisc.Base.{
  ◌≡◌, refl, sym, subst, ◌∙◌, ap, [], ◌∷◌, ◌++◌, append-nil, append_assoc, arith, count_if-append,
  All-append, All-split,
}
use arl_hierarchical_multisc.Base.Effect.{
  pure, Ensures, Ensures->>=, Ensures-pure, Ensures-lift, Ensures-if,
}
use arl_hierarchical_multisc.ResourceManager.{ResourceManager}
use arl_hierarchical_multisc.ResourceManager.Accounts.{IsKeyed}
use arl_hierarchical_multisc.Queue.{Queue}
use arl_hierarchical_multisc.Command.{Command, CommandOps, ticket, is_speculative}
use arl_hierarchical_multisc.StateDb.{release}
use arl_hierarchical_multisc.StateDb.Ledger.{Released, released, lent-append, IsIdle, IsStaffed}
use arl_hierarchical_multisc.Scheduler.Basic.{pass, cancel, preempt}
use arl_hierarchical_multisc.Scheduler.Basic.Accounts.{
  IsConsistent, Preserves-refl, Sound, then_Sound,
}

-- Taking a running command back: it goes to the end of the queue, its resources to the manager.
preempt-Sound :
    (m : ResourceManager) (queue kept : Queue Command) (r : Command) (rest : Queue Command)
    (m' : ResourceManager) (r' : Command)
    → IsConsistent (pass m queue (kept ++ r ∷ rest))
    → Released m r m' r'
    → Sound (pass m queue (kept ++ r ∷ rest)) (pass m' (queue ++ r' ∷ []) (kept ++ rest))
preempt-Sound m queue kept r rest m' r' k back =
    let (before, behind) = All-split IsStaffed kept (r ∷ rest) k.staffed in
    (
      record {
        keyed = back.keyed;
        idle = All-append IsIdle queue (r' ∷ []) k.idle (back.idle, tt);
        staffed = All-append IsStaffed kept rest before behind.1;
      },
      record {
        commands = λ p. ground (
          arith,
          count_if-append (λ c. p (ticket c)) queue (r' ∷ []),
          count_if-append (λ c. p (ticket c)) kept (r ∷ rest),
          count_if-append (λ c. p (ticket c)) kept rest,
          ap p back.same_ticket,
        );
        resources = λ t p.
            omega (
              arith,
              lent-append t p kept (r ∷ rest),
              lent-append t p kept rest,
              back.returned t p,
            );
      },
    )

module _ {W : Type 0} (ops : CommandOps W) where
  pub preempt-Released :
      (m : ResourceManager) (c : Command)
      → IsKeyed m
      → Ensures (preempt ops m c) (λ (m', c'). Released m c m' c')
  unfolding preempt
  preempt-Released m c k = Ensures->>= (ops.terminate c) (ops.terminate_keeps c) λ c₁ (same, holds).
      Ensures-lift (release m c₁) λ (m', c') e.
        let back = released m c₁ m' c' c₁.resources refl k e in
        record {
          keyed = back.keyed;
          same_ticket = back.same_ticket ∙ same;
          idle = back.idle;
          returned = λ t p. rw (← holds) (back.returned t p);
        }

  pub cancel-Sound :
      (m : ResourceManager) (passed waiting kept rest : Queue Command)
      → IsConsistent (pass m (passed ++ waiting) (kept ++ rest))
      → Ensures
          (cancel ops m passed waiting kept rest)
          (Sound (pass m (passed ++ waiting) (kept ++ rest)))
  unfolding cancel
  cancel-Sound m passed waiting kept [] k =
      subst
        (λ l.
          Ensures {W = W} (pure (pass m (passed ++ waiting) l))
            (Sound (pass m (passed ++ waiting) (kept ++ []))))
        (append-nil kept) (Ensures-pure _ (k, Preserves-refl _))
  cancel-Sound m passed [] kept (r ∷ rest) k =
      subst
        (λ l.
          Ensures {W = W} (pure (pass m l (kept ++ r ∷ rest)))
            (Sound (pass m (passed ++ []) (kept ++ r ∷ rest))))
        (append-nil passed) (Ensures-pure _ (k, Preserves-refl _))
  cancel-Sound m passed (q ∷ waiting) kept (r ∷ rest) k =
      Ensures-if (is_speculative q) (λ _. Ensures-pure _ (k, Preserves-refl _))
        λ _.
          Ensures-if (is_speculative r)
            (λ _. Ensures->>= (preempt ops m r) (preempt-Released m r k.keyed) λ (m', r') back.
              then_Sound (preempt-Sound m _ kept r rest m' r' k back) λ k'.
                let same = regroup r' in
                subst
                  (λ l.
                    Ensures (cancel ops m' (passed ++ q ∷ []) (waiting ++ r' ∷ []) kept rest)
                      (Sound (pass m' l (kept ++ rest))))
                  same
                  (cancel-Sound m' (passed ++ q ∷ []) (waiting ++ r' ∷ []) kept rest
                    (subst (λ l. IsConsistent (pass m' l (kept ++ rest))) (sym same) k')))
            (λ _.
              let same = append_assoc kept (r ∷ []) rest in
              subst
                (λ l.
                  Ensures (cancel ops m passed (q ∷ waiting) (kept ++ r ∷ []) rest)
                    (Sound (pass m (passed ++ q ∷ waiting) l)))
                same
                (cancel-Sound m passed (q ∷ waiting) (kept ++ r ∷ []) rest
                  (subst (λ l. IsConsistent (pass m (passed ++ q ∷ waiting) l)) (sym same) k)))
    where
      regroup :
          (r' : Command)
          → (passed ++ q ∷ []) ++ (waiting ++ r' ∷ []) ≡ (passed ++ q ∷ waiting) ++ r' ∷ []
      regroup r' = simp append_assoc
