-- ===== src/Monitor/Conservation.antt =====
-- No sweep of the monitor loses or makes up a command or a resource.
use arl_hierarchical_multisc.Base.{
  ◌+◌, ◌≡◌, refl, sym, subst, ◌∙◌, ap, String, Bool, [], ◌∷◌, ◌++◌, arith, All, All-append,
  All-split, append_assoc, append-nil, count_if, count_if-append,
}
use arl_hierarchical_multisc.Base.Effect.{
  Ensures-returns, ok, M, pure, Ensures, Ensures->>=, Ensures-pure, Ensures-throw, Ensures-lift,
  Ensures-mono,
}
use arl_hierarchical_multisc.ResourceList.{ResourceType}
use arl_hierarchical_multisc.ResourceManager.{ResourceManager}
use arl_hierarchical_multisc.ResourceManager.Accounts.{available, IsKeyed}
use arl_hierarchical_multisc.Queue.{Queue}
use arl_hierarchical_multisc.ModelPackage.{Clock, log_timestamp}
use arl_hierarchical_multisc.Command.{Command, CommandOps, CommandStatus, ticket}
use arl_hierarchical_multisc.StateDb.{StateDb, release}
use arl_hierarchical_multisc.StateDb.Ledger.{
  tickets, lent, lent-append, lent_list, IsIdle, IsStaffed, IsStaffed-same, Released, released,
}
use arl_hierarchical_multisc.Scheduler.Basic.Accounts.{log_timestamp_keeps}
use arl_hierarchical_multisc.Monitor.Directions.{Sorted, process_queue-Sorted}
use arl_hierarchical_multisc.Monitor.{Sweep, sweep, finish, poll, process_queue, switch}

pub record IsWatched (s : Sweep) : Type 0 where
  pub keyed : IsKeyed s.manager
  pub staffed : All IsStaffed s.running
  pub idle : All IsIdle s.completed

-- Commands only move from the running queue to the completed one, and resources back to the manager.
pub record Collects (s s' : Sweep) : Type 0 where
  pub commands :
      (p : Command → Bool)
      → tickets p s'.running + tickets p s'.completed ≡ tickets p s.running + tickets p s.completed
  pub resources :
      (t : ResourceType) (p : String → Bool)
      → count_if p (available t s'.manager) + lent t p s'.running
        ≡ count_if p (available t s.manager) + lent t p s.running

abbrev pub Swept : Sweep → Sweep → Type 0
Swept s s' = IsWatched s' × Collects s s'

Collects-refl : (s : Sweep) → Collects s s
Collects-refl s = record { commands = λ p. refl; resources = λ t p. refl }

then_Swept :
    {W : Type 0} {s t : Sweep} {m : M W Sweep}
    → Swept s t
    → (IsWatched t → Ensures m (Swept t))
    → Ensures m (Swept s)
then_Swept (watched, moved) h =
    Ensures-mono
      (λ u (w, k). (
        w,
        record {
          commands = λ p. k.commands p ∙ moved.commands p;
          resources = λ t p. k.resources t p ∙ moved.resources t p;
        },
      ))
      (h watched)

-- A command whose status was read is the same, with the same resources.
module _ (m : ResourceManager) (kept completed : Queue Command) (c : Command) (rest : Queue Command)
    (c' : Command) (same : ticket c' ≡ ticket c) (holds : c'.resources ≡ c.resources)
    (watched : IsWatched (sweep m (kept ++ c ∷ rest) completed)) where
  keep-Swept : Swept (sweep m (kept ++ c ∷ rest) completed) (sweep m (kept ++ c' ∷ rest) completed)
  keep-Swept =
      let (before, behind) = All-split IsStaffed kept (c ∷ rest) watched.staffed in
      (
        record {
          keyed = watched.keyed;
          staffed =
              All-append IsStaffed kept (c' ∷ rest) before
                (IsStaffed-same c c' same holds behind.0, behind.1);
          idle = watched.idle;
        },
        record {
          commands = λ p. ground (
            arith,
            count_if-append (λ k. p (ticket k)) kept (c ∷ rest),
            count_if-append (λ k. p (ticket k)) kept (c' ∷ rest),
            ap p same,
          );
          resources = λ t p. omega (
            arith,
            lent-append t p kept (c ∷ rest),
            lent-append t p kept (c' ∷ rest),
            ap (lent_list t p) holds,
          );
        },
      )

  finish-Swept :
      (m' : ResourceManager) (done : Command)
      → Released m c' m' done
      → Swept
          (sweep m (kept ++ c ∷ rest) completed)
          (sweep m' (kept ++ rest) (completed ++ done ∷ []))
  finish-Swept m' done back =
      let (before, behind) = All-split IsStaffed kept (c ∷ rest) watched.staffed in
      (
        record {
          keyed = back.keyed;
          staffed = All-append IsStaffed kept rest before behind.1;
          idle = All-append IsIdle completed (done ∷ []) watched.idle (back.idle, tt);
        },
        record {
          commands = λ p. ground (
            arith,
            count_if-append (λ k. p (ticket k)) kept (c ∷ rest),
            count_if-append (λ k. p (ticket k)) kept rest,
            count_if-append (λ k. p (ticket k)) completed (done ∷ []),
            ap p (back.same_ticket ∙ same),
          );
          resources = λ t p. omega (
            arith,
            lent-append t p kept (c ∷ rest),
            lent-append t p kept rest,
            back.returned t p,
            ap (lent_list t p) holds,
          );
        },
      )

Ensures-switch :
    {W A : Type 0} {Q : A → Type 0} (status : CommandStatus) {m n : M W A}
    → Ensures m Q
    → Ensures n Q
    → Ensures (switch status m n) Q
Ensures-switch CommandStatus.running h k = h
Ensures-switch CommandStatus.completed h k = k
Ensures-switch CommandStatus.error h k = Ensures-throw _

module _ {W : Type 0} (clock : Clock W) (ops : CommandOps W) where
  finish-Released :
      (m : ResourceManager) (c : Command)
      → IsKeyed m
      → Ensures (finish clock ops m c) (λ (m', done). Released m c m' done)
  unfolding finish
  finish-Released m c k =
      Ensures->>= (log_timestamp clock c.model_package "End execution")
        (log_timestamp_keeps clock c.model_package "End execution")
        λ p logged.
          let c₁ : Command = record c { model_package = p } in
          Ensures-lift (release m c₁) λ (m', done) e.
            let back = released m c₁ m' done c.resources refl k e in
            record {
              keyed = back.keyed;
              same_ticket =
                  back.same_ticket ∙ ap (λ q. record (ticket c) { model_package = q }) logged;
              idle = back.idle;
              returned = back.returned;
            }

  poll-Swept :
      (m : ResourceManager) (kept completed rest : Queue Command)
      → IsWatched (sweep m (kept ++ rest) completed)
      → Ensures (poll clock ops m kept completed rest) (Swept (sweep m (kept ++ rest) completed))
  unfolding poll
  poll-Swept m kept completed [] k =
      subst
        (λ l. Ensures {W = W} (pure (sweep m l completed)) (Swept (sweep m (kept ++ []) completed)))
        (append-nil kept) (Ensures-pure _ (k, Collects-refl _))
  poll-Swept m kept completed (c ∷ rest) k =
      Ensures->>= (ops.get_status c) (ops.get_status_keeps c) λ (status, c') (same, holds).
        Ensures-switch status
          (then_Swept (keep-Swept m kept completed c rest c' same holds k) λ k'.
            let regroup = append_assoc kept (c' ∷ []) rest in
            subst
              (λ l.
                Ensures (poll clock ops m (kept ++ c' ∷ []) completed rest)
                  (Swept (sweep m l completed)))
              regroup
              (poll-Swept m (kept ++ c' ∷ []) completed rest
                (subst (λ l. IsWatched (sweep m l completed)) (sym regroup) k')))
          (Ensures->>= (finish clock ops m c') (finish-Released m c' k.keyed) λ (m', done) back.
            then_Swept (finish-Swept m kept completed c rest c' same holds k m' done back)
              (poll-Swept m' kept (completed ++ done ∷ []) rest))

  pub process_queue-Swept :
      (m : ResourceManager) (db : StateDb)
      → IsWatched (sweep m db.running db.completed)
      → Ensures (process_queue clock ops m db) (λ (m', db').
        Swept (sweep m db.running db.completed) (sweep m' db'.running db'.completed)
        × (db'.queued ≡ db.queued))
  unfolding process_queue
  process_queue-Swept m db k =
      Ensures->>= (poll clock ops m [] db.completed db.running)
        (poll-Swept m [] db.completed db.running k) (λ s swept. Ensures-pure _ (swept, refl))

  -- Suppose that each list of the manager stands under its own type, that each running command
  -- holds as many resources as it asks for, of the type that it asks for, and that completed
  -- commands hold nothing. When a sweep of the monitor then returns, all of that still holds; the
  -- sweep has neither lost nor made up a command or a resource; the queued commands are as before;
  -- every running command has been asked for its status once, in their order; those that reported
  -- RUNNING are the running queue now, in their order and as they reported; and those that reported
  -- COMPLETED have been finished, their resources given back, and stand in their order behind the
  -- commands that were completed before, and no others do.
  pub process_queue_collects :
      (m m' : ResourceManager) (db db' : StateDb) (w w' : W)
      → IsWatched (sweep m db.running db.completed)
      → process_queue clock ops m db w ≡ (ok (m', db'), w')
      → Swept (sweep m db.running db.completed) (sweep m' db'.running db'.completed)
        × (db'.queued ≡ db.queued)
        × Sorted clock ops w w' [] db.completed db.running db'.running db'.completed
  process_queue_collects m m' db db' w w' k e =
      let (swept, same) = Ensures-returns (process_queue-Swept m db k) w w' (m', db') e in
      (swept, same, process_queue-Sorted clock ops m m' db db' w w' e)
