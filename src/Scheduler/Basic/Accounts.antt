-- ===== src/Scheduler/Basic/Accounts.antt =====
-- Accounts over the passes of the basic scheduler, and what one launch does to them.
use arl_hierarchical_multisc.Base.{
  nil_of_length, All-split, ◌+◌, ◌≡◌, refl, ◌∙◌, ap, String, Bool, true, false, some, [], ◌∷◌, ◌++◌,
  arith, length, count_if, count_if-append, All, All-append, ◌==◌,
}
use arl_hierarchical_multisc.Base.Int.{to_unsigned}
use arl_hierarchical_multisc.Base.Effect.{M, Ensures, Ensures->>=, Ensures-pure, Ensures-mono}
use arl_hierarchical_multisc.ResourceList.{ResourceList, ResourceType}
use arl_hierarchical_multisc.ResourceManager.{ResourceManager}
use arl_hierarchical_multisc.ResourceManager.Accounts.{available, IsKeyed, CheckedOut}
use arl_hierarchical_multisc.ResourceManager.Balance.{share, CheckedOut-balance}
use arl_hierarchical_multisc.Queue.{Queue}
use arl_hierarchical_multisc.ModelPackage.{ModelPackage, Clock, log_timestamp}
use arl_hierarchical_multisc.Command.{
  Command, CommandOps, ticket, get_resource_type, get_resource_amount,
}
use arl_hierarchical_multisc.StateDb.Ledger.{tickets, lent, lent-append, IsIdle, IsStaffed}
use arl_hierarchical_multisc.Scheduler.Basic.{Pass, pass, launch}

pub record IsConsistent (s : Pass) : Type 0 where
  pub keyed : IsKeyed s.manager
  pub idle : All IsIdle s.queued
  pub staffed : All IsStaffed s.running

-- Commands only move between the queues, and resources between the manager and the running commands.
pub record Preserves (s s' : Pass) : Type 0 where
  pub commands :
      (p : Command → Bool)
      → tickets p s'.queued + tickets p s'.running ≡ tickets p s.queued + tickets p s.running
  pub resources :
      (t : ResourceType) (p : String → Bool)
      → count_if p (available t s'.manager) + lent t p s'.running
        ≡ count_if p (available t s.manager) + lent t p s.running

pub Preserves-refl : (s : Pass) → Preserves s s
Preserves-refl s = record { commands = λ p. refl; resources = λ t p. refl }

pub Preserves-trans : {s t u : Pass} → Preserves s t → Preserves t u → Preserves s u
Preserves-trans a b = record {
  commands = λ p. b.commands p ∙ a.commands p;
  resources = λ t p. b.resources t p ∙ a.resources t p;
}

abbrev pub Sound : Pass → Pass → Type 0
Sound s s' = IsConsistent s' × Preserves s s'

pub then_Sound :
    {W : Type 0} {s t : Pass} {m : M W Pass}
    → Sound s t
    → (IsConsistent t → Ensures m (Sound t))
    → Ensures m (Sound s)
then_Sound (consistent, kept) h =
    Ensures-mono (λ u (c, k). (c, Preserves-trans kept k)) (h consistent)

module _ {W : Type 0} (clock : Clock W) where
  pub log_timestamp_keeps :
      (p : ModelPackage) (message : String)
      → Ensures (log_timestamp clock p message) (λ p'.
        ◌≡◌ {A = ModelPackage} (record p' { timestamps = [] }) (record p { timestamps = [] }))
  unfolding log_timestamp
  log_timestamp_keeps p message =
      Ensures->>= {P = λ _. Unit} clock.get_time (record { run = λ w a e. tt })
        (λ time _. Ensures-pure _ refl)

  module _ (ops : CommandOps W) where
    -- A launched command is the same, and holds the acquired resources.
    pub launch_keeps :
        (c : Command) (r : ResourceList)
        → Ensures (launch clock ops c r) (λ c'. (ticket c' ≡ ticket c) × (c'.resources ≡ some r))
    unfolding launch
    launch_keeps c r =
        Ensures->>= (ops.set_resources c r) (ops.set_resources_keeps c r) λ c₁ (same₁, held₁).
          Ensures->>= (log_timestamp clock c₁.model_package "Start execution")
            (log_timestamp_keeps c₁.model_package "Start execution")
            λ p logged.
              let c₂ : Command = record c₁ { model_package = p } in
              Ensures-mono
                (λ c' (same', held'). (
                  same' ∙ ap (λ q. record (ticket c₁) { model_package = q }) logged ∙ same₁,
                  held' ∙ held₁,
                ))
                (ops.execute_keeps c₂)

IsStaffed-of :
    (c c' : Command) (r : ResourceList)
    → ticket c' ≡ ticket c
    → c'.resources ≡ some r
    → r.resource_type ≡ get_resource_type c
    → length r.resources ≡ to_unsigned (get_resource_amount c)
    → IsStaffed c'
IsStaffed-of c c' r same holds type_of size_of =
    ground (
      arith,
      ap (λ k. get_resource_type k) same,
      ap (λ k. to_unsigned (get_resource_amount k)) same,
    )

lent_one :
    (c : Command) (r : ResourceList) (t : ResourceType) (p : String → Bool)
    → c.resources ≡ some r
    → lent t p (c ∷ []) ≡ share t p r
lent_one c r t p holds = ground arith

-- One round of the loop over the queued commands: a check-out, and the launch if it lent anything.
module _ (m : ResourceManager) (skipped running : Queue Command) (c : Command)
    (rest : Queue Command) (m' : ResourceManager) (r : ResourceList)
    (consistent : IsConsistent (pass m (skipped ++ c ∷ rest) running))
    (out : CheckedOut m (get_resource_type c) (to_unsigned (get_resource_amount c)) m' r) where
  pub launch-Sound :
      (c' : Command)
      → (length r.resources == 0) ≡ false
      → ticket c' ≡ ticket c
      → c'.resources ≡ some r
      → Sound
          (pass m (skipped ++ c ∷ rest) running)
          (pass m' (skipped ++ rest) (running ++ c' ∷ []))
  launch-Sound c' some_lent same holds =
      let (before, behind) = All-split IsIdle skipped (c ∷ rest) consistent.idle in
      let staffed =
        IsStaffed-of c c' r same holds out.lent_type (ground (arith, out.all_or_none)) in
      (
        record {
          keyed = out.keyed;
          idle = All-append IsIdle skipped rest before behind.1;
          staffed = All-append IsStaffed running (c' ∷ []) consistent.staffed (staffed, tt);
        },
        record {
          commands = λ p. ground (
            arith,
            count_if-append (λ k. p (ticket k)) skipped (c ∷ rest),
            count_if-append (λ k. p (ticket k)) skipped rest,
            count_if-append (λ k. p (ticket k)) running (c' ∷ []),
            ap p same,
          );
          resources = λ t p. omega (
            arith,
            lent-append t p running (c' ∷ []),
            lent_one c' r t p holds,
            CheckedOut-balance out p t,
          );
        },
      )

  pub skip-Sound :
      (length r.resources == 0) ≡ true
      → Sound (pass m (skipped ++ c ∷ rest) running) (pass m' (skipped ++ c ∷ rest) running)
  skip-Sound none_lent = (
    record { keyed = out.keyed; idle = consistent.idle; staffed = consistent.staffed },
    record {
      commands = λ p. refl;
      resources =
          λ t p. ground (arith, CheckedOut-balance out p t, nil_of_length r.resources none_lent);
    },
  )
