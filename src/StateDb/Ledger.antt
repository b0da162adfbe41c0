-- ===== src/StateDb/Ledger.antt =====
-- Accounts of commands and of resources, by which the scheduler and the monitor are judged.
use arl_hierarchical_multisc.Base.{
  ◌∙◌, ℕ, ◌+◌, ◌≡◌, refl, sym, subst, ap, String, Bool, Option, none, some, [], ◌∷◌, ◌++◌, arith,
  length, count_if, if◌then◌else◌,
}
use arl_hierarchical_multisc.Base.Int.{to_unsigned}
use arl_hierarchical_multisc.Base.Effect.{Result, ok, err}
use arl_hierarchical_multisc.ResourceList.{ResourceList, ResourceType, same_type}
use arl_hierarchical_multisc.ResourceManager
use arl_hierarchical_multisc.ResourceManager.{ResourceManager}
use arl_hierarchical_multisc.ResourceManager.Accounts.{available, held, IsKeyed}
use arl_hierarchical_multisc.ResourceManager.Balance.{check_in-CheckedIn}
use arl_hierarchical_multisc.Queue.{Queue}
use arl_hierarchical_multisc.Command.{Command, ticket, get_resource_type, get_resource_amount}
use arl_hierarchical_multisc.StateDb.{release}

-- How many commands of a queue have a property of what is settled about them.
abbrev pub tickets : (Command → Bool) → Queue Command → ℕ
tickets p q = count_if (λ c. p (ticket c)) q

abbrev pub lent_list : ResourceType → (String → Bool) → Option ResourceList → ℕ
lent_list t p none = 0
lent_list t p (some r) = if same_type r.resource_type t then count_if p r.resources else 0

-- How many resources of a type, with a property, the commands of a queue hold.
abbrev pub lent : ResourceType → (String → Bool) → Queue Command → ℕ
lent t p [] = 0
lent t p (c ∷ q) = lent_list t p c.resources + lent t p q

pub lent-append :
    (t : ResourceType) (p : String → Bool) (q r : Queue Command)
    → lent t p (q ++ r) ≡ lent t p q + lent t p r
lent-append t p [] r = omega arith
lent-append t p (c ∷ q) r = omega (arith, lent-append t p q r)

-- A command that waits holds no resources.
abbrev pub IsIdle : Command → Type 0
IsIdle c = held c.resources ≡ []

-- A command that runs holds as many resources as it asks for, of the type that it asks for.
abbrev IsStaffedBy : Command → Option ResourceList → Type 0
IsStaffedBy c none = ⊥
IsStaffedBy c (some r) =
    (r.resource_type ≡ get_resource_type c)
    × (length r.resources ≡ to_unsigned (get_resource_amount c))

abbrev pub IsStaffed : Command → Type 0
IsStaffed c = IsStaffedBy c c.resources

-- Both hang on what is settled and on the resources alone.
pub IsStaffed-same :
    (c c' : Command)
    → ticket c' ≡ ticket c
    → c'.resources ≡ c.resources
    → IsStaffed c
    → IsStaffed c'
IsStaffed-same c c' same holds s =
    let held' = subst (IsStaffedBy c) (sym holds) s in go c'.resources held'
  where
    go : (o : Option ResourceList) → IsStaffedBy c o → IsStaffedBy c' o
    go none h = h
    go (some r) h = (
      h.0 ∙ sym (ap (λ k. get_resource_type k) same),
      h.1 ∙ sym (ap (λ k. to_unsigned (get_resource_amount k)) same),
    )

-- What a check-in of a command's resources does to the accounts.
pub record Released (m : ResourceManager) (c : Command) (m' : ResourceManager) (c' : Command)
    : Type 0 where
  pub keyed : IsKeyed m'
  pub same_ticket : ticket c' ≡ ticket c
  pub idle : IsIdle c'
  pub returned :
      (t : ResourceType) (p : String → Bool)
      → count_if p (available t m') ≡ count_if p (available t m) + lent_list t p c.resources

pub lent-IsIdle :
    (t : ResourceType) (p : String → Bool) (c : Command) → IsIdle c → lent_list t p c.resources ≡ 0
lent-IsIdle t p c h = go c.resources h
  where
    go : (o : Option ResourceList) → held o ≡ [] → lent_list t p o ≡ 0
    go none e = refl
    go (some r) e = ground arith

module _ (m : ResourceManager) (c : Command) (m' : ResourceManager) (c' : Command) where
  Released-list :
      (r : ResourceList) (s : Result (ResourceManager × ResourceList))
      → c.resources ≡ some r
      → ResourceManager.check_in m r ≡ s
      → IsKeyed m
      → release m c ≡ ok (m', c')
      → Released m c m' c'
  unfolding release
  Released-list r (ok (m₁, r₁)) held_list checked k e =
      let i = check_in-CheckedIn m r m₁ r₁ k checked in
      let emptied : Command = record c { resources = some r₁ } in
      let same_manager : m₁ ≡ m' = ground arith in
      let same_command : emptied ≡ c' = ground arith in
      record {
        keyed = subst IsKeyed same_manager i.keyed;
        same_ticket = ap ticket (sym same_command);
        idle = ground (arith, i.none_left);
        returned = λ t p. ground (arith, i.returned t p);
      }
  Released-list r (err x) held_list checked k e = absurd (ground arith)

  pub released :
      (o : Option ResourceList)
      → c.resources ≡ o
      → IsKeyed m
      → release m c ≡ ok (m', c')
      → Released m c m' c'
  unfolding release
  released none none_held k e =
      let same_manager : m ≡ m' = ground arith in
      let same_command : c ≡ c' = ground arith in
      record {
        keyed = subst IsKeyed same_manager k;
        same_ticket = ap ticket (sym same_command);
        idle = ground arith;
        returned = λ t p. ground arith;
      }
  released (some r) held_list k e = Released-list r _ held_list refl k e
