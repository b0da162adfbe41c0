-- ===== src/ResourceManager/Balance.antt =====
-- How many resources of each kind the calls of the manager move.
use arl_hierarchical_multisc.Base.{
  [], ℕ, ◌+◌, ◌≡◌, refl, sym, subst, ap, String, Bool, true, count_if, count_if-append,
  if◌then◌else◌, Option, none, some, ◌++◌, arith,
}
use arl_hierarchical_multisc.Base.Effect.{ok}
use arl_hierarchical_multisc.ResourceList
use arl_hierarchical_multisc.ResourceList.{ResourceType, cpu, gpu, ResourceList, same_type}
use arl_hierarchical_multisc.ResourceList.Lending.{same_type_self}
use arl_hierarchical_multisc.ResourceManager.{ResourceManager, find, assign, check_in}
use arl_hierarchical_multisc.ResourceManager.Accounts.{
  available, held, Typed, IsKeyed, IsKeyed-find, assign-IsKeyed, CheckedOut,
}

-- How many of the resources of a list have a type and a property.
abbrev pub share : ResourceType → (String → Bool) → ResourceList → ℕ
share t p r = if same_type r.resource_type t then count_if p r.resources else 0

pub record CheckedIn (m : ResourceManager) (r : ResourceList) (m' : ResourceManager)
    (emptied : ResourceList) : Type 0 where
  pub keyed : IsKeyed m'
  pub none_left : emptied ≡ record r { resources = [] }
  pub returned :
      (t : ResourceType) (p : String → Bool)
      → count_if p (available t m') ≡ count_if p (available t m) + share t p r

available-assign :
    (t u : ResourceType) (l : ResourceList) (m : ResourceManager)
    → available t (assign u l m) ≡ (if same_type u t then l.resources else available t m)
available-assign cpu cpu l m = refl
available-assign cpu gpu l m = refl
available-assign gpu cpu l m = refl
available-assign gpu gpu l m = refl

same_type-eq : (t u : ResourceType) → same_type u t ≡ true → t ≡ u
same_type-eq t u h = ground arith

module _ (m : ResourceManager) (r : ResourceList) (m' : ResourceManager)
    (emptied : ResourceList) where
  -- A check-in that returns found a list of the type, to which it appended the resources.
  appended :
      (o : Option ResourceList)
      → find r.resource_type m ≡ o
      → check_in m r ≡ ok (m', emptied)
      → (l : ResourceList) × (find r.resource_type m ≡ some l)
        × (m' ≡ assign r.resource_type (record l { resources = l.resources ++ r.resources }) m)
        × (emptied ≡ record r { resources = [] })
  unfolding check_in ResourceList.check_in
  appended none at_type e = absurd (ground arith)
  appended (some l) at_type e = (l, at_type, ground arith, ground arith)

  -- Where each list stands under its own type and a check-in returns, the manager has, of each type
  -- and with each property, as many resources more as the list had, which is left empty.
  pub check_in-CheckedIn : IsKeyed m → check_in m r ≡ ok (m', emptied) → CheckedIn m r m' emptied
  check_in-CheckedIn k e =
      let u = r.resource_type in
      let (l, at_type, moved, none_left) = appended (find u m) refl e in
      let sum : ResourceList = record l { resources = l.resources ++ r.resources } in
      record {
        keyed = rw moved (assign-IsKeyed u sum m k (subst (Typed u) at_type (IsKeyed-find u m k)));
        none_left = none_left;
        returned = λ t p. ground (
          arith,
          moved,
          at_type,
          available-assign t u sum m,
          same_type-eq t u,
          count_if-append p l.resources r.resources,
        );
      }

ResourceType-discrete : Discrete ResourceType
ResourceType-discrete = hlevel

-- A check-out moves the lent resources, and none besides.
module _ {m : ResourceManager} {t : ResourceType} {amount : ℕ} {m' : ResourceManager}
    {lent : ResourceList} (o : CheckedOut m t amount m' lent) (p : String → Bool) where
  balance_at : count_if p (available t m') + share t p lent ≡ count_if p (available t m)
  balance_at = ground (
    arith,
    o.split,
    o.lent_type,
    same_type_self t,
    count_if-append p (available t m') lent.resources,
  )

  pub CheckedOut-balance :
      (u : ResourceType) → count_if p (available u m') + share u p lent ≡ count_if p (available u m)
  CheckedOut-balance u = elim (ResourceType-discrete t u) [
    | yes e ↦
        subst (λ v. count_if p (available v m') + share v p lent ≡ count_if p (available v m)) e
          balance_at
    | no ne ↦ ground (
      arith,
      o.lent_type,
      ap held (o.others u (λ e. ne (sym e))),
      same_type-eq u t,
      λ (e : u ≡ t). ne (sym e),
    )
  ]
