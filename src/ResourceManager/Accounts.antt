-- ===== src/ResourceManager/Accounts.antt =====
-- What the manager owns of each type, and how its calls move it.
use arl_hierarchical_multisc.Base.{
  ℕ, ◌+◌, ◌%◌, ◌<◌, String, ◌≡◌, ◌≢◌, refl, sym, subst, ◌∙◌, ◌⊎◌, ◌↔◌, true, Option, none, some,
  List, [], ◌++◌, arith, length,
}
use arl_hierarchical_multisc.Base.Int.{ℤ, unsigned_mod, to_unsigned}
use arl_hierarchical_multisc.Base.Effect.{Result, ok, err}
use arl_hierarchical_multisc.ResourceList
use arl_hierarchical_multisc.ResourceList.{ResourceType, cpu, gpu, ResourceList, same_type}
use arl_hierarchical_multisc.ResourceList.Lending.{Lends, check_out-Lends}
use arl_hierarchical_multisc.ResourceManager.{
  ResourceManager, find, assign, add, check_in, check_out, has_resources_available,
  get_number_free_resources,
}

abbrev pub held : Option ResourceList → List String
held none = []
held (some r) = r.resources

-- The free resources of a type.
abbrev pub available : ResourceType → ResourceManager → List String
available t m = held (find t m)

-- Each list stands under its own type, as `add` puts it.
abbrev pub Typed : ResourceType → Option ResourceList → Type 0
Typed t none = Unit
Typed t (some r) = r.resource_type ≡ t

pub record IsKeyed (m : ResourceManager) : Type 0 where
  pub at_cpu : Typed cpu m.cpu_list
  pub at_gpu : Typed gpu m.gpu_list

pub IsKeyed-find : (t : ResourceType) (m : ResourceManager) → IsKeyed m → Typed t (find t m)
IsKeyed-find cpu m k = k.at_cpu
IsKeyed-find gpu m k = k.at_gpu

pub assign-IsKeyed :
    (t : ResourceType) (r : ResourceList) (m : ResourceManager)
    → IsKeyed m
    → r.resource_type ≡ t
    → IsKeyed (assign t r m)
assign-IsKeyed cpu r m k h = record { at_cpu = h; at_gpu = k.at_gpu }
assign-IsKeyed gpu r m k h = record { at_cpu = k.at_cpu; at_gpu = h }

pub find-assign_self :
    (t : ResourceType) (r : ResourceList) (m : ResourceManager) → find t (assign t r m) ≡ some r
find-assign_self cpu r m = refl
find-assign_self gpu r m = refl

pub find-assign_ne :
    (t u : ResourceType) (r : ResourceList) (m : ResourceManager)
    → u ≢ t
    → find u (assign t r m) ≡ find u m
find-assign_ne cpu cpu r m ne = absurd (ne refl)
find-assign_ne cpu gpu r m ne = refl
find-assign_ne gpu cpu r m ne = refl
find-assign_ne gpu gpu r m ne = absurd (ne refl)

assign-assign :
    (t : ResourceType) (r r' : ResourceList) (m : ResourceManager)
    → find t m ≡ some r
    → assign t r (assign t r' m) ≡ m
assign-assign cpu r r' m e = ground arith
assign-assign gpu r r' m e = ground arith

pub add-IsKeyed : (m : ResourceManager) (r : ResourceList) → IsKeyed m → IsKeyed (add m r)
unfolding add
add-IsKeyed m r k = assign-IsKeyed r.resource_type r m k refl

-- A check-out that returns found a list of the type, which lent the resources.
pub record Found (m : ResourceManager) (t : ResourceType) (amount : ℤ) (m' : ResourceManager)
    (lent : ResourceList) : Type 0 where
  pub list : ResourceList
  pub list' : ResourceList
  pub at_type : find t m ≡ some list
  pub lends : ResourceList.check_out list (to_unsigned amount) ≡ ok (list', lent)
  pub result : m' ≡ assign t list' m

module _ (m : ResourceManager) (t : ResourceType) (amount : ℤ) (m' : ResourceManager)
    (lent : ResourceList) where
  Found-list :
      (r : ResourceList) (s : Result (ResourceList × ResourceList))
      → find t m ≡ some r
      → ResourceList.check_out r (to_unsigned amount) ≡ s
      → check_out m t amount ≡ ok (m', lent)
      → Found m t amount m' lent
  unfolding check_out
  Found-list r (ok (r', l)) at_type lends e = record {
    list = r;
    list' = r';
    at_type = at_type;
    lends = ground arith;
    result = ground arith;
  }
  Found-list r (err x) at_type lends e = absurd (ground arith)

  pub found :
      (o : Option ResourceList)
      → find t m ≡ o
      → check_out m t amount ≡ ok (m', lent)
      → Found m t amount m' lent
  unfolding check_out
  found none at_type e = absurd (ground arith)
  found (some r) at_type e = Found-list r _ at_type refl e

pub record CheckedOut (m : ResourceManager) (t : ResourceType) (amount : ℕ) (m' : ResourceManager)
    (lent : ResourceList) : Type 0 where
  pub keyed : IsKeyed m'
  pub lent_type : lent.resource_type ≡ t
  pub split : available t m ≡ available t m' ++ lent.resources
  pub others : (u : ResourceType) → u ≢ t → find u m' ≡ find u m
  pub all_or_none :
      (length lent.resources ≡ amount) ⊎ (length (available t m) < amount) × (lent.resources ≡ [])

-- Where each list stands under its own type and a check-out of the manager returns, it has taken the
-- lent resources from the end of the list of their type, as many as requested (as an `unsigned
-- int`), or none where fewer are free; the other type is as before.
pub check_out-CheckedOut :
    (m : ResourceManager) (t : ResourceType) (amount : ℤ) (m' : ResourceManager)
    (lent : ResourceList)
    → IsKeyed m
    → check_out m t amount ≡ ok (m', lent)
    → CheckedOut m t (to_unsigned amount) m' lent
check_out-CheckedOut m t amount m' lent k e =
    let f = found m t amount m' lent (find t m) refl e in
    let l = check_out-Lends f.list (to_unsigned amount) f.list' lent f.lends in
    let keyed = subst (Typed t) f.at_type (IsKeyed-find t m k) in
    let same = find-assign_self t f.list' m in
    record {
      keyed = rw f.result (assign-IsKeyed t f.list' m k (l.same_type' ∙ keyed));
      lent_type = l.lent_type ∙ keyed;
      split = ground (arith, f.result, same, f.at_type, l.split);
      others =
          λ u ne. subst (λ x. find u x ≡ find u m) (sym f.result) (find-assign_ne t u f.list' m ne);
      all_or_none = rw f.at_type l.all_or_none;
    }

-- A round trip: where each list stands under its own type, checking in what a check-out has lent
-- restores the manager to the letter, and leaves the lent list empty.
pub check_in_restores :
    (m : ResourceManager) (t : ResourceType) (amount : ℤ) (m' : ResourceManager)
    (lent : ResourceList)
    → IsKeyed m
    → check_out m t amount ≡ ok (m', lent)
    → check_in m' lent ≡ ok (m, record lent { resources = [] })
unfolding check_in
check_in_restores m t amount m' lent k e =
    let f = found m t amount m' lent (find t m) refl e in
    let l = check_out-Lends f.list (to_unsigned amount) f.list' lent f.lends in
    let keyed = subst (Typed t) f.at_type (IsKeyed-find t m k) in
    ground (
      arith,
      l.lent_type,
      keyed,
      f.result,
      find-assign_self t f.list' m,
      assign-assign t f.list f.list' m f.at_type,
      ResourceList.Lending.check_in-check_out f.list (to_unsigned amount) f.list' lent f.lends,
    )

pub has_resources_available_iff :
    (m : ResourceManager)
    → (has_resources_available m ≡ true) ↔ (0 < length (available cpu m) + length (available gpu m))
unfolding has_resources_available
has_resources_available_iff m = ground arith

pub get_number_free_resources_lem :
    (m : ResourceManager)
    → get_number_free_resources m
      ≡ (length (available cpu m) + length (available gpu m)) % unsigned_mod
unfolding get_number_free_resources
get_number_free_resources_lem m = ground arith

-- The number of free resources is that of both types together, as an `unsigned int`; resources are
-- available exactly where that number, before it wraps, is positive.
pub free_resources_agree :
    (m : ResourceManager)
    → (get_number_free_resources m
        ≡ (length (available cpu m) + length (available gpu m)) % unsigned_mod)
      × ((has_resources_available m ≡ true)
          ↔ (0 < length (available cpu m) + length (available gpu m)))
free_resources_agree m = (get_number_free_resources_lem m, has_resources_available_iff m)
