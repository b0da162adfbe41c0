-- ===== src/ResourceManager.antt =====
-- base/ResourceManager.cc: one list of free resources for each resource type. The map from the
-- two-valued ResourceType is a record with an entry for each key, CPU before GPU in iteration.
pub mod Accounts
pub mod Balance
pub mod Totals
use arl_hierarchical_multisc.Base.{
  ℕ, ◌+◌, ◌%◌, Bool, true, false, Option, none, some, List, [], ◌∷◌, length, if◌then◌else◌, ◌==◌,
  not,
}
use arl_hierarchical_multisc.Base.Int.{ℤ, unsigned_mod, to_unsigned}
use arl_hierarchical_multisc.Base.Effect.{Result, ok, err, domain_error}
use arl_hierarchical_multisc.ResourceList
use arl_hierarchical_multisc.ResourceList.{ResourceType, cpu, gpu, ResourceList}

pub record ResourceManager : Type 0 where
  pub cpu_list : Option ResourceList
  pub gpu_list : Option ResourceList

abbrev pub empty : ResourceManager
empty = record { cpu_list = none; gpu_list = none }

-- `d_resourceLists.find(type)`.
abbrev pub find : ResourceType → ResourceManager → Option ResourceList
find cpu m = m.cpu_list
find gpu m = m.gpu_list

-- `d_resourceLists[type] = list`.
abbrev pub assign : ResourceType → ResourceList → ResourceManager → ResourceManager
assign cpu r m = record m { cpu_list = some r }
assign gpu r m = record m { gpu_list = some r }

abbrev entry : Option ResourceList → List ResourceList → List ResourceList
entry none rest = rest
entry (some r) rest = r ∷ rest

-- The lists in the order in which the map is iterated over.
abbrev pub values : ResourceManager → List ResourceList
values m = entry m.cpu_list (entry m.gpu_list [])

unfoldable pub add : ResourceManager → ResourceList → ResourceManager
add m r = assign r.resource_type r m

abbrev check_in_found :
    ResourceManager → ResourceList → Option ResourceList → Result (ResourceManager × ResourceList)
check_in_found m returned none = err domain_error
check_in_found m returned (some r) = elim (ResourceList.check_in r returned) [
  | ok (r', emptied) ↦ ok (assign returned.resource_type r' m, emptied)
  | err e ↦ err e
]

unfoldable pub check_in : ResourceManager → ResourceList → Result (ResourceManager × ResourceList)
check_in m returned = check_in_found m returned (find returned.resource_type m)

abbrev check_out_found :
    ResourceManager
    → ResourceType
    → ℤ
    → Option ResourceList
    → Result (ResourceManager × ResourceList)
check_out_found m t amount none = err domain_error
check_out_found m t amount (some r) = elim (ResourceList.check_out r (to_unsigned amount)) [
  | ok (r', lent) ↦ ok (assign t r' m, lent)
  | err e ↦ err e
]

-- The amount is an `int`, which ResourceList::checkOut takes as an `unsigned int`.
unfoldable pub check_out :
    ResourceManager → ResourceType → ℤ → Result (ResourceManager × ResourceList)
check_out m t amount = check_out_found m t amount (find t m)

any_free : List ResourceList → Bool
any_free [] = false
any_free (r ∷ rs) = if not (length r.resources == 0) then true else any_free rs

unfoldable pub has_resources_available : ResourceManager → Bool
unfolding any_free
has_resources_available m = any_free (values m)

-- `returnValue += resources.size()` on an `unsigned int`.
sum_free : ℕ → List ResourceList → ℕ
sum_free acc [] = acc
sum_free acc (r ∷ rs) = sum_free ((acc + length r.resources) % unsigned_mod) rs

unfoldable pub get_number_free_resources : ResourceManager → ℕ
unfolding sum_free
get_number_free_resources m = sum_free 0 (values m)
