-- ===== src/ResourceList.antt =====
-- base/ResourceList.cc, base/ResourceList.h and base/ResourceType.h: the resources of one type
-- that are free. A list that is checked in is another object than the list it returns to.
pub mod Lending
use arl_hierarchical_multisc.Base.{
  ℕ, ◌-◌, ◌%◌, String, Bool, true, false, List, [], ◌++◌, length, take, drop, ltb, leb,
  if◌then◌else◌,
}
use arl_hierarchical_multisc.Base.Int.{unsigned_mod}
use arl_hierarchical_multisc.Base.Effect.{Result, ok, err, invalid_argument}

pub data ResourceType : Type 0 where
  cpu gpu : ResourceType

abbrev pub same_type : ResourceType → ResourceType → Bool
same_type cpu cpu = true
same_type cpu gpu = false
same_type gpu cpu = false
same_type gpu gpu = true

pub record ResourceList : Type 0 where
  pub resource_type : ResourceType
  pub resources : List String
  pub total_available_resources : ℕ

-- The total is an `unsigned int` that is given a `size_t`.
abbrev pub new : ResourceType → List String → ResourceList
new t rs = record {
  resource_type = t;
  resources = rs;
  total_available_resources = length rs % unsigned_mod;
}

-- The list itself, and the list that was checked in, which is left empty.
unfoldable pub check_in : ResourceList → ResourceList → Result (ResourceList × ResourceList)
check_in r returned =
    if same_type returned.resource_type r.resource_type
    then ok (
      record r { resources = r.resources ++ returned.resources },
      record returned { resources = [] },
    )
    else err invalid_argument

-- The list itself, and the list that is checked out.
unfoldable pub check_out : ResourceList → ℕ → Result (ResourceList × ResourceList)
check_out r amount =
    if ltb r.total_available_resources amount
    then err invalid_argument
    else if leb amount (length r.resources)
    then ok (
      record r { resources = take kept r.resources },
      new r.resource_type (drop kept r.resources),
    )
    else ok (r, new r.resource_type [])
  where
    kept : ℕ
    kept = length r.resources - amount
