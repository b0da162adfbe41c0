-- ===== src/ResourceList/Lending.antt =====
-- What ResourceList::checkOut lends, and what ResourceList::checkIn takes back.
use arl_hierarchical_multisc.Base.{
  ℕ, ◌-◌, ◌<◌, ◌≡◌, refl, ◌⊎◌, true, [], ◌++◌, arith, length, append-nil, take-append-drop,
  length-drop,
}
use arl_hierarchical_multisc.Base.Effect.{ok}
use arl_hierarchical_multisc.ResourceList.{
  ResourceList, ResourceType, cpu, gpu, same_type, check_in, check_out,
}

-- The lent resources are the last of the list; they are as many as
-- requested, or none where fewer are free, and then nothing has changed.
pub record Lends (r : ResourceList) (amount : ℕ) (r' lent : ResourceList) : Type 0 where
  pub split : r.resources ≡ r'.resources ++ lent.resources
  pub same_total : r'.total_available_resources ≡ r.total_available_resources
  pub same_type' : r'.resource_type ≡ r.resource_type
  pub lent_type : lent.resource_type ≡ r.resource_type
  pub all_or_none :
      (length lent.resources ≡ amount) ⊎ (length r.resources < amount) × (lent.resources ≡ [])

-- A check-out that returns has lent the last resources of the list, as many as requested, or none
-- where fewer are free; the type and the total of the list stay.
pub check_out-Lends :
    (r : ResourceList) (amount : ℕ) (r' lent : ResourceList)
    → check_out r amount ≡ ok (r', lent)
    → Lends r amount r' lent
unfolding check_out
check_out-Lends r amount r' lent e =
    let kept : ℕ = length r.resources - amount in
    ground (
      arith,
      take-append-drop kept r.resources,
      length-drop kept r.resources,
      append-nil r.resources,
    )

pub same_type_self : (t : ResourceType) → same_type t t ≡ true
same_type_self cpu = refl
same_type_self gpu = refl

-- A round trip: checking in what a check-out has lent restores the list to the letter, and leaves the
-- lent list empty.
pub check_in-check_out :
    (r : ResourceList) (amount : ℕ) (r' lent : ResourceList)
    → check_out r amount ≡ ok (r', lent)
    → check_in r' lent ≡ ok (r, record lent { resources = [] })
unfolding check_in
check_in-check_out r amount r' lent e =
    let l = check_out-Lends r amount r' lent e in
    ground (arith, same_type_self r.resource_type, l.split, l.same_total, l.same_type', l.lent_type)
