-- ===== src/ResourceManager/Totals.antt =====
-- The totals of the manager's lists decide which requests it refuses, and no check-out changes them.
use arl_hierarchical_multisc.Base.{
  ℕ, ◌≤◌, ◌≡◌, refl, sym, subst, ap, ◌∙◌, Option, none, some, arith,
}
use arl_hierarchical_multisc.Base.Int.{ℤ, to_unsigned}
use arl_hierarchical_multisc.Base.Effect.{Result, ok, err}
use arl_hierarchical_multisc.ResourceList
use arl_hierarchical_multisc.ResourceList.{ResourceType, ResourceList}
use arl_hierarchical_multisc.ResourceList.Lending.{check_out-Lends}
use arl_hierarchical_multisc.ResourceManager.{ResourceManager, find, assign, check_out}
use arl_hierarchical_multisc.ResourceManager.Accounts.{found, find-assign_self, find-assign_ne}

abbrev Reaches : Option ResourceList → ℕ → Type 0
Reaches none amount = ⊥
Reaches (some r) amount = amount ≤ r.total_available_resources

-- The manager has a list of the type, whose total is at least the amount.
abbrev pub IsPossible : ResourceManager → ResourceType → ℕ → Type 0
IsPossible m t amount = Reaches (find t m) amount

ResourceType-discrete : Discrete ResourceType
ResourceType-discrete = hlevel

module _ (m : ResourceManager) (t : ResourceType) (amount : ℤ) where
  lends-of :
      (r : ResourceList) (s : Result (ResourceList × ResourceList))
      → ResourceList.check_out r (to_unsigned amount) ≡ s
      → find t m ≡ some r
      → to_unsigned amount ≤ r.total_available_resources
      → (x : ResourceManager × ResourceList) × (check_out m t amount ≡ ok x)
  unfolding check_out ResourceList.check_out
  lends-of r (ok (r', lent)) lends at_type h = ((assign t r' m, lent), ground arith)
  lends-of r (err x) lends at_type h = absurd (ground arith)

  found-of :
      (o : Option ResourceList)
      → find t m ≡ o
      → Reaches o (to_unsigned amount)
      → (x : ResourceManager × ResourceList) × (check_out m t amount ≡ ok x)
  found-of none at_type h = absurd h
  found-of (some r) at_type h = lends-of r _ refl at_type h

  pub check_out-returns :
      IsPossible m t (to_unsigned amount)
      → (x : ResourceManager × ResourceList) × (check_out m t amount ≡ ok x)
  check_out-returns h = found-of (find t m) refl h

  pub check_out-IsPossible :
      (m' : ResourceManager) (lent : ResourceList)
      → check_out m t amount ≡ ok (m', lent)
      → (u : ResourceType) (n : ℕ) → IsPossible m u n
      → IsPossible m' u n
  check_out-IsPossible m' lent e u n h =
      let f = found m t amount m' lent (find t m) refl e in
      let l = check_out-Lends f.list (to_unsigned amount) f.list' lent f.lends in
      elim (ResourceType-discrete u t) [
        | yes same ↦
            subst (λ v. Reaches (find v m') n) (sym same)
              (subst (λ o. Reaches o n) (sym (ap (find t) f.result ∙ find-assign_self t f.list' m))
                (subst (λ k. n ≤ k) (sym l.same_total)
                  (subst (λ o. Reaches o n) f.at_type (subst (λ v. Reaches (find v m) n) same h))))
        | no ne ↦
            subst (λ k. Reaches (find u k) n) (sym f.result)
              (subst (λ o. Reaches o n) (sym (find-assign_ne t u f.list' m ne)) h)
      ]
