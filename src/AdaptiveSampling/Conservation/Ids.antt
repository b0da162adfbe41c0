-- ===== src/AdaptiveSampling/Conservation/Ids.antt =====
-- How often the id of a package stands among its additional evaluations.
use arl_hierarchical_multisc.Base.{
  ℕ, ◌≡◌, ap, ◌∙◌, false, Option, List, [], ◌∷◌, length, All, arith, ◌==◌, if◌then◌else◌,
}
use arl_hierarchical_multisc.ModelPackage.{ModelPackage}
use arl_hierarchical_multisc.AdaptiveSampling.Values.{is_speculative}
use arl_hierarchical_multisc.AdaptiveSampling.Tally.{tally}
use arl_hierarchical_multisc.AdaptiveSampling.Outcome.{Additional, IsAdditionalOf}
use arl_hierarchical_multisc.AdaptiveSampling.Conservation.Requests.{has_id}

abbrev pub ones : ℕ → ModelPackage → ℕ
ones i p = tally (has_id i) (p ∷ [])

module _ (p : ModelPackage) where
  pub ones-here : is_speculative p.priority ≡ false → ones p.id p ≡ 1
  ones-here regular = ground (arith, regular)

  pub ones-elsewhere : (i : ℕ) → (p.id == i) ≡ false → ones i p ≡ 0
  ones-elsewhere i other = ground (arith, other)

  pub tally-additional :
      (i : ℕ) (qs : List ModelPackage)
      → All (IsAdditionalOf p) qs
      → tally (has_id i) qs ≡ (if p.id == i then length qs else 0)
  tally-additional i [] hs = ground arith
  tally-additional i (q ∷ qs) ((hid, hp), hs) =
      rw (hid, hp) (ground (arith, tally-additional i qs hs))

  pub none_here :
      (i : ℕ) (qs : List ModelPackage)
      → All (IsAdditionalOf p) qs
      → (p.id == i) ≡ false
      → tally (has_id i) qs ≡ 0
  none_here i qs hs o = tally-additional i qs hs ∙ ap (λ b. if b then length qs else 0) o

  pub not_set :
      (i : ℕ) (m : Additional) (entry : Option (ℕ × List ModelPackage))
      → (p.id == i) ≡ false
      → (if i == p.id then entry else m i) ≡ m i
  not_set i m entry o = ground (arith, o)

  pub is_set :
      (m : Additional) (entry : Option (ℕ × List ModelPackage))
      → (if p.id == p.id then entry else m p.id) ≡ entry
  is_set m entry = ground arith
