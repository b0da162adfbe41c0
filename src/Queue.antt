-- ===== src/Queue.antt =====
-- base/Queue_t.cc: a wrapper of std::list. A position is the number of items before it. std::list's
-- sort is stable; here it is by insertion.
pub mod Sort
use arl_hierarchical_multisc.Base.{
  ℕ, zero, suc, Bool, true, false, List, [], ◌∷◌, ◌++◌, length, if◌then◌else◌,
}

abbrev pub Queue {ℓ} : Type ℓ → Type ℓ
Queue A = List A

module _ {ℓ} {A : Type ℓ} where
  abbrev pub new : Queue A
  new = []

  abbrev pub add : Queue A → A → Queue A
  add q x = q ++ x ∷ []

  abbrev pub clear : Queue A → Queue A
  clear q = []

  abbrev pub empty : Queue A → Bool
  empty [] = true
  empty (x ∷ q) = false

  abbrev pub size : Queue A → ℕ
  size q = length q

  -- Erases the item at a position.
  abbrev pub pop : ℕ → Queue A → Queue A
  pop i [] = []
  pop zero (x ∷ q) = q
  pop (suc i) (x ∷ q) = x ∷ pop i q

  -- `x` goes behind the items that `comp` puts strictly before it.
  pub insert : (A → A → Bool) → A → Queue A → Queue A
  insert comp x [] = x ∷ []
  insert comp x (y ∷ q) = let rest = insert comp x q in if comp y x then y ∷ rest else x ∷ y ∷ q

  unfoldable pub sort : (A → A → Bool) → Queue A → Queue A
  unfolding insert
  sort comp [] = []
  sort comp (x ∷ q) = insert comp x (sort comp q)
