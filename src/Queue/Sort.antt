-- ===== src/Queue/Sort.antt =====
-- Sorting by a key, the higher key first: what BasicBroker asks of Queue::sort.
use arl_hierarchical_multisc.Base.{
  Bool-cases, inl, inr, ℕ, ◌+◌, ◌≤◌, ◌≡◌, refl, Bool, [], ◌∷◌, ◌∙◌, ap, arith, ltb, ◌==◌,
  if◌then◌else◌, count_if, All,
}
use arl_hierarchical_multisc.Queue.{Queue, insert, sort}

module _ {ℓ} {A : Type ℓ} (key : A → ℕ) where
  abbrev pub higher_first : A → A → Bool
  higher_first x y = ltb (key y) (key x)

  -- Each key is at least every key that follows.
  abbrev pub IsDescending : Queue A → Type 0
  IsDescending [] = Unit
  IsDescending (x ∷ q) = All (λ y. key y ≤ key x) q × IsDescending q

  -- The items of one key, in their order.
  abbrev pub level : ℕ → Queue A → Queue A
  level k [] = []
  level k (x ∷ q) = if key x == k then x ∷ level k q else level k q

  All-mono : (m n : ℕ) (q : Queue A) → m ≤ n → All (λ y. key y ≤ m) q → All (λ y. key y ≤ n) q
  All-mono m n [] h a = tt
  All-mono m n (x ∷ q) h a = (omega arith, All-mono m n q h a.1)

  All-insert :
      (n : ℕ) (x : A) (q : Queue A)
      → key x ≤ n
      → All (λ y. key y ≤ n) q
      → All (λ y. key y ≤ n) (insert higher_first x q)
  unfolding insert
  All-insert n x [] h a = (h, tt)
  All-insert n x (y ∷ q) h a = ground (arith, All-insert n x q h a.1)

  insert-IsDescending :
      (x : A) (q : Queue A) → IsDescending q → IsDescending (insert higher_first x q)
  unfolding insert
  insert-IsDescending x [] d = (tt, tt)
  insert-IsDescending x (y ∷ q) d =
      ground
        (arith, insert-IsDescending x q d.1, All-insert (key y) x q, All-mono (key y) (key x) q)

  sort-IsDescending : (q : Queue A) → IsDescending (sort higher_first q)
  unfolding sort
  sort-IsDescending [] = tt
  sort-IsDescending (x ∷ q) = insert-IsDescending x _ (sort-IsDescending q)

  level-insert :
      (k : ℕ) (x : A) (q : Queue A)
      → level k (insert higher_first x q) ≡ (if key x == k then x ∷ level k q else level k q)
  unfolding insert
  level-insert k x [] = refl
  level-insert k x (y ∷ q) = ground (arith, level-insert k x q)

  level-sort : (k : ℕ) (q : Queue A) → level k (sort higher_first q) ≡ level k q
  unfolding sort
  level-sort k [] = refl
  level-sort k (x ∷ q) = ground (arith, level-insert k x (sort higher_first q), level-sort k q)

  -- The sorted queue descends, and it keeps the items of each key in the order in which they were
  -- queued.
  pub sort_stable :
      (q : Queue A)
      → IsDescending (sort higher_first q) × ((k : ℕ) → level k (sort higher_first q) ≡ level k q)
  sort_stable q = (sort-IsDescending q, λ k. level-sort k q)

module _ {ℓ} {A : Type ℓ} where
  count_if-insert :
      (p : A → Bool) (comp : A → A → Bool) (x : A) (q : Queue A)
      → count_if p (insert comp x q) ≡ (if p x then 1 else 0) + count_if p q
  unfolding insert
  count_if-insert p comp x [] = refl
  count_if-insert p comp x (y ∷ q) = ground (arith, count_if-insert p comp x q)

  pub count_if-sort :
      (p : A → Bool) (comp : A → A → Bool) (q : Queue A) → count_if p (sort comp q) ≡ count_if p q
  unfolding sort
  count_if-sort p comp [] = refl
  count_if-sort p comp (x ∷ q) =
      count_if-insert p comp x (sort comp q) ∙ ap (◌+◌ _) (count_if-sort p comp q)

module _ {ℓ κ} {A : Type ℓ} (P : A → Type κ) (comp : A → A → Bool) where
  All-insert_any : (x : A) (q : Queue A) → P x → All P q → All P (insert comp x q)
  unfolding insert
  All-insert_any x [] h a = (h, tt)
  All-insert_any x (y ∷ q) h a = elim (Bool-cases (comp y x)) [
    | inl before ↦ rw (before, insert) (a.0, All-insert_any x q h a.1)
    | inr behind ↦ rw (behind, insert) (h, a)
  ]

  pub All-sort : (q : Queue A) → All P q → All P (sort comp q)
  unfolding sort
  All-sort [] a = tt
  All-sort (x ∷ q) a = All-insert_any x (sort comp q) a.0 (All-sort q a.1)
