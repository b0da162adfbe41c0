-- ===== src/LoadScheduler/Order.antt =====
-- The comparator of the load scheduler is a strict weak order on loads with positive totals, and on loads
-- with totals of 0.
use arl_hierarchical_multisc.Base.{
  ℕ, ◌<◌, ◌≡◌, sym, subst, ◌∙◌, Bool, true, false, ltb, ◌==◌, if◌then◌else◌, Bool-cases, inl, inr,
  arith,
}
use arl_hierarchical_multisc.LoadScheduler.{Doubles, Response, IsStrictWeak, load_sorter}

-- A quotient with a positive divisor is a number, and numbers are compared as IEEE 754 has it: two that
-- do not differ are the same, one of two that differ is less, and `<` is a strict weak order.
pub record IsNumeric {D : Type 0} (doubles : Doubles D) : Type 0 where
  pub is_number : D → Bool
  pub quotient : (n t : ℕ) → 0 < t → is_number (doubles.divide n t) ≡ true
  pub same :
      (a b : D) → is_number a ≡ true → is_number b ≡ true → doubles.differ a b ≡ false → a ≡ b
  pub reflexive : (a : D) → is_number a ≡ true → doubles.differ a a ≡ false
  pub compares :
      (a b : D)
      → is_number a ≡ true
      → is_number b ≡ true
      → doubles.differ a b ≡ true
      → doubles.less a b ≡ false
      → doubles.less b a ≡ true
  pub asymmetric :
      (a b : D)
      → is_number a ≡ true
      → is_number b ≡ true
      → doubles.less a b ≡ true
      → doubles.less b a ≡ false
  pub not_less-trans :
      (a b c : D)
      → is_number a ≡ true
      → is_number b ≡ true
      → is_number c ≡ true
      → doubles.less a b ≡ false
      → doubles.less b c ≡ false
      → doubles.less a c ≡ false

-- A load with such a total.
abbrev pub with_total : (ℕ → Bool) → Response → Bool
with_total p r = p r.0.number_total_resources

abbrev pub is_positive : ℕ → Bool
is_positive n = ltb 0 n

abbrev pub is_none : ℕ → Bool
is_none n = n == 0

not_both : {b : Bool} → b ≡ true → b ≡ false → ⊥
not_both e f = cc

module _ {D : Type 0} (doubles : Doubles D) (numeric : IsNumeric doubles) where
  open doubles use {differ, less}

  abbrev IsNumber : D → Type 0
  IsNumber a = numeric.is_number a ≡ true

  irreflexive : (a : D) → IsNumber a → less a a ≡ false
  irreflexive a n = elim (Bool-cases (less a a)) [
    | inl e ↦ numeric.asymmetric a a n n e
    | inr e ↦ e
  ]

  -- By the free parts, the greater first, and then by the queues, the shorter first.
  abbrev before : (x y q r : D) → Bool
  before x y q r = if differ x y then less y x else less q r

  -- In both cases the free part of the second is not less than that of the first.
  not_less_free :
      (x y q r : D) → IsNumber x → IsNumber y → before x y q r ≡ false → less y x ≡ false
  not_less_free x y q r nx ny h = elim (Bool-cases (differ x y)) [
    | inl e ↦ rw e at h
    | inr e ↦ subst (λ z. less z x ≡ false) (numeric.same x y nx ny e) (irreflexive x nx)
  ]

  before-asymmetric :
      (x y q r : D)
      → IsNumber x
      → IsNumber y
      → IsNumber q
      → IsNumber r
      → before x y q r ≡ true
      → before y x r q ≡ false
  before-asymmetric x y q r nx ny nq nr h = elim (Bool-cases (differ x y)) [
    | inl e ↦
        let less_free : less y x ≡ true = rw e at h in
        elim (Bool-cases (differ y x)) [
          | inl f ↦ rw f (numeric.asymmetric y x ny nx less_free)
          | inr f ↦ absurd (
              not_both less_free
                (subst (λ z. less y z ≡ false) (numeric.same y x ny nx f) (irreflexive y ny)))
        ]
    | inr e ↦
        let less_queue : less q r ≡ true = rw e at h in
        let eq = numeric.same x y nx ny e in
        let back : differ y x ≡ false =
          subst (λ z. differ y z ≡ false) (sym eq) (numeric.reflexive y ny) in
        rw back (numeric.asymmetric q r nq nr less_queue)
  ]

  -- Where the first and the last have the same free part, so have all three.
  all_alike :
      (x y z q r s : D)
      → IsNumber x
      → IsNumber y
      → x ≡ z
      → before x y q r ≡ false
      → before y z r s ≡ false
      → IsNumber z
      → x ≡ y
  all_alike x y z q r s nx ny eq h k nz = elim (Bool-cases (differ x y)) [
    | inl e ↦
        let up : less y x ≡ false = not_less_free x y q r nx ny h in
        let down : less x y ≡ false =
          subst (λ v. less v y ≡ false) (sym eq) (not_less_free y z r s ny nz k) in
        absurd (not_both (numeric.compares x y nx ny e down) up)
    | inr e ↦ numeric.same x y nx ny e
  ]

  equal_free : (x y q r : D) → IsNumber x → x ≡ y → before x y q r ≡ false → less q r ≡ false
  equal_free x y q r nx eq h =
      let alike : differ x y ≡ false =
        subst (λ v. differ x v ≡ false) eq (numeric.reflexive x nx) in
      rw alike at h

  before_trans :
      (x y z q r s : D)
      → IsNumber x
      → IsNumber y
      → IsNumber z
      → IsNumber q
      → IsNumber r
      → IsNumber s
      → before x y q r ≡ false
      → before y z r s ≡ false
      → before x z q s ≡ false
  before_trans x y z q r s nx ny nz nq nr ns h k = elim (Bool-cases (differ x z)) [
    | inl e ↦ rw e (
        numeric.not_less-trans z y x nz ny nx (not_less_free y z r s ny nz k)
          (not_less_free x y q r nx ny h))
    | inr e ↦
        let eq = numeric.same x z nx nz e in
        let first = all_alike x y z q r s nx ny eq h k nz in
        rw e (
          numeric.not_less-trans q r s nq nr ns (equal_free x y q r nx first h)
            (equal_free y z r s ny (sym first ∙ eq) k))
  ]

  positive : (n : ℕ) → ltb 0 n ≡ true → 0 < n
  positive n e = ground arith

  -- On doubles as IEEE 754 has them, `loadSorter` is what `std::sort` asks for, a strict weak order, on the
  -- loads whose total of resources is positive: none is before another that is before it, and where of
  -- three the first is not before the second, nor the second before the third, nor is the first before the
  -- third.
  pub load_sorter-IsStrictWeak : IsStrictWeak (with_total is_positive) (load_sorter doubles)
  unfolding load_sorter
  load_sorter-IsStrictWeak = record {
    asymmetric = λ i j hi hj. before-asymmetric _ _ _ _ (q _ _ hi) (q _ _ hj) (q _ _ hi) (q _ _ hj);
    not_less-trans = λ i j k hi hj hk.
        before_trans _ _ _ _ _ _ (q _ _ hi) (q _ _ hj) (q _ _ hk) (q _ _ hi) (q _ _ hj) (q _ _ hk);
  }
    where
      q : (n t : ℕ) → ltb 0 t ≡ true → IsNumber (doubles.divide n t)
      q n t h = numeric.quotient n t (positive t h)

-- Of quotients by 0, which are infinite or no numbers, none is less than another.
pub record HasNoQuotients {D : Type 0} (doubles : Doubles D) : Type 0 where
  pub never_less : (n m : ℕ) → doubles.less (doubles.divide n 0) (doubles.divide m 0) ≡ false

module _ {D : Type 0} (doubles : Doubles D) (unordered : HasNoQuotients doubles) where
  load_sorter-never :
      (i j : Response)
      → with_total is_none i ≡ true
      → with_total is_none j ≡ true
      → load_sorter doubles i j ≡ false
  unfolding load_sorter
  load_sorter-never i j hi hj =
      neither i.0.number_total_resources j.0.number_total_resources (zero_of _ hi) (zero_of _ hj)
    where
      zero_of : (n : ℕ) → (n == 0) ≡ true → n ≡ 0
      zero_of n e = ground arith

      either : (b c d : Bool) → c ≡ false → d ≡ false → (if b then c else d) ≡ false
      either true c d h k = h
      either false c d h k = k

      neither :
          (s t : ℕ)
          → s ≡ 0
          → t ≡ 0
          → (if doubles.differ
                (doubles.divide i.0.number_free_resources s)
                (doubles.divide j.0.number_free_resources t)
              then doubles.less
                  (doubles.divide j.0.number_free_resources t)
                  (doubles.divide i.0.number_free_resources s)
              else doubles.less
                  (doubles.divide i.0.number_queued_jobs_all_users s)
                  (doubles.divide j.0.number_queued_jobs_all_users t))
            ≡ false
      neither s t es et =
          rw (es, et) (either _ _ _ (unordered.never_less _ _) (unordered.never_less _ _))

  -- Loads with totals of 0 are all alike.
  pub load_sorter-alike : IsStrictWeak (with_total is_none) (load_sorter doubles)
  load_sorter-alike = record {
    asymmetric = λ i j hi hj h. load_sorter-never j i hj hi;
    not_less-trans = λ i j k hi hj hk h h'. load_sorter-never i k hi hk;
  }
