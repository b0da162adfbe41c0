-- ===== src/Base/Effect.antt =====
-- exception/*.cc, and effects: a call reads and changes the outside world `W`, and returns or
-- throws. The world of a call that throws stays: what was written stays written.
use mathlib.Core.Path.{◌≡◌, refl, ap, subst, sym, ◌∙◌, fun_ext}
use mathlib.Core.List.{List, ◌∷◌}
use mathlib.Core.Bool.{Bool, true, false}
use arl_hierarchical_multisc.Base.Tests.{if◌then◌else◌}

-- `undefined` is no exception of the program: it is what C++ leaves undefined, such as an iterator
-- that is moved past the end; `bad_path` is boost's exception for an option that is missing, or is no
-- number where it should be.
pub data Exception : Type 0 where
  bad_path command_error connection_termination domain_error invalid_argument : Exception
  io_error network_error os_error range_error undefined : Exception

-- What `catch(const Exception &)` catches.
abbrev pub is_of_program : Exception → Bool
is_of_program bad_path = false
is_of_program undefined = false
is_of_program _ = true

pub data Result {ℓ} (A : Type ℓ) : Type ℓ where
  ok : A → Result A
  err : Exception → Result A

abbrev pub M : Type 0 → Type 0 → Type 0
M W A = W → Result A × W

module _ {W : Type 0} where
  pub pure : {A : Type 0} → A → M W A
  pure a w = (ok a, w)

  pub throw : {A : Type 0} → Exception → M W A
  throw e w = (err e, w)

  pub lift : {A : Type 0} → Result A → M W A
  lift r w = (r, w)

  abbrev continue : {A B : Type 0} → Result A → (A → M W B) → M W B
  continue (ok a) f w = f a w
  continue (err e) f w = (err e, w)

  -- Whoever opens this opens `pure`, `throw` and `lift` too.
  infixl 5 ◌>>=◌ ◌>>◌
  unfoldable pub ◌>>=◌ : {A B : Type 0} → M W A → (A → M W B) → M W B
  unfolding pure throw lift
  ◌>>=◌ m f w = let (r, w') = m w in continue r f w'

  abbrev pub ◌>>◌ : {A B : Type 0} → M W A → M W B → M W B
  m >> k = m >>= λ _. k

-- Every call of `m` that returns, returns a value with `Q`.
pub record Ensures {W A : Type 0} (m : M W A) (Q : A → Type 0) : Type 0 where
  pub run : (w : W) (a : A) → (m w).0 ≡ ok a → Q a

-- What a call that is known to return has returned.
pub Ensures-returns :
    {W A : Type 0} {m : M W A} {Q : A → Type 0}
    → Ensures m Q
    → (w w' : W) (a : A) → m w ≡ (ok a, w')
    → Q a
Ensures-returns h w w' a e = h.run w a (ap (λ s. s.0) e)

pub ok-returns :
    {A W : Type 0} {a b : A} {w w' : W}
    → ◌≡◌ {A = Result A × W} (ok a, w) (ok b, w')
    → (a ≡ b) × (w ≡ w')
ok-returns e = (cc, ap (λ s. s.1) e)

err-returns : {A : Type 0} {x : Exception} {a : A} → err x ≡ ok a → ⊥
err-returns e = cc

pub ok-injective : {A : Type 0} {a b : A} → ok a ≡ ok b → a ≡ b
ok-injective e = cc

module _ {W A : Type 0} where
  pub Ensures-pure : {Q : A → Type 0} (a : A) → Q a → Ensures {W = W} (pure a) Q
  unfolding pure
  Ensures-pure {Q} a q = record { run = λ w b e. subst Q (ok-injective e) q }

  pub Ensures-throw : {Q : A → Type 0} (e : Exception) → Ensures {W = W} (throw e) Q
  unfolding throw
  Ensures-throw e = record { run = λ w b p. absurd (cc) }

  pub Ensures-lift :
      {Q : A → Type 0} (r : Result A) → ((a : A) → r ≡ ok a → Q a) → Ensures {W = W} (lift r) Q
  unfolding lift
  Ensures-lift r h = record { run = λ w. h }

  pub Ensures-mono :
      {P Q : A → Type 0} {m : M W A} → ((a : A) → P a → Q a) → Ensures m P → Ensures m Q
  Ensures-mono f h = record { run = λ w a e. f a (h.run w a e) }

  pub Ensures-if :
      {Q : A → Type 0} (b : Bool) {m n : M W A}
      → (b ≡ true → Ensures m Q)
      → (b ≡ false → Ensures n Q)
      → Ensures (if b then m else n) Q
  Ensures-if true h k = h refl
  Ensures-if false h k = k refl

module _ {W A B : Type 0} where
  after-bind :
      {P : A → Type 0} {Q : B → Type 0} (f : A → M W B) (s : Result A × W)
      → ((a : A) → s.0 ≡ ok a → P a)
      → ((a : A) → P a → Ensures (f a) Q)
      → (b : B) → (continue s.0 f s.1).0 ≡ ok b
      → Q b
  after-bind f (ok a, w) h k b e = (k a (h a refl)).run w b e
  after-bind f (err x, w) h k b e = absurd (cc)

  pub Ensures->>= :
      {P : A → Type 0} {Q : B → Type 0} (m : M W A) {f : A → M W B}
      → Ensures m P
      → ((a : A) → P a → Ensures (f a) Q)
      → Ensures (m >>= f) Q
  unfolding ◌>>=◌
  Ensures->>= m {f} h k = record { run = λ w b e. after-bind f (m w) (h.run w) k b e }

module _ {W A B : Type 0} where
  -- A call of which nothing need be known.
  pub Ensures-after :
      {Q : B → Type 0} (m : M W A) {f : A → M W B}
      → ((a : A) → Ensures (f a) Q)
      → Ensures (m >>= f) Q
  Ensures-after {Q} m h = Ensures->>= {P = λ _. Unit} m (record { run = λ w a e. tt }) λ a _. h a

module _ {W A : Type 0} where
  pub pure-returns : {a b : A} {w w' : W} → pure a w ≡ (ok b, w') → (a ≡ b) × (w ≡ w')
  unfolding pure
  pure-returns e = ok-returns e

  pub throw-returns : {a : A} (x : Exception) (w : W) {w' : W} → throw x w ≡ (ok a, w') → ⊥
  unfolding throw
  throw-returns x w e = err-returns (ap (λ s. s.0) e)

module _ {W A B : Type 0} where
  continue-returns :
      (f : A → M W B) (s : Result A × W) (w' : W) (b : B)
      → continue s.0 f s.1 ≡ (ok b, w')
      → (a : A) × (w : W) × (s ≡ (ok a, w)) × (f a w ≡ (ok b, w'))
  continue-returns f (ok a, w) w' b e = (a, w, refl, e)
  continue-returns f (err x, w) w' b e = absurd (err-returns (ap (λ s. s.0) e))

  -- Where two calls have returned, the first has returned, and then the second.
  pub bind-returns :
      (m : M W A) (f : A → M W B) (w w' : W) (b : B)
      → (m >>= f) w ≡ (ok b, w')
      → (a : A) × (w₁ : W) × (m w ≡ (ok a, w₁)) × (f a w₁ ≡ (ok b, w'))
  unfolding ◌>>=◌
  bind-returns m f w w' b e = continue-returns f (m w) w' b e

  -- A call that is known to return.
  pub bind-ok :
      (m : M W A) (f : A → M W B) (w w' : W) (a : A) → m w ≡ (ok a, w') → (m >>= f) w ≡ f a w'
  unfolding ◌>>=◌
  bind-ok m f w w' a e = ap (λ s. continue s.0 f s.1) e

  continue-world :
      (f : A → M W B) (s : Result A × W)
      → ((a : A) (w : W) → (f a w).1 ≡ w)
      → (continue s.0 f s.1).1 ≡ s.1
  continue-world f (ok a, w) h = h a w
  continue-world f (err e, w) h = refl

  -- What comes after a call leaves its world as it is.
  pub bind-world :
      (m : M W A) (f : A → M W B) (w : W)
      → ((a : A) (w' : W) → (f a w').1 ≡ w')
      → ((m >>= f) w).1 ≡ (m w).1
  unfolding ◌>>=◌
  bind-world m f w h = continue-world f (m w) h

module _ {W A B C : Type 0} where
  continue_assoc :
      (s : Result A × W) (f : A → M W B) (g : B → M W C)
      → (let t = continue s.0 f s.1 in continue t.0 g t.1)
        ≡ continue s.0 (λ a w. let t = f a w in continue t.0 g t.1) s.1
  continue_assoc (ok a, w) f g = refl
  continue_assoc (err e, w) f g = refl

  pub bind_assoc :
      (m : M W A) (f : A → M W B) (g : B → M W C) → (m >>= f >>= g) ≡ (m >>= λ a. f a >>= g)
  unfolding ◌>>=◌
  bind_assoc m f g = fun_ext λ w. continue_assoc (m w) f g

module _ {W A B : Type 0} where
  pub pure-bind : (a : A) (f : A → M W B) → (pure a >>= f) ≡ f a
  unfolding ◌>>=◌
  pure-bind a f = refl

  pub lift-bind : (a : A) (f : A → M W B) → (lift (ok a) >>= f) ≡ f a
  unfolding ◌>>=◌
  lift-bind a f = refl

-- Every call of `m` returns.
pub record Returns {W A : Type 0} (m : M W A) : Type 0 where
  pub run : (w : W) → (a : A) × (w' : W) × (m w ≡ (ok a, w'))

module _ {W A : Type 0} where
  pub Returns-pure : (a : A) → Returns {W = W} (pure a)
  unfolding pure
  Returns-pure a = record { run = λ w. (a, w, refl) }

  pub Returns-if :
      (b : Bool) {m n : M W A}
      → (b ≡ true → Returns m)
      → (b ≡ false → Returns n)
      → Returns (if b then m else n)
  Returns-if true h k = h refl
  Returns-if false h k = k refl

module _ {W A B : Type 0} where
  pub Returns->>= :
      (m : M W A) {f : A → M W B} → Returns m → ((a : A) → Returns (f a)) → Returns (m >>= f)
  unfolding ◌>>=◌
  Returns->>= m {f} h k = record {
    run = λ w.
        let (a, w', e) = h.run w in
        let (b, w'', e') = (k a).run w' in (b, w'', ap (λ s. continue s.0 f s.1) e ∙ e');
  }

  pub Returns-lift :
      (a : A) {r : Result A} (f : A → M W B) → r ≡ ok a → Returns (f a) → Returns (lift r >>= f)
  Returns-lift a {r} f e h =
      subst (λ s. Returns (lift s >>= f)) (sym e) (subst Returns (sym (lift-bind a f)) h)

module _ {W A B : Type 0} where
  continue_cong :
      {Q : A → Type 0} (f g : A → M W B) (s : Result A × W)
      → ((a : A) → s.0 ≡ ok a → Q a)
      → ((a : A) → Q a → f a ≡ g a)
      → continue s.0 f s.1 ≡ continue s.0 g s.1
  continue_cong f g (ok a, w) h k = ap (λ m. m w) (k a (h a refl))
  continue_cong f g (err e, w) h k = refl

  -- What comes after a call may be replaced where it agrees on all that the call returns.
  pub bind_cong :
      {Q : A → Type 0} (m : M W A) (f g : A → M W B)
      → Ensures m Q
      → ((a : A) → Q a → f a ≡ g a)
      → (m >>= f) ≡ (m >>= g)
  unfolding ◌>>=◌
  bind_cong m f g h k = fun_ext λ w. continue_cong f g (m w) (h.run w) k

abbrev pub cons_ok : {A : Type 0} → A → Result (List A) → Result (List A)
cons_ok x (ok xs) = ok (x ∷ xs)
cons_ok x (err e) = err e

pub cons_ok-inverse :
    {A : Type 0} (x : A) (r : Result (List A)) (zs : List A)
    → cons_ok x r ≡ ok zs
    → (ys : List A) × (r ≡ ok ys) × (zs ≡ x ∷ ys)
cons_ok-inverse x (ok ys) zs e = (ys, refl, sym (ok-injective e))
cons_ok-inverse x (err e') zs e = absurd (cc)
