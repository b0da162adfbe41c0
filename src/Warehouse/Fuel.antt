-- ===== src/Warehouse/Fuel.antt =====
-- The loop of Warehouse::receive ends: it never asks for more rounds than there are communicators.
use arl_hierarchical_multisc.Base.{
  ◌++◌, ℕ, zero, suc, ◌+◌, ◌≤◌, ◌≡◌, refl, ◌∙◌, ap, Option, none, some, List, [], ◌∷◌, length,
  get_elem?, arith,
}
use arl_hierarchical_multisc.Base.Effect.{
  pure, ◌>>=◌, Ensures, Ensures->>=, Ensures-pure, bind_cong,
}
use arl_hierarchical_multisc.Queue.{pop}
use arl_hierarchical_multisc.ModelPackage.{ModelPackage, Handle}
use arl_hierarchical_multisc.Warehouse.{
  Carrier, receive_one, receive_from, attempt, set_communicator,
}

length-pop : (i : ℕ) (ds : List Handle) → length (pop i ds) ≤ length ds
length-pop i [] = omega arith
length-pop zero (d ∷ ds) = omega arith
length-pop (suc i) (d ∷ ds) = omega (arith, length-pop i ds)

get_elem?-end : (i : ℕ) (ds : List Handle) → length ds ≤ i → get_elem? ds i ≡ none
get_elem?-end i [] h = refl
get_elem?-end zero (d ∷ ds) h = absurd (omega arith)
get_elem?-end (suc i) (d ∷ ds) h = get_elem?-end i ds (omega arith)

module _ {W : Type 0} (carrier : Carrier W) where
  receive_one-length :
      (h : Handle) (id iter : ℕ) (ds : List Handle)
      → Ensures (receive_one carrier h id iter ds) (λ (iter', ds', objects). length ds' ≤ length ds)
  unfolding receive_one
  receive_one-length h id iter ds =
      Ensures->>= {P = λ _. Unit} (attempt (carrier.receive h)) (record { run = λ w a e. tt })
        λ received _. which received
    where
      which :
          (received : Option (List ModelPackage))
          → Ensures {W = W} {A = ℕ × List Handle × List ModelPackage}
              (elim received [
                | none ↦ pure (iter, pop iter ds, [])
                | some objects ↦ pure (suc iter, ds, set_communicator id objects)
              ])
              (λ (iter', ds', objects). length ds' ≤ length ds)
      which none = Ensures-pure (iter, pop iter ds, []) (length-pop iter ds)
      which (some objects) = Ensures-pure (suc iter, ds, set_communicator id objects) (omega arith)

  -- The round at a communicator, or the end, with one round more or less to follow.
  same_rounds :
      (fuel id iter : ℕ) (ds : List Handle) (got : List ModelPackage) (o : Option Handle)
      → ((iter' : ℕ) (ds' : List Handle) (got' : List ModelPackage)
          → length ds' ≤ length ds
          → receive_from carrier (suc fuel) (suc id) iter' ds' got'
            ≡ receive_from carrier fuel (suc id) iter' ds' got')
      → (elim o [
        | none ↦ pure {W = W} {A = List Handle × List ModelPackage} (ds, got)
        | some h ↦ do
          (iter', ds', objects) ← receive_one carrier h id iter ds
          receive_from carrier (suc fuel) (suc id) iter' ds' (got ++ objects)
      ])
        ≡ (elim o [
          | none ↦ pure {W = W} {A = List Handle × List ModelPackage} (ds, got)
          | some h ↦ do
            (iter', ds', objects) ← receive_one carrier h id iter ds
            receive_from carrier fuel (suc id) iter' ds' (got ++ objects)
        ])
  same_rounds fuel id iter ds got none next = refl
  same_rounds fuel id iter ds got (some h) next =
      bind_cong (receive_one carrier h id iter ds) _ _ (receive_one-length h id iter ds)
        λ (iter', ds', objects) less. next iter' ds' (got ++ objects) less

  one_more :
      (fuel id iter : ℕ) (ds : List Handle) (got : List ModelPackage)
      → length ds ≤ id + fuel
      → receive_from carrier (suc fuel) id iter ds got ≡ receive_from carrier fuel id iter ds got
  unfolding receive_from
  one_more zero id iter ds got h = rw (get_elem?-end id ds (omega arith), receive_from) refl
  one_more (suc fuel) id iter ds got h =
      same_rounds fuel id iter ds got (get_elem? ds id)
        λ iter' ds' got' less. one_more fuel (suc id) iter' ds' got' (omega arith)

  -- With fuel for as many rounds as there are communicators from the loop's number on, the loop of
  -- `receive` has come to its own end, whichever connections end: more fuel changes nothing.
  pub receive_from_ends :
      (more fuel id iter : ℕ) (ds : List Handle) (got : List ModelPackage)
      → length ds ≤ id + fuel
      → receive_from carrier (more + fuel) id iter ds got ≡ receive_from carrier fuel id iter ds got
  receive_from_ends zero fuel id iter ds got h =
      ap (λ n. receive_from carrier n id iter ds got) (omega arith)
  receive_from_ends (suc more) fuel id iter ds got h =
      ap (λ n. receive_from carrier n id iter ds got) (omega arith)
      ∙ one_more (more + fuel) id iter ds got (omega arith)
      ∙ receive_from_ends more fuel id iter ds got h
