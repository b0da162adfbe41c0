-- ===== src/Warehouse.antt =====
-- warehouse/Warehouse_t.cc, at the model packages that BasicBroker instantiates it with. A
-- communicator is a number that stands for its pointer; what arrives is the environment's.
pub mod Routing
pub mod Termination
pub mod Fuel
use arl_hierarchical_multisc.Base.{
  ℕ, zero, suc, ◌+◌, Bool, true, false, Option, none, some, List, [], ◌∷◌, ◌++◌, length, map,
  get_elem?, ltb, if◌then◌else◌,
}
use arl_hierarchical_multisc.Base.Effect.{
  M, Result, ok, err, Exception, connection_termination, undefined, pure, throw, lift, ◌>>=◌, ◌>>◌,
}
use arl_hierarchical_multisc.Queue.{pop}
use arl_hierarchical_multisc.ModelPackage.{ModelPackage, Handle, add_communicator, pop_communicator}

-- Communicator::receive and Communicator::send for model packages.
pub record Carrier (W : Type 0) : Type 0 where
  pub receive : Handle → M W (List ModelPackage)
  pub send : Handle → ModelPackage → M W (Unit {0})

abbrev caught : {W A : Type 0} → Result A × W → Result (Option A) × W
caught (ok a, w) = (ok (some a), w)
caught (err connection_termination, w) = (ok none, w)
caught (err e, w) = (err e, w)

-- `catch (ConnectionTerminationException &)`: `none` where it was caught.
unfoldable pub attempt : {W A : Type 0} → M W A → M W (Option A)
attempt m w = caught (m w)

abbrev pub set_communicator : ℕ → List ModelPackage → List ModelPackage
set_communicator i ps = map (λ p. add_communicator p i) ps

module _ {W : Type 0} (carrier : Carrier W) where
  -- The body of the loop over `communicatorId`, at the communicator that it names: the position of
  -- `iter`, the communicators, and the objects that were received, after it. The vector is erased at
  -- `iter`, whichever communicator ended.
  unfoldable pub receive_one :
      Handle → (id iter : ℕ) → List Handle → M W (ℕ × List Handle × List ModelPackage)
  unfolding attempt
  receive_one h id iter ds = do
    received ← attempt (carrier.receive h)
    elim received [
      | none ↦ pure (iter, pop iter ds, [])
      | some objects ↦ pure (suc iter, ds, set_communicator id objects)
    ]

  -- The loop, with fuel for the rounds: the number of communicators suffices, as `id` grows in each
  -- round and the vector does not.
  unfoldable pub receive_from :
      (fuel id iter : ℕ) → List Handle → List ModelPackage → M W (List Handle × List ModelPackage)
  unfolding receive_one
  receive_from zero id iter ds received = pure (ds, received)
  receive_from (suc fuel) id iter ds received = elim (get_elem? ds id) [
    | none ↦ pure (ds, received)
    | some h ↦ do
      (iter', ds', objects) ← receive_one h id iter ds
      receive_from fuel (suc id) iter' ds' (received ++ objects)
  ]

  -- The communicators that are left, and the objects.
  unfoldable pub receive : List Handle → M W (List Handle × List ModelPackage)
  unfolding receive_from
  receive [] = throw connection_termination
  receive (d ∷ ds) = receive_from (length (d ∷ ds)) 0 0 (d ∷ ds) []

  abbrev send_to : Option Handle → ModelPackage → M W (Unit {0})
  send_to none p = throw undefined
  send_to (some h) p = carrier.send h p

  -- The index is not checked against the vector.
  unfoldable pub ship : List Handle → List ModelPackage → M W (Unit {0})
  ship ds [] = pure tt
  ship ds (p ∷ ps) = do
    (p', id) ← lift (pop_communicator p)
    send_to (get_elem? ds id) p'
    ship ds ps
