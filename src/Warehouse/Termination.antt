-- ===== src/Warehouse/Termination.antt =====
-- A connection that ends during Warehouse::receive. The loop goes on with the next number while the
-- communicators behind the erased one move up, and `iter` falls behind `communicatorId`.
use arl_hierarchical_multisc.Base.{◌≡◌, refl, List, [], ◌∷◌}
use arl_hierarchical_multisc.Base.Effect.{
  ok, err, connection_termination, undefined, pure, ◌>>=◌, ◌>>◌,
}
use arl_hierarchical_multisc.ModelPackage.{ModelPackage, Handle, add_communicator}
use arl_hierarchical_multisc.Warehouse.{
  Carrier, attempt, set_communicator, receive_one, receive_from, receive, ship,
}

module _ {W : Type 0} (carrier : Carrier W) (a b c : Handle) (w w₁ w₂ : W)
    (a_ended : carrier.receive a w ≡ (err connection_termination, w₁)) where
  -- Of three communicators the first and the third end: the call asks the second for nothing, erases
  -- it although it has not ended, and keeps the third, which has.
  pub receive_drops_live :
      carrier.receive c w₁ ≡ (err connection_termination, w₂)
      → receive carrier (a ∷ b ∷ c ∷ []) w ≡ (ok (c ∷ [], []), w₂)
  unfolding receive receive_from receive_one attempt ◌>>=◌
  receive_drops_live c_ended = rw (a_ended, c_ended)

  -- Of three communicators the first ends, and the third has a batch: the call asks the second for
  -- nothing and keeps the second and the third. From then on a package that the second had sent, and
  -- that was marked 1, is answered to the third, and for a package that the third had sent, marked 2,
  -- `ship` indexes past the end of the communicators.
  pub receive_misroutes :
      (batch : List ModelPackage)
      → carrier.receive c w₁ ≡ (ok batch, w₂)
      → (receive carrier (a ∷ b ∷ c ∷ []) w ≡ (ok (b ∷ c ∷ [], set_communicator 1 batch), w₂))
        × ((p : ModelPackage) (v : W)
            → ship carrier (b ∷ c ∷ []) (add_communicator p 1 ∷ []) v
              ≡ (carrier.send c p >> pure tt) v)
        × ((p : ModelPackage) (more : List ModelPackage) (v : W)
            → ship carrier (b ∷ c ∷ []) (add_communicator p 2 ∷ more) v ≡ (err undefined, v))
  unfolding receive receive_from receive_one attempt ship ◌>>=◌
  receive_misroutes batch c_received = (rw (a_ended, c_received), λ p v. refl, λ p more v. refl)
