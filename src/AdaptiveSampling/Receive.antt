-- ===== src/AdaptiveSampling/Receive.antt =====
-- AdaptiveSampling.cc, algorithmWarehouseReceiveThread: requests get ids in their order.
use arl_hierarchical_multisc.Base.{ℕ, ◌+◌, ◌%◌, ◌^◌, List, [], ◌∷◌, ◌++◌, length}
use arl_hierarchical_multisc.Base.Int.{pos, ◌+ℤ◌}
use arl_hierarchical_multisc.Base.Decimal.{decimal, ◌<<◌}
use arl_hierarchical_multisc.Base.Effect.{M, pure, ◌>>=◌}
use arl_hierarchical_multisc.ModelPackage.{ModelPackage, log_timestamp}
use arl_hierarchical_multisc.AdaptiveSampling.{Services, Shared}

module _ {W : Type 0} (services : Services W) where
  -- The packages with their ids, and the counter after them: an `unsigned long long`.
  unfoldable pub set_ids : ℕ → List ModelPackage → M W (List ModelPackage × ℕ)
  set_ids counter [] = pure ([], counter)
  set_ids counter (p ∷ ps) = do
    logged ← log_timestamp services.clock p ("Id: " << decimal counter)
    (rest, after) ← set_ids ((counter + 1) % 2 ^ 64) ps
    pure (record logged { id = counter } ∷ rest, after)

  -- A round of the loop, from what `receive` has returned.
  unfoldable pub accept : ℕ → List ModelPackage → Shared → M W (ℕ × Shared)
  unfolding set_ids
  accept counter new_model_packages s = do
    (ps, after) ← set_ids counter new_model_packages
    pure (
      after,
      record s {
        number_evaluation_requests =
            s.number_evaluation_requests +ℤ pos (length new_model_packages);
        algorithm_receive_pile = s.algorithm_receive_pile ++ ps;
      },
    )
