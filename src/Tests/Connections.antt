-- ===== src/Tests/Connections.antt =====
-- The warehouse with connections that answer or end, the cleanup policy, and the brokers in turn. The
-- worlds remember to whom was sent, and what was removed.
use arl_hierarchical_multisc.Base.{
  ◌<◌, ℕ, ◌+◌, ◌%◌, ◌≡◌, refl, String, List, [], ◌∷◌, some, if◌then◌else◌, ◌==◌, map, take, drop,
  length, get_elem?, arith,
}
use arl_hierarchical_multisc.Base.Int.{pos}
use arl_hierarchical_multisc.Base.Effect.{ok, err, connection_termination, undefined, pure, ◌>>◌}
use arl_hierarchical_multisc.ModelPackage.{ModelPackage, add_communicator}
use arl_hierarchical_multisc.Warehouse
use arl_hierarchical_multisc.Warehouse.{Carrier, set_communicator}
use arl_hierarchical_multisc.Warehouse.Routing.{Receives, next, done, answer, ship_answers_receive}
use arl_hierarchical_multisc.Warehouse.Termination.{receive_drops_live, receive_misroutes}
use arl_hierarchical_multisc.CleanupPolicy.{Disk, apply_fixed}
use arl_hierarchical_multisc.CleanupPolicy.Retention.{remove_each, apply_fixed_retains}
use arl_hierarchical_multisc.RoundRobin.{RoundRobin, schedule, schedule_in_turn}
use arl_hierarchical_multisc.Tests.{work}

-- The connection of communicator 9 has ended; another sends one package.
abbrev carrier : Carrier (List ℕ)
carrier = record {
  receive = λ h w. if h == 9 then (err connection_termination, w) else (ok (work h ∷ []), w);
  send = λ h p w. (ok tt, h ∷ w);
}

abbrev batches : List (List ModelPackage)
batches = (work 4 ∷ []) ∷ (work 5 ∷ []) ∷ []

both_receive : Receives carrier [] (4 ∷ 5 ∷ []) [] batches
both_receive = next refl (next refl done)

abbrev evaluated : ModelPackage → ModelPackage
evaluated p = record p { value = some 1 }

ship_answers_receive_example :
    (ps : List ModelPackage) × (Warehouse.receive carrier (4 ∷ 5 ∷ []) []
      ≡ (ok (4 ∷ 5 ∷ [], ps), []))
    × (Warehouse.ship carrier (4 ∷ 5 ∷ []) (map evaluated ps)
        ≡ answer carrier evaluated (4 ∷ 5 ∷ []) batches)
ship_answers_receive_example =
    ship_answers_receive carrier evaluated (λ p i. refl) 4 (5 ∷ []) [] [] batches both_receive

receive_drops_live_example : Warehouse.receive carrier (9 ∷ 5 ∷ 9 ∷ []) [] ≡ (ok (9 ∷ [], []), [])
receive_drops_live_example = receive_drops_live carrier 9 5 9 [] [] [] refl refl

receive_misroutes_example :
    (Warehouse.receive carrier (9 ∷ 5 ∷ 4 ∷ []) []
      ≡ (ok (5 ∷ 4 ∷ [], set_communicator 1 (work 4 ∷ [])), []))
    × ((p : ModelPackage) (v : List ℕ)
        → Warehouse.ship carrier (5 ∷ 4 ∷ []) (add_communicator p 1 ∷ []) v
          ≡ (carrier.send 4 p >> pure tt) v)
    × ((p : ModelPackage) (more : List ModelPackage) (v : List ℕ)
        → Warehouse.ship carrier (5 ∷ 4 ∷ []) (add_communicator p 2 ∷ more) v ≡ (err undefined, v))
receive_misroutes_example = receive_misroutes carrier 9 5 4 [] [] [] refl (work 4 ∷ []) refl

abbrev disk : Disk (List String)
disk = record { remove_all = λ d w. (ok tt, d ∷ w) }

abbrev directories : List String
directories = "out/0" ∷ "out/1" ∷ "out/2" ∷ []

apply_fixed_retains_example :
    apply_fixed disk (pos 1) directories []
    ≡ (remove_each disk (take 2 directories) >> pure (drop 2 directories)) []
apply_fixed_retains_example = apply_fixed_retains disk 1 directories [] (omega arith) (omega arith)

abbrev turn : RoundRobin
turn = record { current_broker_id = 2; number_brokers = 3 }

abbrev works : List ModelPackage
works = work 1 ∷ work 2 ∷ []

schedule_in_turn_example :
    ((i : ℕ) → i < 2 → get_elem? (schedule turn works).1 i ≡ some ((2 + i) % 3))
    × ((schedule turn works).0.current_broker_id ≡ (2 + 2) % 3)
    × (length (schedule turn works).1 ≡ 2)
schedule_in_turn_example = schedule_in_turn turn works (omega arith)
