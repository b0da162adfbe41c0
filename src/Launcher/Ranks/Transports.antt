-- ===== src/Launcher/Ranks/Transports.antt =====
-- A process is connected with the same modules over sockets as over MPI.
use arl_hierarchical_multisc.Base.{
  ℕ, zero, suc, ◌+◌, ◌*◌, ◌/◌, ◌%◌, ◌<◌, ◌≡◌, refl, ap, ap₂, sym, subst, append-nil, ◌∙◌, List, [],
  ◌∷◌, ◌++◌, Bool-cases, inl, inr, length, ltb, not, ◌&&◌, ◌==◌, if◌then◌else◌, arith, lt→ltb,
}
use native.Mathlib.Nat.{div-one, div-eq_of_eq-mul_right}
use arl_hierarchical_multisc.Base.Effect.{ok}
use arl_hierarchical_multisc.Launcher.Ranks.{
  generate_communicator_ranks, client_servers, intercommunicator_ranks, modules_to_launch,
  launched_ids,
}
use arl_hierarchical_multisc.Launcher.Ranks.Shares.{
  Shared, many_servers, many_clients, generate-ok, generate-positive,
}
use arl_hierarchical_multisc.Launcher.Ranks.Placement.{
  modules-number, modules-ratio, ratio-number, Shared-positive,
}

-- The module of another process, when a process shares one and has not started it.
abbrev joined : (number ratio rank : ℕ) → List ℕ
joined number ratio rank = if ltb 1 ratio && not (number == 1) then (rank / ratio) ∷ [] else []

-- The modules that a process is connected with over sockets: those that it starts, and the one it joins.
abbrev pub socket_servers : (size servers rank : ℕ) → List ℕ
socket_servers size servers rank =
    let (number, ratio) = modules_to_launch size servers rank in
    launched_ids number ratio rank 0 number ++ joined number ratio rank

launched_ids-client_servers :
    (l rank i n : ℕ) → launched_ids l 1 rank i n ≡ client_servers l 1 rank i n
unfolding launched_ids client_servers
launched_ids-client_servers l rank i zero = refl
launched_ids-client_servers l rank i (suc n) =
    ap₂ (λ a b. a ∷ b) (ap (λ r. r * l + i) (div-one rank) ∙ sym (div-one (rank * l + i)))
      (launched_ids-client_servers l rank (suc i) n)

joined_none : (n rank : ℕ) → joined n 1 rank ≡ []
joined_none n rank = refl

-- The process that has started a shared module, and one that has not.
first_starts :
    (p rank : ℕ) → (launched_ids 1 p rank 0 1 ++ joined 1 p rank) ≡ client_servers 1 p rank 0 1
unfolding launched_ids client_servers
first_starts p rank = elim (Bool-cases (ltb 1 p)) [
  | inl e ↦ rw e (ap (λ a. a ∷ []) (same (rank / p) ∙ ap (λ a. a / p) (sym (same rank))))
  | inr e ↦ rw e (ap (λ a. a ∷ []) (same (rank / p) ∙ ap (λ a. a / p) (sym (same rank))))
]
  where
    same : (a : ℕ) → a * 1 + 0 ≡ a
    same a = omega arith

other_joins :
    (p rank : ℕ)
    → 1 < p
    → (launched_ids 0 p rank 0 0 ++ joined 0 p rank) ≡ client_servers 1 p rank 0 1
unfolding launched_ids client_servers
other_joins p rank h = rw (lt→ltb 1 p h) (ap (λ a. (a / p) ∷ []) (same rank))
  where
    same : (a : ℕ) → a ≡ a * 1 + 0
    same a = omega arith

by_number :
    (size servers rank l : ℕ)
    → modules_to_launch size servers rank ≡ (l, 1)
    → socket_servers size servers rank ≡ client_servers l 1 rank 0 l
by_number size servers rank l e =
    rw e (append-nil (launched_ids l 1 rank 0 l) ∙ launched_ids-client_servers l rank 0 l)

by_ratio :
    (size servers rank p : ℕ)
    → 1 < p
    → modules_to_launch size servers rank ≡ (if rank % p == 0 then 1 else 0, p)
    → socket_servers size servers rank ≡ client_servers 1 p rank 0 1
by_ratio size servers rank p h e = elim (Bool-cases (rank % p == 0)) [
  | inl k ↦ rw (e, k) (first_starts p rank)
  | inr k ↦ rw (e, k) (other_joins p rank h)
]

Shared-transports :
    (size servers p l rank id : ℕ)
    → Shared size servers p l
    → id < servers
    → socket_servers size servers rank ≡ client_servers l p rank 0 l
Shared-transports size servers p l rank id (many_servers h e one) k =
    subst (λ p. socket_servers size servers rank ≡ client_servers l p rank 0 l) (sym one)
      (by_number size servers rank l (
        modules-number size servers rank l
          (div-eq_of_eq-mul_right (Shared-positive size servers p l id (many_servers h e one) k) e)
          h))
Shared-transports size servers zero l rank id (many_clients h e one) k = absurd (omega arith)
Shared-transports size servers (suc zero) l rank id (many_clients h e one) k =
    subst (λ l. socket_servers size servers rank ≡ client_servers l 1 rank 0 l) (sym one)
      (by_number size servers rank 1 (
        modules-number size servers rank 1 (div-eq_of_eq-mul_right (omega arith) (omega arith))
          (omega arith)))
Shared-transports size servers (suc (suc q)) l rank id (many_clients h e one) k =
    subst (λ l. socket_servers size servers rank ≡ client_servers l (suc (suc q)) rank 0 l)
      (sym one)
      (by_ratio size servers rank (suc (suc q)) (omega arith) (
        modules-ratio size servers rank (suc (suc q)) (ratio-number size servers q (omega arith) e)
          (div-eq_of_eq-mul_right (omega arith) e)))

-- When ranks are generated for the servers, one for each host, every process is connected with the same
-- modules in the same order over sockets, where it starts some or joins one that another process has
-- started, as over MPI, where all of them are spawned together.
pub generate_transports :
    {A : Type 0} (hosts : List A) (size rank : ℕ) (rss : List (List ℕ))
    → generate_communicator_ranks hosts size ≡ ok rss
    → socket_servers size (length hosts) rank ≡ intercommunicator_ranks size (length hosts) rank
unfolding intercommunicator_ranks
generate_transports hosts size rank rss e =
    Shared-transports size (length hosts) _ _ rank 0 (generate-ok hosts size rss e).0
      (generate-positive hosts size rss e)
