-- ===== src/Launcher/Ranks/Pairing.antt =====
-- The two sides of the connections agree: whom a server waits for is who connects to it.
use arl_hierarchical_multisc.Base.{
  subst, ℕ, zero, suc, ◌+◌, ◌*◌, ◌/◌, ◌<◌, ◌≡◌, refl, some, List, length, get_elem?, arith, ap, sym,
  ◌∙◌,
}
use native.Mathlib.Nat.{div-one}
use arl_hierarchical_multisc.Base.Effect.{ok}
use arl_hierarchical_multisc.Launcher.Ranks.Blocks.{
  occurrences, within, server_ranks-within, client_servers-within, within-block,
}
use arl_hierarchical_multisc.Launcher.Ranks.Shares.{Shared, many_servers, many_clients, generate-ok}
use arl_hierarchical_multisc.Launcher.Ranks.{
  larger, server_ranks, all_ranks, generate_communicator_ranks, client_servers,
  intercommunicator_ranks,
}

get_elem?-all_ranks :
    (per_server per_launcher i n s : ℕ)
    → s < n
    → get_elem? (all_ranks per_server per_launcher i n) s
      ≡ some (server_ranks per_server per_launcher (i + s) 0 per_server)
unfolding all_ranks
get_elem?-all_ranks ps pl i zero s h = absurd (omega arith)
get_elem?-all_ranks ps pl i (suc n) zero h =
    ap (λ j. some (server_ranks ps pl j 0 ps)) (omega arith)
get_elem?-all_ranks ps pl i (suc n) (suc s) h =
    get_elem?-all_ranks ps pl (suc i) n s (omega arith)
    ∙ ap (λ j. some (server_ranks ps pl j 0 ps)) (omega arith)

length-all_ranks : (ps pl i n : ℕ) → length (all_ranks ps pl i n) ≡ n
unfolding all_ranks
length-all_ranks ps pl i zero = refl
length-all_ranks ps pl i (suc n) = ap suc (length-all_ranks ps pl (suc i) n)

one_server :
    (l p r i s : ℕ) → occurrences s (client_servers l p r i 1) ≡ within ((r * l + i) / p) 1 s
unfolding client_servers
one_server l p r i s = ground arith

same_start : {a b : ℕ} (n x : ℕ) → a ≡ b → within a n x ≡ within b n x
same_start n x e = ap (λ a. within a n x) e

connections-agree :
    (size servers per_server per_launcher r s : ℕ)
    → Shared size servers per_server per_launcher
    → occurrences r (server_ranks per_server per_launcher s 0 per_server)
      ≡ occurrences s (client_servers per_launcher per_server r 0 per_launcher)
connections-agree size servers p l r s (many_servers h e one) =
    subst (λ p. occurrences r (server_ranks p l s 0 p) ≡ occurrences s (client_servers l p r 0 l))
      (sym one)
      (server_ranks-within 1 l s 0 1 r
        ∙ same_start 1 r (omega (arith, ap (λ a. a / l) (one_times s)))
        ∙ within-block l r s h
        ∙ same_start l s (omega arith)
        ∙ sym (client_servers-within l r 0 l s))
  where
    one_times : (a : ℕ) → 1 * a ≡ a
    one_times a = omega arith
connections-agree size servers p l r s (many_clients h e one) =
    subst (λ l. occurrences r (server_ranks p l s 0 p) ≡ occurrences s (client_servers l p r 0 l))
      (sym one)
      (server_ranks-within p 1 s 0 p r
        ∙ same_start p r (omega (arith, div-one (p * s)))
        ∙ sym (within-block p s r h)
        ∙ same_start 1 s (ap (λ a. a / p) (times_one r))
        ∙ sym (one_server 1 p r 0 s))
  where
    times_one : (a : ℕ) → a ≡ a * 1 + 0
    times_one a = omega arith

-- When ranks are generated for the servers, one for each host, then there is a list for each server, and
-- whatever rank a process has, that list names it as often as the process connects to that server over
-- MPI: the server waits for exactly the connections that are made.
pub generate_pairs :
    {A : Type 0} (hosts : List A) (size rank server : ℕ) (rss : List (List ℕ))
    → generate_communicator_ranks hosts size ≡ ok rss
    → server < length hosts
    → (rs : List ℕ) × (get_elem? rss server ≡ some rs)
      × (occurrences rank rs
          ≡ occurrences server (intercommunicator_ranks size (length hosts) rank))
unfolding intercommunicator_ranks
generate_pairs hosts size rank server rss e h =
    let n = length hosts in
    let total = larger size n in
    let (shared, same) = generate-ok hosts size rss e in
    (
      server_ranks (total / n) (total / size) server 0 (total / n),
      ap (λ xs. get_elem? xs server) same
          ∙ get_elem?-all_ranks (total / n) (total / size) 0 n server h
          ∙ ap (λ j. some (server_ranks (total / n) (total / size) j 0 (total / n))) (omega arith),
      connections-agree size n (total / n) (total / size) rank server shared,
    )
