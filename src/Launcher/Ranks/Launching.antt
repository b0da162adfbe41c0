-- ===== src/Launcher/Ranks/Launching.antt =====
-- Over sockets each module is started by one process.
use arl_hierarchical_multisc.Base.{
  ℕ, zero, suc, ◌+◌, ◌*◌, ◌/◌, ◌%◌, ◌<◌, ◌≡◌, ap, sym, ◌∙◌, List, [], ◌++◌, length, ◌==◌,
  if◌then◌else◌, arith, Bool-cases, inl, inr, true, false, count_if-append,
}
use native.Mathlib.Nat.{
  mul-lt-mul_of_pos_right, div-one, mul-div_left, div-lt_iff_lt-mul, mul-mod_left, div-add-mod',
  div-eq_of_eq-mul_right,
}
use arl_hierarchical_multisc.Base.Effect.{ok}
use arl_hierarchical_multisc.Launcher.Ranks.{
  generate_communicator_ranks, modules_to_launch, launched_ids,
}
use arl_hierarchical_multisc.Launcher.Ranks.Placement.{
  modules-number, modules-ratio, ratio-number, Shared-positive,
}
use arl_hierarchical_multisc.Launcher.Ranks.Blocks.{occurrences, within, within-block, within-suc}
use arl_hierarchical_multisc.Launcher.Ranks.Shares.{Shared, many_servers, many_clients, generate-ok}

-- What a process starts.
abbrev pub launched_by : (size servers rank : ℕ) → List ℕ
launched_by size servers rank =
    let (number, ratio) = modules_to_launch size servers rank in
    launched_ids number ratio rank 0 number

-- What the first `n` processes start.
abbrev pub launched_below : (size servers n : ℕ) → List ℕ
launched_below size servers zero = []
launched_below size servers (suc n) = launched_below size servers n ++ launched_by size servers n

launched_ids-within :
    (number ratio rank i n a : ℕ)
    → occurrences a (launched_ids number ratio rank i n) ≡ within (rank / ratio * number + i) n a
unfolding launched_ids
launched_ids-within k l rank i zero a = ground arith
launched_ids-within k l rank i (suc n) a = omega (
  arith,
  launched_ids-within k l rank (suc i) n a,
  within-suc (rank / l * k + i) n a,
  ap (λ b. within b n a) (add_suc (rank / l * k) i),
)
  where
    add_suc : (x y : ℕ) → x + suc y ≡ x + y + 1
    add_suc x y = omega arith

-- A number that only one process starts.
launched_below-one :
    (size servers id first n : ℕ)
    → ((r : ℕ) → r < n → occurrences id (launched_by size servers r) ≡ within first 1 r)
    → occurrences id (launched_below size servers n) ≡ within 0 n first
launched_below-one size servers id first zero h = ground arith
launched_below-one size servers id first (suc n) h = omega (
  arith,
  count_if-append (λ x. x == id) (launched_below size servers n) (launched_by size servers n),
  launched_below-one size servers id first n (λ r m. h r (omega arith)),
  h n (omega arith),
  last n,
)
  where
    last : (n : ℕ) → within 0 n first + within first 1 n ≡ within 0 (suc n) first
    last n = ground arith

same-within : (a b x y : ℕ) → (a ≡ x → b ≡ y) → (b ≡ y → a ≡ x) → within a 1 x ≡ within b 1 y
same-within a b x y h k = elim (Bool-cases (a == x)) [
  | inl e ↦ both (equal e) (h (equal e))
  | inr e ↦ neither (different e) (λ m. different e (k m))
]
  where
    equal : {c d : ℕ} → (c == d) ≡ true → c ≡ d
    equal e = ground arith

    different : {c d : ℕ} → (c == d) ≡ false → ¬ (c ≡ d)
    different e m = ground arith

    both : a ≡ x → b ≡ y → within a 1 x ≡ within b 1 y
    both h k = ground arith

    neither : ¬ (a ≡ x) → ¬ (b ≡ y) → within a 1 x ≡ within b 1 y
    neither h k = ground arith

-- Of the processes that share a module, the first starts it.
by_ratio : (p rank id number : ℕ) → ℕ
by_ratio p rank id number = occurrences id (launched_ids number p rank 0 number)

multiple : (p rank id : ℕ) → 0 < p → rank % p ≡ 0 → id ≡ rank / p → id * p ≡ rank
multiple p rank id h m q = ap (λ a. a * p) q ∙ omega (arith, div-add-mod' rank p)

starts : (p rank id : ℕ) → 0 < p → rank % p ≡ 0 → by_ratio p rank id 1 ≡ within (id * p) 1 rank
unfolding by_ratio
starts p rank id h m =
    launched_ids-within 1 p rank 0 1 id
    ∙ same-within (rank / p * 1 + 0) (id * p) id rank (λ q. multiple p rank id h m (omega arith))
        (λ q. omega (arith, sym (ap (λ a. a / p) q) ∙ mul-div_left id h))

starts_not :
    (p rank id : ℕ) → 0 < p → ¬ (rank % p ≡ 0) → by_ratio p rank id 0 ≡ within (id * p) 1 rank
unfolding by_ratio
starts_not p rank id h m =
    launched_ids-within 0 p rank 0 0 id
    ∙ nothing (rank / p * 0 + 0) (id * p) (λ q. m (ap (λ a. a % p) (sym q) ∙ mul-mod_left id p))
  where
    nothing : (a b : ℕ) → ¬ (b ≡ rank) → within a 0 id ≡ within b 1 rank
    nothing a b n = ground arith

by-ratio :
    (p rank id : ℕ)
    → 0 < p
    → by_ratio p rank id (if rank % p == 0 then 1 else 0) ≡ within (id * p) 1 rank
by-ratio p rank id h = elim (Bool-cases (rank % p == 0)) [
  | inl e ↦ rw e (starts p rank id h (ground arith))
  | inr e ↦ rw e (starts_not p rank id h (ground arith))
]

each-number :
    (size servers l rank id : ℕ)
    → 0 < size
    → 0 < l
    → servers ≡ size * l
    → occurrences id (launched_by size servers rank) ≡ within (id / l) 1 rank
each-number size servers l rank id h k e =
    rw (modules-number size servers rank l (div-eq_of_eq-mul_right h e) k) (
      launched_ids-within l 1 rank 0 l id
      ∙ ap (λ a. within a l id) (omega (arith, ap (λ a. a * l) (div-one rank)))
      ∙ sym (within-block l rank id k))

each-ratio :
    (size servers q rank id : ℕ)
    → 0 < servers
    → size ≡ servers * suc (suc q)
    → occurrences id (launched_by size servers rank) ≡ within (id * suc (suc q)) 1 rank
unfolding by_ratio
each-ratio size servers q rank id h e =
    rw
      (modules-ratio size servers rank (suc (suc q)) (ratio-number size servers q h e)
        (div-eq_of_eq-mul_right h e))
      (by-ratio (suc (suc q)) rank id (omega arith))

times : (m n k : ℕ) → m < n → 0 < k → m * k < n * k
times m n k h pos = mul-lt-mul_of_pos_right h pos

in_range : (n a : ℕ) → a < n → within 0 n a ≡ 1
in_range n a h = ground arith

shared_number :
    (size servers l id : ℕ)
    → 0 < size
    → 0 < l
    → servers ≡ size * l
    → id < servers
    → occurrences id (launched_below size servers size) ≡ 1
shared_number size servers l id pos h e k =
    launched_below-one size servers id (id / l) size
      (λ r m. each-number size servers l r id pos h e)
    ∙ in_range size (id / l) ((div-lt_iff_lt-mul h).1 (omega arith))

shared-one :
    (size servers p l id : ℕ)
    → 0 < size
    → Shared size servers p l
    → id < servers
    → occurrences id (launched_below size servers size) ≡ 1
shared-one size servers p l id pos (many_servers h e one) k =
    shared_number size servers l id pos h e k
shared-one size servers zero l id pos (many_clients h e one) k = absurd (omega arith)
shared-one size servers (suc zero) l id pos (many_clients h e one) k =
    shared_number size servers 1 id pos (omega arith) (omega arith) k
shared-one size servers (suc (suc q)) l id pos (many_clients h e one) k =
    launched_below-one size servers id (id * suc (suc q)) size
      (λ r m. each-ratio size servers q r id (omega arith) e)
    ∙ in_range size (id * suc (suc q))
        (omega (arith, times id servers (suc (suc q)) k (omega arith)))

-- When ranks are generated for the servers, one for each host, then of all the processes together exactly
-- one starts the module of each id below the number of hosts, over sockets, and starts it once.
pub launched_once :
    {A : Type 0} (hosts : List A) (size id : ℕ) (rss : List (List ℕ))
    → generate_communicator_ranks hosts size ≡ ok rss
    → id < length hosts
    → occurrences id (launched_below size (length hosts) size) ≡ 1
launched_once hosts size id rss e h =
    let (shared, same) = generate-ok hosts size rss e in
    shared-one size (length hosts) _ _ id (Shared-positive _ _ _ _ id shared h) shared h
