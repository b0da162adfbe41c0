-- ===== src/Launcher/Ranks/Shares.antt =====
-- What the ranks are when they are generated: one side has a multiple of the processes of the other.
use arl_hierarchical_multisc.Base.{
  Bool, subst, ◌||◌, not, Bool-cases, true, false, inl, inr, ℕ, ◌*◌, ◌/◌, ◌%◌, ◌<◌, ◌≤◌, ◌≡◌, refl,
  List, length, ltb, ◌==◌, if◌then◌else◌, arith, sym,
}
use native.Mathlib.Nat.{div-add-mod, div_self, le-div_iff_mul-le}
use arl_hierarchical_multisc.Base.Effect.{Exception, ok, err, ok-injective}
use arl_hierarchical_multisc.Launcher.Ranks.{larger, all_ranks, generate_communicator_ranks}

-- An equal share of the connections for each process on both sides.
pub data Shared (size servers per_server per_launcher : ℕ) : Type 0 where
  many_servers :
      0 < per_launcher
      → servers ≡ size * per_launcher
      → per_server ≡ 1
      → Shared size servers per_server per_launcher
  many_clients :
      0 < per_server
      → size ≡ servers * per_server
      → per_launcher ≡ 1
      → Shared size servers per_server per_launcher

fewer :
    (size servers : ℕ)
    → 0 < size
    → size ≤ servers
    → servers % size ≡ 0
    → Shared size servers (servers / servers) (servers / size)
fewer size servers h k m =
    many_servers ((le-div_iff_mul-le h).1 (omega arith)) (omega (arith, div-add-mod servers size))
      (div_self (omega arith))

more :
    (size servers : ℕ)
    → 0 < servers
    → servers ≤ size
    → size % servers ≡ 0
    → Shared size servers (size / servers) (size / size)
more size servers h k m =
    many_clients ((le-div_iff_mul-le h).1 (omega arith)) (omega (arith, div-add-mod size servers))
      (div_self (omega arith))

shares :
    (size servers : ℕ)
    → 0 < size
    → 0 < servers
    → larger size servers % size ≡ 0
    → larger size servers % servers ≡ 0
    → Shared size servers (larger size servers / servers) (larger size servers / size)
shares size servers h k m n = elim (Bool-cases (ltb size servers)) [
  | inl e ↦
      subst (λ t. Shared size servers (t / servers) (t / size)) (sym (is_servers e))
        (fewer size servers h (ground arith) (subst (λ t. t % size ≡ 0) (is_servers e) m))
  | inr e ↦
      subst (λ t. Shared size servers (t / servers) (t / size)) (sym (is_size e))
        (more size servers k (ground arith) (subst (λ t. t % servers ≡ 0) (is_size e) n))
]
  where
    is_servers : ltb size servers ≡ true → larger size servers ≡ servers
    is_servers e = rw e

    is_size : ltb size servers ≡ false → larger size servers ≡ size
    is_size e = rw e

passes :
    {A : Type 0} (b c : Bool) (x y : Exception) (a r : A)
    → (if b then err x else if c then err y else ok a) ≡ ok r
    → (b ≡ false) × (c ≡ false) × (r ≡ a)
passes true c x y a r e = absurd (cc)
passes false true x y a r e = absurd (cc)
passes false false x y a r e = (refl, refl, sym (ok-injective e))

positive : (a b : ℕ) → (a == 0 || b == 0) ≡ false → (0 < a) × (0 < b)
positive a b e = (ground arith, ground arith)

no_rest : (a b : ℕ) → (not (a == 0) || not (b == 0)) ≡ false → (a ≡ 0) × (b ≡ 0)
no_rest a b e = (ground arith, ground arith)

pub generate-ok :
    {A : Type 0} (hosts : List A) (size : ℕ) (rss : List (List ℕ))
    → generate_communicator_ranks hosts size ≡ ok rss
    → Shared size
        (length hosts)
        (larger size (length hosts) / length hosts)
        (larger size (length hosts) / size)
      × (rss
          ≡ all_ranks
              (larger size (length hosts) / length hosts)
              (larger size (length hosts) / size)
              0
              (length hosts))
unfolding generate_communicator_ranks
generate-ok hosts size rss e =
    let (some_there, even, same) = passes _ _ _ _ _ rss e in
    let (h, k) = positive size (length hosts) some_there in
    let (m, n) = no_rest _ _ even in (shares size (length hosts) h k m n, same)

pub generate-positive :
    {A : Type 0} (hosts : List A) (size : ℕ) (rss : List (List ℕ))
    → generate_communicator_ranks hosts size ≡ ok rss
    → 0 < length hosts
unfolding generate_communicator_ranks
generate-positive hosts size rss e =
    let (some_there, even, same) = passes _ _ _ _ _ rss e in
    let (h, k) = positive size (length hosts) some_there in k
