-- ===== src/Launcher/Ranks/Blocks.antt =====
-- Ranges of numbers, and how often a number is in them.
use arl_hierarchical_multisc.Base.{
  ◌⊎◌, Bool-cases, true, false, inl, inr, ℕ, zero, suc, ◌+◌, ◌*◌, ◌/◌, ◌<◌, ◌≤◌, ◌≡◌, List, [], ◌∷◌,
  count_if, ltb, leb, ◌==◌, ◌&&◌, if◌then◌else◌, arith, ap,
}
use native.Mathlib.Nat.{div-one, le-div_iff_mul-le, div-lt_iff_lt-mul}
use arl_hierarchical_multisc.Launcher.Ranks.{server_ranks, client_servers}

abbrev pub occurrences : ℕ → List ℕ → ℕ
occurrences a xs = count_if (λ x. x == a) xs

-- 1 when a number is in the range of `n` numbers from `start`, and 0 otherwise.
abbrev pub within : (start n a : ℕ) → ℕ
within start n a = if leb start a && ltb a (start + n) then 1 else 0

pub within-suc :
    (start n a : ℕ)
    → (if start == a then 1 else 0) + within (start + 1) n a ≡ within start (suc n) a
within-suc start n a = ground arith

pub server_ranks-within :
    (per_server per_launcher i j n a : ℕ)
    → occurrences a (server_ranks per_server per_launcher i j n)
      ≡ within (per_server * i / per_launcher + j) n a
unfolding server_ranks
server_ranks-within k l i j zero a = ground arith
server_ranks-within k l i j (suc n) a = omega (
  arith,
  server_ranks-within k l i (suc j) n a,
  within-suc (k * i / l + j) n a,
  ap (λ b. within b n a) (add_suc (k * i / l) j),
)
  where
    add_suc : (x y : ℕ) → x + suc y ≡ x + y + 1
    add_suc x y = omega arith

-- A client's servers, when each server has one client.
pub client_servers-within :
    (l rank i n a : ℕ) → occurrences a (client_servers l 1 rank i n) ≡ within (rank * l + i) n a
unfolding client_servers
client_servers-within l rank i zero a = ground arith
client_servers-within l rank i (suc n) a = omega (
  arith,
  client_servers-within l rank (suc i) n a,
  within-suc (rank * l + i) n a,
  ap (λ b. within b n a) (add_suc (rank * l) i),
  ap (λ b. occurrences a (b ∷ [])) (div-one (rank * l + i)),
)
  where
    add_suc : (x y : ℕ) → x + suc y ≡ x + y + 1
    add_suc x y = omega arith

inside : (a b m n x y : ℕ) → a ≤ x → x < a + m → b ≤ y → y < b + n → within a m x ≡ within b n y
inside a b m n x y h k h' k' = ground arith

outside :
    (a b m n x y : ℕ) → (x < a) ⊎ (a + m ≤ x) → (y < b) ⊎ (b + n ≤ y) → within a m x ≡ within b n y
outside a b m n x y (inl h) (inl k) = ground arith
outside a b m n x y (inl h) (inr k) = ground arith
outside a b m n x y (inr h) (inl k) = ground arith
outside a b m n x y (inr h) (inr k) = ground arith

-- Blocks of `k` numbers: `s` is in the block of its quotient.
pub within-block : (k r s : ℕ) → 0 < k → within (s / k) 1 r ≡ within (r * k) k s
within-block k r s h = elim (Bool-cases (ltb s (r * k))) [
  | inl e ↦
      let below = (div-lt_iff_lt-mul h).1 (lt_of e) in
      outside (s / k) (r * k) 1 k r s (inr (omega arith)) (inl (lt_of e))
  | inr e ↦
      let from = (le-div_iff_mul-le h).1 (le_of e) in
      elim (Bool-cases (ltb s (suc r * k))) [
        | inl e' ↦
            let to = (div-lt_iff_lt-mul h).1 (lt_of e') in
            inside (s / k) (r * k) 1 k r s (omega arith) (omega arith) (le_of e)
              (omega (arith, lt_of e'))
        | inr e' ↦
            let after = (le-div_iff_mul-le h).1 (le_of e') in
            outside (s / k) (r * k) 1 k r s (inl after) (inr (omega (arith, le_of e')))
      ]
]
  where
    lt_of : {a b : ℕ} → ltb a b ≡ true → a < b
    lt_of e = ground arith

    le_of : {a b : ℕ} → ltb a b ≡ false → b ≤ a
    le_of e = ground arith
