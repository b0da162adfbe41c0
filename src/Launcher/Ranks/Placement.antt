-- ===== src/Launcher/Ranks/Placement.antt =====
-- How many modules a process starts over sockets, and how many processes share a module.
use arl_hierarchical_multisc.Base.{
  subst, ℕ, zero, suc, ◌*◌, ◌/◌, ◌%◌, ◌<◌, ◌≡◌, sym, ◌==◌, if◌then◌else◌, arith, false,
}
use native.Mathlib.Nat.{div-eq_of_lt, div-eq_of_eq-mul_right}
use arl_hierarchical_multisc.Launcher.Ranks.{modules_to_launch}
use arl_hierarchical_multisc.Launcher.Ranks.Shares.{Shared, many_servers, many_clients}

pub modules-number :
    (size servers rank l : ℕ)
    → servers / size ≡ l
    → 0 < l
    → modules_to_launch size servers rank ≡ (l, 1)
unfolding modules_to_launch
modules-number size servers rank l e h = rw (e, not_zero l h)
  where
    not_zero : (a : ℕ) → 0 < a → (a == 0) ≡ false
    not_zero a h = ground arith

pub modules-ratio :
    (size servers rank p : ℕ)
    → servers / size ≡ 0
    → size / servers ≡ p
    → modules_to_launch size servers rank ≡ (if rank % p == 0 then 1 else 0, p)
unfolding modules_to_launch
modules-ratio size servers rank p e h = rw (e, h)

larger_product : (a q : ℕ) → 0 < a → a < a * suc (suc q)
larger_product a q h = omega arith

pub Shared-positive : (size servers p l id : ℕ) → Shared size servers p l → id < servers → 0 < size
Shared-positive zero servers p l id (many_servers h e one) k = absurd (omega arith)
Shared-positive (suc n) servers p l id (many_servers h e one) k = omega arith
Shared-positive size servers zero l id (many_clients h e one) k = absurd (omega arith)
Shared-positive size servers (suc q) l id (many_clients h e one) k = omega arith

-- A process starts its own modules, or shares one with others.
pub data Placed (size servers rank per_launcher : ℕ) : Type 0 where
  own :
      modules_to_launch size servers rank ≡ (per_launcher, 1)
      → Placed size servers rank per_launcher
  in_common :
      (p : ℕ)
      → 1 < p
      → modules_to_launch size servers rank ≡ (if rank % p == 0 then 1 else 0, p)
      → per_launcher ≡ 1
      → Placed size servers rank per_launcher

pub ratio-number :
    (size servers q : ℕ) → 0 < servers → size ≡ servers * suc (suc q) → servers / size ≡ 0
ratio-number size servers q h e = div-eq_of_lt (less)
  where
    less : servers < size
    less = omega (arith, larger_product servers q h)

pub Shared-Placed :
    (size servers p l rank id : ℕ)
    → Shared size servers p l
    → id < servers
    → Placed size servers rank l
Shared-Placed size servers p l rank id (many_servers h e one) k = own (
    modules-number size servers rank l
      (div-eq_of_eq-mul_right (Shared-positive size servers p l id (many_servers h e one) k) e) h)
Shared-Placed size servers zero l rank id (many_clients h e one) k = absurd (omega arith)
Shared-Placed size servers (suc zero) l rank id (many_clients h e one) k = own (
    subst (λ l. modules_to_launch size servers rank ≡ (l, 1)) (sym one)
      (modules-number size servers rank 1 (div-eq_of_eq-mul_right (omega arith) (omega arith))
        (omega arith)))
Shared-Placed size servers (suc (suc q)) l rank id (many_clients h e one) k =
    in_common (suc (suc q)) (omega arith)
      (modules-ratio size servers rank (suc (suc q)) (ratio-number size servers q (omega arith) e)
        (div-eq_of_eq-mul_right (omega arith) e))
      one
