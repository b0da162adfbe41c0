-- ===== src/CleanupPolicy/Retention.antt =====
-- What the fixed policy keeps, and what it removes.
use arl_hierarchical_multisc.Base.{
  ℕ, zero, suc, ◌-◌, ◌^◌, ◌<◌, ◌≤◌, ◌≡◌, ◌⊎◌, inl, inr, Bool-cases, refl, ap, ltb, String, List, [],
  ◌∷◌, length, take, drop, arith,
}
use arl_hierarchical_multisc.Base.Int.{to_int, pos, negsuc, ◌-ℤ◌}
use arl_hierarchical_multisc.Base.Effect.{M, pure, ◌>>=◌, ◌>>◌}
use arl_hierarchical_multisc.CleanupPolicy.{Disk, remove_first, retire, apply_fixed}

difference :
    (n k : ℕ)
    → n < 2 ^ 31
    → k < 2 ^ 31
    → (to_int (pos n -ℤ pos k) ≡ pos (n - k))
      ⊎ (m : ℕ) × (to_int (pos n -ℤ pos k) ≡ negsuc m) × (n - k ≡ 0)
unfolding ◌-ℤ◌
difference n k small few = elim (Bool-cases (ltb n k)) [
  | inl less ↦ inr (k - n - 1, ground arith, ground arith)
  | inr more ↦ inl (ground arith)
]

module _ {W : Type 0} (disk : Disk W) where
  -- Removes the directories of a list, in order.
  abbrev pub remove_each : List String → M W (Unit {0})
  remove_each [] = pure tt
  remove_each (d ∷ ds) = disk.remove_all d >> remove_each ds

  remove_first-take :
      (n : ℕ) (ds : List String) → n ≤ length ds → remove_first disk n ds ≡ remove_each (take n ds)
  unfolding remove_first
  remove_first-take zero ds h = refl
  remove_first-take (suc n) [] h = elim h [ ]
  remove_first-take (suc n) (d ∷ ds) h =
      ap (λ k. disk.remove_all d >> k) (remove_first-take n ds (omega arith))

  -- Told to keep `k` directories, the fixed policy removes all but the last `k` of those that it
  -- remembers, the oldest first, and then remembers the last `k`; it removes nothing where there are
  -- at most `k`. Both numbers are below 2^31, where an `int` holds their difference.
  pub apply_fixed_retains :
      (k : ℕ) (ds : List String) (w : W)
      → length ds < 2 ^ 31
      → k < 2 ^ 31
      → apply_fixed disk (pos k) ds w
        ≡ (remove_each (take (length ds - k) ds) >> pure (drop (length ds - k) ds)) w
  unfolding apply_fixed retire ◌>>=◌
  apply_fixed_retains k ds w small few = elim (difference (length ds) k small few) [
    | inl removed ↦ rw removed (retire_pos (length ds - k) (omega arith))
    | inr (m, kept, zero_removed) ↦ rw (kept, zero_removed) (retire_negsuc m)
  ]
    where
      retire_pos :
          (n : ℕ)
          → n ≤ length ds
          → retire disk (pos n) ds w ≡ (remove_each (take n ds) >> pure (drop n ds)) w
      retire_pos zero h = refl
      retire_pos (suc n) h = rw (remove_first-take (suc n) ds h) (ground arith)

      retire_negsuc : (m : ℕ) → retire disk (negsuc m) ds w ≡ (remove_each [] >> pure ds) w
      retire_negsuc m = ground arith
