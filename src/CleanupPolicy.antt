-- ===== src/CleanupPolicy.antt =====
-- broker/CleanupPolicy.cc and its derived classes: which directories of completed commands are
-- removed. `remove_all` of boost is given by the environment.
pub mod Retention
use arl_hierarchical_multisc.Base.{
  ℕ, zero, suc, String, Bool, List, [], ◌∷◌, ◌++◌, length, drop, take, ltb, if◌then◌else◌,
}
use arl_hierarchical_multisc.Base.Int.{ℤ, to_int, pos, pos_part, neg_part, ltb_ℤ, ◌-ℤ◌}
use arl_hierarchical_multisc.Base.Effect.{M, pure, throw, undefined, ◌>>=◌, ◌>>◌}
use arl_hierarchical_multisc.Command.{Command}

-- The object of a derived class. The fixed policy remembers the directories that it has kept.
pub data CleanupPolicy : Type 0 where
  custom none_removed : CleanupPolicy
  fixed : ℤ → List String → CleanupPolicy

-- `boost::filesystem::remove_all`.
pub record Disk (W : Type 0) : Type 0 where
  pub remove_all : String → M W (Unit {0})

module _ {W : Type 0} (disk : Disk W) where
  pub remove_directory : String → M W (Unit {0})
  remove_directory directory = disk.remove_all directory

  pub apply_custom : List Command → M W (Unit {0})
  unfolding remove_directory
  apply_custom [] = pure tt
  apply_custom (c ∷ cs) =
      let rest = apply_custom cs in
      if c.model_package.argument.to_cleanup then remove_directory c.directory >> rest else rest

  abbrev append_directories : List String → List Command → List String
  append_directories kept [] = kept
  append_directories kept (c ∷ cs) = append_directories (kept ++ c.directory ∷ []) cs

  -- The loop over `d_completedDirectories[i]`: an index past the end is undefined.
  pub remove_first : ℕ → List String → M W (Unit {0})
  unfolding remove_directory
  remove_first zero ds = pure tt
  remove_first (suc n) [] = throw undefined
  remove_first (suc n) (d ∷ ds) = remove_directory d >> remove_first n ds

  -- The loop and the `erase`, by the number to remove.
  pub retire : ℤ → List String → M W (List String)
  unfolding remove_first
  retire number_to_remove ds =
      if ltb_ℤ (pos 0) number_to_remove
      then remove_first (pos_part number_to_remove) ds >> pure (drop (pos_part number_to_remove) ds)
      else pure ds

  -- The difference is one of `size_t`, and becomes an `int`.
  pub apply_fixed : ℤ → List String → M W (List String)
  unfolding retire
  apply_fixed number_to_keep ds = retire (to_int (pos (length ds) -ℤ number_to_keep)) ds

  unfoldable pub apply : CleanupPolicy → List Command → M W CleanupPolicy
  unfolding apply_custom apply_fixed
  apply custom cs = do apply_custom cs; pure custom
  apply none_removed cs = pure none_removed
  apply (fixed number_to_keep kept) cs = do
    kept' ← apply_fixed number_to_keep (append_directories kept cs)
    pure (fixed number_to_keep kept')
