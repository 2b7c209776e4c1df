-- ===== src/Fs/Disk/Errors.antt =====
-- The tests of src/fs.c and the error state of the thread.
use libcopper.Base.{ℕ, ◌≡◌, refl, Option, none, some, List}
use libcopper.Fs.Os.{Os, State, ◌>>=◌}
use libcopper.Fs.Disk.{path_exists, path_is_file, path_is_dir}

module _ {W : Type 0} (os : Os W) where
  -- `cpr_path_exists`, `cpr_path_is_file` and `cpr_path_is_dir` do not touch the error state.
  tests_keep_error :
      (path : Option (List ℕ)) (s : State W)
      → ((path_exists os path s).1.error ≡ s.error)
        × ((path_is_file os path s).1.error ≡ s.error)
        × ((path_is_dir os path s).1.error ≡ s.error)
  unfolding path_exists path_is_file path_is_dir ◌>>=◌
  tests_keep_error none s = (refl, refl, refl)
  tests_keep_error (some path) s = (refl, refl, refl)
