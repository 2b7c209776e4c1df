-- ===== src/Env.antt =====
-- src/env.c, the branches for POSIX. The environment of the process is a parameter, and a string is
-- the list of its characters before the null.
mod Tests
use libcopper.Base.{ℕ, ◌<◌, ◌≡◌, Bool, true, false}
use libcopper.Base.{Option, none, some, List, length, on_option, leb, ◌==◌, if◌then◌else◌}
use libcopper.Error.{CprError, set_error, err_invalid, err_not_found, err_overflow, err_io}
use libcopper.Fs.Os.{State, Run, ◌>>=◌, call, fail, checked}
use libcopper.Fs.Path.{Written, copy_text}

-- The calls of POSIX; a `Bool` tells whether a call succeeds.
pub record Environment (W : Type 0) : Type 0 where
  pub getenv : List ℕ → W → Option (List ℕ)
  pub setenv : List ℕ → List ℕ → W → Bool × W
  pub unsetenv : List ℕ → W → Bool × W

module _ {W : Type 0} (env : Environment W) where
  -- `cpr_get_env`
  pub get_env : Option (List ℕ) → Option (List ℕ) → ℕ → State W → Written
  get_env none buf buf_size s = some (false, buf, set_error err_invalid "invalid arguments" s.error)
  get_env (some name) none buf_size s =
      some (false, none, set_error err_invalid "invalid arguments" s.error)
  get_env (some name) (some buf) buf_size s =
      if buf_size == 0
      then some (false, some buf, set_error err_invalid "invalid arguments" s.error)
      else on_option (env.getenv name s.world)
          (some (false, some buf, set_error err_not_found "environment variable not found" s.error))
          (λ val.
            if leb buf_size (length val)
            then some (false, some buf, set_error err_overflow "buffer too small" s.error)
            else copy_text buf 0 val (length val) s.error)

  -- `cpr_set_env`
  pub set_env : Option (List ℕ) → Option (List ℕ) → Run W Bool
  set_env none value = fail err_invalid "invalid arugment(s)" false
  set_env (some name) none = fail err_invalid "invalid arugment(s)" false
  set_env (some name) (some value) =
      call (env.setenv name value) >>= checked err_io "failed to set environment variable"

  -- `cpr_unset_env`
  pub unset_env : Option (List ℕ) → Run W Bool
  unset_env none = fail err_invalid "invalid arguments" false
  unset_env (some name) =
      call (env.unsetenv name) >>= checked err_io "failed to unset environment variable"

-- A variable has the value that it was set to, and none once it is unset.
pub record Variables {W : Type 0} (env : Environment W) : Type 0 where
  pub setenv_getenv :
      (name value : List ℕ) (w : W)
      → (env.setenv name value w).0 ≡ true
      → env.getenv name (env.setenv name value w).1 ≡ some value
  pub unsetenv_getenv :
      (name : List ℕ) (w : W)
      → (env.unsetenv name w).0 ≡ true
      → env.getenv name (env.unsetenv name w).1 ≡ none
