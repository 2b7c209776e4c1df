-- ===== src/Env/Tests.antt =====
-- src/env.c at concrete inputs.
use libcopper.Base.{ℕ, true, Option, none, some, List}
use libcopper.Error.{no_error}
use libcopper.Fs.Os.{State}
use libcopper.Env.{Environment}

-- An environment with room for one variable, whose name is not looked at.
abbrev one_variable : Environment (Option (List ℕ))
one_variable = record {
  getenv = λ name w. w;
  setenv = λ name value w. (true, some value);
  unsetenv = λ name w. (true, none);
}

abbrev before : State (Option (List ℕ))
before = record { world = none; error = no_error }
