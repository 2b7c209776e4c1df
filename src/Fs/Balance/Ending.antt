-- ===== src/Fs/Balance/Ending.antt =====
-- src/fs.c: what is in use while a run that may not end yet removes directories. A result `none` is a
-- run that is cut off inside of a loop.
use libcopper.Base.{ℕ, ◌+◌, ◌≤◌, ◌≡◌, arith, Bool, true, false, Option, none, some, on_option}
use mathlib.Core.Path.{subst}
use libcopper.Base.{if◌then◌else◌}
use libcopper.Fs.Os.{State, Run, return, ◌>>=◌}
use libcopper.Fs.Balance.{Gains, Loses}

-- From `before` to `after`, `n` are given back when there is a result. When there is none, nothing
-- that was in use before is missing but those `n`, and no more than `extra` are in use beyond them.
unfoldable pub Ended {ℓ} : {A : Type ℓ} → ℕ → ℕ → Option A → ℕ → ℕ → Type 0
Ended n extra (some x) before after = after + n ≡ before
Ended n extra none before after = (before ≤ after + n) × (after + n ≤ before + extra)

pub same-Ended {ℓ} :
    {A : Type ℓ} (n extra : ℕ) (r : Option A) (before after : ℕ)
    → after + n ≡ before
    → Ended n extra r before after
unfolding Ended
same-Ended n extra (some x) before after h = h
same-Ended n extra none before after h = (omega (arith, h), omega (arith, h))

-- What was opened first is given back too.
opened-Ended {ℓ} :
    {A : Type ℓ} (g extra : ℕ) (r : Option A) (before middle after : ℕ)
    → middle ≡ before + g
    → Ended g extra r middle after
    → Ended 0 extra r before after
unfolding Ended
opened-Ended g extra (some x) before middle after h ended = omega (arith, h, ended)
opened-Ended g extra none before middle after h ended =
    (omega (arith, h, ended.0), omega (arith, h, ended.1))

module _ {W : Type 0} (held : W → ℕ) where
  unfoldable pub Ends : {A : Type 0} → ℕ → ℕ → Run W (Option A) → Type 0
  Ends n extra m =
      (s : State W) → n ≤ held s.world → Ended n extra (m s).0 (held s.world) (held (m s).1.world)

  pub Loses-Ends :
      {A : Type 0} (n extra : ℕ) (m : Run W (Option A)) → Loses held n m → Ends n extra m
  unfolding Ends Loses
  Loses-Ends n extra m kept s h = same-Ended n extra (m s).0 _ _ (kept s h)

  -- A run that is cut off here.
  pub cut-Ends : (A : Type 0) (n extra : ℕ) → n ≤ extra → Ends {A = A} n extra (return none)
  unfolding Ends Ended
  cut-Ends A n extra le s h = (omega arith, omega (arith, le))

  pub bind-Ends :
      {A B : Type 0} (n extra : ℕ) (m : Run W A) (f : A → Run W (Option B))
      → Loses held 0 m
      → ((x : A) → Ends n extra (f x))
      → Ends n extra (m >>= f)
  unfolding Ends Loses ◌>>=◌
  bind-Ends n extra m f first later s h =
      let same : held (m s).1.world ≡ held s.world = omega (arith, first s (omega arith)) in
      subst (λ b. Ended n extra (f (m s).0 (m s).1).0 b (held (f (m s).0 (m s).1).1.world)) same
        (later (m s).0 (m s).1 (omega (arith, same, h)))

  pub open-Ends :
      {A B : Type 0} (extra : ℕ) (gain : A → ℕ) (m : Run W A) (f : A → Run W (Option B))
      → Gains held gain m
      → ((x : A) → Ends (gain x) extra (f x))
      → Ends 0 extra (m >>= f)
  unfolding Ends Gains ◌>>=◌
  open-Ends extra gain m f first later s h =
      opened-Ended (gain (m s).0) extra (f (m s).0 (m s).1).0 _ _ _ (first s)
        (later (m s).0 (m s).1 (omega (arith, first s)))

  pub if-Ends :
      {A : Type 0} (n extra : ℕ) (b : Bool) (f g : Run W (Option A))
      → Ends n extra f
      → Ends n extra g
      → Ends n extra (if b then f else g)
  if-Ends n extra true f g kept other = kept
  if-Ends n extra false f g kept other = other

  pub option-Ends :
      {A B : Type 0} (n extra : ℕ) (r : Option A) (m : Run W (Option B)) (f : A → Run W (Option B))
      → Ends n extra m
      → ((x : A) → Ends n extra (f x))
      → Ends n extra (on_option r m f)
  option-Ends n extra none m f missing found = missing
  option-Ends n extra (some x) m f missing found = found x

  after_inner :
      {A B : Type 0} (n extra : ℕ) (r : Option A) (f : A → Run W (Option B)) (s : State W)
      (before : ℕ)
      → n ≤ before
      → Ended 0 extra r before (held s.world)
      → ((x : A) → Ends n (extra + n) (f x))
      → let ran = on_option r (return none) f s in
        Ended n (extra + n) ran.0 before (held ran.1.world)
  unfolding Ends Ended
  after_inner n extra none f s before h inner later =
      (omega (arith, inner.0), omega (arith, inner.1))
  after_inner n extra (some x) f s before h inner later =
      subst (λ b. Ended n (extra + n) (f x s).0 b (held (f x s).1.world)) {x = held s.world}
        {y = before} (omega (arith, inner)) (later x s (omega (arith, h, inner)))

  -- A run that may be cut off, and what follows it.
  pub inner-Ends :
      {A B : Type 0} (n extra : ℕ) (m : Run W (Option A)) (f : A → Run W (Option B))
      → Ends 0 extra m
      → ((x : A) → Ends n (extra + n) (f x))
      → Ends n (extra + n) (m >>= λ r. on_option r (return none) f)
  unfolding ◌>>=◌ Ends
  inner-Ends n extra m f first later s h =
      after_inner n extra (m s).0 f (m s).1 (held s.world) h (first s (omega arith)) later
