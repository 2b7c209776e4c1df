-- ===== src/Fs/Disk/Parents.antt =====
-- `cpr_mkdir_all` of src/fs.c makes a directory with all above it.
use libcopper.Base.{ℕ, ◌≡◌, refl, sym, ◌∙◌, inl, inr, Bool, true, false, Bool-cases, some}
use libcopper.Base.{List, [], ◌∷◌, ◌++◌, length, on_option, leb, ◌||◌, ◌==◌, if◌then◌else◌}
use libcopper.Fs.Os.{Os, State, Run, ◌>>=◌}
use libcopper.Fs.Path.{is_sep}
use libcopper.Fs.Path.Normalize.{skip_seps}
use libcopper.Fs.Disk.{
  s_isdir, path_max, path_is_dir, make_dir, ensure_dir, mkdir_loop, lead_seps, mkdir_all,
}

-- `is_dir` tells which paths are directories. Making one takes none away.
pub record Dirs {W : Type 0} (os : Os W) (is_dir : W → List ℕ → Bool) : Type 0 where
  pub stat_answers :
      (path : List ℕ) (w : W)
      → on_option (os.stat path w).0 false (λ st. s_isdir st.kind) ≡ is_dir w path
  pub stat_keeps : (path q : List ℕ) (w : W) → is_dir (os.stat path w).1 q ≡ is_dir w q
  pub mkdir_makes :
      (path : List ℕ) (w : W) → (os.mkdir path w).0 ≡ true → is_dir (os.mkdir path w).1 path ≡ true
  pub mkdir_keeps :
      (path q : List ℕ) (w : W) → is_dir w q ≡ true → is_dir (os.mkdir path w).1 q ≡ true

-- The directories that a path goes through: what stands in front of a separator, and the path. The
-- separators at the start are passed by.
pub dirs_to : List ℕ → List ℕ → List (List ℕ)
dirs_to before [] = before ∷ []
dirs_to before (c ∷ p) =
    if is_sep c then before ∷ dirs_to (before ++ (c ∷ [])) p else dirs_to (before ++ (c ∷ [])) p

module _ {W : Type 0} (os : Os W) (is_dir : W → List ℕ → Bool) (dirs : Dirs os is_dir) where
  abbrev pub AllDirs : W → List (List ℕ) → Type 0
  AllDirs w [] = Unit
  AllDirs w (path ∷ paths) = (is_dir w path ≡ true) × AllDirs w paths

  abbrev Keeps : Run W Bool → Type 0
  Keeps m = (s : State W) (q : List ℕ) → is_dir s.world q ≡ true → is_dir (m s).1.world q ≡ true

  make_dir_lem :
      (path : List ℕ) (s : State W)
      → ((make_dir os (some path) s).0 ≡ (os.mkdir path s.world).0)
        × ((make_dir os (some path) s).1.world ≡ (os.mkdir path s.world).1)
  unfolding make_dir ◌>>=◌
  make_dir_lem path s = elim (Bool-cases (os.mkdir path s.world).0) [
    | inl made ↦ rw made (refl, refl)
    | inr failed ↦ rw failed (refl, refl)
  ]

  path_is_dir_lem :
      (path q : List ℕ) (s : State W)
      → ((path_is_dir os (some path) s).0 ≡ is_dir s.world path)
        × (is_dir (path_is_dir os (some path) s).1.world q ≡ is_dir s.world q)
  unfolding path_is_dir ◌>>=◌
  path_is_dir_lem path q s = (dirs.stat_answers path s.world, dirs.stat_keeps path q s.world)

  ensure_dir-Keeps : (path : List ℕ) → Keeps (ensure_dir os path)
  unfolding ensure_dir ◌>>=◌
  ensure_dir-Keeps path s q h =
      let (there, kept) = path_is_dir_lem path q s in
      let s' = (path_is_dir os (some path) s).1 in
      elim (Bool-cases (path_is_dir os (some path) s).0) [
        | inl found ↦ rw found (kept ∙ h)
        | inr missing ↦
            rw (missing, (make_dir_lem path s').1) (dirs.mkdir_keeps path q s'.world (kept ∙ h))
      ]

  ensure_dir_lem :
      (path : List ℕ) (s : State W)
      → (ensure_dir os path s).0 ≡ true
      → is_dir (ensure_dir os path s).1.world path ≡ true
  unfolding ensure_dir ◌>>=◌
  ensure_dir_lem path s h =
      let (there, kept) = path_is_dir_lem path path s in
      let s' = (path_is_dir os (some path) s).1 in
      elim (Bool-cases (path_is_dir os (some path) s).0) [
        | inl found ↦ rw found (kept ∙ sym there ∙ found)
        | inr missing ↦
            let (result, world) = make_dir_lem path s' in
            rw (missing, world) (dirs.mkdir_makes path s'.world (sym result ∙ (rw missing at h)))
      ]

  mkdir_loop-Keeps : (before p : List ℕ) → Keeps (mkdir_loop os before p)
  unfolding mkdir_loop ◌>>=◌
  mkdir_loop-Keeps before [] s q h = ensure_dir-Keeps before s q h
  mkdir_loop-Keeps before (c ∷ p) s q h = elim (Bool-cases (is_sep c)) [
    | inl sep ↦ elim (Bool-cases (ensure_dir os before s).0) [
      | inl made ↦
          rw (sep, made)
            (mkdir_loop-Keeps (before ++ (c ∷ [])) p (ensure_dir os before s).1 q
              (ensure_dir-Keeps before s q h))
      | inr failed ↦ rw (sep, failed) (ensure_dir-Keeps before s q h)
    ]
    | inr other ↦ rw other (mkdir_loop-Keeps (before ++ (c ∷ [])) p s q h)
  ]

  no : ¬ (false ≡ true)
  no same = cc

  last_dir :
      (before : List ℕ) (s : State W)
      → (mkdir_loop os before [] s).0 ≡ true
      → is_dir (mkdir_loop os before [] s).1.world before ≡ true
  unfolding mkdir_loop
  last_dir before s h = ensure_dir_lem before s h

  mkdir_loop_made :
      (before p : List ℕ) (c : ℕ) (s : State W)
      → is_sep c ≡ true
      → (ensure_dir os before s).0 ≡ true
      → mkdir_loop os before (c ∷ p) s
        ≡ mkdir_loop os (before ++ (c ∷ [])) p (ensure_dir os before s).1
  unfolding mkdir_loop ◌>>=◌
  mkdir_loop_made before p c s sep made = rw (sep, made) refl

  mkdir_loop_failed :
      (before p : List ℕ) (c : ℕ) (s : State W)
      → is_sep c ≡ true
      → (ensure_dir os before s).0 ≡ false
      → (mkdir_loop os before (c ∷ p) s).0 ≡ false
  unfolding mkdir_loop ◌>>=◌
  mkdir_loop_failed before p c s sep failed = rw (sep, failed) refl

  mkdir_loop_on :
      (before p : List ℕ) (c : ℕ) (s : State W)
      → is_sep c ≡ false
      → mkdir_loop os before (c ∷ p) s ≡ mkdir_loop os (before ++ (c ∷ [])) p s
  unfolding mkdir_loop
  mkdir_loop_on before p c s other = rw other refl

  mkdir_loop-AllDirs :
      (before p : List ℕ) (s : State W)
      → (mkdir_loop os before p s).0 ≡ true
      → AllDirs (mkdir_loop os before p s).1.world (dirs_to before p)
  unfolding dirs_to
  mkdir_loop-AllDirs before [] s h = (last_dir before s h, tt)
  mkdir_loop-AllDirs before (c ∷ p) s h =
      let next = before ++ (c ∷ []) in
      let s' = (ensure_dir os before s).1 in
      elim (Bool-cases (is_sep c)) [
        | inl sep ↦ elim (Bool-cases (ensure_dir os before s).0) [
          | inl made ↦
              let run = mkdir_loop_made before p c s sep made in
              rw (run, sep)
                (
                  mkdir_loop-Keeps next p s' before (ensure_dir_lem before s made),
                  mkdir_loop-AllDirs next p s' (rw run at h),
                )
          | inr failed ↦ absurd (no (sym (mkdir_loop_failed before p c s sep failed) ∙ h))
        ]
        | inr other ↦
            let run = mkdir_loop_on before p c s other in
            rw (run, other) (mkdir_loop-AllDirs next p s (rw run at h))
      ]

  -- When the system answers stat with what is a directory, making one makes its path one, and
  -- neither takes a directory away: if cpr_mkdir_all returns true, the path and every path in
  -- front of one of its separators, those at its start left out, is a directory.
  pub mkdir_all-AllDirs :
      (path : List ℕ) (s : State W)
      → (mkdir_all os (some path) s).0 ≡ true
      → AllDirs (mkdir_all os (some path) s).1.world (dirs_to (lead_seps path) (skip_seps path))
  unfolding mkdir_all
  mkdir_all-AllDirs path s h =
      elim (Bool-cases ((length path == 0) || leb path_max (length path))) [
        | inl refused ↦ absurd (no (rw refused at h))
        | inr fine ↦ rw fine (mkdir_loop-AllDirs (lead_seps path) (skip_seps path) s (rw fine at h))
      ]
