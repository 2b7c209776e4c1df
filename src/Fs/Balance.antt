-- ===== src/Fs/Balance.antt =====
-- src/fs.c: what a function opens or allocates, it closes and frees before it returns.
pub mod Files
pub mod Copies
pub mod Ending
pub mod Iterators
pub mod Dirs
use libcopper.Base.{
  ℕ, zero, suc, ◌+◌, ◌-◌, ◌≤◌, ◌≡◌, refl, arith, Bool, true, false, not, ◌&&◌, Bool-cases,
}
use libcopper.Base.{
  Option, none, some, List, [], ◌∷◌, length, on_option, ltb, leb, ◌==◌, if◌then◌else◌,
}
use libcopper.Error.{CprResult, err_invalid, err_io, err_oom, err_overflow}
use libcopper.Fs.Os.{Block, Os, State, Run, return, ◌>>=◌, call, act, ask, fail, checked, feed}
use libcopper.Fs.Os.{ℤ, pos, negsuc, CprFileSeek, seek_start, seek_end}
use libcopper.Fs.File.{
  checked_pos, file_read, file_write, CprFileMode, file_mode_str, wrap_stream, open_file,
  close_file, read_file, write_file,
}
use libcopper.Fs.File.{
  seek_file, tell_file, size_from, file_size, file_eof, read_sized, read_opened, read_file_all,
  write_opened, write_file_all,
}
use Prim.Native.String.{String}

abbrev pub one_if : Bool → ℕ
one_if true = 1
one_if false = 0

abbrev pub weight {ℓ} : {A : Type ℓ} → ℕ → Option A → ℕ
weight n r = on_option r 0 (λ x. n)

-- `held` counts the blocks, the streams and the directory streams that are in use.
pub record Counted {W : Type 0} (os : Os W) (held : W → ℕ) : Type 0 where
  pub malloc_held : (w : W) → held (os.malloc w).1 ≡ held w + one_if (os.malloc w).0
  pub free_held : (block : Block) (w : W) → held (os.free block w) ≡ held w - 1
  pub fopen_held :
      (path : List ℕ) (mode : String) (w : W)
      → held (os.fopen path mode w).1 ≡ held w + weight 1 (os.fopen path mode w).0
  pub fclose_held : (fp : ℕ) (w : W) → held (os.fclose fp w) ≡ held w - 1
  pub opendir_held :
      (path : List ℕ) (w : W) → held (os.opendir path w).1 ≡ held w + weight 1 (os.opendir path w).0
  pub closedir_held : (dir : ℕ) (w : W) → held (os.closedir dir w) ≡ held w - 1
  pub fread_held : (fp n : ℕ) (w : W) → held (os.fread fp n w).1 ≡ held w
  pub fwrite_held : (fp : ℕ) (bytes : List ℕ) (w : W) → held (os.fwrite fp bytes w).1 ≡ held w
  pub fseeko_held :
      (fp : ℕ) (offset : ℤ) (from : CprFileSeek) (w : W)
      → held (os.fseeko fp offset from w).1 ≡ held w
  pub ftello_held : (fp : ℕ) (w : W) → held (os.ftello fp w).1 ≡ held w
  pub readdir_held : (dir : ℕ) (w : W) → held (os.readdir dir w).1 ≡ held w
  pub fstatat_held : (dir : ℕ) (name : List ℕ) (w : W) → held (os.fstatat dir name w).1 ≡ held w
  pub unlink_held : (path : List ℕ) (w : W) → held (os.unlink path w).1 ≡ held w
  pub rmdir_held : (path : List ℕ) (w : W) → held (os.rmdir path w).1 ≡ held w

module _ {W : Type 0} (held : W → ℕ) where
  -- A run that adds what its result tells, and one that gives `n` of them back.
  unfoldable pub Gains : {A : Type 0} → (A → ℕ) → Run W A → Type 0
  Gains gain m = (s : State W) → held (m s).1.world ≡ held s.world + gain (m s).0

  unfoldable pub Loses : {A : Type 0} → ℕ → Run W A → Type 0
  Loses n m = (s : State W) → n ≤ held s.world → held (m s).1.world + n ≡ held s.world

  pub return-Loses : {A : Type 0} (x : A) → Loses 0 (return x)
  unfolding Loses
  return-Loses x s h = omega arith

  pub fail-Loses :
      {A : Type 0} (code : CprResult) (message : String) (x : A) → Loses 0 (fail code message x)
  unfolding Loses
  fail-Loses code message x s h = omega arith

  pub ask-Loses : {A : Type 0} (f : W → A) → Loses 0 (ask f)
  unfolding Loses
  ask-Loses f s h = omega arith

  pub call-Loses :
      {A : Type 0} (f : W → A × W) → ((w : W) → held (f w).1 ≡ held w) → Loses 0 (call f)
  unfolding Loses
  call-Loses f same s h = omega (arith, same s.world)

  pub act-Loses : (f : W → W) → ((w : W) → held (f w) ≡ held w - 1) → Loses 1 (act f)
  unfolding Loses
  act-Loses f less s h = omega (arith, less s.world)

  pub bind-Loses :
      {A B : Type 0} (n k : ℕ) (m : Run W A) (f : A → Run W B)
      → Loses n m
      → ((x : A) → Loses k (f x))
      → Loses (n + k) (m >>= f)
  unfolding Loses ◌>>=◌
  bind-Loses n k m f first later s h =
      omega
        (arith, first s (omega arith), later (m s).0 (m s).1 (omega (arith, first s (omega arith))))

  pub open-Loses :
      {A B : Type 0} (gain : A → ℕ) (m : Run W A) (f : A → Run W B)
      → Gains gain m
      → ((x : A) → Loses (gain x) (f x))
      → Loses 0 (m >>= f)
  unfolding Loses Gains ◌>>=◌
  open-Loses gain m f first later s h =
      omega (arith, first s, later (m s).0 (m s).1 (omega (arith, first s)))

  -- The same, while `n` more are in use.
  pub open_more-Loses :
      {A B : Type 0} (n : ℕ) (gain : A → ℕ) (m : Run W A) (f : A → Run W B)
      → Gains gain m
      → ((x : A) → Loses (n + gain x) (f x))
      → Loses n (m >>= f)
  unfolding Loses Gains ◌>>=◌
  open_more-Loses n gain m f first later s h =
      omega (arith, first s, later (m s).0 (m s).1 (omega (arith, first s)))

  pub if-Loses :
      {A : Type 0} (n : ℕ) (b : Bool) (f g : Run W A)
      → Loses n f
      → Loses n g
      → Loses n (if b then f else g)
  if-Loses n true f g kept other = kept
  if-Loses n false f g kept other = other

  pub checked-Loses :
      (code : CprResult) (message : String) (fine : Bool) → Loses 0 (checked code message fine)
  checked-Loses code message true = return-Loses true
  checked-Loses code message false = fail-Loses code message false
