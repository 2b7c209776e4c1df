-- ===== src/Fs/File/Sizes.antt =====
-- `cpr_read_file_all` of src/fs.c stays inside the buffer.
use libcopper.Base.{ℕ, ◌≤◌, ◌≡◌, refl, arith, inl, inr, Bool, true, false, ◌&&◌, Bool-cases}
use libcopper.Base.{Option, none, some, List, length, ltb, if◌then◌else◌}
use libcopper.Fs.Os.{Os, State, Run, return, ◌>>=◌, fail, ℤ, pos, negsuc}
use libcopper.Error.{CprResult, err_invalid, err_io, err_overflow}
use Prim.Native.String.{String}
use libcopper.Fs.File.{
  file_read, open_file, close_file, read_file, file_size, read_sized, read_opened, read_file_all,
}

-- The bytes that are stored fit.
abbrev pub Within : ℕ → Bool × Option (List ℕ) → Type 0
Within n (b, none) = Unit
Within n (b, some bytes) = length bytes ≤ n

module _ {W : Type 0} (os : Os W)
    (fread_size : (fp n : ℕ) (w : W) → length (os.fread fp n w).0 ≤ n) where
  -- Whatever the state, the result satisfies `good`.
  unfoldable Yields : {A : Type 0} → (A → Type 0) → Run W A → Type 0
  Yields good m = (s : State W) → good (m s).0

  return-Yields : {A : Type 0} (good : A → Type 0) (x : A) → good x → Yields good (return x)
  unfolding Yields
  return-Yields good x h s = h

  fail-Yields :
      {A : Type 0} (good : A → Type 0) (x : A) (code : CprResult) (message : String)
      → good x
      → Yields good (fail code message x)
  unfolding Yields
  fail-Yields good x code message h s = h

  bind-Yields :
      {A B : Type 0} (mid : A → Type 0) (good : B → Type 0) (m : Run W A) (f : A → Run W B)
      → Yields mid m
      → ((x : A) → mid x → Yields good (f x))
      → Yields good (m >>= f)
  unfolding Yields ◌>>=◌
  bind-Yields mid good m f first later s = later (m s).0 (first s) (m s).1

  any-Yields : {A : Type 0} (m : Run W A) → Yields (λ x. Unit) m
  unfolding Yields
  any-Yields m s = tt

  if-Yields :
      {A : Type 0} (good : A → Type 0) (b : Bool) (f g : Run W A)
      → (b ≡ true → Yields good f)
      → (b ≡ false → Yields good g)
      → Yields good (if b then f else g)
  if-Yields good true f g given other = given refl
  if-Yields good false f g given other = other refl

  read_file-Yields : (fp n : ℕ) → Yields (λ bytes. length bytes ≤ n) (read_file os (some fp) true n)
  unfolding read_file Yields ◌>>=◌
  read_file-Yields fp n s =
      elim (Bool-cases
        (ltb (length (os.fread fp n s.world).0) n && os.ferror fp (os.fread fp n s.world).1)) [
          | inl broken ↦ rw broken (fread_size fp n s.world)
          | inr fine ↦ rw fine (fread_size fp n s.world)
        ]

  -- After closing the file
  closed-Yields :
      {A : Type 0} (good : A → Type 0) (fp : ℕ) (m : Run W A)
      → Yields good m
      → Yields good (close_file os (some fp) >>= λ x. m)
  closed-Yields good fp m h =
      bind-Yields (λ x. Unit) good (close_file os (some fp)) (λ x. m)
        (any-Yields (close_file os (some fp))) (λ x u. h)

  read_sized-Yields :
      (fp buf_size : ℕ) (size : ℤ) → Yields (Within buf_size) (read_sized os fp buf_size size)
  read_sized-Yields fp buf_size (negsuc n) =
      closed-Yields (Within buf_size) fp _ (return-Yields (Within buf_size) (false, none) tt)
  read_sized-Yields fp buf_size (pos sz) =
      if-Yields (Within buf_size) (ltb buf_size sz) _ _
        (λ large.
          closed-Yields (Within buf_size) fp _ (
            fail-Yields (Within buf_size) (false, none) err_overflow "file too large for buffer"
              tt))
        (λ fits.
          let room : sz ≤ buf_size = ground arith in
          bind-Yields (λ bytes. length bytes ≤ sz) (Within buf_size)
            (read_file os (some fp) true sz) _ (read_file-Yields fp sz)
            (λ bytes h. closed-Yields (Within buf_size) fp _ (
              if-Yields (Within buf_size) (ltb (length bytes) sz) _ _
                (λ short.
                  fail-Yields (Within buf_size) (false, some bytes) err_io "short read"
                    (omega arith))
                (λ full. return-Yields (Within buf_size) (true, some bytes) (omega arith)))))

  read_opened-Yields :
      (buf_size : ℕ) (file : Option ℕ) → Yields (Within buf_size) (read_opened os buf_size file)
  read_opened-Yields buf_size none = return-Yields (Within buf_size) (false, none) tt
  read_opened-Yields buf_size (some fp) =
      bind-Yields (λ size. Unit) (Within buf_size) (file_size os (some fp))
        (read_sized os fp buf_size) (any-Yields (file_size os (some fp)))
        (λ size u. read_sized-Yields fp buf_size size)

  read_file_all-Yields :
      (path : Option (List ℕ)) (buf : Bool) (buf_size : ℕ)
      → Yields (Within buf_size) (read_file_all os path buf buf_size)
  unfolding read_file_all
  read_file_all-Yields none buf buf_size =
      fail-Yields (Within buf_size) (false, none) err_invalid "NULL argument" tt
  read_file_all-Yields (some path) false buf_size =
      fail-Yields (Within buf_size) (false, none) err_invalid "NULL argument" tt
  read_file_all-Yields (some path) true buf_size =
      bind-Yields (λ file. Unit) (Within buf_size) (open_file os (some path) file_read)
        (read_opened os buf_size) (any-Yields (open_file os (some path) file_read))
        (λ file u. read_opened-Yields buf_size file)

  -- When fread returns no more bytes than it is asked for, cpr_read_file_all stores no more bytes
  -- than the buffer has room for, whatever size the file has and whatever fails.
  pub read_file_all-Within :
      (path : Option (List ℕ)) (buf : Bool) (buf_size : ℕ) (s : State W)
      → Within buf_size (read_file_all os path buf buf_size s).0
  unfolding Yields
  read_file_all-Within path buf buf_size s = read_file_all-Yields path buf buf_size s
