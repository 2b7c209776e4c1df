-- ===== src/Fs/Os.antt =====
-- The calls of libc and of POSIX that src/fs.c makes. They are not part of this repository, so they
-- are a parameter: a record of functions on the state `W` of the system. A string is the list of its
-- characters, a stream and a directory stream are numbers, and a null pointer is `none`.
use libcopper.Base.{ℕ, Bool, true, false, List, Option}
use libcopper.Error.{CprResult, CprError, set_error}
use Prim.Native.String.{String}

-- `int64_t`
pub data ℤ : Type 0 where
  pos : ℕ → ℤ
  negsuc : ℕ → ℤ

-- What `S_ISREG` and `S_ISDIR` tell of `st_mode`.
pub data FileKind : Type 0 where
  regular directory special : FileKind

-- The fields of `struct stat` that are read.
pub record Stat : Type 0 where
  pub kind : FileKind
  pub size : ℕ
  pub sec : ℕ
  pub nsec : ℕ

-- `d_type` of `struct dirent`, and its name.
pub data EntryType : Type 0 where
  dt_reg dt_dir dt_unknown : EntryType

pub record Dirent : Type 0 where
  pub name : List ℕ
  pub d_type : EntryType

-- `SEEK_SET`, `SEEK_CUR` and `SEEK_END`
pub data CprFileSeek : Type 0 where
  seek_start seek_current seek_end : CprFileSeek

-- The block that a pointer given to `free` shows, named by what it holds: the structs of a file and of
-- a directory iterator, whose stream may not be open yet, a string, and the struct of a sink of the
-- log.
pub data Block : Type 0 where
  file_block : ℕ → Block
  dir_block : Option ℕ → Block
  text_block : List ℕ → Block
  sink_block : Block

-- A `Bool` tells whether a call succeeds. `fread` returns the bytes that it stores, and `fwrite` the
-- number of bytes that it takes. `malloc` tells whether there is
-- a block of memory, and `free` gives back the one that its pointer shows.
pub record Os (W : Type 0) : Type 1 where
  pub malloc : W → Bool × W
  pub free : Block → W → W
  pub getcwd : ℕ → W → Option (List ℕ) × W
  pub stat : List ℕ → W → Option Stat × W
  pub mkdir : List ℕ → W → Bool × W
  pub unlink : List ℕ → W → Bool × W
  pub rmdir : List ℕ → W → Bool × W
  pub rename : List ℕ → List ℕ → W → Bool × W
  pub fopen : List ℕ → String → W → Option ℕ × W
  pub fclose : ℕ → W → W
  pub fread : ℕ → ℕ → W → List ℕ × W
  pub fwrite : ℕ → List ℕ → W → ℕ × W
  pub ferror : ℕ → W → Bool
  pub feof : ℕ → W → Bool
  pub fseeko : ℕ → ℤ → CprFileSeek → W → Bool × W
  pub ftello : ℕ → W → ℤ × W
  pub fflush : ℕ → W → Bool × W
  pub opendir : List ℕ → W → Option ℕ × W
  pub closedir : ℕ → W → W
  pub readdir : ℕ → W → Option Dirent × W
  pub fstatat : ℕ → List ℕ → W → Option Stat × W

-- The system and the error state of the thread.
pub record State (W : Type 0) : Type 0 where
  pub world : W
  pub error : CprError

-- A piece of code that reads and changes both.
abbrev pub Run : Type 0 → Type 0 → Type 0
Run W A = State W → A × State W

abbrev pub return : {W A : Type 0} → A → Run W A
return x s = (x, s)

abbrev pub feed : {W A B : Type 0} → (A → Run W B) → A × State W → B × State W
feed k (x, s) = k x s

infixl 5 ◌>>=◌
unfoldable pub ◌>>=◌ : {W A B : Type 0} → Run W A → (A → Run W B) → Run W B
(m >>= k) s = feed k (m s)

-- A call that answers, and one that only acts.
abbrev pub with_world : {W A : Type 0} → State W → A × W → A × State W
with_world s (x, w) = (x, record s { world = w })

abbrev pub call : {W A : Type 0} → (W → A × W) → Run W A
call f s = with_world s (f s.world)

abbrev pub act : {W : Type 0} → (W → W) → Run W Unit
act f s = (tt, record s { world = f s.world })

abbrev pub ask : {W A : Type 0} → (W → A) → Run W A
ask f s = (f s.world, s)

-- `cpr__set_error`, then a return.
abbrev pub fail : {W A : Type 0} → CprResult → String → A → Run W A
fail code message x s = (x, record s { error = set_error code message s.error })

-- What a call that failed or succeeded returns.
abbrev pub checked : {W : Type 0} → CprResult → String → Bool → Run W Bool
checked code message true = return true
checked code message false = fail code message false
