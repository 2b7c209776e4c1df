-- ===== src/Fs/File.antt =====
-- src/fs.c: the functions on open files. `struct CprFile` holds nothing but its stream, so a file is
-- the number of that.
pub mod Sizes
use libcopper.Base.{
  ℕ, ◌+◌, Bool, true, false, ◌&&◌, ◌||◌, Option, none, some, List, [], length, on_option,
}
use libcopper.Base.{ltb, leb, ◌==◌, if◌then◌else◌}
use libcopper.Error.{CprResult, CprError, err_invalid, err_io, err_oom, err_overflow}
use libcopper.Fs.Os.{file_block, Os, State, Run, return, ◌>>=◌, call, act, ask, fail, checked}
use libcopper.Fs.Os.{ℤ, pos, negsuc, CprFileSeek, seek_start, seek_current, seek_end}
use Prim.Native.String.{String}

-- `CprFileMode`; an enumeration of C holds other numbers too.
pub data CprFileMode : Type 0 where
  file_read file_write file_append file_read_write : CprFileMode
  file_invalid : ℕ → CprFileMode

-- `cpr__file_mode_str`
abbrev pub file_mode_str : CprFileMode → Option String
file_mode_str file_read = some "rb"
file_mode_str file_write = some "wb"
file_mode_str file_append = some "ab"
file_mode_str file_read_write = some "r+b"
file_mode_str (file_invalid n) = none

module _ {W : Type 0} (os : Os W) where
  -- The last lines of `cpr_open_file`
  abbrev pub wrap_stream : ℕ → Bool → Run W (Option ℕ)
  wrap_stream fp true = return (some fp)
  wrap_stream fp false = do _ ← act (os.fclose fp); fail err_oom "out of memory" none

  -- `cpr_open_file`
  unfoldable pub open_file : Option (List ℕ) → CprFileMode → Run W (Option ℕ)
  open_file none mode = fail err_invalid "path is NULL" none
  open_file (some path) mode =
      on_option (file_mode_str mode) (fail err_invalid "invalid mode" none) (λ mstr.
        call (os.fopen path mstr) >>= λ fp.
        on_option fp (fail err_io "fopen failed" none) (λ fp. call os.malloc >>= wrap_stream fp))

  -- `cpr_close_file`
  unfoldable pub close_file : Option ℕ → Run W Unit
  close_file none = return tt
  close_file (some fp) = do _ ← act (os.fclose fp); act (os.free (file_block fp))

  -- `cpr_read_file`: the bytes that it stores in front of `buf`, whose number it returns.
  unfoldable pub read_file : Option ℕ → Bool → ℕ → Run W (List ℕ)
  read_file none buf buf_size = fail err_invalid "NULL argument" []
  read_file (some fp) false buf_size = fail err_invalid "NULL argument" []
  read_file (some fp) true buf_size = do
    bytes ← call (os.fread fp buf_size)
    broken ← ask (os.ferror fp)
    if ltb (length bytes) buf_size && broken then fail err_io "read failed" bytes else return bytes

  -- `cpr_write_file`, of all the bytes that `buf` shows.
  unfoldable pub write_file : Option ℕ → Option (List ℕ) → Run W ℕ
  write_file none buf = fail err_invalid "NULL argument" 0
  write_file (some fp) none = fail err_invalid "NULL argument" 0
  write_file (some fp) (some bytes) = do
    n ← call (os.fwrite fp bytes)
    if ltb n (length bytes) then fail err_io "write failed" n else return n

  -- `cpr_seek_file`
  unfoldable pub seek_file : Option ℕ → ℤ → CprFileSeek → Run W Bool
  seek_file none offset from = fail err_invalid "NULL file" false
  seek_file (some fp) offset from = call (os.fseeko fp offset from) >>= checked err_io "seek failed"

  abbrev pub checked_pos : ℤ → Run W ℤ
  checked_pos (pos n) = return (pos n)
  checked_pos (negsuc n) = fail err_io "tell failed" (negsuc n)

  -- `cpr_tell_file`
  unfoldable pub tell_file : Option ℕ → Run W ℤ
  tell_file none = fail err_invalid "NULL file" (negsuc 0)
  tell_file (some fp) = call (os.ftello fp) >>= checked_pos

  -- `cpr_file_size`, from the position `cur` on.
  abbrev pub size_from : Option ℕ → ℤ → Run W ℤ
  size_from file (negsuc n) = return (negsuc 0)
  size_from file (pos n) = do
    sought ← seek_file file (pos 0) seek_end
    if sought
        then (do end ← tell_file file; _ ← seek_file file (pos n) seek_start; return end)
        else return (negsuc 0)

  -- `cpr_file_size`
  unfoldable pub file_size : Option ℕ → Run W ℤ
  unfolding seek_file tell_file
  file_size none = fail err_invalid "NULL file" (negsuc 0)
  file_size (some fp) = tell_file (some fp) >>= size_from (some fp)

  -- `cpr_flush_file`
  unfoldable pub flush_file : Option ℕ → Run W Bool
  flush_file none = fail err_invalid "NULL file" false
  flush_file (some fp) = call (os.fflush fp) >>= checked err_io "flush failed"

  -- `cpr_file_eof`
  unfoldable pub file_eof : Option ℕ → Run W Bool
  file_eof none = return false
  file_eof (some fp) = ask (os.feof fp)

  -- `cpr_read_file_all` with the size `sz` of the file. Its result is what it returns, and the bytes
  -- that it stores in front of `buf` when it reads; their number goes to `out_size`.
  abbrev pub read_sized : ℕ → ℕ → ℤ → Run W (Bool × Option (List ℕ))
  read_sized fp buf_size (negsuc n) = do _ ← close_file (some fp); return (false, none)
  read_sized fp buf_size (pos sz) =
      if ltb buf_size sz
      then (do
        _ ← close_file (some fp)
        fail err_overflow "file too large for buffer" (false, none))
      else (do
        bytes ← read_file (some fp) true sz
        _ ← close_file (some fp)
        if ltb (length bytes) sz
            then fail err_io "short read" (false, some bytes)
            else return (true, some bytes))

  abbrev pub read_opened : ℕ → Option ℕ → Run W (Bool × Option (List ℕ))
  read_opened buf_size none = return (false, none)
  read_opened buf_size (some fp) = file_size (some fp) >>= read_sized fp buf_size

  -- `cpr_read_file_all`
  unfoldable pub read_file_all : Option (List ℕ) → Bool → ℕ → Run W (Bool × Option (List ℕ))
  unfolding open_file file_size read_file close_file
  read_file_all none buf buf_size = fail err_invalid "NULL argument" (false, none)
  read_file_all (some path) false buf_size = fail err_invalid "NULL argument" (false, none)
  read_file_all (some path) true buf_size = open_file (some path) file_read >>= read_opened buf_size

  abbrev pub write_opened : Option (List ℕ) → ℕ → Option ℕ → Run W Bool
  write_opened buf data_size none = return false
  write_opened buf data_size (some fp) = do
    n ← write_file (some fp) buf
    _ ← close_file (some fp)
    return (leb data_size n)

  -- `cpr_write_file_all`; `buf` shows `data_size` bytes.
  unfoldable pub write_file_all : Option (List ℕ) → Option (List ℕ) → ℕ → Run W Bool
  unfolding open_file write_file close_file
  write_file_all none buf data_size = fail err_invalid "NULL argument" false
  write_file_all (some path) buf data_size =
      if on_option buf (ltb 0 data_size) (λ bytes. false)
      then fail err_invalid "NULL argument" false
      else open_file (some path) file_write >>= write_opened buf data_size
