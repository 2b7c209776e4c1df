-- ===== src/Fs/Copy.antt =====
-- src/fs.c: `cpr_fs_copy`.
pub mod Content
pub mod Ends
use libcopper.Base.{ℕ, zero, suc, Bool, true, false, not, ◌&&◌, Option, none, some}
use libcopper.Base.{List, [], length, on_option, ◌==◌, if◌then◌else◌}
use libcopper.Error.{err_invalid}
use libcopper.Fs.Os.{Os, State, Run, return, ◌>>=◌, fail}
use libcopper.Fs.File.{
  file_read, file_write, open_file, close_file, read_file, write_file, file_eof,
}
use libcopper.Fs.Disk.{remove_file}

module _ {W : Type 0} (os : Os W) where
  -- What a write of `n` of the bytes leads to, and what a read leads to. `again` is the rest of the
  -- loop. The result is the flag `ok` after the test for the end of the file.
  abbrev pub copy_wrote : Run W (Option Bool) → List ℕ → ℕ → Run W (Option Bool)
  copy_wrote again bytes n = if n == length bytes then again else return (some false)

  abbrev pub copy_chunk : Run W (Option Bool) → ℕ → ℕ → List ℕ → Run W (Option Bool)
  copy_chunk again in_file out_file bytes =
      if length bytes == 0
      then (file_eof os (some in_file) >>= λ eof. return (some eof))
      else (write_file os (some out_file) (some bytes) >>= copy_wrote again bytes)

  -- The loop. The fuel bounds the number of reads; without fuel the result is `none`.
  unfoldable pub copy_loop : ℕ → ℕ → ℕ → Run W (Option Bool)
  unfolding read_file write_file file_eof
  copy_loop zero in_file out_file = return none
  copy_loop (suc fuel) in_file out_file =
      read_file os (some in_file) true 8192
      >>= copy_chunk (copy_loop fuel in_file out_file) in_file out_file

  -- What follows the loop.
  abbrev pub finish_copy : List ℕ → ℕ → ℕ → Option Bool → Run W (Option Bool)
  finish_copy dst_path in_file out_file done = do
    _ ← close_file os (some in_file)
    _ ← close_file os (some out_file)
    _ ←
        (if on_option done false (λ good. not good)
          then remove_file os (some dst_path)
          else return true)
    return done

  abbrev pub copy_between : ℕ → List ℕ → ℕ → Option ℕ → Run W (Option Bool)
  copy_between fuel dst_path in_file none = do _ ← close_file os (some in_file); return (some false)
  copy_between fuel dst_path in_file (some out_file) =
      copy_loop fuel in_file out_file >>= finish_copy dst_path in_file out_file

  abbrev pub copy_from : ℕ → List ℕ → Option ℕ → Run W (Option Bool)
  copy_from fuel dst_path none = return (some false)
  copy_from fuel dst_path (some in_file) =
      open_file os (some dst_path) file_write >>= copy_between fuel dst_path in_file

  -- `cpr_fs_copy`
  unfoldable pub fs_copy : ℕ → Option (List ℕ) → Option (List ℕ) → Run W (Option Bool)
  unfolding open_file copy_loop close_file remove_file
  fs_copy fuel none dst_path = fail err_invalid "NULL argument" (some false)
  fs_copy fuel (some src_path) none = fail err_invalid "NULL argument" (some false)
  fs_copy fuel (some src_path) (some dst_path) =
      open_file os (some src_path) file_read >>= copy_from fuel dst_path
