-- ===== src/Log/FileSink.antt =====
-- src/log.c: the sink that writes to a file, and the rotation of its files. The functions of
-- src/fs.c that it calls are those of Fs.
pub mod Rotate
pub mod Archive
pub mod Life
use libcopper.Base.{
  ℕ, zero, suc, ◌+◌, ◌-◌, ◌%◌, ◌^◌, Bool, true, false, not, ◌&&◌, ◌||◌, Option, none, some,
}
use libcopper.Base.{List, [], ◌∷◌, ◌++◌, length, take, on_option, ltb, leb, ◌==◌, if◌then◌else◌}
use libcopper.Fs.Os.{Os, State, Run, return, ◌>>=◌, ℤ, pos, negsuc}
use libcopper.Fs.File.{
  CprFileMode, file_write, file_append, open_file, close_file, write_file, flush_file, file_size,
}
use libcopper.Fs.Disk.{remove_file, fs_rename}
use libcopper.Log.Line.{CprLogMessage, decimal}

-- `CprLogRollMode`
pub data CprLogRollMode : Type 0 where
  roll_none roll_size roll_daily roll_hourly : CprLogRollMode

-- The part of `CprDateTime` that decides on a rotation.
pub record RollTime : Type 0 where
  pub yday : ℕ
  pub hour : ℕ

-- `CprFileSink` without its base; a negative `max_files` is taken as 0, like which it acts.
pub record CprFileSink : Type 0 where
  pub path : List ℕ
  pub roll_mode : CprLogRollMode
  pub max_bytes : ℕ
  pub max_files : ℕ
  pub file : Option ℕ
  pub current_size : ℕ
  pub current_day : ℕ
  pub current_hour : ℕ

-- `snprintf(old_path, sizeof(old_path), "%s.%d", fs->path, i)`
unfoldable pub numbered : List ℕ → ℕ → List ℕ
numbered path i = take 511 (path ++ (b'.' ∷ decimal i))

module _ {W : Type 0} (os : Os W) where
  -- The loop of `cpr__file_rotate`, from `i` down to 1.
  pub shift_loop : List ℕ → ℕ → Run W Unit
  unfolding numbered
  shift_loop path zero = return tt
  shift_loop path (suc i) = do
    _ ← fs_rename os (some (numbered path (suc i))) (some (numbered path (suc i + 1)))
    shift_loop path i

  -- `cpr__file_rotate`
  abbrev pub top_of : CprFileSink → ℕ
  top_of fs = if ltb 0 fs.max_files then fs.max_files - 1 else 999

  pub file_rotate : CprFileSink → Run W CprFileSink
  unfolding shift_loop
  file_rotate fs = do
    _ ← close_file os fs.file
    _ ←
        (if ltb 0 fs.max_files
          then remove_file os (some (numbered fs.path fs.max_files))
          else return true)
    _ ← shift_loop fs.path (top_of fs)
    _ ← fs_rename os (some fs.path) (some (numbered fs.path 1))
    file ← open_file os (some fs.path) file_write
    return (record fs { file = file; current_size = 0 })

  -- Whether `cpr__file_maybe_rotate` rotates at the time `dt`.
  abbrev pub is_due : CprFileSink → CprLogRollMode → RollTime → Bool
  is_due fs roll_none dt = false
  is_due fs roll_size dt = ltb 0 fs.max_bytes && leb fs.max_bytes fs.current_size
  is_due fs roll_daily dt = not (dt.yday == fs.current_day)
  is_due fs roll_hourly dt = not (dt.hour == fs.current_hour)

  -- What it remembers after a rotation.
  abbrev pub rolled : CprLogRollMode → RollTime → CprFileSink → CprFileSink
  rolled roll_none dt fs = fs
  rolled roll_size dt fs = fs
  rolled roll_daily dt fs = record fs { current_day = dt.yday }
  rolled roll_hourly dt fs = record fs { current_hour = dt.hour }

  -- `cpr__file_maybe_rotate`; `dt` is the local time of the message.
  pub file_maybe_rotate : CprFileSink → RollTime → Run W CprFileSink
  unfolding file_rotate
  file_maybe_rotate fs dt =
      if is_due fs fs.roll_mode dt
      then (file_rotate fs >>= λ fs. return (rolled fs.roll_mode dt fs))
      else return fs

  -- `cpr__file_write`
  abbrev pub write_open : List ℕ → CprFileSink → Run W CprFileSink
  write_open line fs = on_option fs.file (return fs) (λ fp.
      write_file os (some fp) (some line) >>= λ n.
      return (record fs { current_size = (fs.current_size + length line) % 2 ^ 64 }))

  unfoldable pub file_sink_write : CprFileSink → RollTime → List ℕ → Run W CprFileSink
  unfolding file_maybe_rotate
  file_sink_write fs dt line = file_maybe_rotate fs dt >>= write_open line

  -- `cpr__file_flush`
  unfoldable pub file_sink_flush : CprFileSink → Run W Unit
  file_sink_flush fs =
      on_option fs.file (return tt) (λ fp. flush_file os (some fp) >>= λ done. return tt)
