-- ===== src/Log/FileSink/Life.antt =====
-- src/log.c: `cpr_log_file_sink` and `cpr__file_destroy`.
use libcopper.Base.{
  ℕ, ◌+◌, ◌≤◌, ◌≡◌, refl, arith, Bool, true, false, Option, none, some, List, on_option,
}
use Prim.Native.String.{String}
use libcopper.Error.{CprResult, err_invalid, err_oom}
use libcopper.Fs.Os.{
  Block, text_block, sink_block, Os, State, Run, return, ◌>>=◌, call, act, fail, ℤ, pos, negsuc,
}
use libcopper.Fs.File.{CprFileMode, file_write, file_append, open_file, close_file, file_size}
use libcopper.Fs.Balance.{
  Counted, weight, one_if, Gains, Loses, return-Loses, act-Loses, bind-Loses,
}
use libcopper.Fs.Balance.Files.{open_file-Gains, close_file-Loses, file_size-Loses}
use libcopper.Log.FileSink.{CprFileSink, CprLogRollMode, RollTime}

-- `CprLogFileMode`
pub data CprLogFileMode : Type 0 where
  log_file_append log_file_overwrite : CprLogFileMode

pub record CprFileSinkConfig : Type 0 where
  pub path : Option (List ℕ)
  pub open_mode : CprLogFileMode
  pub roll_mode : CprLogRollMode
  pub max_bytes : ℕ
  pub max_files : ℕ

abbrev mode_of : CprLogFileMode → CprFileMode
mode_of log_file_append = file_append
mode_of log_file_overwrite = file_write

-- `(sz > 0) ? (size_t)sz : 0`
abbrev size_or_zero : ℤ → ℕ
size_or_zero (pos n) = n
size_or_zero (negsuc n) = 0

abbrev new_sink : CprFileSinkConfig → List ℕ → RollTime → ℕ → ℕ → CprFileSink
new_sink config path dt fp size = record {
  path = path;
  roll_mode = config.roll_mode;
  max_bytes = config.max_bytes;
  max_files = config.max_files;
  file = some fp;
  current_size = size;
  current_day = dt.yday;
  current_hour = dt.hour;
}

module _ {W : Type 0} (os : Os W) where
  abbrev first_size : CprLogFileMode → ℕ → Run W ℕ
  first_size log_file_append fp = file_size os (some fp) >>= λ size. return (size_or_zero size)
  first_size log_file_overwrite fp = return 0

  -- The end of `cpr_log_file_sink`, from the file on, from the block for the path on, and from the
  -- block for the sink on. `dt` is the local time.
  abbrev with_file : CprFileSinkConfig → List ℕ → RollTime → Option ℕ → Run W (Option CprFileSink)
  with_file config path dt none = do
    _ ← act (os.free (text_block path))
    _ ← act (os.free sink_block)
    return none
  with_file config path dt (some fp) =
      first_size config.open_mode fp >>= λ size. return (some (new_sink config path dt fp size))

  abbrev with_path : CprFileSinkConfig → List ℕ → RollTime → Bool → Run W (Option CprFileSink)
  with_path config path dt false = do
    _ ← act (os.free sink_block)
    fail err_oom "out of memory" none
  with_path config path dt true =
      open_file os (some path) (mode_of config.open_mode) >>= with_file config path dt

  abbrev with_block : CprFileSinkConfig → List ℕ → RollTime → Bool → Run W (Option CprFileSink)
  with_block config path dt false = fail err_oom "out of memory" none
  with_block config path dt true = call os.malloc >>= with_path config path dt

  abbrev configured_sink :
      CprFileSinkConfig → RollTime → Option (List ℕ) → Run W (Option CprFileSink)
  configured_sink config dt none = fail err_invalid "path is NULL" none
  configured_sink config dt (some path) = call os.malloc >>= with_block config path dt

  -- `cpr_log_file_sink`
  pub log_file_sink : Option CprFileSinkConfig → RollTime → Run W (Option CprFileSink)
  unfolding open_file file_size
  log_file_sink none dt = fail err_invalid "config is NULL" none
  log_file_sink (some config) dt = configured_sink config dt config.path

  -- `cpr__file_destroy`
  unfoldable pub file_sink_destroy : CprFileSink → Run W Unit
  unfolding close_file
  file_sink_destroy fs = do
    _ ← close_file os fs.file
    _ ← act (os.free (text_block fs.path))
    act (os.free sink_block)

-- What a sink holds: its two blocks, and its file.
abbrev pub held_by : Option CprFileSink → ℕ
held_by r = on_option r 0 (λ fs. weight 2 fs.file + 2)

module _ {W : Type 0} (held : W → ℕ) where
  -- A run that starts with `n` of what is in use, and leaves what its result holds.
  unfoldable Leaves : ℕ → Run W (Option CprFileSink) → Type 0
  Leaves n m =
      (s : State W) → n ≤ held s.world → held (m s).1.world + n ≡ held s.world + held_by (m s).0

  none-Leaves : (code : CprResult) (message : String) → Leaves 0 (fail code message none)
  unfolding Leaves
  none-Leaves code message s h = refl

  return-Leaves : (r : Option CprFileSink) → Leaves (held_by r) (return r)
  unfolding Leaves
  return-Leaves r s h = refl

  after-Leaves :
      {A : Type 0} (n k : ℕ) (m : Run W A) (f : A → Run W (Option CprFileSink))
      → Loses held k m
      → ((x : A) → Leaves n (f x))
      → Leaves (k + n) (m >>= f)
  unfolding Leaves Loses ◌>>=◌
  after-Leaves n k m f first later s h =
      omega
        (arith, first s (omega arith), later (m s).0 (m s).1 (omega (arith, first s (omega arith))))

  gain-Leaves :
      {A : Type 0} (n : ℕ) (gain : A → ℕ) (m : Run W A) (f : A → Run W (Option CprFileSink))
      → Gains held gain m
      → ((x : A) → Leaves (n + gain x) (f x))
      → Leaves n (m >>= f)
  unfolding Leaves Gains ◌>>=◌
  gain-Leaves n gain m f first later s h =
      omega (arith, first s, later (m s).0 (m s).1 (omega (arith, first s)))

module _ {W : Type 0} (os : Os W) (held : W → ℕ) (counted : Counted os held) where
  free-Loses : (block : Block) → Loses held 1 (act (os.free block))
  free-Loses block = act-Loses held (os.free block) (counted.free_held block)

  malloc-Gains : Gains held one_if (call os.malloc)
  unfolding Gains
  malloc-Gains s = counted.malloc_held s.world

  first_size-Loses : (mode : CprLogFileMode) (fp : ℕ) → Loses held 0 (first_size os mode fp)
  first_size-Loses log_file_append fp =
      bind-Loses held 0 0 (file_size os (some fp)) (λ size. return (size_or_zero size))
        (file_size-Loses os held counted fp) (λ size. return-Loses held (size_or_zero size))
  first_size-Loses log_file_overwrite fp = return-Loses held 0

  with_file-Leaves :
      (config : CprFileSinkConfig) (path : List ℕ) (dt : RollTime) (file : Option ℕ)
      → Leaves held (2 + weight 2 file) (with_file os config path dt file)
  with_file-Leaves config path dt none =
      after-Leaves held 1 1 (act (os.free (text_block path))) _ (free-Loses (text_block path)) (λ x.
        after-Leaves held 0 1 (act (os.free sink_block)) (λ y. return none) (free-Loses sink_block)
          (λ y. return-Leaves held none))
  with_file-Leaves config path dt (some fp) =
      after-Leaves held 4 0 (first_size os config.open_mode fp) _
        (first_size-Loses config.open_mode fp)
        (λ size. return-Leaves held (some (new_sink config path dt fp size)))

  with_path-Leaves :
      (config : CprFileSinkConfig) (path : List ℕ) (dt : RollTime) (fits : Bool)
      → Leaves held (1 + one_if fits) (with_path os config path dt fits)
  with_path-Leaves config path dt false =
      after-Leaves held 0 1 (act (os.free sink_block)) _ (free-Loses sink_block)
        (λ x. none-Leaves held err_oom "out of memory")
  with_path-Leaves config path dt true =
      gain-Leaves held 2 (weight 2) (open_file os (some path) (mode_of config.open_mode)) _
        (open_file-Gains os held counted (some path) (mode_of config.open_mode))
        (with_file-Leaves config path dt)

  with_block-Leaves :
      (config : CprFileSinkConfig) (path : List ℕ) (dt : RollTime) (fits : Bool)
      → Leaves held (0 + one_if fits) (with_block os config path dt fits)
  with_block-Leaves config path dt false = none-Leaves held err_oom "out of memory"
  with_block-Leaves config path dt true =
      gain-Leaves held 1 one_if (call os.malloc) _ malloc-Gains (with_path-Leaves config path dt)

  configured_sink-Leaves :
      (config : CprFileSinkConfig) (dt : RollTime) (path : Option (List ℕ))
      → Leaves held 0 (configured_sink os config dt path)
  configured_sink-Leaves config dt none = none-Leaves held err_invalid "path is NULL"
  configured_sink-Leaves config dt (some path) =
      gain-Leaves held 0 one_if (call os.malloc) _ malloc-Gains (with_block-Leaves config path dt)

  log_file_sink-Leaves :
      (config : Option CprFileSinkConfig) (dt : RollTime)
      → Leaves held 0 (log_file_sink os config dt)
  unfolding log_file_sink
  log_file_sink-Leaves none dt = none-Leaves held err_invalid "config is NULL"
  log_file_sink-Leaves (some config) dt = configured_sink-Leaves config dt config.path

  destroy-Loses : (fs : CprFileSink) → Loses held (weight 2 fs.file + 2) (file_sink_destroy os fs)
  unfolding file_sink_destroy
  destroy-Loses fs =
      bind-Loses held (weight 2 fs.file) 2 (close_file os fs.file) _
        (close_file-Loses os held counted fs.file)
        (λ x.
          bind-Loses held 1 1 (act (os.free (text_block fs.path))) (λ y. act (os.free sink_block))
            (free-Loses (text_block fs.path)) (λ y. free-Loses sink_block))

  -- When a call that opens or allocates adds one to what is in use exactly if it succeeds, a call
  -- that closes or frees takes one off, and the calls on open files do not change the number:
  -- cpr_log_file_sink adds the two blocks and the file of the sink that it returns, and nothing
  -- when it returns a null pointer, and cpr__file_destroy, of a sink whose blocks and file are in
  -- use, takes just these off.
  pub file_sink_balanced :
      (config : Option CprFileSinkConfig) (dt : RollTime) (s : State W) (fs : CprFileSink)
      (t : State W)
      → held_by (some fs) ≤ held t.world
      → (held (log_file_sink os config dt s).1.world
          ≡ held s.world + held_by (log_file_sink os config dt s).0)
        × (held (file_sink_destroy os fs t).1.world + held_by (some fs) ≡ held t.world)
  unfolding Leaves Loses
  file_sink_balanced config dt s fs t h =
      (omega (arith, log_file_sink-Leaves config dt s (omega arith)), destroy-Loses fs t h)
