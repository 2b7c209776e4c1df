-- ===== src/Fs/Disk.antt =====
-- src/fs.c: the functions on paths of the file system.
pub mod Parents
pub mod Errors
use libcopper.Base.{
  ℕ, suc, ◌+◌, ◌*◌, ◌/◌, ◌%◌, ◌^◌, Bool, true, false, not, ◌||◌, Option, none, some,
}
use libcopper.Base.{List, [], ◌∷◌, ◌++◌, length, on_option, ltb, leb, ◌==◌, if◌then◌else◌}
use libcopper.Error.{CprResult, CprError, ok, err_invalid, err_io}
use libcopper.Fs.Os.{Os, State, Run, return, ◌>>=◌, call, fail, checked}
use libcopper.Fs.Os.{Stat, FileKind, regular, directory, special}
use libcopper.Fs.Path.{is_sep}
use libcopper.Fs.Path.Normalize.{skip_seps}

-- `CPR_FS_PATH_MAX`
abbrev pub path_max : ℕ
path_max = 4096

pub data CprFsType : Type 0 where
  fs_type_file fs_type_dir fs_type_other : CprFsType

pub record CprFsStat : Type 0 where
  pub size : ℕ
  pub mtime_ms : ℕ
  pub type : CprFsType

-- The type of `st_mode`, and the tests of it.
abbrev pub type_of : FileKind → CprFsType
type_of regular = fs_type_file
type_of directory = fs_type_dir
type_of special = fs_type_other

abbrev pub s_isreg : FileKind → Bool
s_isreg regular = true
s_isreg directory = false
s_isreg special = false

abbrev pub s_isdir : FileKind → Bool
s_isdir regular = false
s_isdir directory = true
s_isdir special = false

-- The numbers are unsigned of 64 bits.
abbrev pub fill_stat : Stat → CprFsStat
fill_stat st = record {
  size = if s_isdir st.kind then 0 else st.size;
  mtime_ms = ((st.sec * 1000) % 2 ^ 64 + st.nsec / 1000000) % 2 ^ 64;
  type = type_of st.kind;
}

-- The separators in front, which `skip_seps` passes.
abbrev pub lead_seps : List ℕ → List ℕ
lead_seps [] = []
lead_seps (c ∷ p) = if is_sep c then c ∷ lead_seps p else []

module _ {W : Type 0} (os : Os W) where
  -- `cpr_cwd`: the string that is in the buffer after it.
  unfoldable pub cwd : Bool → ℕ → Run W (Option (List ℕ))
  cwd buf buf_size =
      if not buf || (buf_size == 0)
      then fail err_invalid "NULL argument" none
      else call (os.getcwd buf_size) >>= λ got.
          on_option got (fail err_io "getcwd failed" none) (λ text. return (some text))

  -- `cpr_fs_stat`: what is in `out_stat` after it; the flag tells whether the pointer is one.
  unfoldable pub fs_stat : Option (List ℕ) → Bool → Run W (Option CprFsStat)
  fs_stat none out_stat = fail err_invalid "NULL argument" none
  fs_stat (some path) false = fail err_invalid "NULL argument" none
  fs_stat (some path) true = call (os.stat path) >>= λ got.
      on_option got (fail err_io "stat failed" none) (λ st. return (some (fill_stat st)))

  -- `cpr_path_exists`, `cpr_path_is_file` and `cpr_path_is_dir`
  abbrev stat_is : (FileKind → Bool) → Option (List ℕ) → Run W Bool
  stat_is test none = return false
  stat_is test (some path) =
      call (os.stat path) >>= λ got. return (on_option got false (λ st. test st.kind))

  pub path_exists : Option (List ℕ) → Run W Bool
  path_exists = stat_is (λ kind. true)

  pub path_is_file : Option (List ℕ) → Run W Bool
  path_is_file = stat_is s_isreg

  pub path_is_dir : Option (List ℕ) → Run W Bool
  path_is_dir = stat_is s_isdir

  -- `cpr_mkdir`
  pub make_dir : Option (List ℕ) → Run W Bool
  make_dir none = fail err_invalid "path is NULL" false
  make_dir (some path) = call (os.mkdir path) >>= checked err_io "mkdir failed"

  -- `if (!cpr_path_is_dir(tmp)) ... cpr_mkdir(tmp)`
  pub ensure_dir : List ℕ → Run W Bool
  unfolding path_is_dir make_dir
  ensure_dir path =
      path_is_dir (some path) >>= λ there. if there then return true else make_dir (some path)

  -- The loop of `cpr_mkdir_all`, and what follows it. In front of `p` stands `before`, which is the
  -- string that `tmp` shows while the separator behind it is a null.
  pub mkdir_loop : List ℕ → List ℕ → Run W Bool
  unfolding ensure_dir
  mkdir_loop before [] = ensure_dir before
  mkdir_loop before (c ∷ p) =
      let next = mkdir_loop (before ++ (c ∷ [])) p in
      if is_sep c then (ensure_dir before >>= λ made. if made then next else return false) else next

  -- `cpr_mkdir_all`
  unfoldable pub mkdir_all : Option (List ℕ) → Run W Bool
  unfolding mkdir_loop
  mkdir_all none = fail err_invalid "path is NULL" false
  mkdir_all (some path) =
      if (length path == 0) || leb path_max (length path)
      then fail err_invalid "invalid path length" false
      else mkdir_loop (lead_seps path) (skip_seps path)

  -- `cpr_remove_file`
  unfoldable pub remove_file : Option (List ℕ) → Run W Bool
  remove_file none = fail err_invalid "path is NULL" false
  remove_file (some path) = call (os.unlink path) >>= checked err_io "unlink failed"

  -- `cpr__rmdir`
  abbrev pub rmdir_result : Bool → Run W CprResult
  rmdir_result true = return ok
  rmdir_result false = fail err_io "rmdir failed" err_io

  unfoldable pub remove_empty : List ℕ → Run W CprResult
  remove_empty path = call (os.rmdir path) >>= rmdir_result

  -- `cpr_fs_rename`
  unfoldable pub fs_rename : Option (List ℕ) → Option (List ℕ) → Run W Bool
  fs_rename none new_path = fail err_invalid "NULL argument" false
  fs_rename (some old_path) none = fail err_invalid "NULL argument" false
  fs_rename (some old_path) (some new_path) =
      call (os.rename old_path new_path) >>= checked err_io "rename failed"
