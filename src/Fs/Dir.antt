-- ===== src/Fs/Dir.antt =====
-- src/fs.c: the directory iterator, and the removal of a directory with all that is in it. An iterator
-- is the number of its directory stream, since `struct CprDirIterator` holds nothing else.
pub mod Listing
use libcopper.Base.{ℕ, zero, suc, Bool, true, false, not, ◌&&◌, ◌||◌, Option, none, some}
use libcopper.Base.{List, [], ◌∷◌, length, take, on_option, get_or, ltb, leb, ◌==◌, if◌then◌else◌}
use libcopper.Error.{CprResult, CprError, ok, err_invalid, err_io, err_oom, err_overflow}
use libcopper.Fs.Os.{dir_block, Os, State, Run, return, ◌>>=◌, call, act, ask, fail}
use libcopper.Fs.Os.{Dirent, EntryType, dt_reg, dt_dir, dt_unknown, Stat}
use libcopper.Fs.Path.{Written, path_join}
use libcopper.Fs.Disk.{
  CprFsType, fs_type_file, fs_type_dir, fs_type_other, type_of, path_max, remove_file, remove_empty,
}

pub record CprDirEntry : Type 0 where
  pub name : List ℕ
  pub type : CprFsType

-- The names `.` and `..`; behind the end of a name stands a null.
abbrev pub is_dots : List ℕ → Bool
is_dots name =
    (get_or name 0 0 == b'.')
    && ((get_or name 1 0 == 0) || ((get_or name 1 0 == b'.') && (get_or name 2 0 == 0)))

-- `cpr_err`
abbrev pub is_err : CprResult → Bool
is_err ok = false
is_err r = true

-- The string in a buffer.
abbrev pub c_string : List ℕ → List ℕ
c_string [] = []
c_string (c ∷ buf) = if c == 0 then [] else c ∷ c_string buf

module _ {W : Type 0} (os : Os W) where
  abbrev pub wrap_dir : Option ℕ → Run W (Option ℕ)
  wrap_dir none = do _ ← act (os.free (dir_block none)); fail err_io "opendir failed" none
  wrap_dir (some dir) = return (some dir)

  abbrev pub open_allocated : List ℕ → Bool → Run W (Option ℕ)
  open_allocated path false = fail err_oom "out of memory" none
  open_allocated path true = call (os.opendir path) >>= wrap_dir

  -- `cpr_open_dir`
  unfoldable pub open_dir : Option (List ℕ) → Run W (Option ℕ)
  open_dir none = fail err_invalid "path is NULL" none
  open_dir (some path) = call os.malloc >>= open_allocated path

  -- `cpr_close_dir`
  unfoldable pub close_dir : Option ℕ → Run W Unit
  close_dir none = return tt
  close_dir (some dir) = do _ ← act (os.closedir dir); act (os.free (dir_block (some dir)))

  -- The type of an entry.
  abbrev pub entry_type : ℕ → List ℕ → EntryType → Run W CprFsType
  entry_type dir name dt_dir = return fs_type_dir
  entry_type dir name dt_reg = return fs_type_file
  entry_type dir name dt_unknown = call (os.fstatat dir name) >>= λ got.
      return (on_option got fs_type_other (λ st. type_of st.kind))

  -- The loop of `cpr_next_dir`. The fuel bounds the entries that it skips. Without fuel the result is
  -- `none`, and at the end of the directory it is `some none`.
  unfoldable pub next_loop : ℕ → ℕ → Run W (Option (Option CprDirEntry))
  next_loop zero dir = return none
  next_loop (suc fuel) dir = call (os.readdir dir) >>= λ got.
      on_option got (return (some none)) (λ de. if is_dots de.name then next_loop fuel dir else (do
        type ← entry_type dir de.name de.d_type
        return (some (some (record { name = take 255 de.name; type = type })))))

  -- `cpr_next_dir`; the flag tells whether `out_entry` is a pointer.
  unfoldable pub next_dir : ℕ → Option ℕ → Bool → Run W (Option (Option CprDirEntry))
  unfolding next_loop
  next_dir fuel none out_entry = return (some none)
  next_dir fuel (some dir) false = return (some none)
  next_dir fuel (some dir) true = next_loop fuel dir

  -- `cpr_path_join` in this state.
  abbrev pub joined :
      Option (Bool × Option (List ℕ) × CprError) → State W → Option (Option (List ℕ)) × State W
  joined none s = (none, s)
  joined (some (false, buf, e)) s = (some none, record s { error = e })
  joined (some (true, none, e)) s = (none, record s { error = e })
  joined (some (true, some buf, e)) s = (some (some (c_string buf)), record s { error = e })

  abbrev pub join_child : List ℕ → List ℕ → List ℕ → Run W (Option (Option (List ℕ)))
  join_child child path name s =
      joined (path_join (some child) path_max (some path) (some name) s.error) s

  -- Leaves `cpr__rmdir_force` with the result `r`.
  abbrev pub give_up : ℕ → CprResult → Run W (Option CprResult)
  give_up dir r = do _ ← close_dir (some dir); return (some r)

  -- `cpr__rmdir` behind the loop.
  abbrev pub remove_last : ℕ → List ℕ → Run W (Option CprResult)
  remove_last dir path = do _ ← close_dir (some dir); r ← remove_empty os path; return (some r)

  -- One entry, which `remove` removes when it is a directory.
  abbrev pub remove_child :
      (List ℕ → Run W (Option CprResult)) → CprFsType → List ℕ → Run W (Option CprResult)
  remove_child remove fs_type_dir child = remove child
  remove_child remove other child = do
    gone ← remove_file os (some child)
    return (some (if gone then ok else err_io))

  -- The loop of `cpr__rmdir_force`. `child` is what is in the array of that name, which is not
  -- initialised. A result `none` is an access out of range, or no fuel left.
  unfoldable pub clear_loop :
      ℕ → (List ℕ → Run W (Option CprResult)) → List ℕ → List ℕ → ℕ → Run W (Option CprResult)
  unfolding next_dir close_dir
  clear_loop zero remove child path dir = return none
  clear_loop (suc fuel) remove child path dir = next_dir fuel (some dir) true >>= λ got.
      on_option got (return none) (λ entry. on_option entry (remove_last dir path) (λ entry.
        join_child child path entry.name >>= λ text. on_option text (return none) (λ text.
          on_option text (give_up dir err_overflow) (λ text.
            remove_child remove entry.type text >>= λ r.
            on_option r (return none)
              (λ r. if is_err r then give_up dir r else clear_loop fuel remove child path dir)))))

  -- `cpr__rmdir_force`
  unfoldable pub rmdir_force : ℕ → List ℕ → List ℕ → Run W (Option CprResult)
  unfolding open_dir clear_loop
  rmdir_force zero child path = return none
  rmdir_force (suc fuel) child path = open_dir (some path) >>= λ it.
      on_option it (return (some err_io)) (clear_loop fuel (rmdir_force fuel child) child path)

  -- `cpr_remove_dir`
  unfoldable pub remove_dir : ℕ → List ℕ → Option (List ℕ) → Bool → Run W (Option Bool)
  unfolding rmdir_force
  remove_dir fuel child none force = fail err_invalid "path is NULL" (some false)
  remove_dir fuel child (some path) true = do
    r ← rmdir_force fuel child path
    return (on_option r none (λ r. some (not (is_err r))))
  remove_dir fuel child (some path) false = do
    r ← remove_empty os path
    return (some (not (is_err r)))
