-- ===== src/Fs/Balance/Iterators.antt =====
-- src/fs.c: the functions on directories that do not call themselves close and free what they open and
-- allocate.
use libcopper.Base.{ℕ, zero, suc, ◌+◌, ◌≡◌, arith, Bool, true, false}
use libcopper.Base.{Option, none, some, List, on_option}
use libcopper.Error.{CprResult, err_io}
use libcopper.Fs.Os.{dir_block, Os, State, Run, return, ◌>>=◌, call, act}
use libcopper.Fs.Os.{EntryType, dt_reg, dt_dir, dt_unknown}
use libcopper.Fs.Path.{path_join}
use libcopper.Error.{CprError, ok}
use libcopper.Fs.Disk.{
  fs_type_file, fs_type_dir, fs_type_other, type_of, remove_empty, rmdir_result, path_max,
}
use libcopper.Fs.Dir.{
  wrap_dir, open_allocated, open_dir, close_dir, entry_type, next_loop, next_dir, joined,
  join_child, give_up, remove_last, is_dots,
}
use libcopper.Fs.Balance.{
  Counted, weight, one_if, Gains, Loses, return-Loses, fail-Loses, call-Loses, act-Loses,
  bind-Loses, if-Loses,
}
use libcopper.Fs.Balance.Ending.{}

module _ {W : Type 0} (os : Os W) (held : W → ℕ) (counted : Counted os held) where
  wrap_dir-Loses :
      (n : ℕ) (dir : Option ℕ) (s : State W)
      → held s.world ≡ n + 1 + weight 1 dir
      → held (wrap_dir os dir s).1.world ≡ n + weight 2 (wrap_dir os dir s).0
  unfolding ◌>>=◌
  wrap_dir-Loses n none s same = omega (arith, same, counted.free_held (dir_block none) s.world)
  wrap_dir-Loses n (some dir) s same = omega (arith, same)

  open_allocated-held :
      (n : ℕ) (path : List ℕ) (fits : Bool) (s : State W)
      → held s.world ≡ n + one_if fits
      → held (open_allocated os path fits s).1.world
        ≡ n + weight 2 (open_allocated os path fits s).0
  unfolding ◌>>=◌
  open_allocated-held n path false s same = omega (arith, same)
  open_allocated-held n path true s same =
      wrap_dir-Loses n (os.opendir path s.world).0
        (record s { world = (os.opendir path s.world).1 })
        (omega (arith, same, counted.opendir_held path s.world))

  -- An iterator holds its directory stream and its block.
  pub open_dir-Gains : (path : List ℕ) → Gains held (weight 2) (open_dir os (some path))
  unfolding open_dir Gains ◌>>=◌
  open_dir-Gains path s =
      open_allocated-held (held s.world) path (os.malloc s.world).0
        (record s { world = (os.malloc s.world).1 }) (counted.malloc_held s.world)

  close_dir-Loses : (dir : ℕ) → Loses held 2 (close_dir os (some dir))
  unfolding close_dir
  close_dir-Loses dir =
      bind-Loses held 1 1 (act (os.closedir dir)) (λ x. act (os.free (dir_block (some dir))))
        (act-Loses held (os.closedir dir) (counted.closedir_held dir))
        (λ x.
          act-Loses held (os.free (dir_block (some dir)))
            (counted.free_held (dir_block (some dir))))

  pub give_up-Loses : (dir : ℕ) (r : CprResult) → Loses held 2 (give_up os dir r)
  give_up-Loses dir r =
      bind-Loses held 2 0 (close_dir os (some dir)) (λ x. return (some r)) (close_dir-Loses dir)
        (λ x. return-Loses held (some r))

  rmdir_result-Loses : (gone : Bool) → Loses held 0 (rmdir_result os gone)
  rmdir_result-Loses true = return-Loses held ok
  rmdir_result-Loses false = fail-Loses held err_io "rmdir failed" err_io

  pub remove_empty-Loses : (path : List ℕ) → Loses held 0 (remove_empty os path)
  unfolding remove_empty
  remove_empty-Loses path =
      bind-Loses held 0 0 (call (os.rmdir path)) _
        (call-Loses held (os.rmdir path) (counted.rmdir_held path)) rmdir_result-Loses

  pub remove_last-Loses : (dir : ℕ) (path : List ℕ) → Loses held 2 (remove_last os dir path)
  remove_last-Loses dir path =
      bind-Loses held 2 0 (close_dir os (some dir)) _ (close_dir-Loses dir) (λ x.
        bind-Loses held 0 0 (remove_empty os path) (λ r. return (some r)) (remove_empty-Loses path)
          (λ r. return-Loses held (some r)))

  entry_type-Loses :
      (dir : ℕ) (name : List ℕ) (type : EntryType) → Loses held 0 (entry_type os dir name type)
  entry_type-Loses dir name dt_dir = return-Loses held fs_type_dir
  entry_type-Loses dir name dt_reg = return-Loses held fs_type_file
  entry_type-Loses dir name dt_unknown =
      bind-Loses held 0 0 (call (os.fstatat dir name))
        (λ got. return (on_option got fs_type_other (λ st. type_of st.kind)))
        (call-Loses held (os.fstatat dir name) (counted.fstatat_held dir name))
        (λ got. return-Loses held (on_option got fs_type_other (λ st. type_of st.kind)))

  option-Loses :
      {A B : Type 0} (n : ℕ) (r : Option A) (m : Run W B) (f : A → Run W B)
      → Loses held n m
      → ((x : A) → Loses held n (f x))
      → Loses held n (on_option r m f)
  option-Loses n none m f missing found = missing
  option-Loses n (some x) m f missing found = found x

  next_loop-Loses : (fuel dir : ℕ) → Loses held 0 (next_loop os fuel dir)
  unfolding next_loop
  next_loop-Loses zero dir = return-Loses held none
  next_loop-Loses (suc fuel) dir =
      bind-Loses held 0 0 (call (os.readdir dir)) _
        (call-Loses held (os.readdir dir) (counted.readdir_held dir))
        (λ got. option-Loses 0 got _ _ (return-Loses held (some none)) (λ de.
          if-Loses held 0 (is_dots de.name) _ _ (next_loop-Loses fuel dir) (
            bind-Loses held 0 0 (entry_type os dir de.name de.d_type) _
              (entry_type-Loses dir de.name de.d_type) (λ type. return-Loses held _))))

  pub next_dir-Loses : (fuel dir : ℕ) → Loses held 0 (next_dir os fuel (some dir) true)
  unfolding next_dir
  next_dir-Loses fuel dir = next_loop-Loses fuel dir

  joined-held :
      (r : Option (Bool × Option (List ℕ) × CprError)) (s : State W)
      → held (joined os r s).1.world + 0 ≡ held s.world
  joined-held none s = omega arith
  joined-held (some (false, buf, e)) s = omega arith
  joined-held (some (true, none, e)) s = omega arith
  joined-held (some (true, some buf, e)) s = omega arith

  pub join_child-Loses : (child path name : List ℕ) → Loses held 0 (join_child os child path name)
  unfolding Loses
  join_child-Loses child path name s h =
      joined-held (path_join (some child) path_max (some path) (some name) s.error) s
