-- ===== src/Fs/Balance/Dirs.antt =====
-- src/fs.c: the removal of directories closes and frees what it opens and allocates.
use libcopper.Base.{ℕ, zero, suc, ◌+◌, ◌*◌, ◌≡◌, refl, arith, Bool, true, false, not}
use libcopper.Base.{if◌then◌else◌}
use mathlib.Core.Path.{subst}
use libcopper.Base.{Option, none, some, List, on_option}
use libcopper.Error.{CprResult, err_invalid, err_io, err_overflow}
use libcopper.Fs.Os.{Os, State, Run, return, ◌>>=◌}
use libcopper.Error.{ok}
use libcopper.Fs.Disk.{
  CprFsType, fs_type_file, fs_type_dir, fs_type_other, remove_file, remove_empty,
}
use libcopper.Fs.Dir.{
  open_dir, next_dir, join_child, remove_child, clear_loop, rmdir_force, remove_dir, is_err,
}
use libcopper.Fs.Balance.{Counted, weight, return-Loses, fail-Loses, bind-Loses}
use libcopper.Fs.Balance.Copies.{remove_file-Loses}
use libcopper.Fs.Balance.Ending.{
  Ended, Ends, Loses-Ends, cut-Ends, bind-Ends, open-Ends, if-Ends, option-Ends, inner-Ends,
}
use libcopper.Fs.Balance.Iterators.{
  open_dir-Gains, give_up-Loses, remove_empty-Loses, remove_last-Loses, next_dir-Loses,
  join_child-Loses,
}

-- Each level that a run is in has its iterator, a block and a directory stream.
abbrev iterators : ℕ → ℕ
iterators zero = 0
iterators (suc levels) = iterators levels + 2

iterators_lem : (levels : ℕ) → iterators levels ≡ 2 * levels
iterators_lem zero = refl
iterators_lem (suc levels) = omega (arith, iterators_lem levels)

told-Ended :
    (extra : ℕ) (r : Option CprResult) (before after : ℕ)
    → Ended 0 extra r before after
    → Ended 0 extra (on_option r none (λ r. some (not (is_err r)))) before after
unfolding Ended
told-Ended extra none before after ended = ended
told-Ended extra (some r) before after ended = ended

module _ {W : Type 0} (os : Os W) (held : W → ℕ) (counted : Counted os held) where
  remove_file-Ends :
      (extra : ℕ) (child : List ℕ)
      → Ends held 0 extra
          (remove_file os (some child) >>= λ gone. return (some (if gone then ok else err_io)))
  remove_file-Ends extra child = Loses-Ends held 0 extra _ (
      bind-Loses held 0 0 (remove_file os (some child)) _ (remove_file-Loses os held counted child)
        (λ gone. return-Loses held _))

  remove_child-Ends :
      (extra : ℕ) (remove : List ℕ → Run W (Option CprResult)) (type : CprFsType) (child : List ℕ)
      → ((path : List ℕ) → Ends held 0 extra (remove path))
      → Ends held 0 extra (remove_child os remove type child)
  remove_child-Ends extra remove fs_type_dir child kept = kept child
  remove_child-Ends extra remove fs_type_file child kept = remove_file-Ends extra child
  remove_child-Ends extra remove fs_type_other child kept = remove_file-Ends extra child

  clear_loop-Ends :
      (extra fuel : ℕ) (remove : List ℕ → Run W (Option CprResult)) (child path : List ℕ) (dir : ℕ)
      → ((path : List ℕ) → Ends held 0 extra (remove path))
      → Ends held 2 (extra + 2) (clear_loop os fuel remove child path dir)
  unfolding clear_loop
  clear_loop-Ends extra zero remove child path dir kept =
      cut-Ends held CprResult 2 (extra + 2) (omega arith)
  clear_loop-Ends extra (suc fuel) remove child path dir kept =
      bind-Ends held 2 (extra + 2) (next_dir os fuel (some dir) true) _
        (next_dir-Loses os held counted fuel dir)
        (λ got.
          option-Ends held 2 (extra + 2) got _ _
            (cut-Ends held CprResult 2 (extra + 2) (omega arith))
            (λ entry.
              option-Ends held 2 (extra + 2) entry _ _
                (Loses-Ends held 2 (extra + 2) _ (remove_last-Loses os held counted dir path))
                (λ entry.
                  bind-Ends held 2 (extra + 2) (join_child os child path entry.name) _
                    (join_child-Loses os held counted child path entry.name)
                    (λ text.
                      option-Ends held 2 (extra + 2) text _ _
                        (cut-Ends held CprResult 2 (extra + 2) (omega arith))
                        (λ text.
                          option-Ends held 2 (extra + 2) text _ _
                            (Loses-Ends held 2 (extra + 2) _
                              (give_up-Loses os held counted dir err_overflow))
                            (λ text.
                              inner-Ends held 2 extra (remove_child os remove entry.type text) _
                                (remove_child-Ends extra remove entry.type text kept)
                                (λ r.
                                  if-Ends held 2 (extra + 2) (is_err r) _ _
                                    (Loses-Ends held 2 (extra + 2) _
                                      (give_up-Loses os held counted dir r))
                                    (clear_loop-Ends extra fuel remove child path dir kept))))))))

  cleared-Ends :
      (extra fuel : ℕ) (child path : List ℕ) (it : Option ℕ)
      → ((path : List ℕ) → Ends held 0 extra (rmdir_force os fuel child path))
      → Ends held (weight 2 it) (extra + 2) (
          on_option it
            (return (some err_io))
            (clear_loop os fuel (rmdir_force os fuel child) child path))
  cleared-Ends extra fuel child path none kept =
      Loses-Ends held 0 (extra + 2) _ (return-Loses held (some err_io))
  cleared-Ends extra fuel child path (some dir) kept =
      clear_loop-Ends extra fuel (rmdir_force os fuel child) child path dir kept

  rmdir_force-Ends :
      (fuel : ℕ) (child path : List ℕ)
      → Ends held 0 (iterators fuel) (rmdir_force os fuel child path)
  unfolding rmdir_force
  rmdir_force-Ends zero child path = cut-Ends held CprResult 0 0 (omega arith)
  rmdir_force-Ends (suc fuel) child path =
      open-Ends held (iterators fuel + 2) (weight 2) (open_dir os (some path)) _
        (open_dir-Gains os held counted path)
        (λ it. cleared-Ends (iterators fuel) fuel child path it (rmdir_force-Ends fuel child))

  forced-Ends :
      (fuel : ℕ) (child path : List ℕ)
      → Ends held 0 (iterators fuel) (
          rmdir_force os fuel child path >>= λ r.
          return (on_option r none (λ r. some (not (is_err r)))))
  unfolding Ends ◌>>=◌
  forced-Ends fuel child path s h =
      told-Ended (iterators fuel) (rmdir_force os fuel child path s).0 _ _
        (rmdir_force-Ends fuel child path s h)

  remove_dir-Ends :
      (fuel : ℕ) (child : List ℕ) (path : Option (List ℕ)) (force : Bool)
      → Ends held 0 (iterators fuel) (remove_dir os fuel child path force)
  unfolding remove_dir
  remove_dir-Ends fuel child none force =
      Loses-Ends held 0 (iterators fuel) _ (fail-Loses held err_invalid "path is NULL" (some false))
  remove_dir-Ends fuel child (some path) true = forced-Ends fuel child path
  remove_dir-Ends fuel child (some path) false = Loses-Ends held 0 (iterators fuel) _ (
      bind-Loses held 0 0 (remove_empty os path) _ (remove_empty-Loses os held counted path)
        (λ r. return-Loses held _))

  -- When a call that opens or allocates adds one to what is in use exactly if it succeeds, a call
  -- that closes or frees takes one off, and no other call changes the number, cpr_remove_dir,
  -- forced or not, leaves as much in use as there was before, whichever calls fail and however
  -- deep the directories are; and while it has no result yet, no less is in use than before, and
  -- no more than two beyond that for each level of directories that the fuel allows.
  pub remove_dir-balanced :
      (fuel : ℕ) (child : List ℕ) (path : Option (List ℕ)) (force : Bool) (s : State W)
      → Ended 0
          (2 * fuel)
          (remove_dir os fuel child path force s).0
          (held s.world)
          (held (remove_dir os fuel child path force s).1.world)
  unfolding Ends
  remove_dir-balanced fuel child path force s =
      let levels : iterators fuel ≡ 2 * fuel = iterators_lem fuel in
      subst
        (λ n.
          Ended 0 n (remove_dir os fuel child path force s).0 (held s.world)
            (held (remove_dir os fuel child path force s).1.world))
        levels (remove_dir-Ends fuel child path force s (omega arith))
