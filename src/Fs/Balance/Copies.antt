-- ===== src/Fs/Balance/Copies.antt =====
-- src/fs.c: `cpr_fs_copy` closes and frees what it opens and allocates.
use libcopper.Base.{ℕ, zero, suc, ◌+◌, ◌≡◌, arith, Bool, true, false, not}
use libcopper.Base.{Option, none, some, List, length, on_option, ◌==◌}
use libcopper.Error.{err_invalid, err_io}
use libcopper.Fs.Os.{Os, State, return, call}
use libcopper.Fs.File.{file_read, file_write, open_file, close_file, read_file, write_file}
use libcopper.Fs.File.{file_eof, read_file_all, write_file_all}
use libcopper.Fs.Disk.{remove_file}
use libcopper.Fs.Copy.{copy_loop, finish_copy, copy_between, copy_from, fs_copy}
use libcopper.Fs.Balance.{
  Counted, weight, Loses, return-Loses, fail-Loses, ask-Loses, call-Loses, bind-Loses, open-Loses,
  open_more-Loses, if-Loses, checked-Loses,
}
use libcopper.Fs.Balance.Files.{
  open_file-Gains, close_file-Loses, read_file-Loses, write_file-Loses, closing-Loses,
  read_file_all-balanced, write_file_all-balanced,
}

module _ {W : Type 0} (os : Os W) (held : W → ℕ) (counted : Counted os held) where
  eof-Loses : (fp : ℕ) → Loses held 0 (file_eof os (some fp))
  unfolding file_eof
  eof-Loses fp = ask-Loses held (os.feof fp)

  copy_loop-Loses : (fuel in_file out_file : ℕ) → Loses held 0 (copy_loop os fuel in_file out_file)
  unfolding copy_loop
  copy_loop-Loses zero in_file out_file = return-Loses held none
  copy_loop-Loses (suc fuel) in_file out_file =
      bind-Loses held 0 0 (read_file os (some in_file) true 8192) _
        (read_file-Loses os held counted in_file 8192)
        (λ bytes.
          if-Loses held 0 (length bytes == 0) _ _
            (bind-Loses held 0 0 (file_eof os (some in_file)) (λ eof. return (some eof))
              (eof-Loses in_file) (λ eof. return-Loses held (some eof)))
            (bind-Loses held 0 0 (write_file os (some out_file) (some bytes)) _
              (write_file-Loses os held counted out_file (some bytes))
              (λ n.
                if-Loses held 0 (n == length bytes) _ _ (copy_loop-Loses fuel in_file out_file)
                  (return-Loses held (some false)))))

  pub remove_file-Loses : (path : List ℕ) → Loses held 0 (remove_file os (some path))
  unfolding remove_file
  remove_file-Loses path =
      bind-Loses held 0 0 (call (os.unlink path)) _
        (call-Loses held (os.unlink path) (counted.unlink_held path))
        (checked-Loses held err_io "unlink failed")

  finish_copy-Loses :
      (dst_path : List ℕ) (in_file out_file : ℕ) (done : Option Bool)
      → Loses held 4 (finish_copy os dst_path in_file out_file done)
  finish_copy-Loses dst_path in_file out_file done =
      bind-Loses held 2 2 (close_file os (some in_file)) _
        (close_file-Loses os held counted (some in_file))
        (λ x. closing-Loses os held counted out_file _ (
          bind-Loses held 0 0 _ (λ y. return done)
            (if-Loses held 0 (on_option done false (λ good. not good)) _ _
              (remove_file-Loses dst_path) (return-Loses held true))
            (λ y. return-Loses held done)))

  copy_between-Loses :
      (fuel : ℕ) (dst_path : List ℕ) (in_file : ℕ) (out_file : Option ℕ)
      → Loses held (2 + weight 2 out_file) (copy_between os fuel dst_path in_file out_file)
  copy_between-Loses fuel dst_path in_file none =
      closing-Loses os held counted in_file _ (return-Loses held (some false))
  copy_between-Loses fuel dst_path in_file (some out_file) =
      bind-Loses held 0 4 (copy_loop os fuel in_file out_file) _
        (copy_loop-Loses fuel in_file out_file) (finish_copy-Loses dst_path in_file out_file)

  copy_from-Loses :
      (fuel : ℕ) (dst_path : List ℕ) (in_file : Option ℕ)
      → Loses held (weight 2 in_file) (copy_from os fuel dst_path in_file)
  copy_from-Loses fuel dst_path none = return-Loses held (some false)
  copy_from-Loses fuel dst_path (some in_file) =
      open_more-Loses held 2 (weight 2) (open_file os (some dst_path) file_write) _
        (open_file-Gains os held counted (some dst_path) file_write)
        (copy_between-Loses fuel dst_path in_file)

  fs_copy-Loses :
      (fuel : ℕ) (src_path dst_path : Option (List ℕ))
      → Loses held 0 (fs_copy os fuel src_path dst_path)
  unfolding fs_copy
  fs_copy-Loses fuel none dst_path = fail-Loses held err_invalid "NULL argument" (some false)
  fs_copy-Loses fuel (some src_path) none = fail-Loses held err_invalid "NULL argument" (some false)
  fs_copy-Loses fuel (some src_path) (some dst_path) =
      open-Loses held (weight 2) (open_file os (some src_path) file_read) _
        (open_file-Gains os held counted (some src_path) file_read) (copy_from-Loses fuel dst_path)

  -- `cpr_fs_copy` leaves no file open and no block allocated, whatever fails.
  fs_copy-balanced :
      (fuel : ℕ) (src_path dst_path : Option (List ℕ)) (s : State W)
      → held (fs_copy os fuel src_path dst_path s).1.world ≡ held s.world
  unfolding Loses
  fs_copy-balanced fuel src_path dst_path s =
      omega (arith, fs_copy-Loses fuel src_path dst_path s (omega arith))

  -- When a call that opens or allocates adds one to what is in use exactly if it succeeds, a call
  -- that closes or frees takes one off, and no other call changes the number, cpr_read_file_all,
  -- cpr_write_file_all and cpr_fs_copy leave as much in use as there was before, whichever calls
  -- fail.
  pub files_balanced :
      (fuel buf_size : ℕ) (buf : Bool) (src_path dst_path bytes : Option (List ℕ)) (s : State W)
      → (held (read_file_all os src_path buf buf_size s).1.world ≡ held s.world)
        × (held (write_file_all os dst_path bytes buf_size s).1.world ≡ held s.world)
        × (held (fs_copy os fuel src_path dst_path s).1.world ≡ held s.world)
  files_balanced fuel buf_size buf src_path dst_path bytes s = (
    read_file_all-balanced os held counted src_path buf buf_size s,
    write_file_all-balanced os held counted dst_path bytes buf_size s,
    fs_copy-balanced fuel src_path dst_path s,
  )
