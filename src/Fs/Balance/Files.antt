-- ===== src/Fs/Balance/Files.antt =====
-- src/fs.c: the functions on files close and free what they open and allocate.
use libcopper.Base.{ℕ, ◌+◌, ◌≤◌, ◌≡◌, arith, Bool, true, false, ◌&&◌}
use libcopper.Base.{Option, none, some, List, length, on_option, ltb, leb}
use libcopper.Error.{err_invalid, err_io, err_overflow}
use libcopper.Fs.Os.{file_block, Os, State, Run, return, ◌>>=◌, call, act, ask, fail}
use libcopper.Fs.Os.{ℤ, pos, negsuc, CprFileSeek, seek_start, seek_end}
use libcopper.Fs.File.{
  checked_pos, file_read, file_write, CprFileMode, file_mode_str, wrap_stream, open_file,
  close_file, read_file, write_file,
}
use libcopper.Fs.File.{
  seek_file, tell_file, size_from, file_size, read_sized, read_opened, read_file_all, write_opened,
  write_file_all,
}
use Prim.Native.String.{String}
use libcopper.Fs.Balance.{
  Counted, weight, one_if, Gains, Loses, return-Loses, fail-Loses, ask-Loses, call-Loses, act-Loses,
  bind-Loses, open-Loses, if-Loses, checked-Loses,
}

module _ {W : Type 0} (os : Os W) (held : W → ℕ) (counted : Counted os held) where
  wrap_stream-held :
      (fp n : ℕ) (fits : Bool) (s : State W)
      → 1 ≤ n
      → held s.world ≡ n + one_if fits
      → held (wrap_stream os fp fits s).1.world + 1 ≡ n + weight 2 (wrap_stream os fp fits s).0
  unfolding ◌>>=◌
  wrap_stream-held fp n true s h same = omega (arith, same)
  wrap_stream-held fp n false s h same = omega (arith, same, counted.fclose_held fp s.world)

  -- The file around a stream
  abbrev wrapped : Option ℕ → Run W (Option ℕ)
  wrapped fp =
      on_option fp (fail err_io "fopen failed" none) (λ fp. call os.malloc >>= wrap_stream os fp)

  wrapped-held :
      (n : ℕ) (fp : Option ℕ) (s : State W)
      → held s.world ≡ n + weight 1 fp
      → held (wrapped fp s).1.world ≡ n + weight 2 (wrapped fp s).0
  unfolding ◌>>=◌
  wrapped-held n none s same = omega (arith, same)
  wrapped-held n (some fp) s same = omega (
    arith,
    same,
    counted.malloc_held s.world,
    wrap_stream-held fp (held s.world) (os.malloc s.world).0
        (record s { world = (os.malloc s.world).1 }) (omega (arith, same))
        (counted.malloc_held s.world),
  )

  opened-Gains :
      (path : List ℕ) (mstr : Option String)
      → Gains held (weight 2) (
          on_option mstr
            (fail err_invalid "invalid mode" none)
            (λ mstr. call (os.fopen path mstr) >>= wrapped))
  unfolding Gains ◌>>=◌
  opened-Gains path none s = omega arith
  opened-Gains path (some mstr) s =
      wrapped-held (held s.world) (os.fopen path mstr s.world).0
        (record s { world = (os.fopen path mstr s.world).1 }) (counted.fopen_held path mstr s.world)

  -- A file that is open holds its stream and its block.
  pub open_file-Gains :
      (path : Option (List ℕ)) (mode : CprFileMode) → Gains held (weight 2) (open_file os path mode)
  unfolding open_file Gains
  open_file-Gains none mode s = omega arith
  open_file-Gains (some path) mode s = opened-Gains path (file_mode_str mode) s

  pub close_file-Loses : (file : Option ℕ) → Loses held (weight 2 file) (close_file os file)
  unfolding close_file
  close_file-Loses none = return-Loses held tt
  close_file-Loses (some fp) =
      bind-Loses held 1 1 (act (os.fclose fp)) (λ x. act (os.free (file_block fp)))
        (act-Loses held (os.fclose fp) (counted.fclose_held fp))
        (λ x. act-Loses held (os.free (file_block fp)) (counted.free_held (file_block fp)))

  pub read_file-Loses : (fp size : ℕ) → Loses held 0 (read_file os (some fp) true size)
  unfolding read_file
  read_file-Loses fp size =
      bind-Loses held 0 0 (call (os.fread fp size)) _
        (call-Loses held (os.fread fp size) (counted.fread_held fp size))
        (λ bytes.
          bind-Loses held 0 0 (ask (os.ferror fp)) _ (ask-Loses held (os.ferror fp)) (λ broken.
            if-Loses held 0 (ltb (length bytes) size && broken) _ _
              (fail-Loses held err_io "read failed" bytes) (return-Loses held bytes)))

  pub write_file-Loses :
      (fp : ℕ) (buf : Option (List ℕ)) → Loses held 0 (write_file os (some fp) buf)
  unfolding write_file
  write_file-Loses fp none = fail-Loses held err_invalid "NULL argument" 0
  write_file-Loses fp (some bytes) =
      bind-Loses held 0 0 (call (os.fwrite fp bytes)) _
        (call-Loses held (os.fwrite fp bytes) (counted.fwrite_held fp bytes))
        (λ n.
          if-Loses held 0 (ltb n (length bytes)) _ _ (fail-Loses held err_io "write failed" n)
            (return-Loses held n))

  seek_file-Loses :
      (fp : ℕ) (offset : ℤ) (from : CprFileSeek) → Loses held 0 (seek_file os (some fp) offset from)
  unfolding seek_file
  seek_file-Loses fp offset from =
      bind-Loses held 0 0 (call (os.fseeko fp offset from)) _
        (call-Loses held (os.fseeko fp offset from) (counted.fseeko_held fp offset from))
        (checked-Loses held err_io "seek failed")

  checked_pos-Loses : (p : ℤ) → Loses held 0 (checked_pos os p)
  checked_pos-Loses (pos n) = return-Loses held (pos n)
  checked_pos-Loses (negsuc n) = fail-Loses held err_io "tell failed" (negsuc n)

  tell_file-Loses : (fp : ℕ) → Loses held 0 (tell_file os (some fp))
  unfolding tell_file
  tell_file-Loses fp =
      bind-Loses held 0 0 (call (os.ftello fp)) _
        (call-Loses held (os.ftello fp) (counted.ftello_held fp)) checked_pos-Loses

  size_from-Loses : (fp : ℕ) (cur : ℤ) → Loses held 0 (size_from os (some fp) cur)
  size_from-Loses fp (negsuc n) = return-Loses held (negsuc 0)
  size_from-Loses fp (pos n) =
      bind-Loses held 0 0 (seek_file os (some fp) (pos 0) seek_end) _
        (seek_file-Loses fp (pos 0) seek_end)
        (λ sought.
          if-Loses held 0 sought _ _
            (bind-Loses held 0 0 (tell_file os (some fp)) _ (tell_file-Loses fp) (λ end.
              bind-Loses held 0 0 (seek_file os (some fp) (pos n) seek_start) (λ x. return end)
                (seek_file-Loses fp (pos n) seek_start) (λ x. return-Loses held end)))
            (return-Loses held (negsuc 0)))

  pub file_size-Loses : (fp : ℕ) → Loses held 0 (file_size os (some fp))
  unfolding file_size
  file_size-Loses fp =
      bind-Loses held 0 0 (tell_file os (some fp)) (size_from os (some fp)) (tell_file-Loses fp)
        (size_from-Loses fp)

  -- Closes a file and returns.
  pub closing-Loses :
      {A : Type 0} (fp : ℕ) (m : Run W A)
      → Loses held 0 m
      → Loses held 2 (close_file os (some fp) >>= λ x. m)
  closing-Loses fp m kept =
      bind-Loses held 2 0 (close_file os (some fp)) (λ x. m) (close_file-Loses (some fp))
        (λ x. kept)

  read_sized-Loses : (fp buf_size : ℕ) (size : ℤ) → Loses held 2 (read_sized os fp buf_size size)
  read_sized-Loses fp buf_size (negsuc n) = closing-Loses fp _ (return-Loses held (false, none))
  read_sized-Loses fp buf_size (pos sz) =
      if-Loses held 2 (ltb buf_size sz) _ _
        (closing-Loses fp _
          (fail-Loses held err_overflow "file too large for buffer" (false, none)))
        (bind-Loses held 0 2 (read_file os (some fp) true sz) _ (read_file-Loses fp sz) (λ bytes.
          closing-Loses fp _ (
            if-Loses held 0 (ltb (length bytes) sz) _ _
              (fail-Loses held err_io "short read" (false, some bytes))
              (return-Loses held (true, some bytes)))))

  read_opened-Loses :
      (buf_size : ℕ) (file : Option ℕ) → Loses held (weight 2 file) (read_opened os buf_size file)
  read_opened-Loses buf_size none = return-Loses held (false, none)
  read_opened-Loses buf_size (some fp) =
      bind-Loses held 0 2 (file_size os (some fp)) (read_sized os fp buf_size) (file_size-Loses fp)
        (read_sized-Loses fp buf_size)

  read_file_all-Loses :
      (path : Option (List ℕ)) (buf : Bool) (buf_size : ℕ)
      → Loses held 0 (read_file_all os path buf buf_size)
  unfolding read_file_all
  read_file_all-Loses none buf buf_size = fail-Loses held err_invalid "NULL argument" (false, none)
  read_file_all-Loses (some path) false buf_size =
      fail-Loses held err_invalid "NULL argument" (false, none)
  read_file_all-Loses (some path) true buf_size =
      open-Loses held (weight 2) (open_file os (some path) file_read) (read_opened os buf_size)
        (open_file-Gains (some path) file_read) (read_opened-Loses buf_size)

  -- `cpr_read_file_all` leaves no file open and no block allocated, whatever fails.
  pub read_file_all-balanced :
      (path : Option (List ℕ)) (buf : Bool) (buf_size : ℕ) (s : State W)
      → held (read_file_all os path buf buf_size s).1.world ≡ held s.world
  unfolding Loses
  read_file_all-balanced path buf buf_size s =
      omega (arith, read_file_all-Loses path buf buf_size s (omega arith))

  write_opened-Loses :
      (buf : Option (List ℕ)) (data_size : ℕ) (file : Option ℕ)
      → Loses held (weight 2 file) (write_opened os buf data_size file)
  write_opened-Loses buf data_size none = return-Loses held false
  write_opened-Loses buf data_size (some fp) =
      bind-Loses held 0 2 (write_file os (some fp) buf) _ (write_file-Loses fp buf)
        (λ n. closing-Loses fp _ (return-Loses held (leb data_size n)))

  write_file_all-Loses :
      (path buf : Option (List ℕ)) (data_size : ℕ)
      → Loses held 0 (write_file_all os path buf data_size)
  unfolding write_file_all
  write_file_all-Loses none buf data_size = fail-Loses held err_invalid "NULL argument" false
  write_file_all-Loses (some path) buf data_size =
      if-Loses held 0 (on_option buf (ltb 0 data_size) (λ bytes. false)) _ _
        (fail-Loses held err_invalid "NULL argument" false)
        (open-Loses held (weight 2) (open_file os (some path) file_write)
          (write_opened os buf data_size) (open_file-Gains (some path) file_write)
          (write_opened-Loses buf data_size))

  -- `cpr_write_file_all` leaves no file open and no block allocated, whatever fails.
  pub write_file_all-balanced :
      (path buf : Option (List ℕ)) (data_size : ℕ) (s : State W)
      → held (write_file_all os path buf data_size s).1.world ≡ held s.world
  unfolding Loses
  write_file_all-balanced path buf data_size s =
      omega (arith, write_file_all-Loses path buf data_size s (omega arith))
