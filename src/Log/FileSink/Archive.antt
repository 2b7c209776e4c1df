-- ===== src/Log/FileSink/Archive.antt =====
-- What `cpr__file_rotate` of src/log.c leaves of the numbered files.
use libcopper.Base.{
  ℕ, ◌+◌, ◌-◌, ◌≤◌, ◌<◌, ◌≡◌, ◌≢◌, refl, sym, ap, ◌∙◌, arith, inl, inr, Bool-cases, Option, none,
  some, List,
}
use libcopper.Base.{Bool, true, false, ltb, on_option}
use libcopper.Error.{err_io}
use libcopper.Fs.Os.{file_block, Os, State, ◌>>=◌, call, fail}
use libcopper.Fs.File.{file_write, open_file, close_file, wrap_stream}
use libcopper.Fs.Disk.{remove_file, fs_rename}
use libcopper.Log.FileSink.{CprFileSink, numbered, shift_loop, file_rotate}
use libcopper.Log.FileSink.Rotate.{Files, Apart, fs_rename_world, shift_loop_lem, shift_loop_others}

module _ {W : Type 0} (os : Os W) (content : W → List ℕ → Option (List ℕ))
    (files : Files os content) where
  close_file_keeps :
      (file : Option ℕ) (q : List ℕ) (s : State W)
      → content (close_file os file s).1.world q ≡ content s.world q
  unfolding close_file ◌>>=◌
  close_file_keeps none q s = refl
  close_file_keeps (some fp) q s =
      files.free_keeps (file_block fp) q (os.fclose fp s.world) ∙ files.fclose_keeps fp q s.world

  remove_file_world :
      (path : List ℕ) (s : State W)
      → (remove_file os (some path) s).1.world ≡ (os.unlink path s.world).1
  unfolding remove_file ◌>>=◌
  remove_file_world path s = elim (Bool-cases (os.unlink path s.world).0) [
    | inl gone ↦ rw gone refl
    | inr failed ↦ rw failed refl
  ]

  wrap_stream_keeps :
      (fp : ℕ) (fits : Bool) (q : List ℕ) (s : State W)
      → content (wrap_stream os fp fits s).1.world q ≡ content s.world q
  unfolding ◌>>=◌
  wrap_stream_keeps fp true q s = refl
  wrap_stream_keeps fp false q s = files.fclose_keeps fp q s.world

  wrapped_keeps :
      (fp : Option ℕ) (q : List ℕ) (s : State W)
      → content
          (on_option fp
            (fail err_io "fopen failed" none)
            (λ fp. call os.malloc >>= wrap_stream os fp)
            s).1.world
          q
        ≡ content s.world q
  unfolding ◌>>=◌
  wrapped_keeps none q s = refl
  wrapped_keeps (some fp) q s =
      wrap_stream_keeps fp (os.malloc s.world).0 q (record s { world = (os.malloc s.world).1 })
      ∙ files.malloc_keeps q s.world

  open_file_others :
      (path q : List ℕ) (s : State W)
      → q ≢ path
      → content (open_file os (some path) file_write s).1.world q ≡ content s.world q
  unfolding open_file ◌>>=◌
  open_file_others path q s other =
      wrapped_keeps (os.fopen path "wb" s.world).0 q
        (record s { world = (os.fopen path "wb" s.world).1 })
      ∙ files.fopen_others path q "wb" s.world other

  -- The five steps of the rotation, one after the other.
  abbrev closed : CprFileSink → State W → State W
  closed fs s = (close_file os fs.file s).1

  abbrev freed : CprFileSink → State W → State W
  freed fs s = (remove_file os (some (numbered fs.path fs.max_files)) (closed fs s)).1

  abbrev shifted : CprFileSink → State W → State W
  shifted fs s = (shift_loop os fs.path (fs.max_files - 1) (freed fs s)).1

  abbrev archived : CprFileSink → State W → State W
  archived fs s = (fs_rename os (some fs.path) (some (numbered fs.path 1)) (shifted fs s)).1

  file_rotate_steps :
      (fs : CprFileSink) (s : State W)
      → 1 ≤ fs.max_files
      → (file_rotate os fs s).1 ≡ (open_file os (some fs.path) file_write (archived fs s)).1
  unfolding file_rotate ◌>>=◌
  file_rotate_steps fs s h = let given : ltb 0 fs.max_files ≡ true = ground arith in rw given refl

  freed-none :
      (fs : CprFileSink) (s : State W)
      → content (freed fs s).world (numbered fs.path fs.max_files) ≡ none
  freed-none fs s =
      rw (remove_file_world (numbered fs.path fs.max_files) (closed fs s))
        (files.unlink_gone (numbered fs.path fs.max_files) (closed fs s).world)

  freed_others :
      (fs : CprFileSink) (q : List ℕ) (s : State W)
      → q ≢ numbered fs.path fs.max_files
      → content (freed fs s).world q ≡ content s.world q
  freed_others fs q s other =
      rw (remove_file_world (numbered fs.path fs.max_files) (closed fs s))
        (files.unlink_others (numbered fs.path fs.max_files) q (closed fs s).world other)
      ∙ close_file_keeps fs.file q s

  -- On a system where a rename moves a file to a path that is free, a removed path is free, and
  -- renaming, removing and opening change no other path: when max_files is above 0, the path of
  -- the sink and its numbered paths from 0 to max_files are different ones, and j is from 1 to
  -- below max_files, then after cpr__file_rotate the numbered path j + 1 holds what the path j
  -- held, and the path 1 what the log file held.
  pub file_rotate_lem :
      (fs : CprFileSink) (j : ℕ) (s : State W)
      → 1 ≤ fs.max_files
      → Apart fs.path fs.max_files
      → ((i : ℕ) → i ≤ fs.max_files → fs.path ≢ numbered fs.path i)
      → 1 ≤ j
      → j < fs.max_files
      → (content (file_rotate os fs s).1.world (numbered fs.path (j + 1))
          ≡ content s.world (numbered fs.path j))
        × (content (file_rotate os fs s).1.world (numbered fs.path 1) ≡ content s.world fs.path)
  file_rotate_lem fs j s some_files apart own positive below =
      let top = fs.max_files - 1 in
      let at_max : top + 1 ≡ fs.max_files = omega arith in
      let free : content (freed fs s).world (numbered fs.path (top + 1)) ≡ none =
        ap (λ k. content (freed fs s).world (numbered fs.path k)) at_max ∙ freed-none fs s in
      let (moves, higher, first) =
        shift_loop_lem os content files fs.path top fs.max_files j (freed fs s) apart (omega arith)
          free (omega arith) in
      let world = fs_rename_world os fs.path (numbered fs.path 1) (shifted fs s) in
      let archive : content (archived fs s).world (numbered fs.path 1)
          ≡ content (shifted fs s).world fs.path =
        rw world (files.rename_target fs.path (numbered fs.path 1) (shifted fs s).world first) in
      let kept : content (archived fs s).world (numbered fs.path (j + 1))
          ≡ content (shifted fs s).world (numbered fs.path (j + 1)) =
        rw world (
          files.rename_others fs.path (numbered fs.path 1) (numbered fs.path (j + 1))
            (shifted fs s).world (λ same. own (j + 1) (omega arith) (sym same))
            (λ same. omega (arith, positive, apart (j + 1) 1 (omega arith) (omega arith) same))) in
      let steps = file_rotate_steps fs s some_files in
      (
        rw steps (
            open_file_others fs.path (numbered fs.path (j + 1)) (archived fs s)
              (λ same. own (j + 1) (omega arith) (sym same))
            ∙ kept
            ∙ moves positive (omega arith)
            ∙ freed_others fs (numbered fs.path j) s (λ same.
              omega (arith, below, apart j fs.max_files (omega arith) (omega arith) same))),
        rw steps (
            open_file_others fs.path (numbered fs.path 1) (archived fs s)
              (λ same. own 1 (omega arith) (sym same))
            ∙ archive
            ∙ shift_loop_others os content files fs.path top fs.path (freed fs s)
                (λ i h. own i (omega (arith, h)))
            ∙ freed_others fs fs.path s (own fs.max_files (omega arith))),
      )
