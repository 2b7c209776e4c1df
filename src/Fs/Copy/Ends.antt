-- ===== src/Fs/Copy/Ends.antt =====
-- The loop of `cpr_fs_copy` in src/fs.c ends, and succeeds when no read and no write fails.
use libcopper.Base.{ℕ, zero, suc, ◌+◌, ◌<◌, ◌≡◌, ◌≢◌, refl, ap, ◌∙◌, arith, inl, inr}
use libcopper.Base.{Bool, true, false, Bool-cases, Option, some, List, [], ◌∷◌, ◌++◌, length}
use libcopper.Base.{length-append, ◌==◌}
use libcopper.Fs.Os.{Os, State, Run, ◌>>=◌}
use libcopper.Fs.File.{read_file, write_file, file_eof}
use libcopper.Fs.Copy.{copy_wrote, copy_chunk, copy_loop}
use libcopper.Fs.Copy.Content.{Streams, read_file_lem, write_file_lem}

-- A short read is one at the end of the file, and a write takes all bytes.
pub record Reliable {W : Type 0} (os : Os W) : Type 0 where
  pub fread_short :
      (fp n : ℕ) (w : W) → length (os.fread fp n w).0 < n → os.feof fp (os.fread fp n w).1 ≡ true
  pub fwrite_all : (fp : ℕ) (bytes : List ℕ) (w : W) → (os.fwrite fp bytes w).0 ≡ length bytes

module _ {W : Type 0} (os : Os W) (input output : W → ℕ → List ℕ)
    (streams : Streams os input output) where
  -- A loop that answers while fewer than `k` bytes are left.
  abbrev Answers : Run W (Option Bool) → ℕ → ℕ → Type 0
  Answers m in_file k =
      (s : State W) → length (input s.world in_file) < k → (b : Bool) × ((m s).0 ≡ some b)

  copy_wrote-Answers :
      (again : Run W (Option Bool)) (in_file k n : ℕ) (bytes : List ℕ) (s : State W)
      → Answers again in_file k
      → length (input s.world in_file) < k
      → (b : Bool) × ((copy_wrote os again bytes n s).0 ≡ some b)
  copy_wrote-Answers again in_file k n bytes s answers h = elim (Bool-cases (n == length bytes)) [
    | inl all ↦ rw all (answers s h)
    | inr short ↦ (false, rw short refl)
  ]

  copy_chunk-Answers :
      (again : Run W (Option Bool)) (in_file out_file k : ℕ) (bytes : List ℕ) (s : State W)
      → in_file ≢ out_file
      → Answers again in_file k
      → length bytes + length (input s.world in_file) < suc k
      → (b : Bool) × ((copy_chunk os again in_file out_file bytes s).0 ≡ some b)
  unfolding file_eof ◌>>=◌
  copy_chunk-Answers again in_file out_file k [] s apart answers h = (os.feof in_file s.world, refl)
  copy_chunk-Answers again in_file out_file k (c ∷ bytes) s apart answers h =
      let some_bytes : (length (c ∷ bytes) == 0) ≡ false = ground arith in
      let r = write_file os (some out_file) (some (c ∷ bytes)) s in
      let (count, world) = write_file_lem os out_file (c ∷ bytes) s in
      let kept : input r.1.world in_file ≡ input s.world in_file =
        rw world (streams.fwrite_input out_file in_file (c ∷ bytes) s.world apart) in
      rw some_bytes (
        copy_wrote-Answers again in_file k r.0 (c ∷ bytes) r.1 answers
          (omega (arith, ap length kept)))

  -- On streams of which a read takes bytes, no more than it is asked for, off the front of what
  -- is left, a write appends as many bytes as it reports and leaves the input of other streams,
  -- and the end of the file is only reported when nothing is left: when the input and the output
  -- are different ones, the loop of cpr_fs_copy ends after at most one read more than the input
  -- stream has bytes.
  pub copy_loop-ends :
      (fuel in_file out_file : ℕ) (s : State W)
      → in_file ≢ out_file
      → length (input s.world in_file) < fuel
      → (b : Bool) × ((copy_loop os fuel in_file out_file s).0 ≡ some b)
  unfolding copy_loop ◌>>=◌
  copy_loop-ends zero in_file out_file s apart h = absurd (omega arith)
  copy_loop-ends (suc fuel) in_file out_file s apart h =
      let (got, world) = read_file_lem os in_file 8192 s in
      let r = read_file os (some in_file) true 8192 s in
      let rest : input s.world in_file ≡ r.0 ++ input r.1.world in_file =
        rw (got, world) (streams.fread_input in_file 8192 s.world) in
      copy_chunk-Answers (copy_loop os fuel in_file out_file) in_file out_file fuel r.0 r.1 apart
        (λ s h. copy_loop-ends fuel in_file out_file s apart h)
        (omega (arith, ap length rest, length-append r.0 (input r.1.world in_file)))

  module _ (reliable : Reliable os) where
    copy_chunk-succeeds :
        (again : Run W (Option Bool)) (in_file out_file k : ℕ) (bytes : List ℕ) (s : State W)
        → in_file ≢ out_file
        → ((s : State W) → length (input s.world in_file) < k → (again s).0 ≡ some true)
        → (length bytes ≡ 0 → os.feof in_file s.world ≡ true)
        → length bytes + length (input s.world in_file) < suc k
        → (copy_chunk os again in_file out_file bytes s).0 ≡ some true
    unfolding file_eof ◌>>=◌
    copy_chunk-succeeds again in_file out_file k [] s apart succeeds eof h = ap some (eof refl)
    copy_chunk-succeeds again in_file out_file k (c ∷ bytes) s apart succeeds eof h =
        let some_bytes : (length (c ∷ bytes) == 0) ≡ false = ground arith in
        let r = write_file os (some out_file) (some (c ∷ bytes)) s in
        let (count, world) = write_file_lem os out_file (c ∷ bytes) s in
        let kept : input r.1.world in_file ≡ input s.world in_file =
          rw world (streams.fwrite_input out_file in_file (c ∷ bytes) s.world apart) in
        let size : r.0 ≡ length (c ∷ bytes) =
          count ∙ reliable.fwrite_all out_file (c ∷ bytes) s.world in
        let all : (r.0 == length (c ∷ bytes)) ≡ true = ground (arith, size) in
        rw (some_bytes, all) (succeeds r.1 (omega (arith, ap length kept)))

    -- On streams of which a read takes bytes, no more than it is asked for, off the front of what
    -- is left, a write appends as many bytes as it reports and leaves the input of other streams,
    -- and the end of the file is only reported when nothing is left: when the input and the
    -- output are different ones, a short read is always one at the end of the file and a write
    -- always takes all bytes, the loop of cpr_fs_copy returns true after at most one read more
    -- than the input stream has bytes.
    pub copy_loop-succeeds :
        (fuel in_file out_file : ℕ) (s : State W)
        → in_file ≢ out_file
        → length (input s.world in_file) < fuel
        → (copy_loop os fuel in_file out_file s).0 ≡ some true
    unfolding copy_loop ◌>>=◌
    copy_loop-succeeds zero in_file out_file s apart h = absurd (omega arith)
    copy_loop-succeeds (suc fuel) in_file out_file s apart h =
        let (got, world) = read_file_lem os in_file 8192 s in
        let r = read_file os (some in_file) true 8192 s in
        let rest : input s.world in_file ≡ r.0 ++ input r.1.world in_file =
          rw (got, world) (streams.fread_input in_file 8192 s.world) in
        copy_chunk-succeeds (copy_loop os fuel in_file out_file) in_file out_file fuel r.0 r.1 apart
          (λ s h. copy_loop-succeeds fuel in_file out_file s apart h)
          (λ empty.
            rw world
              (reliable.fread_short in_file 8192 s.world (omega (arith, ap length got, empty))))
          (omega (arith, ap length rest, length-append r.0 (input r.1.world in_file)))
