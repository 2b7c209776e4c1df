-- ===== src/Fs/Copy/Content.antt =====
-- The loop of `cpr_fs_copy` in src/fs.c copies what the stream still holds, and it ends.
use libcopper.Base.{ℕ, zero, suc, ◌≤◌, ◌≡◌, ◌≢◌, refl, sym, ap, ◌∙◌, arith, inl, inr}
use libcopper.Base.{
  Bool, true, false, ◌&&◌, Bool-cases, Option, some, List, [], ◌∷◌, ◌++◌, length, take,
}
use libcopper.Base.{append_assoc, append-nil, take-length, ltb, ◌==◌}
use mathlib.Core.Option.{some-injective, none-ne-some}
use libcopper.Fs.Os.{Os, State, Run, ◌>>=◌}
use libcopper.Fs.File.{read_file, write_file, file_eof}
use libcopper.Fs.Copy.{copy_wrote, copy_chunk, copy_loop}

-- `input` is what is left to read of a stream, and `output` what it has taken.
pub record Streams {W : Type 0} (os : Os W) (input output : W → ℕ → List ℕ) : Type 0 where
  pub fread_size : (fp n : ℕ) (w : W) → length (os.fread fp n w).0 ≤ n
  pub fread_input :
      (fp n : ℕ) (w : W) → input w fp ≡ (os.fread fp n w).0 ++ input (os.fread fp n w).1 fp
  pub fread_output : (fp n q : ℕ) (w : W) → output (os.fread fp n w).1 q ≡ output w q
  pub fwrite_output :
      (fp : ℕ) (bytes : List ℕ) (w : W)
      → output (os.fwrite fp bytes w).1 fp ≡ output w fp ++ take (os.fwrite fp bytes w).0 bytes
  pub fwrite_input :
      (fp q : ℕ) (bytes : List ℕ) (w : W) → q ≢ fp → input (os.fwrite fp bytes w).1 q ≡ input w q
  pub feof_input : (fp : ℕ) (w : W) → os.feof fp w ≡ true → input w fp ≡ []

module _ {W : Type 0} (os : Os W) where
  -- The error state takes no part in what a read and a write do.
  pub read_file_lem :
      (fp n : ℕ) (s : State W)
      → ((read_file os (some fp) true n s).0 ≡ (os.fread fp n s.world).0)
        × ((read_file os (some fp) true n s).1.world ≡ (os.fread fp n s.world).1)
  unfolding read_file ◌>>=◌
  read_file_lem fp n s =
      elim (Bool-cases
        (ltb (length (os.fread fp n s.world).0) n && os.ferror fp (os.fread fp n s.world).1)) [
          | inl broken ↦ rw broken (refl, refl)
          | inr fine ↦ rw fine (refl, refl)
        ]

  pub write_file_lem :
      (fp : ℕ) (bytes : List ℕ) (s : State W)
      → ((write_file os (some fp) (some bytes) s).0 ≡ (os.fwrite fp bytes s.world).0)
        × ((write_file os (some fp) (some bytes) s).1.world ≡ (os.fwrite fp bytes s.world).1)
  unfolding write_file ◌>>=◌
  write_file_lem fp bytes s =
      elim (Bool-cases (ltb (os.fwrite fp bytes s.world).0 (length bytes))) [
        | inl short ↦ rw short (refl, refl)
        | inr fine ↦ rw fine (refl, refl)
      ]

module _ {W : Type 0} (os : Os W) (input output : W → ℕ → List ℕ)
    (streams : Streams os input output) where
  -- A run that returns true has copied what `in_file` held.
  abbrev Copies : Run W (Option Bool) → ℕ → ℕ → Type 0
  Copies m in_file out_file =
      (s : State W)
      → (m s).0 ≡ some true
      → output (m s).1.world out_file ≡ output s.world out_file ++ input s.world in_file

  wrong : ¬ (false ≡ true)
  wrong same = cc

  copy_wrote-Copies :
      (again : Run W (Option Bool)) (in_file out_file n : ℕ) (bytes before : List ℕ) (s : State W)
      → Copies again in_file out_file
      → output s.world out_file ≡ before ++ take n bytes
      → (copy_wrote os again bytes n s).0 ≡ some true
      → output (copy_wrote os again bytes n s).1.world out_file
        ≡ before ++ (bytes ++ input s.world in_file)
  copy_wrote-Copies again in_file out_file n bytes before s copies wrote h =
      elim (Bool-cases (n == length bytes)) [
        | inl all ↦
            let size : n ≡ length bytes = ground arith in
            let taken : output s.world out_file ≡ before ++ bytes =
              wrote ∙ ap (λ t. before ++ t) (ap (λ k. take k bytes) size ∙ take-length bytes) in
            rw all (
              copies s (rw all at h)
              ∙ ap (λ t. t ++ input s.world in_file) taken
              ∙ append_assoc before bytes (input s.world in_file))
        | inr short ↦ absurd (wrong (some-injective _ _ (rw short at h)))
      ]

  copy_chunk-Copies :
      (again : Run W (Option Bool)) (in_file out_file : ℕ) (bytes : List ℕ) (s : State W)
      → in_file ≢ out_file
      → Copies again in_file out_file
      → (copy_chunk os again in_file out_file bytes s).0 ≡ some true
      → output (copy_chunk os again in_file out_file bytes s).1.world out_file
        ≡ output s.world out_file ++ (bytes ++ input s.world in_file)
  unfolding file_eof ◌>>=◌
  copy_chunk-Copies again in_file out_file [] s apart copies h =
      let end : input s.world in_file ≡ [] =
        streams.feof_input in_file s.world (some-injective _ _ h) in
      rw end (sym (append-nil (output s.world out_file)))
  copy_chunk-Copies again in_file out_file (c ∷ bytes) s apart copies h =
      let some_bytes : (length (c ∷ bytes) == 0) ≡ false = ground arith in
      let (count, world) = write_file_lem os out_file (c ∷ bytes) s in
      let s' = (write_file os (some out_file) (some (c ∷ bytes)) s).1 in
      let wrote : output s'.world out_file
          ≡ output s.world out_file
            ++ take (write_file os (some out_file) (some (c ∷ bytes)) s).0 (c ∷ bytes) =
        rw (world, count) (streams.fwrite_output out_file (c ∷ bytes) s.world) in
      let kept : input s'.world in_file ≡ input s.world in_file =
        rw world (streams.fwrite_input out_file in_file (c ∷ bytes) s.world apart) in
      rw some_bytes (
        copy_wrote-Copies again in_file out_file
          (write_file os (some out_file) (some (c ∷ bytes)) s).0 (c ∷ bytes)
          (output s.world out_file) s' copies wrote (rw some_bytes at h)
        ∙ ap (λ t. output s.world out_file ++ ((c ∷ bytes) ++ t)) kept)

  -- On streams of which a read takes bytes off the front of what is left, a write appends as many
  -- bytes as it reports, and the end of the file is only reported when nothing is left: when the
  -- loop of cpr_fs_copy returns true, the output stream, which is another than the input stream,
  -- has taken what the input stream held, in this order and nothing else.
  pub copy_loop-Copies :
      (fuel in_file out_file : ℕ) (s : State W)
      → in_file ≢ out_file
      → (copy_loop os fuel in_file out_file s).0 ≡ some true
      → output (copy_loop os fuel in_file out_file s).1.world out_file
        ≡ output s.world out_file ++ input s.world in_file
  unfolding copy_loop ◌>>=◌
  copy_loop-Copies zero in_file out_file s apart h = absurd (none-ne-some _ h)
  copy_loop-Copies (suc fuel) in_file out_file s apart h =
      let (got, world) = read_file_lem os in_file 8192 s in
      let r = read_file os (some in_file) true 8192 s in
      let same : output r.1.world out_file ≡ output s.world out_file =
        rw world (streams.fread_output in_file 8192 out_file s.world) in
      let rest : input s.world in_file ≡ r.0 ++ input r.1.world in_file =
        rw (got, world) (streams.fread_input in_file 8192 s.world) in
      copy_chunk-Copies (copy_loop os fuel in_file out_file) in_file out_file r.0 r.1 apart
        (λ s h. copy_loop-Copies fuel in_file out_file s apart h) h
      ∙ ap (λ t. t ++ (r.0 ++ input r.1.world in_file)) same
      ∙ ap (λ t. output s.world out_file ++ t) (sym rest)
