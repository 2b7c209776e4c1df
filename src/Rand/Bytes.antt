-- ===== src/Rand/Bytes.antt =====
-- `cpr_rand_bytes` of src/rand.c over a `getrandom` that works as documented.
use libcopper.Base.{
  ℕ, zero, suc, ◌+◌, ◌-◌, ◌^◌, ◌≤◌, ◌<◌, ◌≡◌, refl, sym, ap, ◌∙◌, arith, some, true, false,
}
use libcopper.Base.{
  List, [], ◌∷◌, ◌++◌, append-nil, append_assoc, length, length-append, length-drop, take-length,
  drop, drop-add, ◌==◌, sub64,
}
use libcopper.Base.{memcpy, memcpy_in_range, write_at, write_at-append, write_at_front}
use libcopper.Error.{CprError}
use libcopper.Rand.{got, Entropy, Filled, getrandom_loop, rand_bytes, rand_u32, rand_u64, word_of}

abbrev pub Bytes : List ℕ → Type 0
Bytes [] = Unit
Bytes (x ∷ xs) = (x < 256) × Bytes xs

-- Asked for `n` bytes, `n` above 0, `getrandom` gives at least one and no more than `n`.
abbrev pub Reliable {ℓ} : {W : Type ℓ} → Entropy W → Type ℓ
Reliable {W} os =
    (n : ℕ) (w : W)
    → 0 < n
    → (bytes : List ℕ) × (w' : W) × (os.getrandom n w ≡ (got bytes, w'))
      × (0 < length bytes)
      × (length bytes ≤ n)
      × Bytes bytes

append-Bytes : (xs ys : List ℕ) → Bytes xs → Bytes ys → Bytes (xs ++ ys)
append-Bytes [] ys b c = c
append-Bytes (x ∷ xs) ys b c = (b.0, append-Bytes xs ys b.1 c)

-- What the system calls store in range.
stored_in_range :
    (pre post bytes : List ℕ)
    → length bytes ≤ length post
    → memcpy (pre ++ post) (length pre) bytes 0 (length bytes)
      ≡ some ((pre ++ bytes) ++ drop (length bytes) post)
stored_in_range pre post bytes h =
    memcpy_in_range (pre ++ post) (length pre) bytes 0 (length bytes)
      (omega (arith, h, length-append pre post)) (omega arith)
    ∙ ap (λ t. some (write_at (pre ++ post) (length pre) t)) (take-length bytes)
    ∙ ap some (
        write_at-append pre post bytes
        ∙ ap (λ t. pre ++ t) (write_at_front post bytes h)
        ∙ sym (append_assoc pre bytes (drop (length bytes) post)))

regroup :
    (pre bytes rest post : List ℕ) (n total : ℕ)
    → length bytes + n ≡ total
    → (pre ++ bytes) ++ (rest ++ drop n (drop (length bytes) post))
      ≡ pre ++ ((bytes ++ rest) ++ drop total post)
regroup pre bytes rest post n total h =
    append_assoc pre bytes (rest ++ drop n (drop (length bytes) post))
    ∙ ap (λ t. pre ++ t)
        (sym (append_assoc bytes rest (drop n (drop (length bytes) post)))
          ∙ ap (λ t. (bytes ++ rest) ++ t)
              (sym (drop-add (length bytes) n post) ∙ ap (λ k. drop k post) h))

-- The calls of `getrandom` for `size` bytes: each asks for what is still missing, and what they give,
-- one after the other, are the bytes in the middle.
pub data Drawn {ℓ} {W : Type ℓ} (os : Entropy W) : ℕ → W → List ℕ → W → Type ℓ where
  nothing_left : (w : W) → Drawn os 0 w [] w
  more :
      (size : ℕ) (w w' w'' : W) (bytes rest : List ℕ)
      → os.getrandom (suc size) w ≡ (got bytes, w')
      → Drawn os (suc size - length bytes) w' rest w''
      → Drawn os (suc size) w (bytes ++ rest) w''

module _ {ℓ} {W : Type ℓ} (os : Entropy W) (reliable : Reliable os) where
  -- One round in which bytes arrive.
  loop_step :
      (fuel : ℕ) (pre post : List ℕ) (size left : ℕ) (w w' : W) (e : CprError) (bytes : List ℕ)
      (result : Filled os)
      → os.getrandom (suc size) w ≡ (got bytes, w')
      → length bytes ≤ length post
      → sub64 (suc size) (length bytes) ≡ left
      → getrandom_loop os fuel
          ((pre ++ bytes) ++ drop (length bytes) post)
          (length (pre ++ bytes))
          left
          w'
          e
        ≡ result
      → getrandom_loop os (suc fuel) (pre ++ post) (length pre) (suc size) w e ≡ result
  unfolding getrandom_loop
  loop_step fuel pre post size left w w' e bytes result answer fits rest gave =
      let not_done : (suc size == 0) ≡ false = ground arith in
      rw
        (answer, stored_in_range pre post bytes fits, rest, not_done, sym (length-append pre bytes))
        gave

  loop_fills :
      (fuel : ℕ) (pre post : List ℕ) (size : ℕ) (w : W) (e : CprError)
      → size ≤ length post
      → size < fuel
      → size < 2 ^ 64
      → (bytes : List ℕ) × (w' : W) × (getrandom_loop os fuel (pre ++ post) (length pre) size w e
          ≡ some (true, pre ++ (bytes ++ drop size post), w', e))
        × (length bytes ≡ size)
        × Bytes bytes
        × Drawn os size w bytes w'
  unfolding getrandom_loop
  loop_fills zero pre post size w e inside left word = absurd (omega arith)
  loop_fills (suc fuel) pre post zero w e inside left word = ([], w, refl, refl, tt, nothing_left w)
  loop_fills (suc fuel) pre post (suc size) w e inside left word =
      let (bytes, w', answer, some_bytes, few, real) = reliable (suc size) w (omega arith) in
      let missing : sub64 (suc size) (length bytes) ≡ suc size - length bytes = omega arith in
      let (rest, w'', gave, size', real', drawn) =
        loop_fills fuel (pre ++ bytes) (drop (length bytes) post) (suc size - length bytes) w' e
          (omega (arith, length-drop (length bytes) post)) (omega arith) (omega arith) in
      let shape = regroup pre bytes rest post (suc size - length bytes) (suc size) (omega arith) in
      (
        bytes ++ rest,
        w'',
        loop_step fuel pre post size (suc size - length bytes) w w' e bytes _ answer (omega arith)
            missing (gave ∙ ap (λ t. some (true, t, w'', e)) shape),
        omega (arith, size', length-append bytes rest),
        append-Bytes bytes rest real real',
        more size w w' w'' bytes rest answer drawn,
      )

  -- With a getrandom that gives at least one byte and no more than it is asked for, and a size up
  -- to the length of the buffer and below the fuel and 2 ^ 64, cpr_rand_bytes returns true
  -- without an error and replaces the first bytes of the buffer, as many as the size tells, by
  -- exactly the bytes that the calls of getrandom gave, one call after the other, each for what
  -- was still missing; the rest of the buffer is as before.
  pub rand_bytes_fills :
      (fuel : ℕ) (out : List ℕ) (size : ℕ) (w : W) (e : CprError)
      → size ≤ length out
      → size < fuel
      → size < 2 ^ 64
      → (bytes : List ℕ) × (w' : W) × (rand_bytes os fuel (some out) size w e
          ≡ some (true, bytes ++ drop size out, w', e))
        × (length bytes ≡ size)
        × Bytes bytes
        × Drawn os size w bytes w'
  unfolding rand_bytes
  rand_bytes_fills fuel out zero w e inside left word = ([], w, refl, refl, tt, nothing_left w)
  rand_bytes_fills fuel out (suc size) w e inside left word =
      let (bytes, w', gave, size', real, drawn) =
        loop_fills fuel [] out (suc size) w e inside left word in
      let some_bytes : (suc size == 0) ≡ false = ground arith in
      (bytes, w', rw some_bytes gave, size', real, drawn)

  word_of-lt : (bytes : List ℕ) → Bytes bytes → length bytes ≡ 4 → word_of bytes < 2 ^ 32
  word_of-lt (a ∷ b ∷ c ∷ d ∷ []) small h = omega (arith, small)
  word_of-lt (a ∷ b ∷ c ∷ d ∷ _ ∷ xs) small h = absurd (omega arith)
  word_of-lt [] small h = absurd (omega arith)
  word_of-lt (_ ∷ []) small h = absurd (omega arith)
  word_of-lt (_ ∷ _ ∷ []) small h = absurd (omega arith)
  word_of-lt (_ ∷ _ ∷ _ ∷ []) small h = absurd (omega arith)

  -- A draw of `cpr_rand_u32` succeeds with a 32-bit number.
  pub rand_u32_gives :
      (fuel : ℕ) (w : W) (e : CprError)
      → 4 < fuel
      → (x : ℕ) × (w' : W) × (rand_u32 os fuel w e ≡ some (x, w', e)) × (x < 2 ^ 32)
  unfolding rand_u32
  rand_u32_gives fuel w e left =
      let (bytes, w', gave, size, real, drawn) =
        rand_bytes_fills fuel (0 ∷ 0 ∷ 0 ∷ 0 ∷ []) 4 w e (omega arith) left (omega arith) in
      let same : bytes ++ [] ≡ bytes = append-nil bytes in
      (word_of bytes, w', rw (gave, same) refl, word_of-lt bytes real size)

  -- A draw of `cpr_rand_u64` succeeds.
  pub rand_u64_gives :
      (fuel : ℕ) (w : W) (e : CprError)
      → 8 < fuel
      → (x : ℕ) × (w' : W) × (rand_u64 os fuel w e ≡ some (x, w', e))
  unfolding rand_u64
  rand_u64_gives fuel w e left =
      let (bytes, w', gave, size, real, drawn) =
        rand_bytes_fills fuel (0 ∷ 0 ∷ 0 ∷ 0 ∷ 0 ∷ 0 ∷ 0 ∷ 0 ∷ []) 8 w e (omega arith) left
          (omega arith) in
      (word_of (bytes ++ []), w', rw gave refl)
