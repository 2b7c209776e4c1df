-- ===== src/Rand.antt =====
-- src/rand.c, the branch for Linux: random bytes from the system, and numbers in a range. The
-- system calls are a parameter. A loop runs on fuel; running out of it is `none`, and so is storing
-- outside of the buffer.
pub mod Lemire
pub mod Bytes
pub mod Ranges
pub mod Wide
pub mod Mask
mod Tests
use libcopper.Base.{
  ℕ, zero, suc, ◌+◌, ◌-◌, ◌*◌, ◌%◌, ◌^◌, Bool, true, false, Option, none, some, List, [], ◌∷◌,
  length,
}
use libcopper.Base.{
  ltb, leb, ◌==◌, if◌then◌else◌, ◌>>=◌, memcpy, u32, u64, sub32, sub64, ◌>>>◌, bit_and, bit_or,
}
use libcopper.Error.{CprError, set_error, err_invalid, err_io}

-- `cpr__lemireu32_step`; `none` is false.
pub lemireu32_step : ℕ → ℕ → Option ℕ
lemireu32_step x width =
    let m = u64 (x * width) in
    let low = u32 m in
    if leb width low
    then some (u32 (m >>> 32))
    else let threshold = sub32 0 width % width in
      if leb threshold low then some (u32 (m >>> 32)) else none

-- `mask |= mask >> k`
abbrev pub smear : ℕ → ℕ → ℕ
smear k mask = bit_or mask (mask >>> k)

-- `cpr__pow2_mask`
pub pow2_mask : ℕ → ℕ
pow2_mask width = smear 32 (smear 16 (smear 8 (smear 4 (smear 2 (smear 1 (sub64 width 1))))))

-- What `getrandom` or `read` answers: bytes, `EINTR`, `ENOSYS`, or another error.
pub data Answer : Type 0 where
  got : List ℕ → Answer
  interrupted missing failed : Answer

-- What is done on each answer.
abbrev pub on_answer {ℓ} : {R : Type ℓ} → Answer → (List ℕ → R) → R → R → R → R
on_answer (got bytes) stored again unknown error = stored bytes
on_answer interrupted stored again unknown error = again
on_answer missing stored again unknown error = unknown
on_answer failed stored again unknown error = error

-- The test of the rejection loop.
abbrev pub take_or {ℓ} : {R : Type ℓ} → Option ℕ → (ℕ → R) → R → R
take_or none accept retry = retry
take_or (some out) accept retry = accept out

-- The system calls, on the state `W` of the system. `read` and `close` are on the descriptor that
-- `open` gave.
pub record Entropy {ℓ} (W : Type ℓ) : Type ℓ where
  pub getrandom : ℕ → W → Answer × W
  pub open_urandom : W → Bool × W
  pub read_urandom : ℕ → W → Answer × W
  pub close_urandom : W → W

-- The number that bytes stand for in memory, the lowest byte first as on a little-endian host.
abbrev pub word_of : List ℕ → ℕ
word_of [] = 0
word_of (b ∷ bs) = b + 256 * word_of bs

module _ {ℓ} {W : Type ℓ} (os : Entropy W) where
  -- What a function of this file leaves: the buffer, the system and the error state.
  abbrev pub Filled : Type ℓ
  Filled = Option (Bool × List ℕ × W × CprError)

  -- The loop of `cpr__rand_urandom`, which stores from index `p` on.
  pub urandom_loop : ℕ → List ℕ → ℕ → ℕ → W → CprError → Filled
  urandom_loop zero out p size w e = none
  urandom_loop (suc fuel) out p size w e =
      if size == 0
      then some (true, out, os.close_urandom w, e)
      else let (answer, w') = os.read_urandom size w in
        let error =
          some (false, out, os.close_urandom w', set_error err_io "/dev/urandom read failed" e) in
        on_answer answer
          (λ bytes. memcpy out p bytes 0 (length bytes) >>= λ stored.
            urandom_loop fuel stored (p + length bytes) (sub64 size (length bytes)) w' e)
          (urandom_loop fuel out p size w' e) error error

  -- `cpr__rand_urandom`
  pub rand_urandom : ℕ → List ℕ → ℕ → ℕ → W → CprError → Filled
  unfolding urandom_loop
  rand_urandom fuel out p size w e =
      let (opened, w') = os.open_urandom w in
      if opened
      then urandom_loop fuel out p size w' e
      else some (false, out, w', set_error err_io "failed to open /dev/urandom" e)

  -- The loop of `cpr_rand_bytes`.
  pub getrandom_loop : ℕ → List ℕ → ℕ → ℕ → W → CprError → Filled
  unfolding rand_urandom
  getrandom_loop zero out p size w e = none
  getrandom_loop (suc fuel) out p size w e =
      if size == 0
      then some (true, out, w, e)
      else let (answer, w') = os.getrandom size w in
        on_answer answer
          (λ bytes. memcpy out p bytes 0 (length bytes) >>= λ stored.
            getrandom_loop fuel stored (p + length bytes) (sub64 size (length bytes)) w' e)
          (getrandom_loop fuel out p size w' e) (rand_urandom fuel out p size w' e)
          (some (false, out, w', set_error err_io "getrandom() failed" e))

  -- `cpr_rand_bytes`; a null pointer is `none`.
  pub rand_bytes : ℕ → Option (List ℕ) → ℕ → W → CprError → Filled
  unfolding getrandom_loop
  rand_bytes fuel none size w e =
      if ltb 0 size
      then some (false, [], w, set_error err_invalid "out is NULL" e)
      else some (true, [], w, e)
  rand_bytes fuel (some out) size w e =
      if size == 0 then some (true, out, w, e) else getrandom_loop fuel out 0 size w e

  -- `cpr_rand_u32` and `cpr_rand_u64`: the number that the bytes of `v` stand for afterwards,
  -- whether or not they could be filled.
  pub rand_u32 : ℕ → W → CprError → Option (ℕ × W × CprError)
  unfolding rand_bytes
  rand_u32 fuel w e =
      rand_bytes fuel (some (0 ∷ 0 ∷ 0 ∷ 0 ∷ [])) 4 w e >>= λ r. some (word_of r.1, r.2, r.3)

  pub rand_u64 : ℕ → W → CprError → Option (ℕ × W × CprError)
  unfolding rand_bytes
  rand_u64 fuel w e = rand_bytes fuel (some (0 ∷ 0 ∷ 0 ∷ 0 ∷ 0 ∷ 0 ∷ 0 ∷ 0 ∷ [])) 8 w e >>= λ r.
      some (word_of r.1, r.2, r.3)

  -- The rejection loop of `cpr_randr_u32`; `fuel` bounds the system calls of a draw, and the
  -- first argument the draws.
  pub draw_u32 : ℕ → ℕ → ℕ → W → CprError → Option (ℕ × W × CprError)
  unfolding rand_u32 lemireu32_step
  draw_u32 zero fuel width w e = none
  draw_u32 (suc draws) fuel width w e = do
    r ← rand_u32 fuel w e
    take_or (lemireu32_step r.0 width) (λ out. some (out, r.1, r.2))
        (draw_u32 draws fuel width r.1 r.2)

  -- `cpr_randr_u32`
  pub randr_u32 : ℕ → ℕ → ℕ → ℕ → W → CprError → Option (ℕ × W × CprError)
  unfolding draw_u32 rand_u32
  randr_u32 draws fuel min max w e =
      let width = sub32 max min in
      if width == 2 ^ 32 - 1
      then (rand_u32 fuel w e >>= λ r. some (u32 (min + r.0), r.1, r.2))
      else (draw_u32 draws fuel (u32 (width + 1)) w e >>= λ r. some (u32 (min + r.0), r.1, r.2))

  -- The rejection loop of `cpr_randr_u64`.
  pub draw_u64 : ℕ → ℕ → ℕ → ℕ → W → CprError → Option (ℕ × W × CprError)
  unfolding rand_u64
  draw_u64 zero fuel mask width w e = none
  draw_u64 (suc draws) fuel mask width w e = do
    r ← rand_u64 fuel w e
    let x = bit_and r.0 mask
    if ltb x width then some (x, r.1, r.2) else draw_u64 draws fuel mask width r.1 r.2

  -- `cpr_randr_u64`
  pub randr_u64 : ℕ → ℕ → ℕ → ℕ → W → CprError → Option (ℕ × W × CprError)
  unfolding draw_u64 rand_u64 pow2_mask
  randr_u64 draws fuel min max w e =
      let width = sub64 max min in
      if width == 2 ^ 64 - 1
      then (rand_u64 fuel w e >>= λ r. some (u64 (min + r.0), r.1, r.2))
      else let width' = u64 (width + 1) in
        (draw_u64 draws fuel (pow2_mask width') width' w e >>= λ r.
        some (u64 (min + r.0), r.1, r.2))

  -- `cpr_randr_i32` and `cpr_randr_i64`, where a signed number is its two's complement word.
  pub randr_i32 : ℕ → ℕ → ℕ → ℕ → W → CprError → Option (ℕ × W × CprError)
  unfolding randr_u32
  randr_i32 draws fuel min max w e =
      randr_u32 draws fuel (sub32 min (2 ^ 31)) (sub32 max (2 ^ 31)) w e >>= λ r.
      some (u32 (r.0 + 2 ^ 31), r.1, r.2)

  pub randr_i64 : ℕ → ℕ → ℕ → ℕ → W → CprError → Option (ℕ × W × CprError)
  unfolding randr_u64
  randr_i64 draws fuel min max w e =
      randr_u64 draws fuel (sub64 min (2 ^ 63)) (sub64 max (2 ^ 63)) w e >>= λ r.
      some (u64 (r.0 + 2 ^ 63), r.1, r.2)
