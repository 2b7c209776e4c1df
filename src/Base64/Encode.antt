-- ===== src/Base64/Encode.antt =====
-- src/base64.c, `cpr_base64_encode`. A null pointer is `none`.
use libcopper.Base.{is_missing, bytes_of, ℕ, zero, suc, ◌+◌, Bool, true, false, Option, none, some}
use libcopper.Base.{List, get_elem?, ltb, leb, ◌==◌, if◌then◌else◌, ◌>>=◌}
use libcopper.Base.{u32, u64, sub64, ◌<<<◌, bit_or}
use libcopper.Error.{CprError, set_error, err_overflow}
use libcopper.Base64.{Variant, Output, put, put_char, pack, sextet, base64e_len}

module _ (bytes : List ℕ) (data_size : ℕ) (variant : Variant) (pad : Bool) where
  -- The loop over the full groups, from index `i`. The fuel bounds the number of rounds; running
  -- out of it is `none` too.
  unfoldable pub encode_groups : ℕ → ℕ → Output → Option (ℕ × Output)
  unfolding put_char
  encode_groups zero i o = none
  encode_groups (suc fuel) i o =
      if leb (u64 (i + 3)) data_size
      then (do
        a ← get_elem? bytes i
        b ← get_elem? bytes (i + 1)
        c ← get_elem? bytes (i + 2)
        let n = pack a b c
        o₁ ← put_char variant o (sextet n 18)
        o₂ ← put_char variant o₁ (sextet n 12)
        o₃ ← put_char variant o₂ (sextet n 6)
        o₄ ← put_char variant o₃ (sextet n 0)
        encode_groups fuel (u64 (i + 3)) o₄)
      else some (i, o)

  -- What follows the loop: `rem` is `data_size - 1`.
  unfoldable pub encode_rest : ℕ → Output → Option Output
  unfolding put_char put
  encode_rest i o =
      let rem = sub64 data_size 1 in
      if rem == 1
      then (do
        a ← get_elem? bytes i
        let n = u32 (a <<< 16)
        o₁ ← put_char variant o (sextet n 18)
        o₂ ← put_char variant o₁ (sextet n 12)
        if pad then (put o₂ b'=' >>= λ o₃. put o₃ b'=') else some o₂)
      else if rem == 2
      then (do
        a ← get_elem? bytes i
        b ← get_elem? bytes (i + 1)
        let n = bit_or (u32 (a <<< 16)) (u32 (b <<< 8))
        o₁ ← put_char variant o (sextet n 18)
        o₂ ← put_char variant o₁ (sextet n 12)
        o₃ ← put_char variant o₂ (sextet n 6)
        if pad then put o₃ b'=' else some o₃)
      else some o

-- `cpr_base64_encode`: whether it succeeds, and the buffer afterwards.
unfoldable pub encode :
    Option (List ℕ)
    → ℕ
    → Option (List ℕ)
    → ℕ
    → Variant
    → Bool
    → CprError
    → Option (Bool × Option (List ℕ) × CprError)
unfolding encode_groups encode_rest put base64e_len
encode bytes data_size none buf_size variant pad e =
    some (false, none, set_error err_overflow "NULL argument" e)
encode bytes data_size (some buf) buf_size variant pad e =
    if is_missing bytes data_size
    then some (false, some buf, set_error err_overflow "NULL argument" e)
    else if ltb buf_size (base64e_len data_size pad)
    then some (false, some buf, set_error err_overflow "buffer too small" e)
    else (do
      looped ←
          encode_groups (bytes_of bytes) data_size variant pad (suc data_size) 0
            (record { buf = buf; pos = 0 })
      o ← encode_rest (bytes_of bytes) data_size variant pad looped.0 looped.1
      ended ← put o 0
      some (true, some ended.buf, e))
