-- ===== src/Base64/Decode.antt =====
-- src/base64.c, `cpr_base64_decode`. A null pointer is `none`.
use libcopper.Base.{
  is_missing, bytes_of, ℕ, zero, suc, ◌+◌, ◌-◌, ◌*◌, ◌/◌, ◌%◌, Bool, true, false, Option, none,
  some,
}
use libcopper.Base.{List, get_elem?, ltb, ◌==◌, if◌then◌else◌, ◌>>=◌}
use libcopper.Base.{u8, u32, ◌<<<◌, ◌>>>◌, bit_or}
use libcopper.Error.{CprError, set_error, err_invalid, err_overflow}
use libcopper.Base64.{Variant, base64_char, base64_charval, Output, put}

-- `n` of a full group: the values of all four characters, of which the first two enter it.
abbrev pub group_bits : Option ℕ → Option ℕ → Option ℕ → Option ℕ → Option ℕ
group_bits v0 v1 v2 v3 = do
  a ← v0
  b ← v1
  c ← v2
  d ← v3
  some (bit_or (u32 (a <<< 18)) (u32 (b <<< 12)))

-- `n` of a final group of three
abbrev pub triple_bits : Option ℕ → Option ℕ → Option ℕ → Option ℕ
triple_bits v0 v1 v2 = do
  a ← v0
  b ← v1
  c ← v2
  some (bit_or (bit_or (u32 (a <<< 18)) (u32 (b <<< 12))) (u32 (c <<< 6)))

-- The test for an invalid character: what is done with `n`, or without one.
abbrev pub if_valid {ℓ} : {R : Type ℓ} → Option ℕ → (ℕ → R) → R → R
if_valid none valid invalid = invalid
if_valid (some n) valid invalid = valid n

module _ (text : List ℕ) (variant : Variant) where
  -- The loop over the full groups: whether every character was valid, the index and the output.
  unfoldable pub decode_groups : ℕ → ℕ → Output → Option (Bool × ℕ × Output)
  unfolding base64_charval put
  decode_groups zero i o = some (true, i, o)
  decode_groups (suc left) i o = do
    c0 ← get_elem? text i
    c1 ← get_elem? text (i + 1)
    c2 ← get_elem? text (i + 2)
    c3 ← get_elem? text (i + 3)
    if_valid
        (group_bits (base64_charval c0 variant) (base64_charval c1 variant)
          (base64_charval c2 variant) (base64_charval c3 variant))
        (λ n. do
          o₁ ← put o (u8 (n >>> 16))
          o₂ ← put o₁ (u8 (n >>> 8))
          o₃ ← put o₂ (u8 n)
          decode_groups left (i + 4) o₃)
        (some (false, i, o))

  -- What follows the loop. Of two final characters, `base64_char` takes the codes.
  unfoldable pub decode_rest : ℕ → ℕ → Output → Option (Bool × Output)
  unfolding base64_char base64_charval put
  decode_rest final_chars i o =
      if final_chars == 2
      then (do
        c0 ← get_elem? text i
        v0 ← base64_char c0 variant
        c1 ← get_elem? text (i + 1)
        v1 ← base64_char c1 variant
        let n = bit_or (u32 (v0 <<< 18)) (u32 (v1 <<< 12))
        o₁ ← put o (u8 (n >>> 16))
        some (true, o₁))
      else if final_chars == 3
      then (do
        c0 ← get_elem? text i
        c1 ← get_elem? text (i + 1)
        c2 ← get_elem? text (i + 2)
        if_valid
            (triple_bits (base64_charval c0 variant) (base64_charval c1 variant)
              (base64_charval c2 variant))
            (λ n. do o₁ ← put o (u8 (n >>> 16)); o₂ ← put o₁ (u8 (n >>> 8)); some (true, o₂))
            (some (false, o)))
      else some (true, o)

-- `pad`: how many padding characters end the text.
abbrev pub padding : List ℕ → ℕ → Option ℕ
padding text text_size =
    if text_size % 4 == 0
    then (do
      last ← get_elem? text (text_size - 1)
      if last == b'='
          then (get_elem? text (text_size - 2) >>= λ c. some (if c == b'=' then 2 else 1))
          else some 0)
    else some 0

-- `needed`
abbrev pub decoded_size : ℕ → ℕ
decoded_size data_len =
    data_len / 4 * 3 + (if data_len % 4 == 3 then 2 else if data_len % 4 == 2 then 1 else 0)

-- `cpr_base64_decode`: whether it succeeds, and the buffer and `*out_size` afterwards.
unfoldable pub decode :
    Option (List ℕ)
    → ℕ
    → Option (List ℕ)
    → ℕ
    → Variant
    → ℕ
    → CprError
    → Option (Bool × Option (List ℕ) × ℕ × CprError)
unfolding decode_groups decode_rest
decode text text_size none buf_size variant out_size e =
    some (false, none, out_size, set_error err_invalid "NULL argument" e)
decode text text_size (some buf) buf_size variant out_size e =
    if is_missing text text_size
    then some (false, some buf, out_size, set_error err_invalid "NULL argument" e)
    else if text_size == 0
    then some (true, some buf, 0, e)
    else if text_size % 4 == 1
    then some (false, some buf, out_size, set_error err_invalid "invalid Base64 length" e)
    else (do
      pad ← padding (bytes_of text) text_size
      let data_len = text_size - pad
      let needed = decoded_size data_len
      if ltb buf_size needed
          then some (false, some buf, out_size, set_error err_overflow "buffer too small" e)
          else (do
            looped ←
                decode_groups (bytes_of text) variant (data_len / 4) 0
                  (record { buf = buf; pos = 0 })
            rest ←
                if looped.0
                then decode_rest (bytes_of text) variant (data_len % 4) looped.1 looped.2
                else some (false, looped.2)
            if rest.0
                then some (true, some rest.1.buf, needed, e)
                else some (
                  false,
                  some rest.1.buf,
                  out_size,
                  set_error err_invalid "invalid Base64 character" e,
                )))
