-- ===== src/Base64/Encoding.antt =====
-- src/base64.c: what `cpr_base64_encode` writes, and the two size functions.
use libcopper.Base.{
  ℕ, suc, ◌+◌, ◌-◌, ◌*◌, ◌/◌, ◌%◌, ◌^◌, ◌≤◌, ◌<◌, ◌≡◌, ◌≢◌, refl, sym, ap, ◌∙◌, arith,
}
use libcopper.Base.{
  Bool, true, false, List, [], ◌∷◌, ◌++◌, Option, none, some, length, drop, ltb, ◌==◌,
}
use libcopper.Base.{drop-add, append_assoc, length-drop, sub64, Bool-cases, inl, inr, lt→ltb}
use libcopper.Error.{CprError, set_error, err_overflow}
use libcopper.Base64.{Variant, put, base64e_len, base64d_len}
use libcopper.Base64.Encode.{encode, encode_rest, encode_groups}
use libcopper.Base64.Decode.{decoded_size}
use libcopper.Base64.Groups.{length-groups_text, at, put_lem, groups_text, Bytes, encode_groups_lem}

pub put_any :
    (pre post : List ℕ) (c : ℕ)
    → 0 < length post
    → put (at pre post) c ≡ some (at (pre ++ (c ∷ [])) (drop 1 post))
put_any pre [] c h = absurd (omega arith)
put_any pre (x ∷ post) c h = put_lem pre x c post

-- For at most 2 ^ 62 bytes cpr_base64e_len counts, with padding, four characters for each three
-- bytes begun, without it the characters that hold the bits, and in both cases one more for the
-- null.
pub e_len_lem :
    (n : ℕ)
    → n ≤ 2 ^ 62
    → (base64e_len n true ≡ (n + 2) / 3 * 4 + 1) × (base64e_len n false ≡ (n * 8 + 5) / 6 + 1)
unfolding base64e_len
e_len_lem n h = elim (Bool-cases (n % 3 == 0)) [
  | inl e ↦ rw e (ground arith, ground arith)
  | inr e ↦ rw e (ground arith, ground arith)
]

-- For a text size that leaves 3 below 2 ^ 64, what is decoded of the text less its padding is
-- never larger than cpr_base64d_len says.
pub d_len_lem :
    (text_size pad : ℕ)
    → text_size + 3 < 2 ^ 64
    → decoded_size (text_size - pad) ≤ base64d_len text_size
unfolding base64d_len
d_len_lem text_size pad h = ground arith

e_len_least : (n : ℕ) (pad : Bool) → n ≤ 2 ^ 62 → n / 3 * 4 + 1 ≤ base64e_len n pad
e_len_least n true h = omega (arith, e_len_lem n h)
e_len_least n false h = omega (arith, e_len_lem n h)

module _ (bytes buf : List ℕ) (buf_size : ℕ) (variant : Variant) (pad : Bool) (e : CprError) where
  -- Of up to 2 ^ 62 bytes, other than two or three, cpr_base64_encode writes into a buffer that
  -- is not smaller than cpr_base64e_len gives and not longer than its memory the text of the full
  -- groups of three and a null behind it: bytes after the last full group are left out.
  pub encode_lem :
      Bytes bytes
      → length bytes ≤ 2 ^ 62
      → length bytes ≢ 2
      → length bytes ≢ 3
      → base64e_len (length bytes) pad ≤ buf_size
      → buf_size ≤ length buf
      → encode (some bytes) (length bytes) (some buf) buf_size variant pad e
        ≡ some
            (true, some (groups_text variant bytes ++ (0 ∷ drop (length bytes / 3 * 4 + 1) buf)), e)
  unfolding encode encode_rest
  encode_lem small few not_two not_three room inside =
      let n = length bytes in
      let text = groups_text variant bytes in
      let size = length-groups_text variant bytes in
      let least = e_len_least n pad few in
      let enough : ltb buf_size (base64e_len n pad) ≡ false = ground arith in
      let left : drop 1 (drop (length text) buf) ≡ drop (n / 3 * 4 + 1) buf =
        sym (drop-add (length text) 1 buf) ∙ ap (λ t. drop t buf) (omega arith) in
      let not_one : (sub64 n 1 == 1) ≡ false = ground arith in
      let not_pair : (sub64 n 1 == 2) ≡ false = ground arith in
      rw
        (
          enough,
          encode_groups_lem bytes n variant pad (omega arith) (suc n) 0 bytes [] buf small refl
              (omega arith) (omega arith) (omega arith),
          not_one,
          not_pair,
          put_any text (drop (length text) buf) 0 (omega (arith, length-drop (length text) buf)),
        )
        (rw (append_assoc text (0 ∷ []) (drop 1 (drop (length text) buf)), left) refl)

  -- For a size above 0 and a buffer size below what cpr_base64e_len gives for it,
  -- cpr_base64_encode fails, sets CPR_ERR_OVERFLOW and writes nothing, whether the buffer is
  -- null, the data is null, or both are there.
  encode_refuses :
      (source : Option (List ℕ)) (n : ℕ)
      → 0 < n
      → buf_size < base64e_len n pad
      → (encode source n none buf_size variant pad e
          ≡ some (false, none, set_error err_overflow "NULL argument" e))
        × (encode none n (some buf) buf_size variant pad e
            ≡ some (false, some buf, set_error err_overflow "NULL argument" e))
        × (encode (some bytes) n (some buf) buf_size variant pad e
            ≡ some (false, some buf, set_error err_overflow "buffer too small" e))
  unfolding encode
  encode_refuses source n some_bytes short =
      (refl, rw (lt→ltb 0 n some_bytes) refl, rw (lt→ltb buf_size (base64e_len n pad) short) refl)

module _ (a b c : ℕ) (buf : List ℕ) (buf_size : ℕ) (variant : Variant) (pad : Bool)
    (e : CprError) where
  -- With three bytes of data, and a buffer that is not smaller than cpr_base64e_len gives and not
  -- longer than its memory, cpr_base64_encode reads past the end of the data.
  encode_three :
      Bytes (a ∷ b ∷ c ∷ [])
      → base64e_len 3 pad ≤ buf_size
      → buf_size ≤ length buf
      → encode (some (a ∷ b ∷ c ∷ [])) 3 (some buf) buf_size variant pad e ≡ none
  unfolding encode encode_rest
  encode_three small room inside =
      let bytes = a ∷ b ∷ c ∷ [] in
      let least = e_len_least 3 pad (omega arith) in
      let enough : ltb buf_size (base64e_len 3 pad) ≡ false = ground arith in
      rw
        (
          enough,
          encode_groups_lem bytes 3 variant pad (omega arith) 4 0 bytes [] buf small refl
              (omega arith) (omega arith) (omega (arith, length-groups_text variant bytes)),
        )
        refl

  -- The outcome of cpr_base64_encode on two bytes of data does not depend on the second.
  pub encode_two :
      encode (some (a ∷ b ∷ [])) 2 (some buf) buf_size variant pad e
      ≡ encode (some (a ∷ c ∷ [])) 2 (some buf) buf_size variant pad e
  unfolding encode encode_groups encode_rest
  encode_two = refl
