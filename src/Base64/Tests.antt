-- ===== src/Base64/Tests.antt =====
-- Runs of src/base64.c on small texts, and the theorems at concrete inputs.
use libcopper.Base.{ℕ, ◌+◌, ◌*◌, ◌/◌, ◌≡◌, refl, arith, replicate}
use libcopper.Base.{true, List, [], ◌∷◌, ◌++◌, some, none, length, drop, ◌>>=◌}
use libcopper.Error.{no_error}
use libcopper.Base64.{Variant, base64e_len, base64_char, base64_charval}
use libcopper.Base64.Encode.{encode, encode_groups, encode_rest}
use libcopper.Base64.Decode.{decode, decode_groups, decode_rest}
use libcopper.Base64.Groups.{groups_text}
use libcopper.Base64.Encoding.{e_len_lem, encode_lem}
use libcopper.Base64.Decoding.{decode_lem, decode_two, chars, groups_bytes}
use libcopper.Base64.RoundTrip.{kept, decode-encode}

abbrev man_man : List ℕ
man_man = b'M' ∷ b'a' ∷ b'n' ∷ b'M' ∷ b'a' ∷ b'n' ∷ []

abbrev room : List ℕ
room = replicate 9 7

-- "ManMan" is "TWFuTWFu".
man_man_text :
    encode (some man_man) 6 (some room) 9 Variant.std true no_error
    ≡ some (true, some (b'T' ∷ b'W' ∷ b'F' ∷ b'u' ∷ b'T' ∷ b'W' ∷ b'F' ∷ b'u' ∷ 0 ∷ []), no_error)
unfolding encode encode_groups encode_rest base64_char base64e_len
man_man_text = refl

-- Of "Man!" the last byte is not encoded.
tail_is_lost :
    encode (some (b'M' ∷ b'a' ∷ b'n' ∷ b'!' ∷ [])) 4 (some room) 9 Variant.std true no_error
    ≡ some (true, some (b'T' ∷ b'W' ∷ b'F' ∷ b'u' ∷ 0 ∷ 7 ∷ 7 ∷ 7 ∷ 7 ∷ []), no_error)
unfolding encode encode_groups encode_rest base64_char base64e_len
tail_is_lost = refl

-- A final group of three characters is decoded to its two bytes.
triple_is_decoded :
    decode (some (b'T' ∷ b'W' ∷ b'E' ∷ b'=' ∷ [])) 4 (some (0 ∷ 0 ∷ [])) 2 Variant.std 0 no_error
    ≡ some (true, some (b'M' ∷ b'a' ∷ []), 2, no_error)
unfolding decode decode_groups decode_rest base64_charval
triple_is_decoded = refl

abbrev man_values : List ℕ
man_values = 19 ∷ 22 ∷ 5 ∷ 46 ∷ []

encode_lem_example :
    encode (some man_man) (length man_man) (some room) 9 Variant.std true no_error
    ≡ some (
      true,
      some (groups_text Variant.std man_man ++ (0 ∷ drop (length man_man / 3 * 4 + 1) room)),
      no_error,
    )
encode_lem_example =
    encode_lem man_man room 9 Variant.std true no_error
      (omega arith, (omega arith, (omega arith, (omega arith, (omega arith, (omega arith, tt))))))
      (omega arith) (omega arith) (omega arith) (omega (arith, e_len_lem 6 (omega arith)))
      (omega arith)

decode_lem_example :
    decode
      (some (chars Variant.std man_values ++ []))
      (length man_values)
      (some room)
      9
      Variant.std
      0
      no_error
    ≡ some (true, some (groups_bytes man_values ++ drop (1 * 3) room), 1 * 3, no_error)
decode_lem_example =
    decode_lem man_values [] room 9 0 Variant.std no_error 1
      (omega arith, (omega arith, (omega arith, (omega arith, tt)))) (omega arith) (omega arith)
      (omega arith) (omega arith)

decode_two_example : decode (some (b'T' ∷ b'Q' ∷ [])) 2 (some room) 9 Variant.std 0 no_error ≡ none
decode_two_example = decode_two b'T' b'Q' room 9 0 Variant.std no_error (omega arith) (omega arith)

decode-encode_example :
    (encode (some man_man) (length man_man) (some room) (length room) Variant.std true no_error
      >>= λ r. decode r.1 (2 * 4) (some room) (length room) Variant.std 0 no_error)
    ≡ some (true, some (kept man_man ++ drop (2 * 3) room), 2 * 3, no_error)
decode-encode_example =
    decode-encode man_man room room Variant.std true no_error 2
      (omega arith, (omega arith, (omega arith, (omega arith, (omega arith, (omega arith, tt))))))
      (omega arith) (omega arith) (omega arith) (omega (arith, e_len_lem 6 (omega arith)))
      (omega arith)
