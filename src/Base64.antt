-- ===== src/Base64.antt =====
-- src/base64.c: Base64 with the standard and the URL-safe alphabet. Characters are their codes. A
-- result `none` is an access out of range: of the data, of the text, of the output buffer or of
-- the alphabet's tail.
pub mod Encode
pub mod Decode
pub mod Alphabet
pub mod Groups
pub mod Encoding
pub mod Decoding
pub mod RoundTrip
mod Tests
use libcopper.Base.{
  ℕ, zero, suc, ◌+◌, ◌-◌, ◌*◌, ◌/◌, ◌%◌, ◌≤◌, Bool, true, false, ◌&&◌, ◌||◌, Option, none, some,
}
use libcopper.Base.{List, [], ◌∷◌, length, get_elem?, set, ltb, leb, ◌==◌, if◌then◌else◌, ◌>>=◌}
use libcopper.Base.{u8, u32, u64, sub64, ◌<<<◌, ◌>>>◌, bit_and, bit_or}
use libcopper.Error.{CprError, set_error, err_invalid, err_overflow}

-- `CprBase64Variant`
pub data Variant : Type 0 where
  std url : Variant

-- `std_tail` and `url_tail`
abbrev pub tail_chars : Variant → List ℕ
tail_chars Variant.std = b'+' ∷ b'/' ∷ []
tail_chars Variant.url = b'-' ∷ b'_' ∷ []

-- `cpr__base64_char`
pub base64_char : ℕ → Variant → Option ℕ
base64_char v variant =
    if ltb v 26
    then some (b'A' + v)
    else if ltb v 52
    then some (b'a' + (v - 26))
    else if ltb v 62
    then some (b'0' + (v - 52))
    else get_elem? (tail_chars variant) (v - 62)

-- The two tests behind the alphanumeric ones.
abbrev pub tail_val : ℕ → ℕ → ℕ → Option ℕ
tail_val c first second = if c == first then some 62 else if c == second then some 63 else none

-- `cpr__base64_charval`; `none` is the -1.
pub base64_charval : ℕ → Variant → Option ℕ
base64_charval c variant =
    if leb b'A' c && leb c b'Z'
    then some (c - b'A')
    else if leb b'a' c && leb c b'z'
    then some (c - b'a' + 26)
    else if leb b'0' c && leb c b'9'
    then some (c - b'0' + 52)
    else elim variant [ Variant.std ↦ tail_val c b'+' b'/' | Variant.url ↦ tail_val c b'-' b'_' ]

-- `cpr_base64e_len`
pub base64e_len : ℕ → Bool → ℕ
base64e_len data_size pad =
    let groups = data_size / 3 in
    let rem = data_size % 3 in
    let chars =
      if pad
      then u64 (u64 (groups + (if rem == 0 then 0 else 1)) * 4)
      else u64 (u64 (groups * 4) + (if rem == 0 then 0 else rem + 1)) in
    u64 (chars + 1)

-- `cpr_base64d_len`
pub base64d_len : ℕ → ℕ
base64d_len text_size = u64 (u64 (text_size + 3) / 4 * 4)

-- The output buffer and `out`, as an index into it.
pub record Output : Type 0 where
  pub buf : List ℕ
  pub pos : ℕ

-- `*out++ = c`
pub put : Output → ℕ → Option Output
put o c =
    if ltb o.pos (length o.buf)
    then some (record { buf = set o.buf o.pos c; pos = o.pos + 1 })
    else none

-- `*out++ = cpr__base64_char(v, variant)`
pub put_char : Variant → Output → ℕ → Option Output
unfolding base64_char put
put_char variant o v = base64_char v variant >>= λ c. put o c

-- `((uint32_t)a << 16) | ((uint32_t)b << 8) | c`
abbrev pub pack : ℕ → ℕ → ℕ → ℕ
pack a b c = bit_or (bit_or (u32 (a <<< 16)) (u32 (b <<< 8))) c

-- The sextet of `n` at bit `s`: `(n >> s) & 0x3F`.
abbrev pub sextet : ℕ → ℕ → ℕ
sextet n s = bit_and (n >>> s) 0x3f
