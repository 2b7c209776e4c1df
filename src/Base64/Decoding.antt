-- ===== src/Base64/Decoding.antt =====
-- src/base64.c: what `cpr_base64_decode` writes for full groups of characters.
use libcopper.Base.{
  ℕ, zero, suc, ◌+◌, ◌-◌, ◌*◌, ◌/◌, ◌%◌, ◌^◌, ◌≤◌, ◌<◌, ◌≡◌, refl, sym, ap, ◌∙◌, arith,
}
use libcopper.Base.{
  true, false, List, [], ◌∷◌, ◌++◌, Option, none, some, length, drop, ltb, ◌==◌, get_elem?,
}
use libcopper.Base.{
  drop-add, append_assoc, append-nil, length-drop, ◌>>=◌, bit_or_fields, ◌<<<◌, ◌>>>◌, u8, u32,
  bit_or, get_or,
}
use libcopper.Error.{CprError, set_error, err_invalid}
use libcopper.Base64.{Variant, Output, put}
use libcopper.Base64.Decode.{decode, decode_groups, decode_rest, padding, decoded_size}
use libcopper.Base64.Alphabet.{char_of, base64_charval_value, char_of-ne, base64_char_past}
use libcopper.Base64.Groups.{at, put_lem, elem-drop}

-- The text of a list of values below 64.
abbrev pub chars : Variant → List ℕ → List ℕ
chars variant [] = []
chars variant (v ∷ vs) = char_of variant v ∷ chars variant vs

abbrev pub Values : List ℕ → Type 0
Values [] = Unit
Values (v ∷ vs) = (v < 64) × Values vs

-- The bytes that the loop makes of each four values: only the first two enter them.
unfoldable pub groups_bytes : List ℕ → List ℕ
groups_bytes (v0 ∷ v1 ∷ v2 ∷ v3 ∷ vs) = (v0 * 4 + v1 / 16) ∷ (v1 % 16 * 16) ∷ 0 ∷ groups_bytes vs
groups_bytes vs = []

pub length-groups_bytes : (vs : List ℕ) → length (groups_bytes vs) ≡ length vs / 4 * 3
unfolding groups_bytes
length-groups_bytes [] = refl
length-groups_bytes (a ∷ []) = omega arith
length-groups_bytes (a ∷ b ∷ []) = omega arith
length-groups_bytes (a ∷ b ∷ c ∷ []) = omega arith
length-groups_bytes (a ∷ b ∷ c ∷ d ∷ vs) = omega (arith, length-groups_bytes vs)

bits_lem :
    (v0 v1 : ℕ)
    → v0 < 64
    → v1 < 64
    → bit_or (u32 (v0 <<< 18)) (u32 (v1 <<< 12)) ≡ v0 * 2 ^ 18 + v1 * 2 ^ 12
bits_lem v0 v1 l0 l1 =
    let high : u32 (v0 <<< 18) ≡ v0 * 2 ^ 18 = omega arith in
    let low : u32 (v1 <<< 12) ≡ v1 * 2 ^ 12 = omega arith in
    rw (high, low) (bit_or_fields 18 v0 (v1 * 2 ^ 12) (omega arith))

-- Three bytes in a row.
three_puts :
    {R : Type 0} (pre post : List ℕ) (a b c : ℕ) (k : Output → Option R)
    → 3 ≤ length post
    → (put (at pre post) a >>= λ o₁. put o₁ b >>= λ o₂. put o₂ c >>= k)
      ≡ k (at (pre ++ (a ∷ b ∷ c ∷ [])) (drop 3 post))
three_puts pre (x0 ∷ x1 ∷ x2 ∷ post) a b c k room =
    rw
      (
        put_lem pre x0 a (x1 ∷ x2 ∷ post),
        put_lem (pre ++ (a ∷ [])) x1 b (x2 ∷ post),
        put_lem ((pre ++ (a ∷ [])) ++ (b ∷ [])) x2 c post,
        append_assoc pre (a ∷ []) (b ∷ []),
        append_assoc pre (a ∷ b ∷ []) (c ∷ []),
      )
      refl
three_puts pre [] a b c k room = absurd (omega arith)
three_puts pre (x0 ∷ []) a b c k room = absurd (omega arith)
three_puts pre (x0 ∷ x1 ∷ []) a b c k room = absurd (omega arith)

module _ (text : List ℕ) (variant : Variant) (tail : List ℕ) where
  element :
      (i k : ℕ) (rest : List ℕ) → drop i text ≡ rest → get_elem? text (i + k) ≡ get_elem? rest k
  element i k rest here = elem-drop text i k ∙ ap (λ t. get_elem? t k) here

  pub decode_groups_lem :
      (left i : ℕ) (vs pre post : List ℕ)
      → Values vs
      → drop i text ≡ chars variant vs ++ tail
      → length vs ≡ left * 4
      → length (groups_bytes vs) ≤ length post
      → decode_groups text variant left i (at pre post)
        ≡ some
            (true, i + left * 4, at (pre ++ groups_bytes vs) (drop (length (groups_bytes vs)) post))
  unfolding decode_groups groups_bytes
  decode_groups_lem zero i [] pre post small here total room =
      rw (append-nil pre) (ap (λ t. some (true, t, at pre post)) (omega arith))
  decode_groups_lem zero i (v ∷ vs) pre post small here total room = absurd (omega arith)
  decode_groups_lem (suc left) i (v0 ∷ v1 ∷ v2 ∷ v3 ∷ vs) pre post small here total room =
      let c = char_of variant in
      let all = c v0 ∷ c v1 ∷ c v2 ∷ c v3 ∷ (chars variant vs ++ tail) in
      let bytes = groups_bytes vs in
      let group = (v0 * 4 + v1 / 16) ∷ (v1 % 16 * 16) ∷ 0 ∷ [] in
      let rest : drop (length bytes) (drop 3 post) ≡ drop (suc (suc (suc (length bytes)))) post =
        sym (drop-add 3 (length bytes) post)
        ∙ ap (λ t. drop t post) {y = suc (suc (suc (length bytes)))} (omega arith) in
      let first : get_elem? text i ≡ some (c v0) =
        ap (get_elem? text) (omega arith) ∙ element i 0 all here in
      let second : get_elem? text (i + 1) ≡ some (c v1) = element i 1 all here in
      let third : get_elem? text (i + 2) ≡ some (c v2) = element i 2 all here in
      let fourth : get_elem? text (i + 3) ≡ some (c v3) = element i 3 all here in
      let b0 : u8 ((v0 * 2 ^ 18 + v1 * 2 ^ 12) >>> 16) ≡ v0 * 4 + v1 / 16 = omega (arith, small) in
      let b1 : u8 ((v0 * 2 ^ 18 + v1 * 2 ^ 12) >>> 8) ≡ v1 % 16 * 16 = omega (arith, small) in
      let b2 : u8 (v0 * 2 ^ 18 + v1 * 2 ^ 12) ≡ 0 = omega (arith, small) in
      rw
        (
          first,
          second,
          third,
          fourth,
          base64_charval_value v0 variant small.0,
          base64_charval_value v1 variant small.1.0,
          base64_charval_value v2 variant small.1.1.0,
          base64_charval_value v3 variant small.1.1.1.0,
          bits_lem v0 v1 small.0 small.1.0,
          b0,
          b1,
          b2,
        )
        (three_puts pre post (v0 * 4 + v1 / 16) (v1 % 16 * 16) 0
            (λ o. decode_groups text variant left (i + 4) o) (omega arith)
          ∙ decode_groups_lem left (i + 4) vs (pre ++ group) (drop 3 post) small.1.1.1.1
              (drop-add i 4 text ∙ ap (drop 4) here) (omega arith)
              (omega (arith, length-drop 3 post))
          ∙ rw (append_assoc pre group bytes, rest)
              (ap
                (λ t. some (
                  true,
                  t,
                  at (pre ++ (group ++ bytes)) (drop (suc (suc (suc (length bytes)))) post),
                ))
                (omega arith)))
  decode_groups_lem (suc left) i [] pre post small here total room = absurd (omega arith)
  decode_groups_lem (suc left) i (_ ∷ []) pre post small here total room = absurd (omega arith)
  decode_groups_lem (suc left) i (_ ∷ _ ∷ []) pre post small here total room = absurd (omega arith)
  decode_groups_lem (suc left) i (_ ∷ _ ∷ _ ∷ []) pre post small here total room =
      absurd (omega arith)

elem-chars :
    (variant : Variant) (vs tail : List ℕ) (i : ℕ)
    → i < length vs
    → get_elem? (chars variant vs ++ tail) i ≡ some (char_of variant (get_or vs i 0))
elem-chars variant [] tail i h = absurd (omega arith)
elem-chars variant (v ∷ vs) tail zero h = refl
elem-chars variant (v ∷ vs) tail (suc i) h = elem-chars variant vs tail i (omega arith)

get_or-Values : (vs : List ℕ) (i : ℕ) → Values vs → get_or vs i 0 < 64
get_or-Values [] i small = omega arith
get_or-Values (v ∷ vs) zero small = small.0
get_or-Values (v ∷ vs) (suc i) small = get_or-Values vs i small.1

module _ (vs tail buf : List ℕ) (buf_size out_size : ℕ) (variant : Variant) (e : CprError) where
  -- For a text of 4 * q characters of the alphabet, q above 0, and a buffer of at least 3 * q
  -- bytes that is not longer than its memory, cpr_base64_decode succeeds, stores for each group
  -- three bytes that only the first two characters enter, leaves the rest of the buffer, and
  -- gives 3 * q as the size.
  pub decode_lem :
      (q : ℕ)
      → Values vs
      → length vs ≡ q * 4
      → 0 < q
      → q * 3 ≤ buf_size
      → buf_size ≤ length buf
      → decode (some (chars variant vs ++ tail)) (length vs) (some buf) buf_size variant out_size e
        ≡ some (true, some (groups_bytes vs ++ drop (q * 3) buf), q * 3, e)
  unfolding decode decode_rest
  decode_lem q small total some_groups room inside =
      let n = length vs in
      let text = chars variant vs ++ tail in
      let stored = length-groups_bytes vs in
      let not_empty : (n == 0) ≡ false = ground arith in
      let not_one : (n % 4 == 1) ≡ false = ground arith in
      let even : (n % 4 == 0) ≡ true = ground arith in
      let last = get_or vs (n - 1) 0 in
      let not_pad : (char_of variant last == b'=') ≡ false =
        ground (arith, char_of-ne last variant (get_or-Values vs (n - 1) small)) in
      let unpadded : padding text n ≡ some 0 =
        rw (even, elem-chars variant vs tail (n - 1) (omega arith), not_pad) refl in
      let needed : decoded_size (n - 0) ≡ q * 3 = ground arith in
      let enough : ltb buf_size (q * 3) ≡ false = ground arith in
      let count : (n - 0) / 4 ≡ q = omega arith in
      let none_left : (n - 0) % 4 ≡ 0 = omega arith in
      rw
        (
          not_empty,
          not_one,
          unpadded,
          needed,
          enough,
          count,
          decode_groups_lem text variant tail q 0 vs [] buf small refl total (omega arith),
          none_left,
        )
        (ap (λ t. some (true, some (groups_bytes vs ++ drop t buf), q * 3, e)) (omega arith))

-- Of a text of two characters, of which the first has a code above 63 as every letter has, with
-- room for a byte, cpr_base64_decode reads past the end of the table of the alphabet.
pub decode_two :
    (c0 c1 : ℕ) (buf : List ℕ) (buf_size out_size : ℕ) (variant : Variant) (e : CprError)
    → 64 ≤ c0
    → 1 ≤ buf_size
    → decode (some (c0 ∷ c1 ∷ [])) 2 (some buf) buf_size variant out_size e ≡ none
unfolding decode decode_rest decode_groups
decode_two c0 c1 buf buf_size out_size variant e letter room =
    let enough : ltb buf_size 1 ≡ false = ground arith in
    rw (enough, base64_char_past c0 variant letter) refl

-- For a text size that is 1 modulo 4, cpr_base64_decode fails, sets CPR_ERR_INVALID, and leaves
-- the buffer and the size, whether the buffer is null, the text is null, or both are there.
decode_refuses :
    (source : Option (List ℕ)) (text buf : List ℕ) (text_size buf_size out_size : ℕ)
    (variant : Variant) (e : CprError)
    → text_size % 4 ≡ 1
    → (decode source text_size none buf_size variant out_size e
        ≡ some (false, none, out_size, set_error err_invalid "NULL argument" e))
      × (decode none text_size (some buf) buf_size variant out_size e
          ≡ some (false, some buf, out_size, set_error err_invalid "NULL argument" e))
      × (decode (some text) text_size (some buf) buf_size variant out_size e
          ≡ some (false, some buf, out_size, set_error err_invalid "invalid Base64 length" e))
unfolding decode
decode_refuses source text buf text_size buf_size out_size variant e odd =
    let some_text : ltb 0 text_size ≡ true = ground arith in
    let not_empty : (text_size == 0) ≡ false = ground arith in
    let one_over : (text_size % 4 == 1) ≡ true = ground arith in
    (refl, rw some_text refl, rw (not_empty, one_over) refl)
