-- ===== src/Base64/RoundTrip.antt =====
-- src/base64.c: decoding what was encoded.
use libcopper.Base.{ℕ, ◌+◌, ◌*◌, ◌/◌, ◌%◌, ◌^◌, ◌≤◌, ◌<◌, ◌≡◌, refl, sym, arith}
use libcopper.Base.{Bool, true, List, [], ◌∷◌, ◌++◌, some, length, drop, ◌>>=◌}
use libcopper.Error.{CprError}
use libcopper.Base64.{Variant, base64e_len}
use libcopper.Base64.Encode.{encode}
use libcopper.Base64.Decode.{decode}
use libcopper.Base64.Groups.{groups_text, Bytes}
use libcopper.Base64.Encoding.{encode_lem}
use libcopper.Base64.Decoding.{chars, Values, groups_bytes, decode_lem}

-- The values of the characters of full groups.
sextets_of : List ℕ → List ℕ
sextets_of (a ∷ b ∷ c ∷ rest) =
    (a / 4) ∷ (a % 4 * 16 + b / 16) ∷ (b % 16 * 4 + c / 64) ∷ (c % 64) ∷ sextets_of rest
sextets_of rest = []

-- What is left of each group of three bytes: the first, and the upper half of the second.
unfoldable pub kept : List ℕ → List ℕ
kept (a ∷ b ∷ c ∷ rest) = a ∷ (b / 16 * 16) ∷ 0 ∷ kept rest
kept rest = []

groups_text-chars :
    (variant : Variant) (bytes : List ℕ)
    → groups_text variant bytes ≡ chars variant (sextets_of bytes)
unfolding groups_text sextets_of
groups_text-chars variant [] = refl
groups_text-chars variant (a ∷ []) = refl
groups_text-chars variant (a ∷ b ∷ []) = refl
groups_text-chars variant (a ∷ b ∷ c ∷ rest) = rw (groups_text-chars variant rest) refl

length-sextets_of : (bytes : List ℕ) → length (sextets_of bytes) ≡ length bytes / 3 * 4
unfolding sextets_of
length-sextets_of [] = refl
length-sextets_of (a ∷ []) = omega arith
length-sextets_of (a ∷ b ∷ []) = omega arith
length-sextets_of (a ∷ b ∷ c ∷ rest) = omega (arith, length-sextets_of rest)

sextets_of-Values : (bytes : List ℕ) → Bytes bytes → Values (sextets_of bytes)
unfolding sextets_of
sextets_of-Values [] small = tt
sextets_of-Values (a ∷ []) small = tt
sextets_of-Values (a ∷ b ∷ []) small = tt
sextets_of-Values (a ∷ b ∷ c ∷ rest) small = (
  omega (arith, small),
  (omega (arith, small), (omega (arith, small), (omega arith, sextets_of-Values rest small.1.1.1))),
)

groups_bytes-sextets_of :
    (bytes : List ℕ) → Bytes bytes → groups_bytes (sextets_of bytes) ≡ kept bytes
unfolding groups_bytes sextets_of kept
groups_bytes-sextets_of [] small = refl
groups_bytes-sextets_of (a ∷ []) small = refl
groups_bytes-sextets_of (a ∷ b ∷ []) small = refl
groups_bytes-sextets_of (a ∷ b ∷ c ∷ rest) small =
    let first : a / 4 * 4 + (a % 4 * 16 + b / 16) / 16 ≡ a = omega (arith, small) in
    let second : (a % 4 * 16 + b / 16) % 16 * 16 ≡ b / 16 * 16 = omega (arith, small) in
    rw (first, second, groups_bytes-sextets_of rest small.1.1.1) refl

module _ (bytes mem buf : List ℕ) (variant : Variant) (pad : Bool) (e : CprError) where
  -- Of 3 * q bytes, q above 1 and at most 2 ^ 60, encoded into memory of at least the size that
  -- cpr_base64e_len gives, cpr_base64_decode gives back, into a buffer with room for them, of
  -- each three bytes the first, the upper half of the second, and 0: the lower half of the second
  -- and the third are lost.
  pub decode-encode :
      (q : ℕ)
      → Bytes bytes
      → length bytes ≡ q * 3
      → 1 < q
      → q ≤ 2 ^ 60
      → base64e_len (length bytes) pad ≤ length mem
      → q * 3 ≤ length buf
      → (encode (some bytes) (length bytes) (some mem) (length mem) variant pad e >>= λ r.
          decode r.1 (q * 4) (some buf) (length buf) variant 0 e)
        ≡ some (true, some (kept bytes ++ drop (q * 3) buf), q * 3, e)
  decode-encode q small total several few room inside =
      let vs = sextets_of bytes in
      let after = 0 ∷ drop (length bytes / 3 * 4 + 1) mem in
      let size : q * 4 ≡ length vs = omega (arith, length-sextets_of bytes) in
      rw
        (
          encode_lem bytes mem (length mem) variant pad e small (omega arith) (omega arith)
              (omega arith) room (omega arith),
          groups_text-chars variant bytes,
          size,
          ← groups_bytes-sextets_of bytes small,
        )
        (decode_lem vs after buf (length buf) 0 variant e q (sextets_of-Values bytes small)
          (sym size) (omega arith) inside (omega arith))
