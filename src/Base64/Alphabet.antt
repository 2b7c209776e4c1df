-- ===== src/Base64/Alphabet.antt =====
-- The two alphabets of src/base64.c: `cpr__base64_char` is a table of 64 characters, and
-- `cpr__base64_charval` looks a character up in it.
use libcopper.Base.{
  ℕ, zero, suc, ◌+◌, ◌-◌, ◌≤◌, ◌<◌, ◌≡◌, ◌≢◌, refl, sym, ap, ◌∙◌, ◌⊎◌, ◌↔◌, length, arith, none,
  some,
}
use libcopper.Base.{List, [], ◌∷◌, ◌++◌, get_elem?, get_or, inl, inr, ltb, Bool-cases, ltb→lt}
use mathlib.Core.Option.{some-injective}
use libcopper.Base64.{Variant, tail_chars, base64_char, base64_charval}

-- `n` consecutive codes
abbrev pub upto : ℕ → ℕ → List ℕ
upto start zero = []
upto start (suc n) = start ∷ upto (suc start) n

-- The 64 characters in the order of RFC 4648: capitals, small letters, digits, and two more.
abbrev pub alphabet : Variant → List ℕ
alphabet variant = upto b'A' 26 ++ (upto b'a' 26 ++ (upto b'0' 10 ++ tail_chars variant))

upto_in :
    (start n i : ℕ) (rest : List ℕ) → i < n → get_elem? (upto start n ++ rest) i ≡ some (start + i)
upto_in start zero i rest h = absurd (omega arith)
upto_in start (suc n) zero rest h = ap some (omega arith)
upto_in start (suc n) (suc i) rest h =
    upto_in (suc start) n i rest (omega arith) ∙ ap some (omega arith)

upto_past :
    (start n i : ℕ) (rest : List ℕ)
    → n ≤ i
    → get_elem? (upto start n ++ rest) i ≡ get_elem? rest (i - n)
upto_past start zero i rest h = ap (get_elem? rest) (omega arith)
upto_past start (suc n) zero rest h = absurd (omega arith)
upto_past start (suc n) (suc i) rest h =
    upto_past (suc start) n i rest (omega arith) ∙ ap (get_elem? rest) (omega arith)

-- cpr__base64_char is the lookup in the alphabet of 64 characters, and reads out of range exactly
-- where the lookup does.
base64_char_lem :
    (v : ℕ) (variant : Variant) → base64_char v variant ≡ get_elem? (alphabet variant) v
unfolding base64_char
base64_char_lem v variant =
    let digits = upto b'0' 10 ++ tail_chars variant in
    let small = upto b'a' 26 ++ digits in
    elim (Bool-cases (ltb v 26)) [
      | inl h ↦ rw h (sym (upto_in b'A' 26 v small (ltb→lt v 26 h)))
      | inr h ↦ rw h (elim (Bool-cases (ltb v 52)) [
        | inl h₂ ↦ rw h₂ (
            sym (
              upto_past b'A' 26 v small (ground arith)
              ∙ upto_in b'a' 26 (v - 26) digits (ground arith)))
        | inr h₂ ↦ rw h₂ (elim (Bool-cases (ltb v 62)) [
          | inl h₃ ↦ rw h₃ (
              sym (
                upto_past b'A' 26 v small (ground arith)
                ∙ upto_past b'a' 26 (v - 26) digits (ground arith)
                ∙ upto_in b'0' 10 (v - 26 - 26) (tail_chars variant) (ground arith)
                ∙ ap some (omega arith)))
          | inr h₃ ↦ rw h₃ (
              sym (
                upto_past b'A' 26 v small (ground arith)
                ∙ upto_past b'a' 26 (v - 26) digits (ground arith)
                ∙ upto_past b'0' 10 (v - 26 - 26) (tail_chars variant) (ground arith)
                ∙ ap (get_elem? (tail_chars variant)) (omega arith)))
        ])
      ])
    ]

pair_elem :
    (k a b c : ℕ) → get_elem? (a ∷ b ∷ []) k ≡ some c → ((k ≡ 0) × (a ≡ c)) ⊎ ((k ≡ 1) × (b ≡ c))
pair_elem zero a b c h = inl (refl, some-injective _ _ h)
pair_elem (suc zero) a b c h = inr (refl, some-injective _ _ h)
pair_elem (suc (suc k)) a b c h = absurd (cc)

pub charval-char :
    (v c : ℕ) (variant : Variant)
    → base64_char v variant ≡ some c
    → base64_charval c variant ≡ some v
unfolding base64_char base64_charval
charval-char v c Variant.std h = ground (arith, pair_elem (v - 62) b'+' b'/' c)
charval-char v c Variant.url h = ground (arith, pair_elem (v - 62) b'-' b'_' c)

pub char-charval :
    (v c : ℕ) (variant : Variant)
    → base64_charval c variant ≡ some v
    → base64_char v variant ≡ some c
unfolding base64_char base64_charval
char-charval v c Variant.std h = ground arith
char-charval v c Variant.url h = ground arith

-- cpr__base64_charval gives a character the value v exactly if the alphabet of the variant holds
-- the character at v.
charval_iff :
    (c v : ℕ) (variant : Variant)
    → base64_charval c variant ≡ some v ↔ get_elem? (alphabet variant) v ≡ some c
charval_iff c v variant = (
  λ h. sym (base64_char_lem v variant) ∙ char-charval v c variant h,
  λ h. charval-char v c variant (base64_char_lem v variant ∙ h),
)

elem-get_or : (xs : List ℕ) (i : ℕ) → i < length xs → get_elem? xs i ≡ some (get_or xs i 0)
elem-get_or [] i h = absurd (omega arith)
elem-get_or (x ∷ xs) zero h = refl
elem-get_or (x ∷ xs) (suc i) h = elem-get_or xs i (omega arith)

elem-past : (xs : List ℕ) (i : ℕ) → length xs ≤ i → get_elem? xs i ≡ none
elem-past [] i h = refl
elem-past (x ∷ xs) zero h = absurd (omega arith)
elem-past (x ∷ xs) (suc i) h = elem-past xs i (omega arith)

-- The character of a value below 64.
pub char_of : Variant → ℕ → ℕ
char_of variant v = get_or (alphabet variant) v 0

alphabet_size : (variant : Variant) → length (alphabet variant) ≡ 64
alphabet_size Variant.std = refl
alphabet_size Variant.url = refl

pub base64_char_value :
    (v : ℕ) (variant : Variant) → v < 64 → base64_char v variant ≡ some (char_of variant v)
unfolding char_of
base64_char_value v variant h =
    base64_char_lem v variant
    ∙ elem-get_or (alphabet variant) v (omega (arith, alphabet_size variant))

pub base64_charval_value :
    (v : ℕ) (variant : Variant) → v < 64 → base64_charval (char_of variant v) variant ≡ some v
base64_charval_value v variant h =
    charval-char v (char_of variant v) variant (base64_char_value v variant h)

-- Padding is no character of the alphabet.
pub char_of-ne : (v : ℕ) (variant : Variant) → v < 64 → char_of variant v ≢ b'='
unfolding base64_charval
char_of-ne v Variant.std h e =
    absurd (cc (ap (λ c. base64_charval c Variant.std) e, base64_charval_value v Variant.std h))
char_of-ne v Variant.url h e =
    absurd (cc (ap (λ c. base64_charval c Variant.url) e, base64_charval_value v Variant.url h))

pub base64_char_past : (v : ℕ) (variant : Variant) → 64 ≤ v → base64_char v variant ≡ none
base64_char_past v variant h =
    base64_char_lem v variant
    ∙ elem-past (alphabet variant) v (omega (arith, alphabet_size variant))
