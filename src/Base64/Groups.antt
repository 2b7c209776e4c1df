-- ===== src/Base64/Groups.antt =====
-- src/base64.c: the loop of `cpr_base64_encode` over the full groups.
use libcopper.Base.{ℕ, zero, suc, ◌+◌, ◌*◌, ◌/◌, ◌%◌, ◌^◌, ◌≤◌, ◌<◌, ◌≡◌, refl, sym, ap, ◌∙◌, arith}
use libcopper.Base.{
  Bool, true, false, List, [], ◌∷◌, ◌++◌, Option, some, length, get_elem?, set, drop,
}
use libcopper.Base.{
  drop-add, append_assoc, length-append, ◌>>=◌, bit_or_fields, bit_and_mask, ◌<<<◌, u32, bit_or,
  lt→ltb, append-nil, leb, u64, length-drop,
}
use libcopper.Base64.{Variant, Output, put, put_char, pack, sextet}
use libcopper.Base64.Alphabet.{char_of, base64_char_value}
use libcopper.Base64.Encode.{encode_groups}

-- The output after `pre` has been written, before the place of `post`.
abbrev pub at : List ℕ → List ℕ → Output
at pre post = record { buf = pre ++ post; pos = length pre }

set-append :
    (pre : List ℕ) (x c : ℕ) (post : List ℕ)
    → set (pre ++ (x ∷ post)) (length pre) c ≡ (pre ++ (c ∷ [])) ++ post
set-append [] x c post = refl
set-append (y ∷ pre) x c post = ap (λ t. y ∷ t) (set-append pre x c post)

pub put_lem :
    (pre : List ℕ) (x c : ℕ) (post : List ℕ)
    → put (at pre (x ∷ post)) c ≡ some (at (pre ++ (c ∷ [])) post)
unfolding put
put_lem pre x c post =
    rw
      (
        lt→ltb (length pre) (length (pre ++ (x ∷ post)))
            (omega (arith, length-append pre (x ∷ post))),
        set-append pre x c post,
        length-append pre (c ∷ []),
      )
      refl

pub put_char_lem :
    (variant : Variant) (pre : List ℕ) (x v : ℕ) (post : List ℕ)
    → v < 64
    → put_char variant (at pre (x ∷ post)) v ≡ some (at (pre ++ (char_of variant v ∷ [])) post)
unfolding put_char
put_char_lem variant pre x v post h =
    rw (base64_char_value v variant h) (put_lem pre x (char_of variant v) post)

pub pack_lem : (a b c : ℕ) → a < 256 → b < 256 → c < 256 → pack a b c ≡ (a * 256 + b) * 256 + c
pack_lem a b c la lb lc =
    let high : u32 (a <<< 16) ≡ a * 2 ^ 16 = omega arith in
    let middle : u32 (b <<< 8) ≡ b * 2 ^ 8 = omega arith in
    rw (middle, high)
      (ap (λ t. bit_or t c) (bit_or_fields 16 a (b * 2 ^ 8) (omega arith) ∙ omega arith)
        ∙ bit_or_fields 8 (a * 2 ^ 8 + b) c lc)

pub sextet_lem : (n s : ℕ) → sextet n s ≡ n / 2 ^ s % 64
sextet_lem n s = bit_and_mask 6 (n / 2 ^ s)

-- The sextets of three bytes are those of RFC 4648.
pub sextets :
    (a b c : ℕ)
    → a < 256
    → b < 256
    → c < 256
    → (sextet (pack a b c) 18 ≡ a / 4)
      × (sextet (pack a b c) 12 ≡ a % 4 * 16 + b / 16)
      × (sextet (pack a b c) 6 ≡ b % 16 * 4 + c / 64)
      × (sextet (pack a b c) 0 ≡ c % 64)
sextets a b c la lb lc = rw (pack_lem a b c la lb lc) (
  sextet_lem ((a * 256 + b) * 256 + c) 18 ∙ omega arith,
  sextet_lem ((a * 256 + b) * 256 + c) 12 ∙ omega arith,
  sextet_lem ((a * 256 + b) * 256 + c) 6 ∙ omega arith,
  sextet_lem ((a * 256 + b) * 256 + c) 0 ∙ omega arith,
)

-- The elements from an index on.
pub elem-drop {ℓ} :
    {A : Type ℓ} (xs : List A) (i k : ℕ) → get_elem? xs (i + k) ≡ get_elem? (drop i xs) k
elem-drop xs zero k = ap (get_elem? xs) (omega arith)
elem-drop [] (suc i) k = refl
elem-drop (x ∷ xs) (suc i) k =
    ap (get_elem? (x ∷ xs)) {x = suc i + k} {y = suc (i + k)} (omega arith) ∙ elem-drop xs i k

-- Four characters in a row.
four_puts :
    {R : Type 0} (variant : Variant) (pre post : List ℕ) (v0 v1 v2 v3 : ℕ) (k : Output → Option R)
    → (v0 < 64) × (v1 < 64) × (v2 < 64) × (v3 < 64)
    → 4 ≤ length post
    → (put_char variant (at pre post) v0 >>= λ o₁. put_char variant o₁ v1 >>= λ o₂.
        put_char variant o₂ v2 >>= λ o₃. put_char variant o₃ v3 >>= k)
      ≡ k (
          at
            (pre
              ++ (char_of variant v0
                  ∷ char_of variant v1
                  ∷ char_of variant v2
                  ∷ char_of variant v3
                  ∷ []))
            (drop 4 post))
four_puts variant pre (x0 ∷ x1 ∷ x2 ∷ x3 ∷ post) v0 v1 v2 v3 k small room =
    let c = char_of variant in
    rw
      (
        put_char_lem variant pre x0 v0 (x1 ∷ x2 ∷ x3 ∷ post) small.0,
        put_char_lem variant (pre ++ (c v0 ∷ [])) x1 v1 (x2 ∷ x3 ∷ post) small.1,
        put_char_lem variant ((pre ++ (c v0 ∷ [])) ++ (c v1 ∷ [])) x2 v2 (x3 ∷ post) small.2,
        put_char_lem variant (((pre ++ (c v0 ∷ [])) ++ (c v1 ∷ [])) ++ (c v2 ∷ [])) x3 v3 post
            small.3,
        append_assoc pre (c v0 ∷ []) (c v1 ∷ []),
        append_assoc pre (c v0 ∷ c v1 ∷ []) (c v2 ∷ []),
        append_assoc pre (c v0 ∷ c v1 ∷ c v2 ∷ []) (c v3 ∷ []),
      )
      refl
four_puts variant pre [] v0 v1 v2 v3 k small room = absurd (omega arith)
four_puts variant pre (x0 ∷ []) v0 v1 v2 v3 k small room = absurd (omega arith)
four_puts variant pre (x0 ∷ x1 ∷ []) v0 v1 v2 v3 k small room = absurd (omega arith)
four_puts variant pre (x0 ∷ x1 ∷ x2 ∷ []) v0 v1 v2 v3 k small room = absurd (omega arith)

-- The text of the full groups of three bytes, after RFC 4648; up to two bytes at the end are left
-- out.
unfoldable pub groups_text : Variant → List ℕ → List ℕ
groups_text variant (a ∷ b ∷ c ∷ rest) =
    char_of variant (a / 4)
    ∷ char_of variant (a % 4 * 16 + b / 16)
    ∷ char_of variant (b % 16 * 4 + c / 64)
    ∷ char_of variant (c % 64)
    ∷ groups_text variant rest
groups_text variant rest = []

pub length-groups_text :
    (variant : Variant) (bytes : List ℕ) → length (groups_text variant bytes) ≡ length bytes / 3 * 4
unfolding groups_text
length-groups_text variant [] = refl
length-groups_text variant (a ∷ []) = omega arith
length-groups_text variant (a ∷ b ∷ []) = omega arith
length-groups_text variant (a ∷ b ∷ c ∷ rest) = omega (arith, length-groups_text variant rest)

-- Every element is a byte.
abbrev pub Bytes : List ℕ → Type 0
Bytes [] = Unit
Bytes (x ∷ xs) = (x < 256) × Bytes xs

module _ (bytes : List ℕ) (n : ℕ) (variant : Variant) (pad : Bool) (fits : n + 3 < 2 ^ 64) where
  -- With fewer than three bytes left the loop ends.
  stops :
      (fuel i left : ℕ) (pre post : List ℕ)
      → i + left ≡ n
      → left < 3
      → encode_groups bytes n variant pad (suc fuel) i (at pre post)
        ≡ some (i + left / 3 * 3, at (pre ++ []) post)
  unfolding encode_groups
  stops fuel i left pre post total short =
      let ended : leb (u64 (i + 3)) n ≡ false = ground arith in
      rw (ended, append-nil pre) (ap (λ t. some (t, at pre post)) (omega arith))

  element :
      (i k : ℕ) (rest : List ℕ) → drop i bytes ≡ rest → get_elem? bytes (i + k) ≡ get_elem? rest k
  element i k rest here = elem-drop bytes i k ∙ ap (λ t. get_elem? t k) here

  pub encode_groups_lem :
      (fuel i : ℕ) (rest pre post : List ℕ)
      → Bytes rest
      → drop i bytes ≡ rest
      → i + length rest ≡ n
      → length rest < fuel
      → length (groups_text variant rest) ≤ length post
      → encode_groups bytes n variant pad fuel i (at pre post)
        ≡ some (
          i + length rest / 3 * 3,
          at (pre ++ groups_text variant rest) (drop (length (groups_text variant rest)) post),
        )
  unfolding encode_groups groups_text
  encode_groups_lem zero i rest pre post small here total fuel room = absurd (omega arith)
  encode_groups_lem (suc fuel) i [] pre post small here total enough room =
      stops fuel i 0 pre post total (omega arith)
  encode_groups_lem (suc fuel) i (a ∷ []) pre post small here total enough room =
      stops fuel i 1 pre post total (omega arith)
  encode_groups_lem (suc fuel) i (a ∷ b ∷ []) pre post small here total enough room =
      stops fuel i 2 pre post total (omega arith)
  encode_groups_lem (suc fuel) i (a ∷ b ∷ c ∷ rest) pre post small here total enough room =
      let go : leb (u64 (i + 3)) n ≡ true = ground arith in
      let first : get_elem? bytes i ≡ some a =
        ap (get_elem? bytes) (omega arith) ∙ element i 0 (a ∷ b ∷ c ∷ rest) here in
      let s = sextets a b c small.0 small.1.0 small.1.1.0 in
      let index : u64 (i + 3) ≡ i + 3 = omega arith in
      let text = groups_text variant rest in
      let group =
        char_of variant (a / 4)
        ∷ char_of variant (a % 4 * 16 + b / 16)
        ∷ char_of variant (b % 16 * 4 + c / 64)
        ∷ char_of variant (c % 64)
        ∷ [] in
      let left : drop (length text) (drop 4 post)
          ≡ drop (suc (suc (suc (suc (length text))))) post =
        sym (drop-add 4 (length text) post)
        ∙ ap (λ t. drop t post) {y = suc (suc (suc (suc (length text))))} (omega arith) in
      rw
        (
          go,
          first,
          element i 1 (a ∷ b ∷ c ∷ rest) here,
          element i 2 (a ∷ b ∷ c ∷ rest) here,
          s.0,
          s.1,
          s.2,
          s.3,
          index,
        )
        (four_puts variant pre post (a / 4) (a % 4 * 16 + b / 16) (b % 16 * 4 + c / 64) (c % 64)
            (λ o. encode_groups bytes n variant pad fuel (i + 3) o)
            (omega (arith, small), omega (arith, small), omega (arith, small), omega arith)
            (omega arith)
          ∙ encode_groups_lem fuel (i + 3) rest (pre ++ group) (drop 4 post) small.1.1.1
              (drop-add i 3 bytes ∙ ap (drop 3) here) (omega arith) (omega arith)
              (omega (arith, length-drop 4 post))
          ∙ rw (append_assoc pre group text, left)
              (ap
                (λ t. some (
                  t,
                  at (pre ++ (group ++ text)) (drop (suc (suc (suc (suc (length text))))) post),
                ))
                (omega arith)))
