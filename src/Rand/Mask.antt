-- ===== src/Rand/Mask.antt =====
-- `cpr__pow2_mask` of src/rand.c: the least mask of ones that covers the numbers below the width.
use native.Mathlib.Nat.{
  mul-sub, mul_assoc, mul-le-mul_right, div-eq_of_lt, pow-suc, one-le-pow, pow-le-pow_right,
  div-lt_iff_lt-mul, le-div_iff_mul-le,
}
use libcopper.Base.{
  ℕ, zero, suc, ◌+◌, ◌-◌, ◌*◌, ◌/◌, ◌^◌, ◌≤◌, ◌<◌, ◌≡◌, ◌⊎◌, inl, inr, refl, sym, ap, ◌∙◌, arith,
}
use libcopper.Base.{bit_or, bit_or_digit, bit_or-zero, sub64, leb, leb→le, Bool-cases}
use libcopper.Rand.{smear, pow2_mask}

bit_or_split :
    (k q a b : ℕ) → a < 2 ^ k → b < 2 ^ k → bit_or (q * 2 ^ k + a) b ≡ q * 2 ^ k + bit_or a b
bit_or_split zero q a b ha hb =
    ap (λ t. bit_or t b) {x = q * 2 ^ 0 + a} {y = q} (omega arith)
    ∙ ap (bit_or q) {x = b} {y = 0} (omega arith)
    ∙ omega (arith, bit_or-zero q, ap (bit_or a) {x = b} {y = 0} (omega arith), bit_or-zero a)
bit_or_split (suc k) q a b ha hb = ground (
  arith,
  pow-suc 2 k,
  ap (λ (t : ℕ). q * t) (pow-suc 2 k),
  bit_or_digit (q * 2 ^ suc k + a) b,
  bit_or_digit a b,
  bit_or_split k q (a / 2) (b / 2),
)

bit_or-ge : (k a b : ℕ) → b < 2 ^ k → b ≤ bit_or a b
bit_or-ge zero a b h = omega arith
bit_or-ge (suc k) a b h =
    omega (
      arith,
      pow-suc 2 k,
      bit_or_digit a b,
      bit_or-ge k (a / 2) (b / 2) (omega (arith, pow-suc 2 k)),
    )

bit_or-lt : (k a b : ℕ) → a < 2 ^ k → b < 2 ^ k → bit_or a b < 2 ^ k
bit_or-lt zero a b ha hb = omega (arith, ap (bit_or a) {x = b} {y = 0} (omega arith), bit_or-zero a)
bit_or-lt (suc k) a b ha hb = omega (
  arith,
  pow-suc 2 k,
  bit_or_digit a b,
  bit_or-lt k (a / 2) (b / 2) (omega (arith, pow-suc 2 k)) (omega (arith, pow-suc 2 k)),
)

-- `y` has `j` binary digits at most, of which the top `s` are ones.
abbrev Ones : ℕ → ℕ → ℕ → Type 0
Ones s j y = (y < 2 ^ j) × (2 ^ j ≤ y + 2 ^ (j - s))

half_power : (j : ℕ) → (j ≡ 0) ⊎ (2 ^ j ≡ 2 ^ (j - 1) * 2)
half_power zero = inl refl
half_power (suc j) = inr (pow-suc 2 j ∙ ap (λ t. 2 ^ t * 2) {x = j} {y = suc j - 1} (omega arith))

width_of : (fuel x : ℕ) → x ≤ fuel → (j : ℕ) × Ones 1 j x
width_of fuel zero h = (0, (omega arith, omega arith))
width_of zero (suc x) h = absurd (omega arith)
width_of (suc fuel) (suc x) h =
    let (j, ones) = width_of fuel (suc x / 2) (omega arith) in
    let same : 2 ^ (suc j - 1) ≡ 2 ^ j = ap (λ t. 2 ^ t) {x = suc j - 1} {y = j} (omega arith) in
    (
      suc j,
      elim (half_power j) [
        | inl none_yet ↦ (
          omega (arith, ones, pow-suc 2 j),
          omega (arith, ones, pow-suc 2 j, same, ap (λ t. 2 ^ t) none_yet),
        )
        | inr half ↦
            (omega (arith, ones, pow-suc 2 j), omega (arith, ones, pow-suc 2 j, same, half))
      ],
    )

less_one : (a b : ℕ) → 0 < a → (a - 1) * b + b ≡ b * a
less_one zero b h = absurd (omega arith)
less_one (suc a) b h = ap (λ t. t * b + b) {x = suc a - 1} {y = a} (omega arith) ∙ omega arith

pow-sub : (k m : ℕ) → k ≤ m → 2 ^ m ≡ 2 ^ (m - k) * 2 ^ k
pow-sub zero m h = ap (λ t. 2 ^ t) {x = m} {y = m - 0} (omega arith) ∙ omega arith
pow-sub (suc k) zero h = absurd (omega arith)
pow-sub (suc k) (suc m) h =
    let same : 2 ^ (suc m - suc k) ≡ 2 ^ (m - k) =
      ap (λ t. 2 ^ t) {x = suc m - suc k} {y = m - k} (omega arith) in
    pow-suc 2 m
    ∙ ap (λ t. t * 2) (pow-sub k m (omega arith))
    ∙ mul_assoc (2 ^ (m - k)) (2 ^ k) 2
    ∙ sym (ap (λ (t : ℕ). 2 ^ (suc m - suc k) * t) (pow-suc 2 k) ∙ ap (λ t. t * (2 ^ k * 2)) same)

-- `z` less than 2 ^ m by `d` is still below the quotient.
quotient_ge :
    (s m d y : ℕ)
    → d * 2 ^ s ≤ 2 ^ m * 2 ^ s
    → 2 ^ m * 2 ^ s ≤ y + d * 2 ^ s
    → 2 ^ m ≤ y / 2 ^ s + d
quotient_ge s m d y fits above =
    let z = 2 ^ m - d in
    let product : 2 ^ s * z ≡ 2 ^ s * 2 ^ m - 2 ^ s * d = mul-sub (2 ^ s) (2 ^ m) d in
    let low =
      (le-div_iff_mul-le {k = 2 ^ s} {x = z} {y = y} (one-le-pow s 2 (omega arith))).1
        (omega (arith, product)) in
    omega (arith, low)

smear_long :
    (s m y : ℕ)
    → y < 2 ^ m * 2 ^ s
    → 2 ^ m * 2 ^ s ≤ y + 2 ^ m
    → (smear s y < 2 ^ m * 2 ^ s) × (2 ^ m * 2 ^ s ≤ smear s y + 2 ^ (m - s))
smear_long s m y below above =
    let top : (2 ^ s - 1) * 2 ^ m + 2 ^ m ≡ 2 ^ m * 2 ^ s =
      less_one (2 ^ s) (2 ^ m) (one-le-pow s 2 (omega arith)) in
    let r = y - (2 ^ s - 1) * 2 ^ m in
    let b = y / 2 ^ s in
    let small : b < 2 ^ m =
      (div-lt_iff_lt-mul {k = 2 ^ s} {x = y} {y = 2 ^ m} (one-le-pow s 2 (omega arith))).1 below in
    let split : y ≡ (2 ^ s - 1) * 2 ^ m + r = omega arith in
    let smeared : smear s y ≡ (2 ^ s - 1) * 2 ^ m + bit_or r b =
      ap (λ t. bit_or t b) split ∙ bit_or_split m (2 ^ s - 1) r b (omega arith) small in
    let enough : 2 ^ m ≤ b + 2 ^ (m - s) = elim (Bool-cases (leb s m)) [
      | inl fits ↦
          let parts = pow-sub s m (leb→le s m fits) in
          quotient_ge s m (2 ^ (m - s)) y
            (omega (
              arith,
              parts,
              mul-le-mul_right (2 ^ s)
                  (pow-le-pow_right {n = 2} (omega arith) {i = m - s} {j = m} (omega arith)),
            ))
            (omega (arith, parts))
      | inr short ↦
          let one_left : 2 ^ (m - s) ≡ 1 = ap (λ t. 2 ^ t) {x = m - s} {y = 0} (ground arith) in
          let smaller : 2 ^ m ≤ 2 ^ s =
            pow-le-pow_right {n = 2} (omega arith) {i = m} {j = s} (ground arith) in
          rw one_left (
            quotient_ge s m 1 y
              (omega (arith, mul-le-mul_right (2 ^ s) (one-le-pow m 2 (omega arith))))
              (omega (arith, smaller)))
    ] in
    (
      omega (arith, bit_or-lt m r b (omega arith) small),
      omega (arith, bit_or-ge m r b small, enough),
    )

smear-Ones : (s j y : ℕ) → Ones s j y → Ones (s + s) j (smear s y)
smear-Ones s j y ones = elim (Bool-cases (leb j s)) [
  | inl short ↦
      let wide = pow-le-pow_right {n = 2} (omega arith) {i = j} {j = s} (leb→le j s short) in
      let gone : y / 2 ^ s ≡ 0 = div-eq_of_lt {n = y} {m = 2 ^ s} (omega (arith, wide, ones)) in
      let same : smear s y ≡ y = ap (bit_or y) gone ∙ bit_or-zero y in
      let e₁ : 2 ^ (j - s) ≡ 1 = ap (λ t. 2 ^ t) {x = j - s} {y = 0} (ground arith) in
      let e₂ : 2 ^ (j - (s + s)) ≡ 1 = ap (λ t. 2 ^ t) {x = j - (s + s)} {y = 0} (ground arith) in
      (omega (arith, same, ones), omega (arith, same, ones, e₁, e₂))
  | inr long ↦
      let parts = pow-sub s j (ground arith) in
      let less : 2 ^ (j - s - s) ≡ 2 ^ (j - (s + s)) = ap (λ t. 2 ^ t) (omega arith) in
      let smeared =
        smear_long s (j - s) y (omega (arith, ones, parts)) (omega (arith, ones, parts)) in
      (omega (arith, smeared, parts), omega (arith, smeared, parts, less))
]

-- The digits of a 64-bit word.
width_le : (j x : ℕ) → Ones 1 j x → x < 2 ^ 64 → j ≤ 64
width_le j x ones word = elim (Bool-cases (leb j 64)) [
  | inl fits ↦ leb→le j 64 fits
  | inr wide ↦
      let long : 2 ^ 64 ≤ 2 ^ (j - 1) =
        pow-le-pow_right {n = 2} (omega arith) {i = 64} {j = j - 1} (ground arith) in
      absurd (elim (half_power j) [
        | inl none_yet ↦ ground arith
        | inr half ↦ omega (arith, half, ones, long)
      ])
]

-- For a width above 0 and below 2 ^ 64, cpr__pow2_mask gives 2 ^ k - 1 for a k such that 2 ^ k is
-- at least the width and less than twice the width.
pow2_mask_lem :
    (width : ℕ)
    → 0 < width
    → width < 2 ^ 64
    → (k : ℕ) × (pow2_mask width ≡ 2 ^ k - 1) × (width ≤ 2 ^ k) × (2 ^ k < 2 * width)
unfolding pow2_mask
pow2_mask_lem width pos word =
    let x = width - 1 in
    let (j, ones) = width_of x x (omega arith) in
    let y₂ = smear-Ones 1 j x ones in
    let y₄ = smear-Ones 2 j _ y₂ in
    let y₈ = smear-Ones 4 j _ y₄ in
    let y₁₆ = smear-Ones 8 j _ y₈ in
    let y₃₂ = smear-Ones 16 j _ y₁₆ in
    let y₆₄ = smear-Ones 32 j _ y₃₂ in
    let last : 2 ^ (j - 64) ≡ 1 =
      ap (λ t. 2 ^ t) {x = j - 64} {y = 0} (omega (arith, width_le j x ones (omega arith))) in
    let full : smear 32 (smear 16 (smear 8 (smear 4 (smear 2 (smear 1 x))))) ≡ 2 ^ j - 1 =
      omega (arith, y₆₄, last) in
    let start : sub64 width 1 ≡ x = omega arith in
    (
      j,
      ap (λ t. smear 32 (smear 16 (smear 8 (smear 4 (smear 2 (smear 1 t)))))) start ∙ full,
      omega (arith, ones),
      elim (half_power j) [
        | inl none_yet ↦ omega (arith, ones, ap (λ t. 2 ^ t) none_yet)
        | inr half ↦ omega (arith, ones, half)
      ],
    )
