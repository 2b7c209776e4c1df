-- ===== src/Endian/Swap.antt =====
-- The byte swaps of include/copper/endian.h as arithmetic on the bytes.
use libcopper.Base.{ℕ, zero, suc, ◌+◌, ◌-◌, ◌*◌, ◌/◌, ◌%◌, ◌^◌, ◌<◌, ◌≡◌, refl, sym, ap, ◌∙◌, arith}
use libcopper.Base.{
  u32, u64, ◌<<<◌, ◌>>>◌, bit_and, bit_or, bit_and_digit, bit_and_mask, bit_or_fields,
}
use libcopper.Endian.{bswap16, bswap32, bswap64, u16}
use native.Mathlib.Nat.{pow-suc, div-div-eq-div-mul, mul_comm, mul_assoc}

-- `&` with a mask of `k` ones at bit `j`.
pub field_lem : (j k v : ℕ) → bit_and v ((2 ^ k - 1) * 2 ^ j) ≡ v / 2 ^ j % 2 ^ k * 2 ^ j
field_lem zero k v =
    ap (bit_and v) {x = (2 ^ k - 1) * 2 ^ 0} {y = 2 ^ k - 1} (omega arith)
    ∙ bit_and_mask k v
    ∙ ap (λ (t : ℕ). t % 2 ^ k) {x = v} {y = v / 2 ^ 0} (omega arith)
    ∙ omega arith
field_lem (suc j) k v =
    let mask : (2 ^ k - 1) * 2 ^ suc j ≡ (2 ^ k - 1) * 2 ^ j * 2 =
      ap (λ (t : ℕ). (2 ^ k - 1) * t) (pow-suc 2 j) ∙ sym (mul_assoc (2 ^ k - 1) (2 ^ j) 2) in
    let quotient : v / 2 ^ suc j ≡ v / 2 / 2 ^ j =
      ap (λ (t : ℕ). v / t) (pow-suc 2 j ∙ mul_comm (2 ^ j) 2)
      ∙ sym (div-div-eq-div-mul v 2 (2 ^ j)) in
    let half : (2 ^ k - 1) * 2 ^ j * 2 / 2 ≡ (2 ^ k - 1) * 2 ^ j = omega arith in
    rw (mask, quotient, pow-suc 2 j)
      (bit_and_digit v ((2 ^ k - 1) * 2 ^ j * 2) ∙ rw (half, field_lem j k (v / 2)) (omega arith))

pub bswap16_lem : (v : ℕ) → v < 2 ^ 16 → bswap16 v ≡ v % 256 * 256 + v / 256
unfolding bswap16
bswap16_lem v h = ap u16 (bit_or_fields 8 v (v / 2 ^ 8) (omega arith)) ∙ omega arith

-- A field below the lowest bit of a number is or-ed as a sum.
join : (p q r k : ℕ) → p ≡ q * 2 ^ k → r < 2 ^ k → bit_or p r ≡ p + r
join p q r k e h = rw e (bit_or_fields k q r h)

pub bswap32_lem :
    (v : ℕ)
    → v < 2 ^ 32
    → bswap32 v
      ≡ v % 256 * 2 ^ 24 + v / 2 ^ 8 % 256 * 2 ^ 16 + v / 2 ^ 16 % 256 * 2 ^ 8 + v / 2 ^ 24
unfolding bswap32
bswap32_lem v h =
    let f0 : u32 (bit_and v 0x000000ff <<< 24) ≡ v % 256 * 2 ^ 24 =
      omega (arith, field_lem 0 8 v) in
    let f1 : u32 (bit_and v 0x0000ff00 <<< 8) ≡ v / 2 ^ 8 % 256 * 2 ^ 16 =
      omega (arith, field_lem 8 8 v) in
    let f2 : bit_and v 0x00ff0000 >>> 8 ≡ v / 2 ^ 16 % 256 * 2 ^ 8 =
      omega (arith, field_lem 16 8 v) in
    let f3 : bit_and v 0xff000000 >>> 24 ≡ v / 2 ^ 24 = omega (arith, field_lem 24 8 v) in
    rw (f0, f1, f2, f3)
      (rw
        (
          join (v % 256 * 2 ^ 24) (v % 256 * 2 ^ 0) (v / 2 ^ 8 % 256 * 2 ^ 16) 24 (omega arith)
              (omega arith),
          join (v % 256 * 2 ^ 24 + v / 2 ^ 8 % 256 * 2 ^ 16)
              (v % 256 * 2 ^ 8 + v / 2 ^ 8 % 256 * 2 ^ 0) (v / 2 ^ 16 % 256 * 2 ^ 8) 16
              (omega arith) (omega arith),
          join (v % 256 * 2 ^ 24 + v / 2 ^ 8 % 256 * 2 ^ 16 + v / 2 ^ 16 % 256 * 2 ^ 8)
              (v % 256 * 2 ^ 16 + v / 2 ^ 8 % 256 * 2 ^ 8 + v / 2 ^ 16 % 256 * 2 ^ 0) (v / 2 ^ 24) 8
              (omega arith) (omega arith),
        )
        refl)

pub bswap64_lem :
    (v : ℕ)
    → v < 2 ^ 64
    → bswap64 v
      ≡ v % 256 * 2 ^ 56
        + v / 2 ^ 8 % 256 * 2 ^ 48
        + v / 2 ^ 16 % 256 * 2 ^ 40
        + v / 2 ^ 24 % 256 * 2 ^ 32
        + v / 2 ^ 32 % 256 * 2 ^ 24
        + v / 2 ^ 40 % 256 * 2 ^ 16
        + v / 2 ^ 48 % 256 * 2 ^ 8
        + v / 2 ^ 56
unfolding bswap64
bswap64_lem v h =
    let f0 : u64 (bit_and v 0x00000000000000ff <<< 56) ≡ v % 256 * 2 ^ 56 =
      omega (arith, field_lem 0 8 v) in
    let f1 : u64 (bit_and v 0x000000000000ff00 <<< 40) ≡ v / 2 ^ 8 % 256 * 2 ^ 48 =
      omega (arith, field_lem 8 8 v) in
    let f2 : u64 (bit_and v 0x0000000000ff0000 <<< 24) ≡ v / 2 ^ 16 % 256 * 2 ^ 40 =
      omega (arith, field_lem 16 8 v) in
    let f3 : u64 (bit_and v 0x00000000ff000000 <<< 8) ≡ v / 2 ^ 24 % 256 * 2 ^ 32 =
      omega (arith, field_lem 24 8 v) in
    let f4 : bit_and v 0x000000ff00000000 >>> 8 ≡ v / 2 ^ 32 % 256 * 2 ^ 24 =
      omega (arith, field_lem 32 8 v) in
    let f5 : bit_and v 0x0000ff0000000000 >>> 24 ≡ v / 2 ^ 40 % 256 * 2 ^ 16 =
      omega (arith, field_lem 40 8 v) in
    let f6 : bit_and v 0x00ff000000000000 >>> 40 ≡ v / 2 ^ 48 % 256 * 2 ^ 8 =
      omega (arith, field_lem 48 8 v) in
    let f7 : bit_and v 0xff00000000000000 >>> 56 ≡ v / 2 ^ 56 = omega (arith, field_lem 56 8 v) in
    rw (f0, f1, f2, f3, f4, f5, f6, f7)
      (rw
        (
          join (v % 256 * 2 ^ 56) (v % 256 * 2 ^ 0) (v / 2 ^ 8 % 256 * 2 ^ 48) 56 (omega arith)
              (omega arith),
          join (v % 256 * 2 ^ 56 + v / 2 ^ 8 % 256 * 2 ^ 48)
              (v % 256 * 2 ^ 8 + v / 2 ^ 8 % 256 * 2 ^ 0) (v / 2 ^ 16 % 256 * 2 ^ 40) 48
              (omega arith) (omega arith),
          join (v % 256 * 2 ^ 56 + v / 2 ^ 8 % 256 * 2 ^ 48 + v / 2 ^ 16 % 256 * 2 ^ 40)
              (v % 256 * 2 ^ 16 + v / 2 ^ 8 % 256 * 2 ^ 8 + v / 2 ^ 16 % 256 * 2 ^ 0)
              (v / 2 ^ 24 % 256 * 2 ^ 32) 40 (omega arith) (omega arith),
          join
              (v % 256 * 2 ^ 56
                + v / 2 ^ 8 % 256 * 2 ^ 48
                + v / 2 ^ 16 % 256 * 2 ^ 40
                + v / 2 ^ 24 % 256 * 2 ^ 32)
              (v % 256 * 2 ^ 24
                + v / 2 ^ 8 % 256 * 2 ^ 16
                + v / 2 ^ 16 % 256 * 2 ^ 8
                + v / 2 ^ 24 % 256 * 2 ^ 0)
              (v / 2 ^ 32 % 256 * 2 ^ 24) 32 (omega arith) (omega arith),
          join
              (v % 256 * 2 ^ 56
                + v / 2 ^ 8 % 256 * 2 ^ 48
                + v / 2 ^ 16 % 256 * 2 ^ 40
                + v / 2 ^ 24 % 256 * 2 ^ 32
                + v / 2 ^ 32 % 256 * 2 ^ 24)
              (v % 256 * 2 ^ 32
                + v / 2 ^ 8 % 256 * 2 ^ 24
                + v / 2 ^ 16 % 256 * 2 ^ 16
                + v / 2 ^ 24 % 256 * 2 ^ 8
                + v / 2 ^ 32 % 256 * 2 ^ 0)
              (v / 2 ^ 40 % 256 * 2 ^ 16) 24 (omega arith) (omega arith),
          join
              (v % 256 * 2 ^ 56
                + v / 2 ^ 8 % 256 * 2 ^ 48
                + v / 2 ^ 16 % 256 * 2 ^ 40
                + v / 2 ^ 24 % 256 * 2 ^ 32
                + v / 2 ^ 32 % 256 * 2 ^ 24
                + v / 2 ^ 40 % 256 * 2 ^ 16)
              (v % 256 * 2 ^ 40
                + v / 2 ^ 8 % 256 * 2 ^ 32
                + v / 2 ^ 16 % 256 * 2 ^ 24
                + v / 2 ^ 24 % 256 * 2 ^ 16
                + v / 2 ^ 32 % 256 * 2 ^ 8
                + v / 2 ^ 40 % 256 * 2 ^ 0)
              (v / 2 ^ 48 % 256 * 2 ^ 8) 16 (omega arith) (omega arith),
          join
              (v % 256 * 2 ^ 56
                + v / 2 ^ 8 % 256 * 2 ^ 48
                + v / 2 ^ 16 % 256 * 2 ^ 40
                + v / 2 ^ 24 % 256 * 2 ^ 32
                + v / 2 ^ 32 % 256 * 2 ^ 24
                + v / 2 ^ 40 % 256 * 2 ^ 16
                + v / 2 ^ 48 % 256 * 2 ^ 8)
              (v % 256 * 2 ^ 48
                + v / 2 ^ 8 % 256 * 2 ^ 40
                + v / 2 ^ 16 % 256 * 2 ^ 32
                + v / 2 ^ 24 % 256 * 2 ^ 24
                + v / 2 ^ 32 % 256 * 2 ^ 16
                + v / 2 ^ 40 % 256 * 2 ^ 8
                + v / 2 ^ 48 % 256 * 2 ^ 0)
              (v / 2 ^ 56) 8 (omega arith) (omega arith),
        )
        refl)
