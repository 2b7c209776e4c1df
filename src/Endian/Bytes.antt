-- ===== src/Endian/Bytes.antt =====
-- The byte swaps of include/copper/endian.h on the bytes of a number, and on its value.
use libcopper.Base.{ℕ, ◌/◌, ◌%◌, ◌^◌, ◌<◌, ◌≡◌, refl, arith}
use libcopper.Endian.{bswap16, bswap32, bswap64, low_first, high_first, low_value, high_value}
use libcopper.Endian.Swap.{bswap16_lem, bswap32_lem, bswap64_lem}

module _ (v : ℕ) (h : v < 2 ^ 16) where
  bswap16-lt : bswap16 v < 2 ^ 16
  bswap16-lt = omega (arith, bswap16_lem v h)

  pub bswap16_twice : bswap16 (bswap16 v) ≡ v
  bswap16_twice = omega (arith, bswap16_lem v h, bswap16_lem (bswap16 v) bswap16-lt)

  -- The lowest byte of one is the highest byte of the other, and so on.
  byte16_0 : bswap16 v % 256 ≡ v / 256 % 256
  byte16_0 = omega (arith, bswap16_lem v h)

  byte16_1 : bswap16 v / 256 % 256 ≡ v % 256
  byte16_1 = omega (arith, bswap16_lem v h)

  pub low_first-bswap16 : low_first 2 (bswap16 v) ≡ high_first 2 v
  low_first-bswap16 = rw (byte16_0, byte16_1) refl

  pub high_first-bswap16 : high_first 2 (bswap16 v) ≡ low_first 2 v
  high_first-bswap16 = rw (byte16_0, byte16_1) refl

  pub low_value-bswap16 : low_value (high_first 2 v) ≡ bswap16 v
  low_value-bswap16 = omega (arith, bswap16_lem v h)

  pub high_value-bswap16 : high_value 0 (low_first 2 v) ≡ bswap16 v
  high_value-bswap16 = omega (arith, bswap16_lem v h)

  pub low_value-bswap16_same : low_value (low_first 2 v) ≡ v
  low_value-bswap16_same = omega arith

  pub high_value-bswap16_same : high_value 0 (high_first 2 v) ≡ v
  high_value-bswap16_same = omega arith

module _ (v : ℕ) (h : v < 2 ^ 32) where
  bswap32-lt : bswap32 v < 2 ^ 32
  bswap32-lt = omega (arith, bswap32_lem v h)

  pub bswap32_twice : bswap32 (bswap32 v) ≡ v
  bswap32_twice = omega (arith, bswap32_lem v h, bswap32_lem (bswap32 v) bswap32-lt)

  -- The lowest byte of one is the highest byte of the other, and so on.
  byte32_0 : bswap32 v % 256 ≡ v / 256 / 256 / 256 % 256
  byte32_0 = omega (arith, bswap32_lem v h)

  byte32_1 : bswap32 v / 256 % 256 ≡ v / 256 / 256 % 256
  byte32_1 = omega (arith, bswap32_lem v h)

  byte32_2 : bswap32 v / 256 / 256 % 256 ≡ v / 256 % 256
  byte32_2 = omega (arith, bswap32_lem v h)

  byte32_3 : bswap32 v / 256 / 256 / 256 % 256 ≡ v % 256
  byte32_3 = omega (arith, bswap32_lem v h)

  pub low_first-bswap32 : low_first 4 (bswap32 v) ≡ high_first 4 v
  low_first-bswap32 = rw (byte32_0, byte32_1, byte32_2, byte32_3) refl

  pub high_first-bswap32 : high_first 4 (bswap32 v) ≡ low_first 4 v
  high_first-bswap32 = rw (byte32_0, byte32_1, byte32_2, byte32_3) refl

  pub low_value-bswap32 : low_value (high_first 4 v) ≡ bswap32 v
  low_value-bswap32 = omega (arith, bswap32_lem v h)

  pub high_value-bswap32 : high_value 0 (low_first 4 v) ≡ bswap32 v
  high_value-bswap32 = omega (arith, bswap32_lem v h)

  pub low_value-bswap32_same : low_value (low_first 4 v) ≡ v
  low_value-bswap32_same = omega arith

  pub high_value-bswap32_same : high_value 0 (high_first 4 v) ≡ v
  high_value-bswap32_same = omega arith

module _ (v : ℕ) (h : v < 2 ^ 64) where
  bswap64-lt : bswap64 v < 2 ^ 64
  bswap64-lt = omega (arith, bswap64_lem v h)

  pub bswap64_twice : bswap64 (bswap64 v) ≡ v
  bswap64_twice = omega (arith, bswap64_lem v h, bswap64_lem (bswap64 v) bswap64-lt)

  -- The lowest byte of one is the highest byte of the other, and so on.
  byte64_0 : bswap64 v % 256 ≡ v / 256 / 256 / 256 / 256 / 256 / 256 / 256 % 256
  byte64_0 = omega (arith, bswap64_lem v h)

  byte64_1 : bswap64 v / 256 % 256 ≡ v / 256 / 256 / 256 / 256 / 256 / 256 % 256
  byte64_1 = omega (arith, bswap64_lem v h)

  byte64_2 : bswap64 v / 256 / 256 % 256 ≡ v / 256 / 256 / 256 / 256 / 256 % 256
  byte64_2 = omega (arith, bswap64_lem v h)

  byte64_3 : bswap64 v / 256 / 256 / 256 % 256 ≡ v / 256 / 256 / 256 / 256 % 256
  byte64_3 = omega (arith, bswap64_lem v h)

  byte64_4 : bswap64 v / 256 / 256 / 256 / 256 % 256 ≡ v / 256 / 256 / 256 % 256
  byte64_4 = omega (arith, bswap64_lem v h)

  byte64_5 : bswap64 v / 256 / 256 / 256 / 256 / 256 % 256 ≡ v / 256 / 256 % 256
  byte64_5 = omega (arith, bswap64_lem v h)

  byte64_6 : bswap64 v / 256 / 256 / 256 / 256 / 256 / 256 % 256 ≡ v / 256 % 256
  byte64_6 = omega (arith, bswap64_lem v h)

  byte64_7 : bswap64 v / 256 / 256 / 256 / 256 / 256 / 256 / 256 % 256 ≡ v % 256
  byte64_7 = omega (arith, bswap64_lem v h)

  pub low_first-bswap64 : low_first 8 (bswap64 v) ≡ high_first 8 v
  low_first-bswap64 =
      rw (byte64_0, byte64_1, byte64_2, byte64_3, byte64_4, byte64_5, byte64_6, byte64_7) refl

  pub high_first-bswap64 : high_first 8 (bswap64 v) ≡ low_first 8 v
  high_first-bswap64 =
      rw (byte64_0, byte64_1, byte64_2, byte64_3, byte64_4, byte64_5, byte64_6, byte64_7) refl

  pub low_value-bswap64 : low_value (high_first 8 v) ≡ bswap64 v
  low_value-bswap64 = omega (arith, bswap64_lem v h)

  pub high_value-bswap64 : high_value 0 (low_first 8 v) ≡ bswap64 v
  high_value-bswap64 = omega (arith, bswap64_lem v h)

  pub low_value-bswap64_same : low_value (low_first 8 v) ≡ v
  low_value-bswap64_same = omega arith

  pub high_value-bswap64_same : high_value 0 (high_first 8 v) ≡ v
  high_value-bswap64_same = omega arith
