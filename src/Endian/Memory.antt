-- ===== src/Endian/Memory.antt =====
-- The loads and stores of include/copper/endian.h on both kinds of host.
use libcopper.Base.{ℕ, zero, suc, ◌^◌, ◌≤◌, ◌<◌, ◌≡◌, refl, ap, ◌∙◌, arith, Bool, true, false}
use libcopper.Base.{some, List, [], ◌∷◌, ◌++◌, length, drop, memcpy, memcpy_in_range, ◌>>=◌}
use libcopper.Base.{take-all, take-append, write_at, write_at_front, length-append, append-nil}
use libcopper.Endian.{low_first, high_first}
use libcopper.Endian.{read_le16, read_le32, read_le64, read_be16, read_be32, read_be64}
use libcopper.Endian.{write_le16, write_le32, write_le64, write_be16, write_be32, write_be64}
use libcopper.Endian.Bytes.{
  low_first-bswap16, high_first-bswap16, low_value-bswap16, high_value-bswap16,
  low_value-bswap16_same, high_value-bswap16_same, bswap16_twice,
}
use libcopper.Endian.Bytes.{
  low_first-bswap32, high_first-bswap32, low_value-bswap32, high_value-bswap32,
  low_value-bswap32_same, high_value-bswap32_same, bswap32_twice,
}
use libcopper.Endian.Bytes.{
  low_first-bswap64, high_first-bswap64, low_value-bswap64, high_value-bswap64,
  low_value-bswap64_same, high_value-bswap64_same, bswap64_twice,
}

store_lem :
    (dst bytes : List ℕ)
    → length bytes ≤ length dst
    → memcpy dst 0 bytes 0 (length bytes) ≡ some (bytes ++ drop (length bytes) dst)
store_lem dst bytes h =
    memcpy_in_range dst 0 bytes 0 (length bytes) (omega arith) (omega arith)
    ∙ ap (λ t. some (write_at dst 0 t)) (take-all (length bytes) bytes (omega arith))
    ∙ ap some (write_at_front dst bytes h)

drop-all : (n : ℕ) (xs : List ℕ) → length xs ≤ n → drop n xs ≡ []
drop-all zero [] h = refl
drop-all zero (x ∷ xs) h = absurd (omega arith)
drop-all (suc n) [] h = refl
drop-all (suc n) (x ∷ xs) h = drop-all n xs (omega arith)

load_lem :
    (room bytes rest : List ℕ)
    → length room ≡ length bytes
    → memcpy room 0 (bytes ++ rest) 0 (length bytes) ≡ some bytes
load_lem room bytes rest h =
    memcpy_in_range room 0 (bytes ++ rest) 0 (length bytes) (omega arith)
      (omega (arith, length-append bytes rest))
    ∙ ap (λ t. some (write_at room 0 t)) (take-append bytes rest)
    ∙ ap some (
        write_at_front room bytes (omega arith)
        ∙ ap (λ t. bytes ++ t) (drop-all (length bytes) room (omega arith))
        ∙ append-nil bytes)

-- On a host of either byte order, for a 16-bit number and memory of at least 2 bytes,
-- cpr_write_le16 stores its bytes from the lowest up and cpr_write_be16 from the highest down, in
-- front of the rest of the memory, and cpr_read_le16 and cpr_read_be16 read the number back.
read-write16 :
    (is_big : Bool) (dst : List ℕ) (v : ℕ)
    → 2 ≤ length dst
    → v < 2 ^ 16
    → (write_le16 is_big dst v ≡ some (low_first 2 v ++ drop 2 dst))
      × (write_be16 is_big dst v ≡ some (high_first 2 v ++ drop 2 dst))
      × ((write_le16 is_big dst v >>= read_le16 is_big) ≡ some v)
      × ((write_be16 is_big dst v >>= read_be16 is_big) ≡ some v)
unfolding write_le16 write_be16 read_le16 read_be16
read-write16 true dst v room h =
    let low = low_first 2 v in
    let high = high_first 2 v in
    let stored_low = store_lem dst low room in
    let stored_high = store_lem dst high room in
    let got_low = load_lem (0 ∷ 0 ∷ []) low (drop 2 dst) refl in
    let got_high = load_lem (0 ∷ 0 ∷ []) high (drop 2 dst) refl in
    (
      rw (high_first-bswap16 v h) stored_low,
      stored_high,
      rw (high_first-bswap16 v h, stored_low, got_low, high_value-bswap16 v h, bswap16_twice v h)
          refl,
      rw (stored_high, got_high, high_value-bswap16_same v h) refl,
    )
read-write16 false dst v room h =
    let low = low_first 2 v in
    let high = high_first 2 v in
    let stored_low = store_lem dst low room in
    let stored_high = store_lem dst high room in
    let got_low = load_lem (0 ∷ 0 ∷ []) low (drop 2 dst) refl in
    let got_high = load_lem (0 ∷ 0 ∷ []) high (drop 2 dst) refl in
    (
      stored_low,
      rw (low_first-bswap16 v h) stored_high,
      rw (stored_low, got_low, low_value-bswap16_same v h) refl,
      rw (low_first-bswap16 v h, stored_high, got_high, low_value-bswap16 v h, bswap16_twice v h)
          refl,
    )

-- On a host of either byte order, for a 32-bit number and memory of at least 4 bytes,
-- cpr_write_le32 stores its bytes from the lowest up and cpr_write_be32 from the highest down, in
-- front of the rest of the memory, and cpr_read_le32 and cpr_read_be32 read the number back.
pub read-write32 :
    (is_big : Bool) (dst : List ℕ) (v : ℕ)
    → 4 ≤ length dst
    → v < 2 ^ 32
    → (write_le32 is_big dst v ≡ some (low_first 4 v ++ drop 4 dst))
      × (write_be32 is_big dst v ≡ some (high_first 4 v ++ drop 4 dst))
      × ((write_le32 is_big dst v >>= read_le32 is_big) ≡ some v)
      × ((write_be32 is_big dst v >>= read_be32 is_big) ≡ some v)
unfolding write_le32 write_be32 read_le32 read_be32
read-write32 true dst v room h =
    let low = low_first 4 v in
    let high = high_first 4 v in
    let stored_low = store_lem dst low room in
    let stored_high = store_lem dst high room in
    let got_low = load_lem (0 ∷ 0 ∷ 0 ∷ 0 ∷ []) low (drop 4 dst) refl in
    let got_high = load_lem (0 ∷ 0 ∷ 0 ∷ 0 ∷ []) high (drop 4 dst) refl in
    (
      rw (high_first-bswap32 v h) stored_low,
      stored_high,
      rw (high_first-bswap32 v h, stored_low, got_low, high_value-bswap32 v h, bswap32_twice v h)
          refl,
      rw (stored_high, got_high, high_value-bswap32_same v h) refl,
    )
read-write32 false dst v room h =
    let low = low_first 4 v in
    let high = high_first 4 v in
    let stored_low = store_lem dst low room in
    let stored_high = store_lem dst high room in
    let got_low = load_lem (0 ∷ 0 ∷ 0 ∷ 0 ∷ []) low (drop 4 dst) refl in
    let got_high = load_lem (0 ∷ 0 ∷ 0 ∷ 0 ∷ []) high (drop 4 dst) refl in
    (
      stored_low,
      rw (low_first-bswap32 v h) stored_high,
      rw (stored_low, got_low, low_value-bswap32_same v h) refl,
      rw (low_first-bswap32 v h, stored_high, got_high, low_value-bswap32 v h, bswap32_twice v h)
          refl,
    )

-- On a host of either byte order, for a 64-bit number and memory of at least 8 bytes,
-- cpr_write_le64 stores its bytes from the lowest up and cpr_write_be64 from the highest down, in
-- front of the rest of the memory, and cpr_read_le64 and cpr_read_be64 read the number back.
read-write64 :
    (is_big : Bool) (dst : List ℕ) (v : ℕ)
    → 8 ≤ length dst
    → v < 2 ^ 64
    → (write_le64 is_big dst v ≡ some (low_first 8 v ++ drop 8 dst))
      × (write_be64 is_big dst v ≡ some (high_first 8 v ++ drop 8 dst))
      × ((write_le64 is_big dst v >>= read_le64 is_big) ≡ some v)
      × ((write_be64 is_big dst v >>= read_be64 is_big) ≡ some v)
unfolding write_le64 write_be64 read_le64 read_be64
read-write64 true dst v room h =
    let low = low_first 8 v in
    let high = high_first 8 v in
    let stored_low = store_lem dst low room in
    let stored_high = store_lem dst high room in
    let got_low = load_lem (0 ∷ 0 ∷ 0 ∷ 0 ∷ 0 ∷ 0 ∷ 0 ∷ 0 ∷ []) low (drop 8 dst) refl in
    let got_high = load_lem (0 ∷ 0 ∷ 0 ∷ 0 ∷ 0 ∷ 0 ∷ 0 ∷ 0 ∷ []) high (drop 8 dst) refl in
    (
      rw (high_first-bswap64 v h) stored_low,
      stored_high,
      rw (high_first-bswap64 v h, stored_low, got_low, high_value-bswap64 v h, bswap64_twice v h)
          refl,
      rw (stored_high, got_high, high_value-bswap64_same v h) refl,
    )
read-write64 false dst v room h =
    let low = low_first 8 v in
    let high = high_first 8 v in
    let stored_low = store_lem dst low room in
    let stored_high = store_lem dst high room in
    let got_low = load_lem (0 ∷ 0 ∷ 0 ∷ 0 ∷ 0 ∷ 0 ∷ 0 ∷ 0 ∷ []) low (drop 8 dst) refl in
    let got_high = load_lem (0 ∷ 0 ∷ 0 ∷ 0 ∷ 0 ∷ 0 ∷ 0 ∷ 0 ∷ []) high (drop 8 dst) refl in
    (
      stored_low,
      rw (low_first-bswap64 v h) stored_high,
      rw (stored_low, got_low, low_value-bswap64_same v h) refl,
      rw (low_first-bswap64 v h, stored_high, got_high, low_value-bswap64 v h, bswap64_twice v h)
          refl,
    )
