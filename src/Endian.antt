-- ===== src/Endian.antt =====
-- include/copper/endian.h. `is_big` says that the host is big-endian (`CPR_BIG_ENDIAN`). The byte
-- swaps are those of the last branch, whose values the compilers' own operations have too.
pub mod Swap
pub mod Bytes
pub mod Memory
mod Tests
use libcopper.Base.{ℕ, zero, suc, ◌+◌, ◌*◌, ◌/◌, ◌%◌, ◌^◌, Bool, Option, some, List, [], ◌∷◌, ◌++◌}
use libcopper.Base.{if◌then◌else◌, memcpy, ◌>>=◌, u32, u64, ◌<<<◌, ◌>>>◌, bit_and, bit_or}

abbrev pub u16 : ℕ → ℕ
u16 n = n % 2 ^ 16

-- `cpr_bswap16`, `cpr_bswap32`, `cpr_bswap64`
pub bswap16 : ℕ → ℕ
bswap16 v = u16 (bit_or (v <<< 8) (v >>> 8))

pub bswap32 : ℕ → ℕ
bswap32 v =
    bit_or
      (bit_or (bit_or (u32 (bit_and v 0x000000ff <<< 24)) (u32 (bit_and v 0x0000ff00 <<< 8)))
        (bit_and v 0x00ff0000 >>> 8))
      (bit_and v 0xff000000 >>> 24)

pub bswap64 : ℕ → ℕ
bswap64 v =
    bit_or
      (bit_or
        (bit_or
          (bit_or
            (bit_or
              (bit_or
                (bit_or (u64 (bit_and v 0x00000000000000ff <<< 56))
                  (u64 (bit_and v 0x000000000000ff00 <<< 40)))
                (u64 (bit_and v 0x0000000000ff0000 <<< 24)))
              (u64 (bit_and v 0x00000000ff000000 <<< 8)))
            (bit_and v 0x000000ff00000000 >>> 8))
          (bit_and v 0x0000ff0000000000 >>> 24))
        (bit_and v 0x00ff000000000000 >>> 40))
      (bit_and v 0xff00000000000000 >>> 56)

-- The bytes of a number, the lowest first, and the highest first.
abbrev pub low_first : ℕ → ℕ → List ℕ
low_first zero v = []
low_first (suc n) v = (v % 256) ∷ low_first n (v / 256)

abbrev pub high_first : ℕ → ℕ → List ℕ
high_first zero v = []
high_first (suc n) v = high_first n (v / 256) ++ ((v % 256) ∷ [])

abbrev pub low_value : List ℕ → ℕ
low_value [] = 0
low_value (b ∷ bs) = b + 256 * low_value bs

abbrev pub high_value : ℕ → List ℕ → ℕ
high_value acc [] = acc
high_value acc (b ∷ bs) = high_value (acc * 256 + b) bs

module _ (is_big : Bool) where
  -- How the host keeps a number of `n` bytes in memory.
  abbrev pub stored : ℕ → ℕ → List ℕ
  stored n v = if is_big then high_first n v else low_first n v

  abbrev pub loaded : List ℕ → ℕ
  loaded bytes = if is_big then high_value 0 bytes else low_value bytes

  -- Between the host and the little-endian or the big-endian order.
  pub htole16 : ℕ → ℕ
  unfolding bswap16
  htole16 v = if is_big then bswap16 v else v

  pub htole32 : ℕ → ℕ
  unfolding bswap32
  htole32 v = if is_big then bswap32 v else v

  pub htole64 : ℕ → ℕ
  unfolding bswap64
  htole64 v = if is_big then bswap64 v else v

  pub letoh16 : ℕ → ℕ
  unfolding bswap16
  letoh16 v = if is_big then bswap16 v else v

  pub letoh32 : ℕ → ℕ
  unfolding bswap32
  letoh32 v = if is_big then bswap32 v else v

  pub letoh64 : ℕ → ℕ
  unfolding bswap64
  letoh64 v = if is_big then bswap64 v else v

  pub htobe16 : ℕ → ℕ
  unfolding bswap16
  htobe16 v = if is_big then v else bswap16 v

  pub htobe32 : ℕ → ℕ
  unfolding bswap32
  htobe32 v = if is_big then v else bswap32 v

  pub htobe64 : ℕ → ℕ
  unfolding bswap64
  htobe64 v = if is_big then v else bswap64 v

  pub betoh16 : ℕ → ℕ
  unfolding bswap16
  betoh16 v = if is_big then v else bswap16 v

  pub betoh32 : ℕ → ℕ
  unfolding bswap32
  betoh32 v = if is_big then v else bswap32 v

  pub betoh64 : ℕ → ℕ
  unfolding bswap64
  betoh64 v = if is_big then v else bswap64 v

  -- Loads from the front of memory, and stores to it, which give what the memory is then.
  pub read_le16 : List ℕ → Option ℕ
  unfolding letoh16
  read_le16 src = memcpy (0 ∷ 0 ∷ []) 0 src 0 2 >>= λ v. some (letoh16 (loaded v))

  pub write_le16 : List ℕ → ℕ → Option (List ℕ)
  unfolding htole16
  write_le16 dst v = memcpy dst 0 (stored 2 (htole16 v)) 0 2

  pub read_le32 : List ℕ → Option ℕ
  unfolding letoh32
  read_le32 src = memcpy (0 ∷ 0 ∷ 0 ∷ 0 ∷ []) 0 src 0 4 >>= λ v. some (letoh32 (loaded v))

  pub write_le32 : List ℕ → ℕ → Option (List ℕ)
  unfolding htole32
  write_le32 dst v = memcpy dst 0 (stored 4 (htole32 v)) 0 4

  pub read_le64 : List ℕ → Option ℕ
  unfolding letoh64
  read_le64 src =
      memcpy (0 ∷ 0 ∷ 0 ∷ 0 ∷ 0 ∷ 0 ∷ 0 ∷ 0 ∷ []) 0 src 0 8 >>= λ v. some (letoh64 (loaded v))

  pub write_le64 : List ℕ → ℕ → Option (List ℕ)
  unfolding htole64
  write_le64 dst v = memcpy dst 0 (stored 8 (htole64 v)) 0 8

  pub read_be16 : List ℕ → Option ℕ
  unfolding betoh16
  read_be16 src = memcpy (0 ∷ 0 ∷ []) 0 src 0 2 >>= λ v. some (betoh16 (loaded v))

  pub write_be16 : List ℕ → ℕ → Option (List ℕ)
  unfolding htobe16
  write_be16 dst v = memcpy dst 0 (stored 2 (htobe16 v)) 0 2

  pub read_be32 : List ℕ → Option ℕ
  unfolding betoh32
  read_be32 src = memcpy (0 ∷ 0 ∷ 0 ∷ 0 ∷ []) 0 src 0 4 >>= λ v. some (betoh32 (loaded v))

  pub write_be32 : List ℕ → ℕ → Option (List ℕ)
  unfolding htobe32
  write_be32 dst v = memcpy dst 0 (stored 4 (htobe32 v)) 0 4

  pub read_be64 : List ℕ → Option ℕ
  unfolding betoh64
  read_be64 src =
      memcpy (0 ∷ 0 ∷ 0 ∷ 0 ∷ 0 ∷ 0 ∷ 0 ∷ 0 ∷ []) 0 src 0 8 >>= λ v. some (betoh64 (loaded v))

  pub write_be64 : List ℕ → ℕ → Option (List ℕ)
  unfolding htobe64
  write_be64 dst v = memcpy dst 0 (stored 8 (htobe64 v)) 0 8
