-- ===== src/Endian/Tests.antt =====
-- include/copper/endian.h on concrete numbers, and its theorems at such.
use libcopper.Base.{
  ℕ, ◌≡◌, refl, arith, true, false, some, List, [], ◌∷◌, ◌++◌, drop, memcpy, ◌>>=◌,
}
use libcopper.Endian.{bswap16, bswap32, bswap64, low_first, high_first}
use libcopper.Endian.{read_le32, read_be32}
use libcopper.Endian.{write_le32, write_be16, write_be32}
use libcopper.Endian.Memory.{read-write32}

abbrev room : List ℕ
room = 1 ∷ 2 ∷ 3 ∷ 4 ∷ 5 ∷ 6 ∷ 7 ∷ 8 ∷ 9 ∷ []

swaps :
    (bswap16 0x1234 ≡ 0x3412)
    × (bswap32 0x12345678 ≡ 0x78563412)
    × (bswap64 0x0123456789abcdef ≡ 0xefcdab8967452301)
unfolding bswap16 bswap32 bswap64
swaps = (refl, refl, refl)

big_on_little : write_be16 false room 0x1234 ≡ some (0x12 ∷ 0x34 ∷ drop 2 room)
unfolding write_be16 bswap16 memcpy
big_on_little = refl

read-write32_example :
    (write_le32 true room 0x12345678 ≡ some (low_first 4 0x12345678 ++ drop 4 room))
    × (write_be32 true room 0x12345678 ≡ some (high_first 4 0x12345678 ++ drop 4 room))
    × ((write_le32 true room 0x12345678 >>= read_le32 true) ≡ some 0x12345678)
    × ((write_be32 true room 0x12345678 >>= read_be32 true) ≡ some 0x12345678)
read-write32_example = read-write32 true room 0x12345678 (omega arith) (omega arith)
