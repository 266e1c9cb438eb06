-- ===== src/Endian.antt =====
-- include/endian_private.h: byte order conversions, and how a host of either byte order keeps a
-- word in memory.
pub mod Wire
use lib_tpm.Base.{ℕ, ◌+◌, ◌*◌, ◌/◌, ◌%◌, ◌^◌, bit_and, bit_or, List, [], ◌∷◌}

-- `__BYTE_ORDER__`.
pub data Host : Type 0 where
  little_endian big_endian : Host

-- `__bswap16` and `__bswap32`, on values of 16 and 32 bits.
unfoldable pub bswap16 : ℕ → ℕ
bswap16 x = bit_or (x / 2 ^ 8) (bit_and (x * 2 ^ 8) 0xff00)

unfoldable pub bswap32 : ℕ → ℕ
bswap32 x =
    bit_or
      (bit_or (bit_or (x / 2 ^ 24) (bit_and (x / 2 ^ 8) 0xff00))
        (bit_and (x * 2 ^ 8 % 2 ^ 32) 0xff0000))
      (bit_and (x * 2 ^ 24 % 2 ^ 32) 0xff000000)

unfoldable pub htobe16 : Host → ℕ → ℕ
unfolding bswap16
htobe16 little_endian x = bswap16 x
htobe16 big_endian x = x

unfoldable pub htobe32 : Host → ℕ → ℕ
unfolding bswap32
htobe32 little_endian x = bswap32 x
htobe32 big_endian x = x

unfoldable pub be16toh : Host → ℕ → ℕ
unfolding bswap16
be16toh little_endian x = bswap16 x
be16toh big_endian x = x

unfoldable pub be32toh : Host → ℕ → ℕ
unfolding bswap32
be32toh little_endian x = bswap32 x
be32toh big_endian x = x

-- The bytes of a value, most significant first.
abbrev pub be16 : ℕ → List ℕ
be16 x = x / 2 ^ 8 % 2 ^ 8 ∷ x % 2 ^ 8 ∷ []

abbrev pub be32 : ℕ → List ℕ
be32 x = x / 2 ^ 24 % 2 ^ 8 ∷ x / 2 ^ 16 % 2 ^ 8 ∷ x / 2 ^ 8 % 2 ^ 8 ∷ x % 2 ^ 8 ∷ []

-- The bytes that a host's memory holds for a `uint16_t` and a `uint32_t`.
unfoldable pub memory16 : Host → ℕ → List ℕ
memory16 little_endian x = x % 2 ^ 8 ∷ x / 2 ^ 8 % 2 ^ 8 ∷ []
memory16 big_endian x = be16 x

unfoldable pub memory32 : Host → ℕ → List ℕ
memory32 little_endian x =
    x % 2 ^ 8 ∷ x / 2 ^ 8 % 2 ^ 8 ∷ x / 2 ^ 16 % 2 ^ 8 ∷ x / 2 ^ 24 % 2 ^ 8 ∷ []
memory32 big_endian x = be32 x

-- The value of a `uint16_t` or a `uint32_t` that lies at given bytes.
unfoldable pub word16 : Host → ℕ → ℕ → ℕ
word16 little_endian a b = a + b * 2 ^ 8
word16 big_endian a b = a * 2 ^ 8 + b

unfoldable pub word32 : Host → ℕ → ℕ → ℕ → ℕ → ℕ
word32 little_endian a b c d = a + b * 2 ^ 8 + c * 2 ^ 16 + d * 2 ^ 24
word32 big_endian a b c d = a * 2 ^ 24 + b * 2 ^ 16 + c * 2 ^ 8 + d
