-- ===== src/Endian/Wire.antt =====
-- The conversions of include/endian_private.h, and words in the memory of either kind of host.
use lib_tpm.Base.{ℕ, ◌+◌, ◌*◌, ◌/◌, ◌%◌, ◌^◌, ◌<◌, ◌≡◌, refl, ap, ◌∙◌, arith}
use lib_tpm.Base.Bits.{bit_or-shift, bit_and-shift, bit_and-ones}
use lib_tpm.Endian.{
  Host, little_endian, big_endian, bswap16, bswap32, htobe16, htobe32, be16toh, be32toh, memory16,
  memory32, word16, word32, be16, be32,
}

-- The bytes of a 32-bit word in the other order.
bswap16_bytes : (a b : ℕ) → a < 2 ^ 8 → b < 2 ^ 8 → bswap16 (a + b * 2 ^ 8) ≡ b + a * 2 ^ 8
unfolding bswap16
bswap16_bytes a b ha hb =
    ground (arith, bit_and-shift 8 0 (a + b * 2 ^ 8) 255, bit_and-ones 8 a b, bit_or-shift 8 b a)

bswap32_bytes :
    (a b c d : ℕ)
    → a < 2 ^ 8
    → b < 2 ^ 8
    → c < 2 ^ 8
    → d < 2 ^ 8
    → bswap32 (a + b * 2 ^ 8 + c * 2 ^ 16 + d * 2 ^ 24) ≡ d + c * 2 ^ 8 + b * 2 ^ 16 + a * 2 ^ 24
unfolding bswap32
bswap32_bytes a b c d ha hb hc hd = ground (
  arith,
  bit_and-shift 8 b (c + d * 2 ^ 8) 255,
  bit_and-ones 8 c d,
  bit_and-shift 16 (a * 2 ^ 8) (b + c * 2 ^ 8) 255,
  bit_and-ones 8 b c,
  bit_and-shift 24 0 (a + 0 * 2 ^ 8) 255,
  bit_and-ones 8 a 0,
  bit_or-shift 8 d c,
  bit_or-shift 16 (d + c * 2 ^ 8) b,
  bit_or-shift 24 (d + c * 2 ^ 8 + b * 2 ^ 16) a,
)

bswap16_value : (x : ℕ) → x < 2 ^ 16 → bswap16 x ≡ x / 2 ^ 8 + x % 2 ^ 8 * 2 ^ 8
bswap16_value x lt =
    let e : x ≡ x % 2 ^ 8 + x / 2 ^ 8 * 2 ^ 8 = omega arith in
    ap bswap16 e ∙ bswap16_bytes (x % 2 ^ 8) (x / 2 ^ 8) (omega arith) (omega arith)

bswap32_value :
    (x : ℕ)
    → x < 2 ^ 32
    → bswap32 x
      ≡ x / 2 ^ 24 + x / 2 ^ 16 % 2 ^ 8 * 2 ^ 8 + x / 2 ^ 8 % 2 ^ 8 * 2 ^ 16 + x % 2 ^ 8 * 2 ^ 24
bswap32_value x lt =
    let a : ℕ = x % 2 ^ 8 in
    let b : ℕ = x / 2 ^ 8 % 2 ^ 8 in
    let c : ℕ = x / 2 ^ 16 % 2 ^ 8 in
    let d : ℕ = x / 2 ^ 24 in
    let e : x ≡ a + b * 2 ^ 8 + c * 2 ^ 16 + d * 2 ^ 24 = omega arith in
    ap bswap32 e ∙ bswap32_bytes a b c d (omega arith) (omega arith) (omega arith) (omega arith)

pub be16toh-htobe16 : (h : Host) (x : ℕ) → x < 2 ^ 16 → be16toh h (htobe16 h x) ≡ x
unfolding htobe16 be16toh
be16toh-htobe16 little_endian x lt =
    omega (arith, bswap16_value x lt, bswap16_value (bswap16 x) (omega (arith, bswap16_value x lt)))
be16toh-htobe16 big_endian x lt = refl

-- On a host of either byte order, a value below 2^32 is the same after `htobe32` and `be32toh`.
pub be32toh-htobe32 : (h : Host) (x : ℕ) → x < 2 ^ 32 → be32toh h (htobe32 h x) ≡ x
unfolding htobe32 be32toh
be32toh-htobe32 little_endian x lt =
    omega (arith, bswap32_value x lt, bswap32_value (bswap32 x) (omega (arith, bswap32_value x lt)))
be32toh-htobe32 big_endian x lt = refl

pub memory16-htobe16 : (h : Host) (x : ℕ) → x < 2 ^ 16 → memory16 h (htobe16 h x) ≡ be16 x
unfolding memory16 htobe16
memory16-htobe16 little_endian x lt = ground (arith, bswap16_value x lt)
memory16-htobe16 big_endian x lt = refl

-- On a host of either byte order, the memory of `htobe32 x`, for `x` below 2^32, holds the bytes
-- of `x`, most significant first.
pub memory32-htobe32 : (h : Host) (x : ℕ) → x < 2 ^ 32 → memory32 h (htobe32 h x) ≡ be32 x
unfolding memory32 htobe32
memory32-htobe32 little_endian x lt = ground (arith, bswap32_value x lt)
memory32-htobe32 big_endian x lt = refl

-- Reading a big-endian word back.
pub be16toh-word16 :
    (h : Host) (a b : ℕ) → a < 2 ^ 8 → b < 2 ^ 8 → be16toh h (word16 h a b) ≡ a * 2 ^ 8 + b
unfolding word16 be16toh
be16toh-word16 little_endian a b ha hb = omega (arith, bswap16_bytes a b ha hb)
be16toh-word16 big_endian a b ha hb = refl

pub be32toh-word32 :
    (h : Host) (a b c d : ℕ)
    → a < 2 ^ 8
    → b < 2 ^ 8
    → c < 2 ^ 8
    → d < 2 ^ 8
    → be32toh h (word32 h a b c d) ≡ a * 2 ^ 24 + b * 2 ^ 16 + c * 2 ^ 8 + d
unfolding word32 be32toh
be32toh-word32 little_endian a b c d ha hb hc hd = omega (arith, bswap32_bytes a b c d ha hb hc hd)
be32toh-word32 big_endian a b c d ha hb hc hd = refl
