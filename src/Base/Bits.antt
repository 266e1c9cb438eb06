-- ===== src/Base/Bits.antt =====
-- `|` of fields that do not overlap, as a sum. The native operation is a recursion on binary
-- digits with fuel; here the fuel is dropped first.
use Prim.Native.Nat.{
  ℕ, zero, suc, ◌+◌, ◌-◌, ◌*◌, ◌/◌, ◌%◌, ◌^◌, ◌≤◌, ◌<◌, max, min, digits, bitwise, bit_or,
  bit_or-bitwise, bit_and, bit_and-bitwise,
}
use native.Mathlib.Nat.{pow-suc, one-le-pow}
use mathlib.Core.Path.{◌≡◌, refl, ap, ap₂, ◌∙◌}
use native.Mathlib.Omega.{arith}

module _ (base : ℕ → ℕ) (op : ℕ → ℕ → ℕ) where
  -- Any fuel that is at least the left operand gives the same digits.
  enough_digits : (x y k l : ℕ) → x ≤ k → x ≤ l → digits base op k x y ≡ digits base op l x y
  enough_digits zero y zero zero hk hl = refl
  enough_digits zero y zero (suc l) hk hl = refl
  enough_digits zero y (suc k) zero hk hl = refl
  enough_digits zero y (suc k) (suc l) hk hl = refl
  enough_digits (suc x) y zero l hk hl = absurd (omega arith)
  enough_digits (suc x) y (suc k) zero hk hl = absurd (omega arith)
  enough_digits (suc x) y (suc k) (suc l) hk hl =
      ap (λ (t : ℕ). t * 2 + op (suc x % 2) (y % 2))
        (enough_digits (suc x / 2) (y / 2) k l (omega arith) (omega arith))

  lowest_digit :
      (x y : ℕ)
      → bitwise base op (suc x) y ≡ bitwise base op (suc x / 2) (y / 2) * 2 + op (suc x % 2) (y % 2)
  lowest_digit x y =
      omega (arith, enough_digits (suc x / 2) (y / 2) x (suc x / 2) (omega arith) (omega arith))

bit_or-halves : (x y : ℕ) → bit_or x y ≡ bit_or (x / 2) (y / 2) * 2 + max (x % 2) (y % 2)
bit_or-halves zero y = simp bit_or-bitwise (omega arith)
bit_or-halves (suc x) y = simp bit_or-bitwise (lowest_digit (λ t. t) max x y)

zero-bit_or : (y : ℕ) → bit_or 0 y ≡ y
zero-bit_or y = bit_or-bitwise 0 y

double_shift : (y k : ℕ) → y * 2 ^ suc k ≡ y * 2 ^ k * 2
double_shift y k = omega (arith, ap (λ (t : ℕ). y * t) (pow-suc 2 k))

-- `x | (y << k)` is a sum when `x` fits `k` bits.
pub bit_or-shift : (k x y : ℕ) → x < 2 ^ k → bit_or x (y * 2 ^ k) ≡ x + y * 2 ^ k
bit_or-shift zero x y h = let e : x ≡ 0 = omega arith in rw e (omega (arith, zero-bit_or (y * 1)))
bit_or-shift (suc k) x y h = ground (
  arith,
  pow-suc 2 k,
  bit_or-halves x (y * 2 ^ suc k),
  double_shift y k,
  bit_or-shift k (x / 2) y,
)

bit_and-halves : (x y : ℕ) → bit_and x y ≡ bit_and (x / 2) (y / 2) * 2 + min (x % 2) (y % 2)
bit_and-halves zero y = simp bit_and-bitwise (omega arith)
bit_and-halves (suc x) y = simp bit_and-bitwise (lowest_digit (λ t. 0) min x y)

-- A mask whose low `k` bits are clear does not see the low `k` bits.
pub bit_and-shift :
    (k x y m : ℕ) → x < 2 ^ k → bit_and (x + y * 2 ^ k) (m * 2 ^ k) ≡ bit_and y m * 2 ^ k
bit_and-shift zero x y m h =
    let e : x + y * 1 ≡ y = omega arith in
    let e' : m * 1 ≡ m = omega arith in ap₂ bit_and e e' ∙ omega arith
bit_and-shift (suc k) x y m h = ground (
  arith,
  pow-suc 2 k,
  bit_and-halves (x + y * 2 ^ suc k) (m * 2 ^ suc k),
  double_shift y k,
  double_shift m k,
  double_shift (bit_and y m) k,
  bit_and-shift k (x / 2) y m,
)

bit_and-zero : (n x : ℕ) → x ≤ n → bit_and x 0 ≡ 0
bit_and-zero n zero h = bit_and-bitwise 0 0
bit_and-zero zero (suc x) h = absurd (omega arith)
bit_and-zero (suc n) (suc x) h =
    omega (arith, bit_and-halves (suc x) 0, bit_and-zero n (suc x / 2) (omega arith))

-- A mask of `k` ones keeps the low `k` bits.
pub bit_and-ones : (k x y : ℕ) → x < 2 ^ k → bit_and (x + y * 2 ^ k) (2 ^ k - 1) ≡ x
bit_and-ones zero x y h = omega (arith, bit_and-zero (x + y * 1) (x + y * 1) (omega arith))
bit_and-ones (suc k) x y h = ground (
  arith,
  pow-suc 2 k,
  one-le-pow k 2,
  double_shift y k,
  bit_and-halves (x + y * 2 ^ suc k) (2 ^ suc k - 1),
  bit_and-ones k (x / 2) y,
)

bit_or-zero : (n x : ℕ) → x ≤ n → bit_or x 0 ≡ x
bit_or-zero n zero h = bit_or-bitwise 0 0
bit_or-zero zero (suc x) h = absurd (omega arith)
bit_or-zero (suc n) (suc x) h =
    omega (arith, bit_or-halves (suc x) 0, bit_or-zero n (suc x / 2) (omega arith))

-- `(y << k) | x`, with the high field first.
pub bit_or-above : (k x y : ℕ) → x < 2 ^ k → bit_or (y * 2 ^ k) x ≡ y * 2 ^ k + x
bit_or-above zero x y h =
    let e : x ≡ 0 = omega arith in rw e (omega (arith, bit_or-zero (y * 1) (y * 1) (omega arith)))
bit_or-above (suc k) x y h = ground (
  arith,
  pow-suc 2 k,
  bit_or-halves (y * 2 ^ suc k) x,
  double_shift y k,
  bit_or-above k (x / 2) y,
)
