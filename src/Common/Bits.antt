-- ===== src/Common/Bits.antt =====
-- Bit operations as arithmetic: masks by tables over one byte, and the laws for every width from
-- the recursion on binary digits.
use Prim.Native.Nat.{
  ℕ, zero, suc, ◌+◌, ◌-◌, ◌*◌, ◌/◌, ◌%◌, ◌^◌, ◌≤◌, ◌<◌, min, max, bit_and, bit_or, digits, bitwise,
  bit_and-bitwise, bit_or-bitwise,
}
use mathlib.Core.Path.{◌≡◌, refl, ap, sym}
use mathlib.Core.Bool.{Bool, true, ◌&&◌}
use native.Mathlib.Omega.{arith}
use native.Mathlib.Nat.{pow-suc, one-le-pow}
use cl.Common.Tests.{◌==◌, ==_iff}

unfoldable pub every_below : ℕ → (ℕ → Bool) → Bool
every_below zero p = true
every_below (suc n) p = p n && every_below n p

pub every_below_sound : (n : ℕ) (p : ℕ → Bool) (x : ℕ) → every_below n p ≡ true → x < n → p x ≡ true
unfolding every_below
every_below_sound zero p x h lt = absurd (omega arith)
every_below_sound (suc n) p x h lt = ground (arith, every_below_sound n p x)

pub byte_eq :
    (f g : ℕ → ℕ) → every_below 256 (λ x. f x == g x) ≡ true → (x : ℕ) → x < 256 → f x ≡ g x
byte_eq f g table x h = (==_iff _ _).0 (every_below_sound 256 _ x table h)

pub top_bit : (b : ℕ) → b < 256 → bit_and b 0x80 ≡ b / 128 * 128
unfolding every_below
top_bit = byte_eq _ _ refl

-- `digits` by halves, whatever is done to a pair of digits, where its end case `z` agrees with that.
module _ (z : ℕ → ℕ) (f : ℕ → ℕ → ℕ) where
  -- More fuel than the first number needs makes no difference.
  digits_enough :
      (few many x y : ℕ) → x ≤ few → few ≤ many → digits z f few x y ≡ digits z f many x y
  digits_enough zero zero x y le more = refl
  digits_enough zero (suc many) zero y le more = refl
  digits_enough (suc few) (suc many) zero y le more = refl
  digits_enough zero (suc many) (suc x) y le more = absurd (omega arith)
  digits_enough (suc few) zero x y le more = absurd (omega arith)
  digits_enough (suc few) (suc many) (suc x) y le more =
      let tail = digits_enough few many (suc x / 2) (y / 2) (omega arith) (omega arith) in
      ap (λ (t : ℕ). t * 2 + f (suc x % 2) (y % 2)) tail

  pub bitwise_halves :
      (x y : ℕ)
      → z y ≡ z (y / 2) * 2 + f 0 (y % 2)
      → bitwise z f x y ≡ bitwise z f (x / 2) (y / 2) * 2 + f (x % 2) (y % 2)
  bitwise_halves zero y ends = ends
  bitwise_halves (suc x) y ends =
      let tail = digits_enough (suc x / 2) x (suc x / 2) (y / 2) (omega arith) (omega arith) in
      ap (λ (t : ℕ). t * 2 + f (suc x % 2) (y % 2)) (sym tail)

pub bit_or_halves : (x y : ℕ) → bit_or x y ≡ bit_or (x / 2) (y / 2) * 2 + max (x % 2) (y % 2)
bit_or_halves x y =
    let law = bitwise_halves (λ c. c) max x y (omega arith) in
    omega (arith, law, bit_or-bitwise x y, bit_or-bitwise (x / 2) (y / 2))

pub bit_and_halves : (x y : ℕ) → bit_and x y ≡ bit_and (x / 2) (y / 2) * 2 + min (x % 2) (y % 2)
bit_and_halves x y =
    let law = bitwise_halves (λ c. 0) min x y (omega arith) in
    omega (arith, law, bit_and-bitwise x y, bit_and-bitwise (x / 2) (y / 2))

zero-bit_or : (y : ℕ) → bit_or 0 y ≡ y
zero-bit_or y = bit_or-bitwise 0 y

scaled_pow : (q k : ℕ) → q * 2 ^ suc k ≡ 2 * (q * 2 ^ k)
scaled_pow q k = omega (arith, ap (λ (t : ℕ). q * t) (pow-suc 2 k))

-- `a | (b << k)` is a sum where `a` fits `k` bits.
pub bit_or-shift : (k a b : ℕ) → a < 2 ^ k → bit_or a (b * 2 ^ k) ≡ a + b * 2 ^ k
bit_or-shift zero a b fits =
    let e : a ≡ 0 = omega arith in rw e (omega (arith, zero-bit_or (b * 1)))
bit_or-shift (suc k) a b fits = ground (
  arith,
  bit_or_halves a (b * 2 ^ suc k),
  scaled_pow b k,
  pow-suc 2 k,
  bit_or-shift k (a / 2) b (omega (arith, pow-suc 2 k)),
)

bit_and-zero_below : (bound x : ℕ) → x ≤ bound → bit_and x 0 ≡ 0
bit_and-zero_below bound zero le = refl
bit_and-zero_below zero (suc x) le = absurd (omega arith)
bit_and-zero_below (suc bound) (suc x) le =
    let tail = bit_and-zero_below bound (suc x / 2) (omega arith) in
    omega (arith, tail, bit_and_halves (suc x) 0)

pub bit_and-zero : (x : ℕ) → bit_and x 0 ≡ 0
bit_and-zero x = bit_and-zero_below x x (omega arith)

bit_and-low_field : (k q r : ℕ) → r < 2 ^ k → bit_and (q * 2 ^ k + r) (2 ^ k - 1) ≡ r
bit_and-low_field zero q r fits = rw bit_and-zero (omega arith)
bit_and-low_field (suc k) q r fits = ground (
  arith,
  bit_and_halves (q * 2 ^ suc k + r) (2 ^ suc k - 1),
  scaled_pow q k,
  pow-suc 2 k,
  bit_and-low_field k q (r / 2) (omega (arith, pow-suc 2 k)),
)

-- A mask of `k` ones keeps the remainder by `2 ^ k`.
pub bit_and_ones : (k a : ℕ) → bit_and a (2 ^ k - 1) ≡ a % 2 ^ k
bit_and_ones k a = ground (arith, one-le-pow k 2, bit_and-low_field k (a / 2 ^ k) (a % 2 ^ k))

pub low_seven : (a : ℕ) → bit_and a 0x7f ≡ a % 128
low_seven a = bit_and_ones 7 a
