-- ===== src/Common/Digits.antt =====
-- The single binary digits of a number, and what the bit operations do to them.
use Prim.Native.Nat.{
  ℕ, zero, suc, ◌+◌, ◌*◌, ◌/◌, ◌%◌, ◌^◌, ◌≤◌, ◌<◌, min, max, bit_and, bit_or, bit_xor, differ,
  bit_xor-bitwise,
}
use mathlib.Core.Path.{◌≡◌, refl, ap, sym, ◌∙◌}
use mathlib.Core.Logic.{◌≢◌}
use native.Mathlib.Omega.{arith}
use native.Mathlib.Nat.{pow-suc, one-le-pow, div-add-mod, div-div-eq-div-mul, mul_assoc}
use cl.Common.Tests.{◌==◌, if◌then◌else◌}
use cl.Common.Bits.{bit_or_halves, bit_and_halves, bitwise_halves, bit_and-zero}

-- Digit `i` of a number, the lowest first.
unfoldable pub digit : ℕ → ℕ → ℕ
digit zero x = x % 2
digit (suc i) x = digit i (x / 2)

pub digit-lt-two : (i x : ℕ) → digit i x < 2
unfolding digit
digit-lt-two zero x = omega arith
digit-lt-two (suc i) x = digit-lt-two i (x / 2)

pub digit-bit_or : (i x y : ℕ) → digit i (bit_or x y) ≡ max (digit i x) (digit i y)
unfolding digit
digit-bit_or zero x y = omega (arith, bit_or_halves x y)
digit-bit_or (suc i) x y =
    let half : bit_or x y / 2 ≡ bit_or (x / 2) (y / 2) = omega (arith, bit_or_halves x y) in
    rw half (digit-bit_or i (x / 2) (y / 2))

pub digit-bit_and : (i x y : ℕ) → digit i (bit_and x y) ≡ min (digit i x) (digit i y)
unfolding digit
digit-bit_and zero x y = omega (arith, bit_and_halves x y)
digit-bit_and (suc i) x y =
    let half : bit_and x y / 2 ≡ bit_and (x / 2) (y / 2) = omega (arith, bit_and_halves x y) in
    rw half (digit-bit_and i (x / 2) (y / 2))

differ_bits : (x y : ℕ) → x < 2 → y < 2 → differ x y ≡ (x + y) % 2
differ_bits zero y p q = omega arith
differ_bits (suc zero) zero p q = refl
differ_bits (suc zero) (suc zero) p q = refl
differ_bits (suc zero) (suc (suc y)) p q = absurd (omega arith)
differ_bits (suc (suc x)) y p q = absurd (omega arith)

bit_xor_halves : (x y : ℕ) → bit_xor x y ≡ bit_xor (x / 2) (y / 2) * 2 + (x % 2 + y % 2) % 2
bit_xor_halves x y =
    let law =
      bitwise_halves (λ c. c) differ x y
        (omega (arith, differ_bits 0 (y % 2) (omega arith) (omega arith))) in
    omega (
      arith,
      law,
      differ_bits (x % 2) (y % 2) (omega arith) (omega arith),
      bit_xor-bitwise x y,
      bit_xor-bitwise (x / 2) (y / 2),
    )

pub digit-bit_xor : (i x y : ℕ) → digit i (bit_xor x y) ≡ (digit i x + digit i y) % 2
unfolding digit
digit-bit_xor zero x y = omega (arith, bit_xor_halves x y)
digit-bit_xor (suc i) x y =
    let half : bit_xor x y / 2 ≡ bit_xor (x / 2) (y / 2) = omega (arith, bit_xor_halves x y) in
    rw half (digit-bit_xor i (x / 2) (y / 2))

pub digit_of_zero : (i : ℕ) → digit i 0 ≡ 0
unfolding digit
digit_of_zero zero = refl
digit_of_zero (suc i) = digit_of_zero i

pub digit-two-pow : (i k : ℕ) → digit i (2 ^ k) ≡ (if i == k then 1 else 0)
unfolding digit
digit-two-pow zero zero = refl
digit-two-pow zero (suc k) = ground (arith, pow-suc 2 k)
digit-two-pow (suc i) zero = ground (arith, digit_of_zero i)
digit-two-pow (suc i) (suc k) =
    let half : 2 ^ suc k / 2 ≡ 2 ^ k = omega (arith, pow-suc 2 k) in
    rw half (ground (arith, digit-two-pow i k))

-- A bit that is set makes the number other than 0.
pub bit_or_flag : (k t : ℕ) → bit_or (2 ^ k) t ≢ 0
bit_or_flag k t e =
    let one : digit k (2 ^ k) ≡ 1 = ground (arith, digit-two-pow k k) in
    absurd (omega (arith, digit-bit_or k (2 ^ k) t, ap (digit k) e, digit_of_zero k, one))

pub eight_times : (b q : ℕ) → b % 8 ≡ 0 → b * q ≡ 8 * (b / 8 * q)
eight_times b q e =
    let f : b ≡ 8 * (b / 8) = omega arith in ap (λ t. t * q) f ∙ mul_assoc 8 (b / 8) q

-- The result of `&` is at most its second operand.
bit_and-le_below : (n x y : ℕ) → y ≤ n → bit_and x y ≤ y
bit_and-le_below zero x y h = let e : y ≡ 0 = omega arith in rw e (omega (arith, bit_and-zero x))
bit_and-le_below (suc n) x y h =
    omega (arith, bit_and_halves x y, bit_and-le_below n (x / 2) (y / 2) (omega arith))

pub bit_and-le : (x y : ℕ) → bit_and x y ≤ y
bit_and-le x y = bit_and-le_below y x y (omega arith)

-- A number below 2 ^ n has no digit from n on, and the other way round.
pub digit-eq-zero : (n i x : ℕ) → x < 2 ^ n → n ≤ i → digit i x ≡ 0
unfolding digit
digit-eq-zero zero i x lt le = let e : x ≡ 0 = omega arith in rw e (digit_of_zero i)
digit-eq-zero (suc n) zero x lt le = absurd (omega arith)
digit-eq-zero (suc n) (suc i) x lt le =
    digit-eq-zero n i (x / 2) (omega (arith, pow-suc 2 n)) (omega arith)

pub lt-two-pow_of_digits : (fuel n x : ℕ) → x ≤ fuel → ((i : ℕ) → n ≤ i → digit i x ≢ 1) → x < 2 ^ n
unfolding digit
lt-two-pow_of_digits fuel n zero le h = one-le-pow n 2 (omega arith)
lt-two-pow_of_digits zero n (suc x) le h = absurd (omega arith)
lt-two-pow_of_digits (suc fuel) zero (suc x) le h =
    let small =
      lt-two-pow_of_digits fuel 0 (suc x / 2) (omega arith) (λ i p. h (suc i) (omega arith)) in
    absurd (h 0 (omega arith) (omega arith))
lt-two-pow_of_digits (suc fuel) (suc n) (suc x) le h =
    let small =
      lt-two-pow_of_digits fuel n (suc x / 2) (omega arith) (λ i p. h (suc i) (omega arith)) in
    omega (arith, small, pow-suc 2 n)

-- A shift to the right drops the low digits.
pub digit-div-two-pow : (w i x : ℕ) → digit i (x / 2 ^ w) ≡ digit (w + i) x
unfolding digit
digit-div-two-pow zero i x =
    let e : x / 1 ≡ x = omega arith in let f : 0 + i ≡ i = omega arith in rw (e, f)
digit-div-two-pow (suc w) i x =
    let e : x / 2 ^ suc w ≡ x / 2 / 2 ^ w =
      ap (λ (t : ℕ). x / t) (omega (arith, pow-suc 2 w)) ∙ sym (div-div-eq-div-mul x 2 (2 ^ w)) in
    let f : suc w + i ≡ suc (w + i) = omega arith in rw (e, f) (digit-div-two-pow w i (x / 2))

-- A multiple of 2 ^ w has no digit below w.
digit_of_multiple : (w i q : ℕ) → i < w → digit i (q * 2 ^ w) ≡ 0
unfolding digit
digit_of_multiple zero i q lt = absurd (omega arith)
digit_of_multiple (suc w) zero q lt = omega (arith, ap (λ (t : ℕ). q * t) (pow-suc 2 w))
digit_of_multiple (suc w) (suc i) q lt =
    let e : q * 2 ^ suc w / 2 ≡ q * 2 ^ w = omega (arith, ap (λ (t : ℕ). q * t) (pow-suc 2 w)) in
    rw e (digit_of_multiple w i q (omega arith))

pub digit-eq-zero_of_mod : (w i x : ℕ) → x % 2 ^ w ≡ 0 → i < w → digit i x ≡ 0
digit-eq-zero_of_mod w i x e lt =
    let m : x ≡ x / 2 ^ w * 2 ^ w = omega (arith, div-add-mod x (2 ^ w)) in
    ap (digit i) m ∙ digit_of_multiple w i (x / 2 ^ w) lt
