-- ===== src/Parse/Number.antt =====
-- What `string_to_long` reads.
use native.Mathlib.Nat.{
  mod-lt, pow-zero, pow-succ', mod-add-div, add-mul, mul_assoc, add-mul-mod_self_left,
}
use cl.Common.{
  ℕ, suc, ◌+◌, ◌-◌, ◌*◌, ◌/◌, ◌%◌, ◌^◌, ◌≤◌, ◌<◌, ◌≡◌, ◌≢◌, refl, ap, sym, ◌∙◌, arith, Bool, true,
  false, some, List, [], ◌∷◌, ltb, leb, ◌==◌, if◌then◌else◌, length,
}
use cl.Parse.{digit_of, read_digits, read_base, string_to_long}

-- The notations of a number. The flag is for a capital letter in the prefix.
pub data Notation : Type 0 where
  decimal : Notation
  hexadecimal : Bool → Notation
  octal : Notation
  lisp_hexadecimal : Bool → Notation
  lisp_octal : Bool → Notation

abbrev pub base_of : Notation → ℕ
base_of decimal = 10
base_of (hexadecimal capital) = 16
base_of octal = 8
base_of (lisp_hexadecimal capital) = 16
base_of (lisp_octal capital) = 8

-- A digit, and whether it is written as a capital if it is a letter.
abbrev pub Digit : Type 0
Digit = ℕ × Bool

abbrev pub letter : ℕ → Bool → ℕ
letter c capital = if capital then c - 0x20 else c

abbrev pub char_of : Digit → ℕ
char_of (d, capital) = if ltb d 10 then 0x30 + d else letter (0x61 + (d - 10)) capital

abbrev pub chars_of : List Digit → List ℕ
chars_of [] = []
chars_of (d ∷ ds) = char_of d ∷ chars_of ds

-- The number as it is written in C or in Lisp.
abbrev pub written : Notation → List Digit → List ℕ
written decimal ds = chars_of ds
written (hexadecimal capital) ds = 0x30 ∷ letter 0x78 capital ∷ chars_of ds
written octal ds = 0x30 ∷ chars_of ds
written (lisp_hexadecimal capital) ds = 0x23 ∷ letter 0x78 capital ∷ chars_of ds
written (lisp_octal capital) ds = 0x23 ∷ letter 0x6f capital ∷ chars_of ds

-- The value of digits by position, the first one the highest.
abbrev pub value : ℕ → List Digit → ℕ
value base [] = 0
value base (d ∷ ds) = d.0 * base ^ length ds + value base ds

abbrev pub AllBelow : ℕ → List Digit → Type 0
AllBelow base [] = Unit
AllBelow base (d ∷ ds) = (d.0 < base) × AllBelow base ds

-- A decimal number does not start with 0.
abbrev pub Leading : Notation → List Digit → Type 0
Leading decimal [] = Unit
Leading decimal (d ∷ ds) = d.0 ≢ 0
Leading (hexadecimal capital) ds = Unit
Leading octal ds = Unit
Leading (lisp_hexadecimal capital) ds = Unit
Leading (lisp_octal capital) ds = Unit

nothing : (x v : ℕ) → 0 * x + v ≡ v
nothing x v = omega arith

base_of-le : (notation : Notation) → base_of notation ≤ 16
base_of-le decimal = omega arith
base_of-le (hexadecimal capital) = omega arith
base_of-le octal = omega arith
base_of-le (lisp_hexadecimal capital) = omega arith
base_of-le (lisp_octal capital) = omega arith

digit_of-char_of : (d : ℕ) (capital : Bool) → d < 16 → digit_of (char_of (d, capital)) ≡ some d
unfolding digit_of
digit_of-char_of d true lt = ground arith
digit_of-char_of d false lt = ground arith

-- A factor may be reduced before it is multiplied.
reduced : (x p v m : ℕ) → (x % m * p + v) % m ≡ (x * p + v) % m
reduced x p v m = sym (
    ap (λ t. (t * p + v) % m) (sym (mod-add-div x m))
    ∙ ap (λ t. t % m) (spread (x % m) (x / m))
    ∙ add-mul-mod_self_left (x % m * p + v) m (x / m * p))
  where
    spread : (r q : ℕ) → (r + m * q) * p + v ≡ r * p + v + m * (q * p)
    spread r q = rw (add-mul, mul_assoc m q p) (omega arith)

raised :
    (base num d n v : ℕ) → (num * base + d) * base ^ n + v ≡ num * base ^ suc n + (d * base ^ n + v)
raised base num d n v = rw (add-mul, pow-succ', mul_assoc num base (base ^ n)) (omega arith)

below : (base d : ℕ) → d < base → leb base d ≡ false
below base d lt = ground arith

read_digits-chars_of :
    (base num : ℕ) (ds : List Digit)
    → base ≤ 16
    → num < 2 ^ 64
    → AllBelow base ds
    → read_digits base num (chars_of ds) ≡ some ((num * base ^ length ds + value base ds) % 2 ^ 64)
unfolding read_digits
read_digits-chars_of base num [] le small all = ground (arith, pow-zero base)
read_digits-chars_of base num ((d, capital) ∷ ds) le small (lt, all) =
    rw (read_digits, digit_of-char_of d capital (omega arith), below base d lt)
      (read_digits-chars_of base ((num * base + d) % 2 ^ 64) ds le (mod-lt _ (omega arith)) all
        ∙ ap some (
            reduced (num * base + d) (base ^ length ds) (value base ds) (2 ^ 64)
            ∙ ap (λ t. t % 2 ^ 64) (raised base num d (length ds) (value base ds))))

-- The first character of a decimal number is no prefix.
char_of-zero : (d : ℕ) (capital : Bool) → d < 10 → d ≢ 0 → (char_of (d, capital) == 0x30) ≡ false
char_of-zero d capital lt nonzero = ground (arith, nonzero)

char_of-hash : (d : ℕ) (capital : Bool) → d < 10 → (char_of (d, capital) == 0x23) ≡ false
char_of-hash d capital lt = ground arith

char_of-letter : (d x : ℕ) (capital : Bool) → d < 8 → 0x40 ≤ x → (char_of (d, capital) == x) ≡ false
char_of-letter d x capital lt le = ground arith

read_base-written :
    (notation : Notation) (ds : List Digit)
    → AllBelow (base_of notation) ds
    → Leading notation ds
    → read_base (written notation ds) ≡ some (base_of notation, chars_of ds)
unfolding read_base
read_base-written decimal [] all leading = refl
read_base-written decimal ((d, b) ∷ []) (lt, all) leading =
    rw (char_of-zero d b lt leading, char_of-hash d b lt) refl
read_base-written decimal ((d, b) ∷ e ∷ ds) (lt, all) leading =
    rw (char_of-zero d b lt leading, char_of-hash d b lt) refl
read_base-written (hexadecimal true) ds all leading = refl
read_base-written (hexadecimal false) ds all leading = refl
read_base-written octal [] all leading = refl
read_base-written octal ((d, b) ∷ ds) (lt, all) leading =
    rw (char_of-letter d 0x78 b lt (omega arith), char_of-letter d 0x58 b lt (omega arith)) refl
read_base-written (lisp_hexadecimal true) ds all leading = refl
read_base-written (lisp_hexadecimal false) ds all leading = refl
read_base-written (lisp_octal true) ds all leading = refl
read_base-written (lisp_octal false) ds all leading = refl

-- `string_to_long` reads a number in any of its notations, modulo 2 ^ 64: decimal digits of which
-- the first is not 0, hexadecimal digits behind 0x, 0X, #x or #X, octal digits behind 0, #o or #O.
-- Each of the digits from ten on may be a small letter or a capital.
pub string_to_long-written :
    (notation : Notation) (ds : List Digit)
    → AllBelow (base_of notation) ds
    → Leading notation ds
    → string_to_long (written notation ds) ≡ some (value (base_of notation) ds % 2 ^ 64)
unfolding string_to_long
string_to_long-written notation ds all leading =
    rw (string_to_long, read_base-written notation ds all leading)
      (read_digits-chars_of (base_of notation) 0 ds (base_of-le notation) (omega arith) all
        ∙ ap (λ t. some (t % 2 ^ 64)) (nothing (base_of notation ^ length ds) _))
