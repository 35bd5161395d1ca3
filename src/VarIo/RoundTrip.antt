-- ===== src/VarIo/RoundTrip.antt =====
-- `read_var_integer` against `pack_varint`.
use cl.Common.{
  ℕ, zero, suc, ◌+◌, ◌*◌, ◌/◌, ◌%◌, ◌^◌, ◌≤◌, ◌<◌, ◌≡◌, refl, ap, arith, bit_and, bit_or, some,
  List, [], ◌∷◌, ◌++◌, length, drop, All, ok, ltb, if◌then◌else◌,
}
use cl.Common.Bits.{low_seven, top_bit, bit_or-shift}
use cl.VarIo.{add_group, read_groups, read_var_integer, pack_loop, pack_varint}
use native.Mathlib.Nat.{div-add-mod, mod-eq_of_lt, pow-suc}
use native.Mathlib.Numerals.{towards_suc}

abbrev pub IsByte : ℕ → Type 0
IsByte b = b < 256

abbrev pub IsU32 : ℕ → Type 0
IsU32 v = v < 2 ^ 32

shift_seven : (k : ℕ) → 2 ^ (k + 7) ≡ 128 * 2 ^ k
shift_seven k = simp towards_suc (omega arith)

-- The lowest group of `v` and the rest of it, both shifted by `k`.
pub groups_split : (v k : ℕ) → v * 2 ^ k ≡ v % 128 * 2 ^ k + v / 128 * 2 ^ (k + 7)
groups_split v k = omega (
  arith,
  ap (λ (t : ℕ). t * 2 ^ k) (div-add-mod v 128),
  ap (λ (t : ℕ). v / 128 * t) (shift_seven k),
)

set_top : (v : ℕ) → bit_or (bit_and v 0x7f) 0x80 ≡ v % 128 + 128
set_top v = rw low_seven (bit_or-shift 7 (v % 128) 1 (omega arith))

clear_top : (v : ℕ) → bit_or (bit_and v 0x7f) 0 ≡ v % 128
clear_top v = rw low_seven (omega (arith, bit_or-shift 7 (v % 128) 0 (omega arith)))

-- One group goes in: the accumulator fits below it and the sum fits 32 bits.
pub add_group_lem :
    (acc b k : ℕ)
    → acc < 2 ^ k
    → acc + b % 128 * 2 ^ k < 2 ^ 32
    → add_group acc b k ≡ acc + b % 128 * 2 ^ k
add_group_lem acc b k small fits =
    let whole : b % 128 * 2 ^ k % 2 ^ 32 ≡ b % 128 * 2 ^ k = mod-eq_of_lt (omega arith) in
    rw (low_seven, whole) (bit_or-shift k acc (b % 128) small)

-- The groups of `v`, in plain arithmetic, for `v` below 128 ^ (k + 1).
unfoldable pub encoding : ℕ → ℕ → List ℕ
encoding zero v = v ∷ []
encoding (suc k) v =
    let rest = encoding k (v / 128) in if ltb v 128 then v ∷ [] else (v % 128 + 128) ∷ rest

pub pack_loop-encoding : (k v : ℕ) → v < 128 ^ suc k → pack_loop (suc k) v ≡ ok (encoding k v)
unfolding pack_loop encoding
pack_loop-encoding zero v h = ground (arith, clear_top v)
pack_loop-encoding (suc k) v h =
    ground (arith, clear_top v, set_top v, pow-suc 128 (suc k), pack_loop-encoding k (v / 128))

pub encoding_shape :
    (k v : ℕ)
    → v < 128 ^ suc k
    → All IsByte (encoding k v) × (0 < length (encoding k v)) × (length (encoding k v) ≤ suc k)
unfolding encoding
encoding_shape zero v h = omega arith
encoding_shape (suc k) v h = ground (arith, pow-suc 128 (suc k), encoding_shape k (v / 128))

-- On every `unsigned int` `pack_varint` fills one to five bytes.
pub pack_varint_shape :
    (v : ℕ)
    → IsU32 v
    → (bytes : List ℕ) × (pack_varint v ≡ ok bytes)
      × All IsByte bytes
      × (0 < length bytes)
      × (length bytes ≤ 5)
unfolding pack_varint
pack_varint_shape v h =
    let (b, lo, hi) = encoding_shape 4 v (omega arith) in
    (encoding 4 v, pack_loop-encoding 4 v (omega arith), b, lo, hi)

-- A group with its top bit clear ends the number, one with the top bit set goes on.
read_last :
    (w acc k n : ℕ) (back : List ℕ)
    → w < 128
    → k < 32
    → acc < 2 ^ k
    → acc + w * 2 ^ k < 2 ^ 32
    → read_groups (w ∷ back) acc k n ≡ ok (acc + w * 2 ^ k, n + 1)
unfolding read_groups
read_last w acc k n back hw hk small fits =
    let e : w % 128 ≡ w = omega arith in
    ground (arith, top_bit w, rw e at (add_group_lem acc w k small (rw e fits)))

read_inner :
    (g acc k n : ℕ) (back : List ℕ)
    → g < 128
    → k < 32
    → acc < 2 ^ k
    → acc + g * 2 ^ k < 2 ^ 32
    → read_groups ((g + 128) ∷ back) acc k n ≡ read_groups back (acc + g * 2 ^ k) (k + 7) (n + 1)
unfolding read_groups
read_inner g acc k n back hg hk small fits =
    let e : (g + 128) % 128 ≡ g = omega arith in
    ground (arith, top_bit (g + 128), rw e at (add_group_lem acc (g + 128) k small (rw e fits)))

next_small : (acc g k : ℕ) → acc < 2 ^ k → g < 128 → acc + g * 2 ^ k < 2 ^ (k + 7)
next_small acc g k h hg = rw shift_seven (grind arith)

pub read_groups-encoding :
    (r v acc k n : ℕ) (back : List ℕ)
    → v < 128 ^ suc r
    → k + 7 * r ≤ 28
    → acc < 2 ^ k
    → acc + v * 2 ^ k < 2 ^ 32
    → read_groups (encoding r v ++ back) acc k n ≡ ok (acc + v * 2 ^ k, n + length (encoding r v))
unfolding encoding
read_groups-encoding zero v acc k n back hv hk small fits =
    read_last v acc k n back hv (omega arith) small fits
read_groups-encoding (suc r) v acc k n back hv hk small fits = ground (
  arith,
  pow-suc 128 (suc r),
  groups_split v k,
  next_small acc (v % 128) k,
  read_last v acc k n back,
  read_inner (v % 128) acc k n (encoding r (v / 128) ++ back),
  read_groups-encoding r (v / 128) (acc + v % 128 * 2 ^ k) (k + 7) (n + 1) back,
)

pub drop-append : (front back : List ℕ) → drop (length front) (front ++ back) ≡ back
drop-append [] back = refl
drop-append (x ∷ front) back = drop-append front back

pub read_groups-pack_varint :
    (v : ℕ) (bytes back : List ℕ)
    → IsU32 v
    → pack_varint v ≡ ok bytes
    → read_groups (bytes ++ back) 0 0 0 ≡ ok (v, length bytes)
unfolding pack_varint
read_groups-pack_varint v bytes back h e =
    let same : encoding 4 v ≡ bytes = cc (pack_loop-encoding 4 v (omega arith), e) in
    let run : read_groups (encoding 4 v ++ back) 0 0 0 ≡ ok (0 + v * 1, 0 + length (encoding 4 v)) =
      read_groups-encoding 4 v 0 0 0 back (omega arith) (omega arith) (omega arith) (omega arith) in
    ground (arith, rw same at run)

-- `read_var_integer` returns the number that `pack_varint` wrote at `*offset`, and moves the
-- offset behind its bytes, whatever stands around them.
pub read_var_integer-pack_varint :
    (v : ℕ) (front bytes back : List ℕ)
    → IsU32 v
    → pack_varint v ≡ ok bytes
    → read_var_integer (front ++ (bytes ++ back)) (some (length front))
      ≡ ok (v, some (length front + length bytes))
unfolding read_var_integer
read_var_integer-pack_varint v front bytes back h e =
    rw (drop-append, read_groups-pack_varint v bytes back h e)
