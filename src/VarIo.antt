-- ===== src/VarIo.antt =====
-- src/runtime/var-io.c and var-io.h: integers of variable length, seven bits a byte, lowest group
-- first, with the top bit set on every byte but the last. A byte stream is a list of numbers; a C
-- `int` is its 32-bit pattern, and a shift by 32 or more is a fault.
pub mod RoundTrip
pub mod Stream
mod Tests
use cl.Common.{
  ℕ, zero, suc, ◌+◌, ◌-◌, ◌*◌, ◌/◌, ◌%◌, ◌^◌, ◌≡◌, bit_and, bit_or, Bool, Option, none, some, List,
  [], ◌∷◌, ◌++◌, ltb, leb, ◌==◌, if◌then◌else◌, length, drop, Outcome, ok, lost, fault, ◌>>=◌, ◌>>◌,
  gc_assert,
}

-- `result |= (octet & 0x7f) << k`
abbrev pub add_group : ℕ → ℕ → ℕ → ℕ
add_group result octet k = bit_or result (bit_and octet 0x7f * 2 ^ k % 2 ^ 32)

-- The loop of `read_var_integer`: the bytes from `ptr` on, and how many were read before.
pub read_groups : List ℕ → ℕ → ℕ → ℕ → Outcome (ℕ × ℕ)
read_groups [] result k n = fault
read_groups (octet ∷ rest) result k n =
    let result' = add_group result octet k in
    let more = read_groups rest result' (k + 7) (n + 1) in
    if leb 32 k then fault else if bit_and octet 0x80 == 0 then ok (result', n + 1) else more

-- `*offset` is `some` of a number, a null `offset` is `none`.
pub read_var_integer : List ℕ → Option ℕ → Outcome (ℕ × Option ℕ)
read_var_integer source none = do (result, n) ← read_groups source 0 0 0; ok (result, none)
read_var_integer source (some offset) = do
  (result, n) ← read_groups (drop offset source) 0 0 0
  ok (result, some (offset + n))

skip_integers : ℕ → List ℕ → Option ℕ → Outcome (Option ℕ)
skip_integers zero source offset = ok offset
skip_integers (suc n) source offset = do
  (_, offset') ← read_var_integer source offset
  skip_integers n source offset'

-- A length with bit 31 set is negative as an `int`, and nothing is skipped.
pub skip_var_string : List ℕ → Option ℕ → Outcome (Option ℕ)
skip_var_string source offset = do
  (len, offset') ← read_var_integer source offset
  skip_integers (if ltb len (2 ^ 31) then len else 0) source offset'

-- `room` is how many of the five bytes of `output` are left.
pub pack_loop : ℕ → ℕ → Outcome (List ℕ)
pack_loop zero input = fault
pack_loop (suc room) input =
    let next = input / 128 in
    let byte = bit_or (bit_and input 0x7f) (if next == 0 then 0 else 0x80) in
    let more = pack_loop room next in
    if next == 0 then ok (byte ∷ []) else (more >>= λ bytes. ok (byte ∷ bytes))

pub pack_varint : ℕ → Outcome (List ℕ)
pack_varint input = pack_loop 5 input

-- `struct varint_unpacker`; `word` backs `data` where the input was a fixnum.
pub record VarintUnpacker : Type 0 where
  pub stream : List ℕ
  pub index : ℕ
  pub limit : ℕ
  pub word : ℕ

-- The loop of `varint_unpack`, over the bytes from `index` on.
pub unpack_groups : List ℕ → ℕ → ℕ → ℕ → ℕ → Outcome (ℕ × ℕ)
unpack_groups [] index limit accumulator shift = fault
unpack_groups (byte ∷ rest) index limit accumulator shift =
    let accumulator' = add_group accumulator byte shift in
    let more = unpack_groups rest (index + 1) limit accumulator' (shift + 7) in
    if leb 32 shift
    then fault
    else if bit_and byte 0x80 == 0
    then ok (accumulator', index + 1)
    else if ltb (index + 1) limit
    then more
    else lost

-- `none` is the return value 0, at the end of the stream.
pub varint_unpack : VarintUnpacker → Outcome (VarintUnpacker × Option ℕ)
varint_unpack u = if leb u.limit u.index then ok (u, none) else (do
  (value, index') ← unpack_groups (drop u.index u.stream) u.index u.limit 0 0
  ok (record u { index = index' }, some value))

-- One round of the loop of `skip_data_stream`: the state after the call, and whether to go on.
abbrev pub goes_on : Option ℕ → Bool
goes_on none = Bool.false
goes_on (some value) = if value == 0 then Bool.false else Bool.true

pub skip_rounds : ℕ → VarintUnpacker → Outcome VarintUnpacker
skip_rounds zero u = fault
skip_rounds (suc fuel) u = varint_unpack u >>= λ r. elim (goes_on r.1) [
  | Bool.true ↦ skip_rounds fuel r.0
  | Bool.false ↦ ok r.0
]

-- Each round but the last moves `index`, so that many rounds are enough.
pub skip_data_stream : VarintUnpacker → Outcome VarintUnpacker
skip_data_stream u = skip_rounds (suc (u.limit - u.index)) u
