-- ===== src/VarIo/Stream.antt =====
-- Streams of packed integers: `varint_unpack`, `skip_data_stream` and `skip_var_string`.
use cl.Common.{
  ℕ, zero, suc, ◌+◌, ◌^◌, ◌≤◌, ◌<◌, ◌≡◌, ap, ◌∙◌, arith, some, List, [], ◌∷◌, ◌++◌, append_assoc,
  length, length-append, drop, All, ok,
}
use cl.VarIo.{
  VarintUnpacker, add_group, unpack_groups, varint_unpack, skip_rounds, skip_data_stream,
  pack_varint, read_groups, skip_integers, skip_var_string,
}
use cl.VarIo.RoundTrip.{IsU32, read_var_integer-pack_varint, read_groups-pack_varint, drop-append}

read_groups_takes :
    (stream : List ℕ) (acc shift n v e : ℕ) → read_groups stream acc shift n ≡ ok (v, e) → n < e
unfolding read_groups
read_groups_takes [] acc shift n v e h = cc
read_groups_takes (b ∷ rest) acc shift n v e h =
    ground (arith, read_groups_takes rest (add_group acc b shift) (shift + 7) (n + 1) v e)

-- A number that ends before the limit is read as `read_var_integer` reads it: the assertion holds.
unpack_groups-read_groups :
    (stream : List ℕ) (base index limit acc shift n v e : ℕ)
    → index ≡ base + n
    → read_groups stream acc shift n ≡ ok (v, e)
    → base + e ≤ limit
    → unpack_groups stream index limit acc shift ≡ ok (v, base + e)
unfolding unpack_groups read_groups
unpack_groups-read_groups [] base index limit acc shift n v e hi r h = cc
unpack_groups-read_groups (b ∷ rest) base index limit acc shift n v e hi r h = ground (
  arith,
  read_groups_takes rest (add_group acc b shift) (shift + 7) (n + 1) v e,
  unpack_groups-read_groups rest base (index + 1) limit (add_group acc b shift) (shift + 7) (n + 1)
      v e,
)

-- The unpacker stands behind `front`, before `bytes`.
pub record At (u : VarintUnpacker) (front rest : List ℕ) : Type 0 where
  pub stream : u.stream ≡ front ++ rest
  pub index : u.index ≡ length front
  pub limit : u.limit ≡ length front + length rest

-- `varint_unpack` before a packed integer returns it and stands behind its bytes.
pub varint_unpack-pack_varint :
    (u : VarintUnpacker) (v : ℕ) (front bytes back : List ℕ)
    → IsU32 v
    → pack_varint v ≡ ok bytes
    → At u front (bytes ++ back)
    → varint_unpack u ≡ ok (record u { index = u.index + length bytes }, some v)
unfolding varint_unpack
varint_unpack-pack_varint u v front bytes back h e place =
    ground (arith, there, found, more, length-append bytes back)
  where
    there : drop u.index u.stream ≡ bytes ++ back
    there = rw (place.stream, place.index) (drop-append front (bytes ++ back))

    number : read_groups (bytes ++ back) 0 0 0 ≡ ok (v, length bytes)
    number = read_groups-pack_varint v bytes back h e

    more : 0 < length bytes
    more = read_groups_takes (bytes ++ back) 0 0 0 v (length bytes) number

    found : unpack_groups (bytes ++ back) u.index u.limit 0 0 ≡ ok (v, u.index + length bytes)
    found =
        unpack_groups-read_groups (bytes ++ back) u.index u.index u.limit 0 0 0 v (length bytes)
          (omega arith) number (ground (arith, length-append bytes back))

next_At :
    (u : VarintUnpacker) (front bytes back : List ℕ)
    → At u front (bytes ++ back)
    → At (record u { index = u.index + length bytes }) (front ++ bytes) back
next_At u front bytes back place = record {
  stream = rw append_assoc place.stream;
  index = omega (arith, length-append front bytes);
  limit = omega (arith, length-append front bytes, length-append bytes back);
}

-- The bytes of some integers, one after the other.
pub data Packed : List ℕ → List ℕ → Type 0 where
  none_left : Packed [] []
  one_more :
      {v : ℕ} {vs bytes more : List ℕ}
      → IsU32 v
      → pack_varint v ≡ ok bytes
      → Packed vs more
      → Packed (v ∷ vs) (bytes ++ more)

stop_round :
    (fuel : ℕ) (u u' : VarintUnpacker)
    → varint_unpack u ≡ ok (u', some 0)
    → skip_rounds (suc fuel) u ≡ ok u'
unfolding skip_rounds
stop_round fuel u u' e = rw e

go_round :
    (fuel : ℕ) (u u' : VarintUnpacker) (v : ℕ)
    → varint_unpack u ≡ ok (u', some v)
    → 0 < v
    → skip_rounds (suc fuel) u ≡ skip_rounds fuel u'
unfolding skip_rounds
go_round fuel u u' v e h = rw e (ground arith)

packed_pos : (v : ℕ) (bytes : List ℕ) → IsU32 v → pack_varint v ≡ ok bytes → 0 < length bytes
packed_pos v bytes h e =
    read_groups_takes (bytes ++ []) 0 0 0 v (length bytes) (read_groups-pack_varint v bytes [] h e)

module _ (zeros back : List ℕ) (z : pack_varint 0 ≡ ok zeros) where
  past_limit :
      (bytes front : List ℕ) (u : VarintUnpacker)
      → At u front (bytes ++ (zeros ++ back))
      → u.limit < u.index + 0
      → ⊥
  past_limit bytes front u place hf = omega (arith, length-append front (bytes ++ (zeros ++ back)))

  skip_rounds-Packed :
      {vs bytes : List ℕ} (fuel : ℕ) (u : VarintUnpacker) (front : List ℕ)
      → Packed vs bytes
      → All (λ v. 0 < v) vs
      → At u front (bytes ++ (zeros ++ back))
      → u.limit < u.index + fuel
      → skip_rounds fuel u ≡ ok (record u { index = u.index + length bytes + length zeros })
  skip_rounds-Packed {bytes} zero u front p h place hf = absurd (past_limit bytes front u place hf)
  skip_rounds-Packed (suc fuel) u front none_left h place hf =
      stop_round fuel u _ (varint_unpack-pack_varint u 0 front zeros back (omega arith) z place)
      ∙ ap (λ i. ok (record u { index = i })) (omega arith)
  skip_rounds-Packed (suc fuel) u front (one_more {v} {bytes} {more} hv e p) (pos, h) place hf =
      go_round fuel u _ v
        (varint_unpack-pack_varint u v front bytes (more ++ (zeros ++ back)) hv e here) pos
      ∙ skip_rounds-Packed fuel (record u { index = u.index + length bytes }) (front ++ bytes) p h
          (next_At u front bytes (more ++ (zeros ++ back)) here)
          (omega (arith, packed_pos v bytes hv e))
      ∙ ap (λ i. ok (record u { index = i })) (omega (arith, length-append bytes more))
    where
      here : At u front (bytes ++ (more ++ (zeros ++ back)))
      here = rw (← append_assoc) place

  -- In a stream of packed integers, the first zero among them behind all the others,
  -- `skip_data_stream` stops right behind that zero.
  pub skip_data_stream-Packed :
      {vs bytes : List ℕ} (u : VarintUnpacker) (front : List ℕ)
      → Packed vs bytes
      → All (λ v. 0 < v) vs
      → At u front (bytes ++ (zeros ++ back))
      → skip_data_stream u ≡ ok (record u { index = u.index + length bytes + length zeros })
  unfolding skip_data_stream
  skip_data_stream-Packed u front p h place = skip_rounds-Packed _ u front p h place (omega arith)

skip_integers-Packed :
    {vs bytes : List ℕ} (front back : List ℕ)
    → Packed vs bytes
    → skip_integers (length vs) (front ++ (bytes ++ back)) (some (length front))
      ≡ ok (some (length front + length bytes))
unfolding skip_integers
skip_integers-Packed front back none_left = ap (λ i. ok (some i)) (omega arith)
skip_integers-Packed front back (one_more {v} {vs} {bytes} {more} hv e p) = ground (
  arith,
  append_assoc bytes more back,
  append_assoc front bytes (more ++ back),
  read_var_integer-pack_varint v front bytes (more ++ back) hv e,
  length-append front bytes,
  length-append bytes more,
  skip_integers-Packed (front ++ bytes) back p,
)

-- `skip_var_string` before a string, its length packed in front of its characters, moves the
-- offset right behind it.
pub skip_var_string-Packed :
    {vs bytes : List ℕ} (front prefix back : List ℕ)
    → length vs < 2 ^ 31
    → pack_varint (length vs) ≡ ok prefix
    → Packed vs bytes
    → skip_var_string (front ++ (prefix ++ (bytes ++ back))) (some (length front))
      ≡ ok (some (length front + length prefix + length bytes))
unfolding skip_var_string
skip_var_string-Packed {vs} {bytes} front prefix back h e p = ground (
  arith,
  read_var_integer-pack_varint (length vs) front prefix (bytes ++ back) (omega arith) e,
  append_assoc front prefix (bytes ++ back),
  length-append front prefix,
  skip_integers-Packed (front ++ prefix) back p,
)
