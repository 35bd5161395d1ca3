-- ===== src/VarIo/Tests.antt =====
-- Concrete runs of the variable-length integers, and the theorems at concrete inputs.
use cl.Common.{◌≡◌, refl, arith, none, some, [], ◌∷◌, ok, lost, fault}
use cl.VarIo.{
  VarintUnpacker, read_groups, read_var_integer, pack_loop, pack_varint, unpack_groups,
  varint_unpack,
}
use cl.VarIo.RoundTrip.{read_var_integer-pack_varint}

pack_300 : pack_varint 300 ≡ ok (0xac ∷ 0x02 ∷ [])
unfolding pack_varint pack_loop
pack_300 = refl

pack_zero : pack_varint 0 ≡ ok (0 ∷ [])
unfolding pack_varint pack_loop
pack_zero = refl

pack_two : pack_varint 2 ≡ ok (2 ∷ [])
unfolding pack_varint pack_loop
pack_two = refl

pack_five : pack_varint 5 ≡ ok (5 ∷ [])
unfolding pack_varint pack_loop
pack_five = refl

read_past_end : read_var_integer (0x80 ∷ []) none ≡ fault
unfolding read_var_integer read_groups
read_past_end = refl

abbrev cut : VarintUnpacker
cut = record { stream = 0x80 ∷ []; index = 0; limit = 1; word = 0 }

unpack_cut : varint_unpack cut ≡ lost
unfolding varint_unpack unpack_groups
unpack_cut = refl

read_var_integer-pack_varint_example :
    read_var_integer (7 ∷ 0xac ∷ 0x02 ∷ 9 ∷ []) (some 1) ≡ ok (300, some 3)
read_var_integer-pack_varint_example =
    read_var_integer-pack_varint 300 (7 ∷ []) (0xac ∷ 0x02 ∷ []) (9 ∷ []) (omega arith) pack_300

abbrev sample : VarintUnpacker
sample = record { stream = 0xac ∷ 0x02 ∷ 5 ∷ 0 ∷ 9 ∷ []; index = 0; limit = 5; word = 0 }
