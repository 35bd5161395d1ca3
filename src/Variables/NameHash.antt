-- ===== src/Variables/NameHash.antt =====
-- What `hash_name` computes.
use cl.Common.{ℕ, zero, suc, ◌%◌, ◌<◌, ◌≡◌, refl, arith, true, [], ◌∷◌, ◌++◌, ◌==◌}
use cl.Common.Bits.{every_below, every_below_sound}
use cl.Variables.{Name, hash_step, hash_bytes, hash_name}

-- Every byte is one.
abbrev pub IsBytes : Name → Type 0
IsBytes [] = Unit
IsBytes (c ∷ name) = (c < 256) × IsBytes name

step_zero : (c : ℕ) → c < 256 → (hash_step 0 c == c % 2) ≡ true
unfolding every_below hash_step
step_zero c lt = every_below_sound 256 (λ x. hash_step 0 x == x % 2) c refl lt

step_one : (c : ℕ) → c < 256 → (hash_step 1 c == c % 2) ≡ true
unfolding every_below hash_step
step_one c lt = every_below_sound 256 (λ x. hash_step 1 x == x % 2) c refl lt

step_parity : (value c : ℕ) → value < 2 → c < 256 → hash_step value c ≡ c % 2
step_parity zero c v lt = ground (arith, step_zero c lt)
step_parity (suc zero) c v lt = ground (arith, step_one c lt)
step_parity (suc (suc n)) c v lt = absurd (omega arith)

bytes_parity :
    (value : ℕ) (name : Name) (last : ℕ)
    → value < 2
    → IsBytes name
    → last < 256
    → hash_bytes value (name ++ last ∷ []) ≡ last % 2
unfolding hash_bytes
bytes_parity value [] last v _ lt = step_parity value last v lt
bytes_parity value (c ∷ name) last v (b, bytes) lt =
    bytes_parity (hash_step value c) name last (omega (arith, step_parity value c v b)) bytes lt

-- hash_name of a name of bytes that is not empty is the lowest bit of its last byte.
pub hash_name_parity :
    (name : Name) (last : ℕ) → IsBytes name → last < 256 → hash_name (name ++ last ∷ []) ≡ last % 2
unfolding hash_name
hash_name_parity name last bytes lt = omega (arith, bytes_parity 0 name last (omega arith) bytes lt)
